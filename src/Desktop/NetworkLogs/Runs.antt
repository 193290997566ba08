-- ===== src/Desktop/NetworkLogs/Runs.antt =====
-- crates/desktop/src/ui/network_logs.rs: the runs of `highlight_range` partition the visible text.
use lab_stream_gate.Common.{
  ℕ, ◌+◌, ◌-◌, ◌≤◌, ◌<◌, ◌≡◌, refl, subst, inl, inr, true, Option, none, some, List, [], ◌∷◌, ◌++◌,
  append-nil, ltb, length, take, drop, ok, >>=-eq-ok, arith, Bool-cases, Option-cases,
  length-append,
}
use lab_stream_gate.Common.Text.{Text}
use lab_stream_gate.Desktop.NetworkLogs.{level_color, LineSpans, spans_for_line}
use lab_stream_gate.Desktop.NetworkLogs.Highlight.{
  dim, Segment, split_lines, line_segments, segments_of_found, segments_of_line, segments_of,
  fill_gaps, highlight_range,
}
use lab_stream_gate.Desktop.NetworkLogs.Within.{IsModuleIn, IsWithin, spans_for_line-eq_some}

-- The runs follow on each other from `a` to `b`, and none is empty.
abbrev pub IsPartition : ℕ → ℕ → List Segment → Type 0
IsPartition a b [] = a ≡ b
IsPartition a b (s ∷ runs) = (s.start ≡ a) × (s.start < s.end) × IsPartition s.end b runs

-- The segments stand one after the other between `a` and `b`, and none is empty.
abbrev pub Ordered : ℕ → ℕ → List Segment → Type 0
Ordered a b [] = a ≤ b
Ordered a b (s ∷ segments) = (a ≤ s.start) × (s.start < s.end) × Ordered s.end b segments

Ordered-le : (a b : ℕ) (segments : List Segment) → Ordered a b segments → a ≤ b
Ordered-le a b [] h = h
Ordered-le a b (s ∷ segments) h = omega (arith, h, Ordered-le s.end b segments h.2)

Ordered-append :
    (a b c d : ℕ) (xs ys : List Segment)
    → Ordered a b xs
    → b ≤ c
    → Ordered c d ys
    → Ordered a d (xs ++ ys)
Ordered-append a b c d [] [] h l k = omega arith
Ordered-append a b c d [] (y ∷ ys) h l k = (omega (arith, k.0), k.1, k.2)
Ordered-append a b c d (x ∷ xs) ys h l k = (h.0, h.1, Ordered-append x.end b c d xs ys h.2 l k)

fill_gaps-IsPartition :
    (n cursor : ℕ) (segments : List Segment)
    → Ordered cursor n segments
    → IsPartition cursor n (fill_gaps n cursor segments)
unfolding fill_gaps
fill_gaps-IsPartition n cursor [] h = ground arith
fill_gaps-IsPartition n cursor (s ∷ segments) h =
    let ih = fill_gaps-IsPartition n s.end segments h.2 in
    let l = Ordered-le s.end n segments h.2 in
    let e : ltb cursor s.end ≡ true = ground (arith, h.0, h.1) in
    elim (Bool-cases (ltb cursor s.start)) [
      | inl y ↦
          let f : ltb cursor n ≡ true = ground (arith, h.1) in
          rw (e, y, f) (refl, ground arith, (refl, h.1, ih))
      | inr y ↦ rw (e, y) (ground (arith, h.0), h.1, ih)
    ]

-- The bytes of the lines, with a newline each.
size : List Text → ℕ
size [] = 0
size (line ∷ lines) = length line + 1 + size lines

split_lines-size : (line s : Text) → size (split_lines line s) ≡ length line + length s + 1
unfolding split_lines size
split_lines-size line [] = omega arith
split_lines-size line (c ∷ s) =
    ground (
      arith,
      split_lines-size [] s,
      split_lines-size (line ++ c ∷ []) s,
      length-append line (c ∷ []),
    )

-- The segments of the module and of the level.
Ordered-tail :
    (line : Text) (start color : ℕ) (spans : LineSpans) (r : Option (ℕ × ℕ))
    → IsModuleIn spans.level.1 (length line) r
    → Ordered (start + spans.level.1) (start + length line) (elim r [
      | none ↦ []
      | some r ↦ record { start = start + r.0; end = start + r.1; style = dim } ∷ []
    ])
Ordered-tail line start color spans none h = omega arith
Ordered-tail line start color spans (some (a, b)) h = (omega arith, omega arith, omega arith)

-- The segments of a line are within it.
Ordered-line_segments :
    (line : Text) (start color : ℕ) (spans : LineSpans)
    → IsWithin (length line) spans
    → Ordered start (start + length line) (line_segments start spans color)
unfolding line_segments
Ordered-line_segments line start color spans h =
    let tail = Ordered-tail line start color spans spans.mod_range h.3 in
    elim (Bool-cases (ltb spans.timestamp.0 spans.timestamp.1)) [
      | inl y ↦
          rw (y, line_segments)
            (omega arith, ground arith, (omega (arith, h.0, h.1), omega (arith, h.2), tail))
      | inr n ↦ rw (n, line_segments) (omega arith, omega (arith, h.2), tail)
    ]

Ordered-segments_of_found :
    (line : Text) (start : ℕ) (found : Option LineSpans)
    → spans_for_line line ≡ ok found
    → Ordered start (start + length line) (segments_of_found start line found)
unfolding segments_of_found
Ordered-segments_of_found line start none e = omega arith
Ordered-segments_of_found line start (some spans) e =
    elim (Option-cases
      (level_color (take (spans.level.1 - spans.level.0) (drop spans.level.0 line)))) [
        | inl z ↦ rw (z, segments_of_found) (omega arith)
        | inr (color, z) ↦
            rw (z, segments_of_found)
              (Ordered-line_segments line start color spans (spans_for_line-eq_some line spans e))
      ]

Ordered-segments_of_line :
    (line : Text) (start : ℕ) (segments : List Segment)
    → segments_of_line start line ≡ ok segments
    → Ordered start (start + length line) segments
unfolding segments_of_line
Ordered-segments_of_line line start segments h =
    let (found, e, f) = >>=-eq-ok (spans_for_line line) _ h in
    let g : segments_of_found start line found ≡ segments = cc f in
    subst (λ s. Ordered start (start + length line) s) g
      (Ordered-segments_of_found line start found e)

Ordered-segments_of :
    (line : Text) (lines : List Text) (start : ℕ) (segments : List Segment)
    → segments_of start (line ∷ lines) ≡ ok segments
    → Ordered start (start + length line + size lines) segments
unfolding segments_of size
Ordered-segments_of line [] start segments h =
    let (first, e, f) = >>=-eq-ok (segments_of_line start line) _ h in
    let t : segments ≡ first = cc (append-nil first, f) in
    let d : start + length line + 0 ≡ start + length line = omega arith in
    rw (t, d) (Ordered-segments_of_line line start first e)
Ordered-segments_of line (l ∷ ls) start segments h =
    let (first, e, f) = >>=-eq-ok (segments_of_line start line) _ h in
    let (rest, g, k) = >>=-eq-ok (segments_of (start + (length line + 1)) (l ∷ ls)) _ f in
    let t : segments ≡ first ++ rest = cc k in
    let d : start + length line + (length l + 1 + size ls)
        ≡ start + (length line + 1) + length l + size ls =
      omega arith in
    rw (t, d)
      (Ordered-append start (start + length line) (start + (length line + 1)) _ first rest
        (Ordered-segments_of_line line start first e) (omega arith)
        (Ordered-segments_of l ls (start + (length line + 1)) rest g))

Ordered-segments_of_text :
    (text : Text) (segments : List Segment)
    → segments_of 0 (split_lines [] text) ≡ ok segments
    → Ordered 0 (length text) segments
Ordered-segments_of_text text segments h = go (split_lines [] text) (split_lines-size [] text) h
  where
    go :
        (lines : List Text)
        → size lines ≡ 0 + length text + 1
        → segments_of 0 lines ≡ ok segments
        → Ordered 0 (length text) segments
    go [] e h = absurd (unfold size in omega (arith, e))
    go (l ∷ ls) e h =
        let f : 0 + length l + size ls ≡ length text = unfold size in omega (arith, e) in
        rw f at (Ordered-segments_of l ls 0 segments h)

-- When the document gives as many bytes as were asked for and no line makes the slicing panic, the
-- runs that are answered follow on each other from the first byte that is asked for to the last,
-- without a gap, an overlap or an empty run.
pub highlight_range-IsPartition :
    (text_for_range : ℕ → ℕ → Option Text) (first last : ℕ) (text : Text) (runs : List Segment)
    → text_for_range first last ≡ some text
    → length text ≡ last - first
    → highlight_range text_for_range first last ≡ ok runs
    → IsPartition 0 (last - first) runs
unfolding highlight_range
highlight_range-IsPartition text_for_range first last text runs h l r =
    let (segments, e, f) = >>=-eq-ok _ _ (rw (h, highlight_range) at r) in
    let t : fill_gaps (last - first) 0 segments ≡ runs = cc f in
    let o : Ordered 0 (last - first) segments =
      rw l at (Ordered-segments_of_text text segments e) in
    subst (λ s. IsPartition 0 (last - first) s) t
      (fill_gaps-IsPartition (last - first) 0 segments o)
