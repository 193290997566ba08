-- ===== src/Desktop/NetworkLogs/Within.antt =====
-- crates/desktop/src/ui/network_logs.rs: the spans of a line are within it, in their order.
use lab_stream_gate.Common.{
  ℕ, zero, suc, ◌+◌, ◌-◌, ◌≤◌, ◌<◌, ◌≡◌, ◌≢◌, refl, subst, ◌⊎◌, inl, inr, true, Option, none, some,
  List, [], ◌∷◌, reverse, ltb, length, take, drop, ok, >>=-eq-ok, arith, Bool-cases, Option-cases,
  All, length-append, length-take, length-drop,
}
use lab_stream_gate.Common.Text.{Text, codes}
use lab_stream_gate.Common.Parse.{starts_with}
use lab_stream_gate.Desktop.NetworkLogs.{
  find_text, get, level_colors, find_level, slice_at, space_end, trim_back, trim_end, LineSpans,
  slice_from, module_range, spans_for_line,
}
use mathlib.Core.List.{reverse-cons}
use lab_stream_gate.Desktop.NetworkLogs.Words.{
  at_word, starts_with-le, length-ne_nil, find_text-eq_some,
}
use lab_stream_gate.Desktop.NetworkLogs.Levels.{level_at, first_level, find_level-first_level}

length-reverse : (s : Text) → length (reverse s) ≡ length s
length-reverse [] = refl
length-reverse (c ∷ s) =
    rw (reverse-cons c s) (omega (arith, length-append (reverse s) (c ∷ []), length-reverse s))

length-trim_back-le : (skip : ℕ) (s : Text) → length (trim_back skip s) ≤ length s
unfolding trim_back
length-trim_back-le skip [] = omega arith
length-trim_back-le (suc skip) (c ∷ s) = omega (arith, length-trim_back-le skip s)
length-trim_back-le zero (c ∷ s) = elim (zero_or_suc (space_end (c ∷ s))) [
  | inl z ↦ rw (z, trim_back) (omega arith)
  | inr (n, z) ↦ rw (z, trim_back) (omega (arith, length-trim_back-le n s))
]
  where
    zero_or_suc : (n : ℕ) → (n ≡ 0) ⊎ ((m : ℕ) × (n ≡ suc m))
    zero_or_suc zero = inl refl
    zero_or_suc (suc n) = inr (n, refl)

length-trim_end-le : (s : Text) → length (trim_end s) ≤ length s
unfolding trim_end
length-trim_end-le s = omega (
  arith,
  length-reverse (trim_back 0 (reverse s)),
  length-trim_back-le 0 (reverse s),
  length-reverse s,
)

-- Where a level is found, it stands.
level_at-eq_some :
    (line w : Text) (i : ℕ) (levels : List (Text × ℕ))
    → All (λ row. row.0 ≢ []) levels
    → level_at line i levels ≡ some w
    → (at_word line w i ≡ true) × (w ≢ [])
unfolding level_at
level_at-eq_some line w i [] n h = absurd (cc)
level_at-eq_some line w i ((v, color) ∷ levels) n h = elim (Bool-cases (at_word line v i)) [
  | inl y ↦ let e : v ≡ w = ground arith in (rw e at y, subst (λ x. x ≢ []) e n.0)
  | inr y ↦ level_at-eq_some line w i levels n.1 (ground arith)
]

first_level-eq_some :
    (line w : Text) (levels : List (Text × ℕ)) (n i p : ℕ)
    → All (λ row. row.0 ≢ []) levels
    → first_level line levels n i ≡ some (p, w)
    → (at_word line w p ≡ true) × (w ≢ [])
unfolding first_level
first_level-eq_some line w levels zero i p e h = absurd (cc)
first_level-eq_some line w levels (suc n) i p e h = elim (Option-cases (level_at line i levels)) [
  | inl z ↦ first_level-eq_some line w levels n (suc i) p e (rw (z, first_level) at h)
  | inr (v, z) ↦
      let k : some (i, v) ≡ some (p, w) = rw (z, first_level) at h in
      let a : i ≡ p = cc k in
      let b : v ≡ w = cc k in
      let (x, y) = level_at-eq_some line v i levels e z in (rw (a, b) at x, subst (λ t. t ≢ []) b y)
]

find_level-le :
    (line w : Text) (p : ℕ)
    → find_level line ≡ some (p, w)
    → (0 < length w) × (p + length w ≤ length line)
unfolding at_word
find_level-le line w p h =
    let (x, y) =
      first_level-eq_some line w level_colors (length line) 0 p (ground arith)
        (cc (h, find_level-first_level line)) in
    let starts : starts_with w (drop p line) ≡ true = ground arith in
    (length-ne_nil w y, starts_with-le w line p starts y)

-- The spans stand one after the other in the line, and none but the timestamp is empty.
abbrev pub IsModuleIn : ℕ → ℕ → Option (ℕ × ℕ) → Type 0
IsModuleIn a b none = a ≤ b
IsModuleIn a b (some (first, last)) = (a ≤ first) × (first < last) × (last ≤ b)

slice_from-eq_ok : (n : ℕ) (s r : Text) → slice_from n s ≡ ok r → r ≡ drop n s
unfolding slice_from slice_at
slice_from-eq_ok n s r h = elim (Option-cases (get n s)) [
  | inl z ↦ ground arith
  | inr (c, z) ↦ ground arith
]

module_range-IsModuleIn :
    (line : Text) (a : ℕ) (m : Option (ℕ × ℕ))
    → a ≤ length line
    → module_range line (a + 1) ≡ ok m
    → IsModuleIn a (length line) m
unfolding module_range
module_range-IsModuleIn line a m l h = elim (Bool-cases (ltb (a + 1) (length line))) [
  | inr n ↦ let e : m ≡ none = cc (rw (n, module_range) at h) in rw (e, IsModuleIn) l
  | inl y ↦
      let (rest, e, f) = >>=-eq-ok _ _ (rw (y, module_range) at h) in
      let g = slice_from-eq_ok (a + 1) line rest e in
      elim (Option-cases (find_text (codes ": ") rest)) [
        | inl z ↦ let k : m ≡ none = cc (rw z at f) in rw (k, IsModuleIn) l
        | inr (rel, z) ↦
            let k : m ≡ some (a + 1, a + 1 + rel + 1) = cc (rw z at f) in
            let within =
              starts_with-le (codes ": ") rest rel (find_text-eq_some (codes ": ") rest rel z)
                (λ u. cc) in
            let n : length rest ≡ length line - (a + 1) = rw g (length-drop (a + 1) line) in
            rw (k, IsModuleIn) (omega arith, omega arith, omega arith)
      ]
]

abbrev pub IsWithin : ℕ → LineSpans → Type 0
IsWithin n spans =
    (spans.timestamp.0 ≡ 0)
    × (spans.timestamp.1 ≤ spans.level.0)
    × (spans.level.0 < spans.level.1)
    × IsModuleIn spans.level.1 n spans.mod_range

pub spans_for_line-eq_some :
    (line : Text) (spans : LineSpans)
    → spans_for_line line ≡ ok (some spans)
    → IsWithin (length line) spans
unfolding spans_for_line
spans_for_line-eq_some line spans h = elim (Option-cases (find_level line)) [
  | inl z ↦ absurd (cc (rw (z, spans_for_line) at h))
  | inr ((p, w), z) ↦
      let (m, e, f) = >>=-eq-ok _ _ (rw (z, spans_for_line) at h) in
      let (l, k) = find_level-le line w p z in
      let a = length-trim_end-le (take p line) in
      let b = length-take p line in
      let g = module_range-IsModuleIn line (p + length w) m k e in
      let made : LineSpans = record {
        timestamp = (0, length (trim_end (take p line)));
        level = (p, p + length w);
        mod_range = m;
      } in
      let t : made ≡ spans = cc f in
      subst (λ s. IsWithin (length line) s) t (refl, omega arith, omega arith, g)
]
