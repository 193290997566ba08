-- ===== src/Desktop/NetworkLogs/Document.antt =====
-- crates/desktop/src/ui/network_logs.rs: a document that `format_logs` makes is highlighted without a
-- panic.
use lab_stream_gate.Common.{
  ℕ, zero, suc, ◌+◌, ◌-◌, ◌≡◌, ◌≢◌, refl, sym, inl, inr, true, not, ◌&&◌, Option, none, some, List,
  [], ◌∷◌, ◌++◌, append-nil, append_assoc, leb, ltb, if◌then◌else◌, length, take, drop, is_empty,
  retain, ok, arith, Bool-cases, All, All-append, map, is_some, take-append,
}
use lab_stream_gate.Common.Text.{Text, codes}
use lab_stream_gate.Common.Parse.{strip_prefix}
use lab_stream_gate.Desktop.{LogEntry}
use lab_stream_gate.Desktop.NetworkLogs.{
  find_text, find_word_from, find_word, find_level_from, find_level, level_color, slice_from,
  spans_for_line,
}
use lab_stream_gate.Desktop.NetworkLogs.Highlight.{
  Segment, split_lines, segments_of_found, segments_of_line, segments_of, fill_gaps,
  highlight_range,
}
use lab_stream_gate.Desktop.NetworkLogs.Editor.{spaces, pad_level, format_log, format_logs}
use lab_stream_gate.Desktop.NetworkLogs.Lines.{IsStamp, level_of}
use lab_stream_gate.Desktop.NetworkLogs.Formatting.{spans_for_line-format_log}
use lab_stream_gate.Desktop.NetworkLogs.Runs.{IsPartition, highlight_range-IsPartition}
use lab_stream_gate.Common.Parse.{Free}

-- What the entries of the service's own log file are: a timestamp in digits and the signs of RFC
-- 3339, one of the five levels, a target without a colon before a space, and no newlines.
abbrev pub IsPlain : LogEntry → Type 0
IsPlain log =
    IsStamp log.timestamp
    × (is_some (level_color log.level) ≡ true)
    × (log.target ≢ [])
    × (slice_from 0 log.target ≡ ok log.target)
    × (find_text (codes ": ") log.target ≡ none)
    × Free b'\n' log.target
    × Free b'\n' log.message

split_lines-append :
    (cur line s : Text)
    → Free b'\n' line
    → split_lines cur (line ++ b'\n' ∷ s) ≡ (cur ++ line) ∷ split_lines [] s
unfolding split_lines
split_lines-append cur [] s h = rw (append-nil cur) refl
split_lines-append cur (c ∷ line) s h =
    ground (arith, split_lines-append (cur ++ c ∷ []) line s h.1, append_assoc cur (c ∷ []) line)

Free-stamp : (s : Text) → IsStamp s → Free b'\n' s
Free-stamp [] h = tt
Free-stamp (c ∷ s) h = (ground arith, Free-stamp s h.1)

Free-spaces : (n : ℕ) → Free b'\n' (spaces n)
Free-spaces zero = tt
Free-spaces (suc n) = (ground arith, Free-spaces n)

Free-level : (level : Text) → is_some (level_color level) ≡ true → Free b'\n' level
Free-level level h = ground (arith, level_of level h)

Free-append : (a b : Text) → Free b'\n' a → Free b'\n' b → Free b'\n' (a ++ b)
Free-append = All-append (λ x. x ≢ b'\n')

Free-format_log : (log : LogEntry) → IsPlain log → Free b'\n' (format_log log)
unfolding format_log pad_level
Free-format_log log h =
    let n : ℕ = 5 - length (retain (λ c. not (leb 0x80 c && ltb c 0xc0)) log.level) in
    let target : Text = if is_empty log.target then [] else log.target ++ codes ": " in
    let t : Free b'\n' target = elim (Bool-cases (is_empty log.target)) [
      | inl y ↦ rw y tt
      | inr y ↦ rw y (Free-append log.target (codes ": ") h.5 (ground arith))
    ] in
    let level = Free-append (spaces n) log.level (Free-spaces n) (Free-level log.level h.1) in
    let rest = Free-append target log.message t h.6 in
    Free-append log.timestamp _ (Free-stamp log.timestamp h.0) (
      ground arith,
      (ground arith, Free-append (spaces n ++ log.level) _ level (ground arith, rest)),
    )

split_lines-format_logs :
    (logs : List LogEntry)
    → All IsPlain logs
    → split_lines [] (format_logs logs) ≡ map format_log logs ++ [] ∷ []
unfolding format_logs split_lines
split_lines-format_logs [] h = refl
split_lines-format_logs (log ∷ logs) h = cc (
  split_lines-append [] (format_log log) (format_logs logs) (Free-format_log log h.0),
  split_lines-format_logs logs h.1,
)

-- An empty line has no level.
spans_for_line-nil : spans_for_line [] ≡ ok none
unfolding spans_for_line find_level find_level_from find_word find_word_from find_text strip_prefix
spans_for_line-nil = refl

segments_of-ok :
    (logs : List LogEntry) (start : ℕ)
    → All IsPlain logs
    → (segments : List Segment) × (segments_of start (map format_log logs ++ [] ∷ []) ≡ ok segments)
unfolding segments_of segments_of_line
segments_of-ok [] start h =
    ([], rw (spans_for_line-nil, segments_of_line) (unfold segments_of_found in refl))
segments_of-ok (log ∷ logs) start h =
    let p = h.0 in
    let found = spans_for_line-format_log log p.0 p.1 p.2 p.3 p.4 in
    let spans = found.0 in
    let e = found.2 in
    let next : ℕ = start + (length (format_log log) + 1) in
    let (segments, f) = segments_of-ok logs next h.1 in
    (segments_of_found start (format_log log) (some spans) ++ segments, rw (e, f, segments_of) refl)

take-all : (s : Text) → take (length s) s ≡ s
take-all s = cc (take-append s [], append-nil s)

-- `text_for_range` of a document.
abbrev pub text_for : Text → ℕ → ℕ → Option Text
text_for text first last = some (take (last - first) (drop first text))

-- A document formatted of plain entries is highlighted without a panic, and the runs follow on each
-- other from its first byte to its last.
pub highlight_range-format_logs :
    (logs : List LogEntry)
    → All IsPlain logs
    → (runs : List Segment) × (highlight_range
          (text_for (format_logs logs))
          0
          (length (format_logs logs))
        ≡ ok runs)
      × IsPartition 0 (length (format_logs logs)) runs
unfolding highlight_range
highlight_range-format_logs logs h =
    let text = format_logs logs in
    let a : length text - 0 ≡ length text = omega arith in
    let b = take-all text in
    let (segments, e) = segments_of-ok logs 0 h in
    let f : segments_of 0 (split_lines [] text) ≡ ok segments =
      cc (e, split_lines-format_logs logs h) in
    let runs = fill_gaps (length text) 0 segments in
    let r : highlight_range (text_for text) 0 (length text) ≡ ok runs = rw (a, b, f) refl in
    let whole : some (take (length text - 0) (drop 0 text)) ≡ some text = rw (a, b) refl in
    let p = highlight_range-IsPartition (text_for text) 0 (length text) text runs whole (sym a) r in
    (runs, r, rw a at p)
