-- ===== src/Desktop/NetworkLogs/Editor.antt =====
-- crates/desktop/src/ui/network_logs.rs: the text of the page, and `LogBackend` over a rope.
use lab_stream_gate.Common.{
  ℕ, zero, suc, ◌+◌, ◌-◌, ◌%◌, ◌^◌, min, not, ◌&&◌, Option, none, some, List, [], ◌∷◌, ◌++◌, leb,
  ltb, if◌then◌else◌, length, is_empty, retain,
}
use lab_stream_gate.Common.Text.{Text, codes}
use lab_stream_gate.Desktop.{LogEntry}
use lab_stream_gate.Desktop.NetworkLogs.{find_level, preview_color}

-- `n` spaces.
abbrev pub spaces : ℕ → Text
spaces zero = []
spaces (suc n) = b' ' ∷ spaces n

-- `{:>5}`: spaces in front, up to five characters.
unfoldable pub pad_level : Text → Text
pad_level level = spaces (5 - length (retain (λ c. not (leb 0x80 c && ltb c 0xc0)) level)) ++ level

unfoldable pub format_log : LogEntry → Text
unfolding pad_level
format_log log =
    let target = if is_empty log.target then [] else log.target ++ codes ": " in
    log.timestamp ++ (codes "  " ++ (pad_level log.level ++ b' ' ∷ (target ++ log.message)))

unfoldable pub format_logs : List LogEntry → Text
unfolding format_log
format_logs [] = []
format_logs (log ∷ logs) = format_log log ++ b'\n' ∷ format_logs logs

-- The rope of crate `ropey`, by the functions that the code calls.
pub record RopeOps (R : Type 0) : Type 0 where
  len : R → ℕ
  lines_len : R → ℕ
  line_text : R → ℕ → Option Text
  replace : R → ℕ → ℕ → Text → R

module _ {R : Type 0} (rope : RopeOps R) where
  -- The color of a row of the preview; none stands for the default color.
  unfoldable pub row_color : R → ℕ → Option (ℕ × ℕ)
  unfolding find_level preview_color
  row_color text row = elim (rope.line_text text row) [
    | none ↦ none
    | some line ↦ elim (find_level line) [ none ↦ none | some found ↦ preview_color found.1 ]
  ]

  -- The loop over `n` rows from `row`.
  unfoldable pub preview_rows : R → ℕ → ℕ → List (Option (ℕ × ℕ))
  unfolding row_color
  preview_rows text row zero = []
  preview_rows text row (suc n) = row_color text row ∷ preview_rows text (suc row) n

  -- `scrollbar_preview`, its lines.
  unfoldable pub scrollbar_preview : R → ℕ → ℕ → List (Option (ℕ × ℕ))
  unfolding preview_rows
  scrollbar_preview text first last =
      let start = min first (rope.lines_len text) in
      let end = min last (rope.lines_len text) in
      if leb end start then [] else preview_rows text start (end - start)

  -- `apply_edit` of the text and its revision, which has 64 bits, and the cursor it answers.
  unfoldable pub apply_edit : R × ℕ → ℕ → ℕ → Text → (R × ℕ) × ℕ
  apply_edit (text, revision) first last new_text =
      let start = min first (rope.len text) in
      let end = min last (rope.len text) in
      ((rope.replace text start end new_text, (revision + 1) % 2 ^ 64), start + length new_text)
