-- ===== src/Desktop/NetworkLogs/Highlight.antt =====
-- crates/desktop/src/ui/network_logs.rs: `highlight_range`.
use lab_stream_gate.Common.{
  ℕ, ◌+◌, ◌-◌, ◌&&◌, Option, none, some, List, [], ◌∷◌, ◌++◌, ltb, ◌==◌, if◌then◌else◌, length,
  take, drop, Result, ok, ◌>>=◌,
}
use lab_stream_gate.Common.Text.{Text}
use lab_stream_gate.Desktop.NetworkLogs.{level_color, LineSpans, Panic, spans_for_line}

-- `HighlightStyle`, by what the code sets: nothing, the dimmed color, or a level's color.
pub data Style : Type 0 where
  default_style dim : Style
  colored : ℕ → Style

-- A styled segment, or a run: where it starts and ends, and its style.
pub record Segment : Type 0 where
  pub start : ℕ
  pub end : ℕ
  pub style : Style

-- `split('\n')`, from the line read so far.
unfoldable pub split_lines : Text → Text → List Text
split_lines line [] = line ∷ []
split_lines line (c ∷ s) =
    if c == b'\n' then line ∷ split_lines [] s else split_lines (line ++ c ∷ []) s

-- The segments of a line that starts at `line_start` and whose level has a color.
unfoldable pub line_segments : ℕ → LineSpans → ℕ → List Segment
line_segments line_start spans color =
    (if ltb spans.timestamp.0 spans.timestamp.1
      then record {
        start = line_start + spans.timestamp.0;
        end = line_start + spans.timestamp.1;
        style = dim;
      }
        ∷ []
      else [])
    ++ record {
      start = line_start + spans.level.0;
      end = line_start + spans.level.1;
      style = colored color;
    }
      ∷ elim spans.mod_range [
        | none ↦ []
        | some r ↦ record { start = line_start + r.0; end = line_start + r.1; style = dim } ∷ []
      ]

-- The segments for the spans that were found in a line; none when its level has no color.
unfoldable pub segments_of_found : ℕ → Text → Option LineSpans → List Segment
unfolding level_color line_segments
segments_of_found line_start line none = []
segments_of_found line_start line (some spans) =
    let token = take (spans.level.1 - spans.level.0) (drop spans.level.0 line) in
    elim (level_color token) [ none ↦ [] | some color ↦ line_segments line_start spans color ]

-- What `highlight_range` adds for a line.
unfoldable pub segments_of_line : ℕ → Text → Result Panic (List Segment)
unfolding spans_for_line segments_of_found
segments_of_line line_start line = do
  found ← spans_for_line line
  ok (segments_of_found line_start line found)

-- The loop over the lines.
unfoldable pub segments_of : ℕ → List Text → Result Panic (List Segment)
unfolding segments_of_line
segments_of line_start [] = ok []
segments_of line_start (line ∷ lines) = do
  first ← segments_of_line line_start line
  rest ← segments_of (line_start + (length line + 1)) lines
  ok (first ++ rest)

-- The loop that fills the gaps, from `cursor`.
unfoldable pub fill_gaps : ℕ → ℕ → List Segment → List Segment
fill_gaps visible_len cursor [] =
    if ltb cursor visible_len
    then record { start = cursor; end = visible_len; style = default_style } ∷ []
    else []
fill_gaps visible_len cursor (s ∷ segments) =
    let after = fill_gaps visible_len s.end segments in
    let rest = fill_gaps visible_len cursor segments in
    (if ltb cursor s.start && ltb cursor visible_len
      then record { start = cursor; end = s.start; style = default_style } ∷ []
      else [])
    ++ (if ltb cursor s.end then s ∷ after else rest)

-- `highlight_range`; `text` is what `text_for_range` gives of the document.
unfoldable pub highlight_range : (ℕ → ℕ → Option Text) → ℕ → ℕ → Result Panic (List Segment)
unfolding split_lines segments_of fill_gaps
highlight_range text_for_range first last = elim (text_for_range first last) [
  | none ↦ ok []
  | some text ↦ (do
    segments ← segments_of 0 (split_lines [] text)
    ok (fill_gaps (last - first) 0 segments))
]
