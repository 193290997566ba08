-- ===== src/Desktop/NetworkLogs/Tests.antt =====
-- The theorems of the log page at concrete inputs.
use lab_stream_gate.Common.{ℕ, ◌≡◌, refl, some, List, [], ◌∷◌, ◌++◌, length, ok, err, arith}
use lab_stream_gate.Common.Text.{codes, is_ascii_alphanumeric, Text-discrete, ℕ_discrete}
use lab_stream_gate.Common.Parse.{strip_prefix}
use lab_stream_gate.Desktop.{LogEntry, find}
use lab_stream_gate.Desktop.NetworkLogs.{
  find_text, get, find_word_from, find_word, find_level_from, find_level, level_color, slice_at,
  LineSpans, off_boundary, slice_from, module_range, spans_for_line,
}
use lab_stream_gate.Desktop.NetworkLogs.Named.{first_named, find_level-first_named}
use lab_stream_gate.Common.{length}
use lab_stream_gate.Desktop.NetworkLogs.Highlight.{Segment, highlight_range}
use lab_stream_gate.Desktop.NetworkLogs.Editor.{format_log, format_logs}
use lab_stream_gate.Desktop.NetworkLogs.Formatting.{slice, spans_for_line-format_log}
use lab_stream_gate.Desktop.NetworkLogs.Runs.{IsPartition}
use lab_stream_gate.Desktop.NetworkLogs.Document.{text_for, IsPlain, highlight_range-format_logs}

abbrev entry : LogEntry
entry = record {
  timestamp = codes "2026-08-22T14:07:00.123456Z";
  level = codes "INFO";
  target = codes "wsrx::daemon";
  message = codes "listening: port 80";
}

entry-IsPlain : IsPlain entry
unfolding is_ascii_alphanumeric find level_color find_text strip_prefix get slice_at slice_from
    Text-discrete ℕ_discrete
entry-IsPlain = ground arith

-- Lines of a message that are not formatted by the code make the slicing panic.
torn_line : spans_for_line (codes "WARN" ++ 0xe2 ∷ 0x80 ∷ 0x94 ∷ []) ≡ err off_boundary
unfolding spans_for_line find_level find_level_from find_word find_word_from find_text strip_prefix
    get is_ascii_alphanumeric module_range slice_from slice_at
torn_line = refl

find_level-first_named_example :
    find_level (codes "x INFORM WARN INFO")
    ≡ first_named
        (codes "x INFORM WARN INFO")
        (codes "TRACE" ∷ codes "DEBUG" ∷ codes "INFO" ∷ codes "WARN" ∷ codes "ERROR" ∷ [])
        (length (codes "x INFORM WARN INFO"))
        0
find_level-first_named_example = find_level-first_named (codes "x INFORM WARN INFO")

spans_for_line-format_log_example :
    (spans : LineSpans) × (m : ℕ × ℕ) × (spans_for_line (format_log entry) ≡ ok (some spans))
    × (spans.mod_range ≡ some m)
    × (slice spans.timestamp (format_log entry) ≡ entry.timestamp)
    × (slice spans.level (format_log entry) ≡ entry.level)
    × (slice m (format_log entry) ≡ entry.target ++ codes ":")
unfolding is_ascii_alphanumeric find level_color find_text strip_prefix get slice_at slice_from
    Text-discrete ℕ_discrete
spans_for_line-format_log_example =
    spans_for_line-format_log entry (ground arith) refl (λ e. cc) refl refl

highlight_range-format_logs_example :
    (runs : List Segment) × (highlight_range
        (text_for (format_logs (entry ∷ entry ∷ [])))
        0
        (length (format_logs (entry ∷ entry ∷ [])))
      ≡ ok runs)
    × IsPartition 0 (length (format_logs (entry ∷ entry ∷ []))) runs
highlight_range-format_logs_example =
    highlight_range-format_logs (entry ∷ entry ∷ []) (entry-IsPlain, (entry-IsPlain, tt))
