-- ===== src/Desktop/Pump/Tests.antt =====
-- The pump at concrete inputs.
use lab_stream_gate.Common.{refl, false, List, [], ◌∷◌, ◌++◌}
use lab_stream_gate.Common.Text.{codes}
use lab_stream_gate.Desktop.{is_absent, LogEntry, log, online, popup}
use lab_stream_gate.Desktop.Root.{v4}
use lab_stream_gate.Common.{◌≡◌, ◌++◌, arith, length, ok}
use lab_stream_gate.Common.Text.{is_ascii_alphanumeric, Text-discrete, ℕ_discrete}
use lab_stream_gate.Common.Parse.{strip_prefix}
use lab_stream_gate.Desktop.{find}
use lab_stream_gate.Desktop.NetworkLogs.{level_color, find_text, get, slice_at, slice_from}
use lab_stream_gate.Desktop.NetworkLogs.Highlight.{Segment, highlight_range}
use lab_stream_gate.Desktop.NetworkLogs.Runs.{IsPartition}
use lab_stream_gate.Desktop.NetworkLogs.Document.{IsPlain, text_for}
use lab_stream_gate.Desktop.Root.{RootView, handle_logs, new_view}
use lab_stream_gate.Desktop.Pump.Highlighted.{run_pump-highlight_range}
use lab_stream_gate.Desktop.Pump.{
  process_logs, process_popup, update_opened, reopen, open_main_window, App, Input, receives,
  closes_window, never_opened, run_pump, turn, drain, process_event,
}
use lab_stream_gate.Desktop.Pump.Window.{Shows}
use lab_stream_gate.Desktop.Pump.Shown.{all_entries, run_pump-Shows}

abbrev entry : LogEntry
entry = record {
  timestamp = codes "2026-08-22T14:07:00.123456Z";
  level = codes "INFO";
  target = codes "wsrx::daemon";
  message = codes "listening";
}

abbrev app : App
app = record {
  state = record { instances = []; scopes = []; scopes_file = is_absent; events = [] };
  kept = [];
  updates = false;
  api_port = 0;
  listed = v4 (codes "10.0.0.7") ∷ [];
  window = never_opened;
}

app-Shows : Shows app []
app-Shows = (refl, tt)

-- The window is opened by the first event; two entries come with an event between them; the window
-- is closed, and then another entry comes.
abbrev day : List Input
day =
    receives popup []
    ∷ receives (log entry) (online 4711 ∷ log entry ∷ [])
    ∷ closes_window
    ∷ receives (log entry) []
    ∷ []

-- The window is opened, and an entry comes.
abbrev morning : List Input
morning = receives popup [] ∷ receives (log entry) [] ∷ []

abbrev morning_view : RootView
morning_view =
    handle_logs (entry ∷ []) (new_view app.state app.kept app.api_port app.updates app.listed)

entry-IsPlain : IsPlain entry
unfolding is_ascii_alphanumeric find level_color find_text strip_prefix get slice_at slice_from
    Text-discrete ℕ_discrete
entry-IsPlain = ground arith

run_pump-Shows_example : Shows (run_pump day app).0 ([] ++ all_entries day)
unfolding run_pump turn drain process_event
run_pump-Shows_example = run_pump-Shows day app (run_pump day app).0 [] app-Shows refl

run_pump-highlight_range_example :
    (runs : List Segment) × (highlight_range
        (text_for morning_view.shown)
        0
        (length morning_view.shown)
      ≡ ok runs)
    × IsPartition 0 (length morning_view.shown) runs
unfolding run_pump turn drain process_event process_logs process_popup update_opened reopen
    open_main_window
run_pump-highlight_range_example =
    run_pump-highlight_range morning app (run_pump morning app).0 morning_view app-Shows refl refl
      (entry-IsPlain, tt)
