-- ===== src/Desktop/Pump/Highlighted.antt =====
-- crates/desktop/src/main.rs and crates/desktop/src/ui/network_logs.rs together: the log page of the
-- running application is highlighted.
use lab_stream_gate.Common.{
  ℕ, zero, suc, ◌-◌, ◌≡◌, sym, ap, subst, ◌∙◌, false, List, [], ◌∷◌, length, drop, ok, All,
}
use lab_stream_gate.Desktop.{LogEntry}
use lab_stream_gate.Desktop.NetworkLogs.Highlight.{Segment, highlight_range}
use lab_stream_gate.Desktop.NetworkLogs.Runs.{IsPartition}
use lab_stream_gate.Desktop.NetworkLogs.Document.{IsPlain, text_for, highlight_range-format_logs}
use lab_stream_gate.Desktop.NetworkLogs.Editor.{format_logs}
use lab_stream_gate.Desktop.Root.{RootView, max_logs}
use lab_stream_gate.Desktop.Pump.{App, Input, opened, run_pump}
use lab_stream_gate.Desktop.Pump.Window.{Shows, WindowShows, latest}
use lab_stream_gate.Desktop.Pump.Shown.{all_entries, run_pump-Shows}

All-drop : (n : ℕ) (logs : List LogEntry) → All IsPlain logs → All IsPlain (drop n logs)
All-drop zero logs h = h
All-drop (suc n) [] h = h
All-drop (suc n) (log ∷ logs) h = All-drop n logs h.1

-- While the application runs, the text that an open window shows on its log page is highlighted
-- without a panic, and the runs follow on each other from its first byte to its last; if all entries
-- that have come are plain, and no entry had come before.
pub run_pump-highlight_range :
    (inputs : List Input) (app t : App) (view : RootView)
    → Shows app []
    → run_pump inputs app ≡ (t, false)
    → t.window ≡ opened view
    → All IsPlain (all_entries inputs)
    → (runs : List Segment) × (highlight_range (text_for view.shown) 0 (length view.shown)
        ≡ ok runs)
      × IsPartition 0 (length view.shown) runs
run_pump-highlight_range inputs app t view h e w p =
    let (kept, window) = run_pump-Shows inputs app t [] h e in
    let shows : WindowShows (opened view) t.kept t.updates =
      subst (λ x. WindowShows x t.kept t.updates) w window in
    let shown : view.shown ≡ format_logs (latest (all_entries inputs)) =
      shows.1 ∙ ap format_logs kept in
    subst
      (λ s.
        (runs : List Segment) × (highlight_range (text_for s) 0 (length s) ≡ ok runs)
        × IsPartition 0 (length s) runs)
      (sym shown)
      (highlight_range-format_logs (latest (all_entries inputs))
        (All-drop (length (all_entries inputs) - max_logs) (all_entries inputs) p))
