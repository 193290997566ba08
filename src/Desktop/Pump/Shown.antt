-- ===== src/Desktop/Pump/Shown.antt =====
-- crates/desktop/src/main.rs: what the pump makes the application keep and show.
use lab_stream_gate.Common.{
  ◌≡◌, ap, subst, Bool, false, List, [], ◌∷◌, ◌++◌, append-nil, append_assoc, Bool-cases, inl, inr,
}
use lab_stream_gate.Desktop.{
  LogEntry, UiEvent, online, refresh, log, logs, has_updates, popup, quit, cursor_tick,
}
use lab_stream_gate.Desktop.Pump.{
  MainWindow, never_opened, removed, opened, App, close, process_logs, process_event, drain, Input,
  receives, closes_window, turn, run_pump,
}
use lab_stream_gate.Desktop.Pump.Window.{
  WindowShows, Shows, Shows-process_logs, Shows-process_event,
}

-- The entries of the batches that are pending, and those that are pending one by one.
abbrev pub batches_of : List UiEvent → List LogEntry
batches_of [] = []
batches_of (logs batch ∷ pending) = batch ++ batches_of pending
batches_of (log entry ∷ pending) = batches_of pending
batches_of (online port ∷ pending) = batches_of pending
batches_of (refresh ∷ pending) = batches_of pending
batches_of (has_updates value ∷ pending) = batches_of pending
batches_of (popup ∷ pending) = batches_of pending
batches_of (quit ∷ pending) = batches_of pending
batches_of (cursor_tick ∷ pending) = batches_of pending

abbrev pub singles_of : List UiEvent → List LogEntry
singles_of [] = []
singles_of (log entry ∷ pending) = entry ∷ singles_of pending
singles_of (logs batch ∷ pending) = singles_of pending
singles_of (online port ∷ pending) = singles_of pending
singles_of (refresh ∷ pending) = singles_of pending
singles_of (has_updates value ∷ pending) = singles_of pending
singles_of (popup ∷ pending) = singles_of pending
singles_of (quit ∷ pending) = singles_of pending
singles_of (cursor_tick ∷ pending) = singles_of pending

Shows-drain :
    (batch : List LogEntry) (pending : List UiEvent) (app t : App) (received : List LogEntry)
    → Shows app received
    → drain batch pending app ≡ (t, false)
    → Shows t (received ++ (batches_of pending ++ (batch ++ singles_of pending)))
unfolding drain process_event
Shows-drain batch [] app t received h e =
    let f : process_logs batch app ≡ t = cc e in
    rw (append-nil batch)
      (subst (λ x. Shows x (received ++ batch)) f (Shows-process_logs batch app received h))
Shows-drain batch (log entry ∷ pending) app t received h e =
    rw append_assoc at (Shows-drain (batch ++ entry ∷ []) pending app t received h e)
Shows-drain batch (logs other ∷ pending) app t received h e =
    let rest = batch ++ singles_of pending in
    let ih =
      Shows-drain batch pending _ t (received ++ other) (Shows-process_logs other app received h)
        e in
    let f : received ++ other ++ (batches_of pending ++ rest)
        ≡ received ++ (other ++ batches_of pending ++ rest) =
      cc (
        append_assoc received other (batches_of pending ++ rest),
        append_assoc other (batches_of pending) rest,
      ) in
    subst (λ x. Shows t x) f ih
Shows-drain batch (quit ∷ pending) app t received h e = absurd (cc e)
Shows-drain batch (online port ∷ pending) app t received h e =
    Shows-drain batch pending _ t received (Shows-process_event (online port) app received tt h) e
Shows-drain batch (refresh ∷ pending) app t received h e =
    Shows-drain batch pending _ t received (Shows-process_event refresh app received tt h) e
Shows-drain batch (has_updates value ∷ pending) app t received h e =
    Shows-drain batch pending _ t received
      (Shows-process_event (has_updates value) app received tt h) e
Shows-drain batch (popup ∷ pending) app t received h e =
    Shows-drain batch pending _ t received (Shows-process_event popup app received tt h) e
Shows-drain batch (cursor_tick ∷ pending) app t received h e =
    Shows-drain batch pending _ t received (Shows-process_event cursor_tick app received tt h) e

-- The entries that an input brings, in the order in which they are appended; none when the pump stops.
abbrev pub brings : Input → List LogEntry
brings closes_window = []
brings (receives (log entry) pending) = batches_of pending ++ (entry ∷ singles_of pending)
brings (receives (logs batch) pending) = batch
brings (receives (online port) pending) = []
brings (receives refresh pending) = []
brings (receives (has_updates value) pending) = []
brings (receives popup pending) = []
brings (receives quit pending) = []
brings (receives cursor_tick pending) = []

abbrev pub all_entries : List Input → List LogEntry
all_entries [] = []
all_entries (input ∷ inputs) = brings input ++ all_entries inputs

WindowShows-close :
    (kept : List LogEntry) (updates : Bool) (window : MainWindow)
    → WindowShows window kept updates
    → WindowShows (close window) kept updates
unfolding close
WindowShows-close kept updates never_opened h = tt
WindowShows-close kept updates removed h = tt
WindowShows-close kept updates (opened view) h = tt

Shows-same :
    (app t : App) (received : List LogEntry)
    → app ≡ t
    → Shows app received
    → Shows t (received ++ [])
Shows-same app t received e h = subst (λ x. Shows x (received ++ [])) e (rw (append-nil received) h)

Shows-turn :
    (input : Input) (app t : App) (received : List LogEntry)
    → Shows app received
    → turn input app ≡ (t, false)
    → Shows t (received ++ brings input)
unfolding turn process_event
Shows-turn closes_window app t received h e =
    Shows-same _ t received (ap (λ p. p.0) e)
      (h.0, WindowShows-close app.kept app.updates app.window h.1)
Shows-turn (receives (log entry) pending) app t received h e =
    Shows-drain (entry ∷ []) pending app t received h e
Shows-turn (receives (logs batch) pending) app t received h e =
    let f : process_logs batch app ≡ t = cc e in
    subst (λ x. Shows x (received ++ batch)) f (Shows-process_logs batch app received h)
Shows-turn (receives quit pending) app t received h e = absurd (cc e)
Shows-turn (receives popup pending) app t received h e =
    Shows-same _ t received (ap (λ p. p.0) e) (Shows-process_event popup app received tt h)
Shows-turn (receives (online port) pending) app t received h e =
    Shows-same _ t received (ap (λ p. p.0) e) (Shows-process_event (online port) app received tt h)
Shows-turn (receives refresh pending) app t received h e =
    Shows-same _ t received (ap (λ p. p.0) e) (Shows-process_event refresh app received tt h)
Shows-turn (receives (has_updates value) pending) app t received h e =
    Shows-same _ t received (ap (λ p. p.0) e)
      (Shows-process_event (has_updates value) app received tt h)
Shows-turn (receives cursor_tick pending) app t received h e =
    Shows-same _ t received (ap (λ p. p.0) e) (Shows-process_event cursor_tick app received tt h)

-- While it runs, the application keeps the latest thousand of all entries that have come, however
-- they were batched and whatever came between, and a window that is open, be it a new one, shows just
-- these, formatted; if that was so before.
pub run_pump-Shows :
    (inputs : List Input) (app t : App) (received : List LogEntry)
    → Shows app received
    → run_pump inputs app ≡ (t, false)
    → Shows t (received ++ all_entries inputs)
unfolding run_pump
run_pump-Shows [] app t received h e = Shows-same app t received (ap (λ p. p.0) e) h
run_pump-Shows (input ∷ inputs) app t received h e = elim (Bool-cases (turn input app).1) [
  | inl y ↦ absurd (cc (rw (y, run_pump) at e))
  | inr y ↦
      let f : turn input app ≡ ((turn input app).0, false) = ap (λ b. ((turn input app).0, b)) y in
      subst (λ x. Shows t x) (append_assoc received (brings input) (all_entries inputs))
        (run_pump-Shows inputs _ t (received ++ brings input) (Shows-turn input app _ received h f)
          (rw (y, run_pump) at e))
]
