-- ===== src/Desktop/Pump.antt =====
-- crates/desktop/src/main.rs: the pump that takes events from the service to the window, with
-- `process_event` and the closing and opening of the window.
pub mod Window
pub mod Shown
pub mod Highlighted
mod Tests
use lab_stream_gate.Common.{ℕ, Bool, true, false, List, [], ◌∷◌, ◌++◌, ltb, if◌then◌else◌, length}
use lab_stream_gate.Desktop.{
  ServerState, LogEntry, UiEvent, online, refresh, log, logs, has_updates, popup, quit, cursor_tick,
}
use lab_stream_gate.Desktop.Root.{
  RootView, Interface, max_logs, handle_logs, handle_event, new_view,
}

-- What `window_ref` names: no window yet, one that has been removed, or an open one.
pub data MainWindow : Type 0 where
  never_opened removed : MainWindow
  opened : RootView → MainWindow

-- The application: what the pump uses of the shared state, the interfaces that the system lists, and
-- the window.
pub record App : Type 0 where
  pub state : ServerState
  pub kept : List LogEntry
  pub updates : Bool
  pub api_port : ℕ
  pub listed : List Interface
  pub window : MainWindow

-- `while logs.len() > MAX_LOGS { logs.pop_front(); }`
unfoldable pub pop_excess : List LogEntry → List LogEntry
pop_excess [] = []
pop_excess (entry ∷ rest) =
    let shorter = pop_excess rest in
    if ltb max_logs (length (entry ∷ rest)) then shorter else entry ∷ rest

-- `handle.update` of the window, which fails if the window has been removed.
unfoldable pub update_opened : (RootView → RootView) → MainWindow → MainWindow
update_opened f never_opened = never_opened
update_opened f removed = removed
update_opened f (opened view) = opened (f view)

abbrev pub update_window : (RootView → RootView) → App → App
update_window f app = record app { window = update_opened f app.window }

-- `open_main_window`: the window it makes.
unfoldable pub open_main_window : App → MainWindow
unfolding new_view
open_main_window app = opened (new_view app.state app.kept app.api_port app.updates app.listed)

-- A window that is still there is activated.
unfoldable pub reopen : App → MainWindow → MainWindow
unfolding open_main_window
reopen app never_opened = open_main_window app
reopen app removed = open_main_window app
reopen app (opened view) = opened view

-- `Popup`.
unfoldable pub process_popup : App → App
unfolding reopen
process_popup app = record app { window = reopen app app.window }

-- `Logs(batch)`.
unfoldable pub process_logs : List LogEntry → App → App
unfolding pop_excess update_opened handle_logs
process_logs batch app =
    update_window (handle_logs batch) (record app { kept = pop_excess (app.kept ++ batch) })

-- `process_event`: the state after it, and whether the application quits. What quitting does besides
-- is no part of the model.
unfoldable pub process_event : UiEvent → App → App × Bool
unfolding process_popup process_logs update_opened handle_event
process_event quit app = (app, true)
process_event popup app = (process_popup app, false)
process_event (logs batch) app = (process_logs batch app, false)
process_event (has_updates value) app = (
  update_window (handle_event app.state (has_updates value)) (record app { updates = value }),
  false,
)
process_event (online port) app = (update_window (handle_event app.state (online port)) app, false)
process_event refresh app = (update_window (handle_event app.state refresh) app, false)
process_event (log entry) app = (update_window (handle_event app.state (log entry)) app, false)
process_event cursor_tick app = (update_window (handle_event app.state cursor_tick) app, false)

-- The loop that drains what is pending into the batch; other events are processed at once.
unfoldable pub drain : List LogEntry → List UiEvent → App → App × Bool
unfolding process_event
drain batch [] app = process_event (logs batch) app
drain batch (log entry ∷ pending) app = drain (batch ++ entry ∷ []) pending app
drain batch (quit ∷ pending) app = process_event quit app
drain batch (popup ∷ pending) app = drain batch pending (process_event popup app).0
drain batch (logs other ∷ pending) app = drain batch pending (process_event (logs other) app).0
drain batch (has_updates value ∷ pending) app =
    drain batch pending (process_event (has_updates value) app).0
drain batch (online port ∷ pending) app = drain batch pending (process_event (online port) app).0
drain batch (refresh ∷ pending) app = drain batch pending (process_event refresh app).0
drain batch (cursor_tick ∷ pending) app = drain batch pending (process_event cursor_tick app).0

-- What comes to the pump: an event that `recv` gives, with the events that are then pending, which are
-- only looked at after a log entry; and what the user does to the window.
pub data Input : Type 0 where
  receives : UiEvent → List UiEvent → Input
  closes_window : Input

unfoldable pub close : MainWindow → MainWindow
close never_opened = never_opened
close removed = removed
close (opened view) = removed

-- One turn of the pump, or the closing of the window to the tray.
unfoldable pub turn : Input → App → App × Bool
unfolding drain close
turn closes_window app = (record app { window = close app.window }, false)
turn (receives (log entry) pending) app = drain (entry ∷ []) pending app
turn (receives quit pending) app = process_event quit app
turn (receives popup pending) app = process_event popup app
turn (receives (logs batch) pending) app = process_event (logs batch) app
turn (receives (has_updates value) pending) app = process_event (has_updates value) app
turn (receives (online port) pending) app = process_event (online port) app
turn (receives refresh pending) app = process_event refresh app
turn (receives cursor_tick pending) app = process_event cursor_tick app

unfoldable pub run_pump : List Input → App → App × Bool
unfolding turn
run_pump [] app = (app, false)
run_pump (input ∷ inputs) app =
    let (after, stops) = turn input app in
    let rest = run_pump inputs after in if stops then (after, true) else rest
