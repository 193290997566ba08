-- ===== src/Desktop/Pump/Window.antt =====
-- crates/desktop/src/main.rs: one event, what the application keeps, and what its window shows.
use lab_stream_gate.Common.{
  ℕ, suc, ◌+◌, ◌-◌, ◌≡◌, refl, sym, ap, ◌∙◌, Bool, List, [], ◌∷◌, ◌++◌, ltb, arith, length, drop,
  length-append, length-drop, drop-drop, drop-append_le, Bool-cases, inl, inr,
}
use lab_stream_gate.Desktop.{
  ServerState, LogEntry, UiEvent, online, refresh, log, logs, has_updates, popup, quit, cursor_tick,
}
use lab_stream_gate.Desktop.NetworkLogs.Editor.{format_logs}
use lab_stream_gate.Desktop.Root.{
  RootView, max_logs, handle_logs, handle_event, new_view, refresh_from_state, blinks,
}
use lab_stream_gate.Desktop.Pump.{
  MainWindow, never_opened, removed, opened, App, pop_excess, update_opened, update_window, reopen,
  open_main_window, process_popup, process_logs, process_event,
}

-- The latest entries of a list, up to the limit.
abbrev pub latest : List LogEntry → List LogEntry
latest entries = drop (length entries - max_logs) entries

pop_excess-latest : (entries : List LogEntry) → pop_excess entries ≡ latest entries
unfolding pop_excess
pop_excess-latest [] = refl
pop_excess-latest (e ∷ rest) = elim (Bool-cases (ltb max_logs (length (e ∷ rest)))) [
  | inl y ↦
      let k : suc (length rest) - max_logs ≡ suc (length rest - max_logs) = ground arith in
      rw (y, k) (pop_excess-latest rest)
  | inr y ↦ let k : suc (length rest) - max_logs ≡ 0 = ground arith in rw (y, k) refl
]

latest-latest : (xs ys : List LogEntry) → latest (latest xs ++ ys) ≡ latest (xs ++ ys)
latest-latest xs ys =
    let a : ℕ = length xs - max_logs in
    let e = sym (drop-append_le a xs ys (omega arith)) in
    let l : length (drop a (xs ++ ys)) ≡ length (xs ++ ys) - a = length-drop a (xs ++ ys) in
    let m = length-append xs ys in
    let k : a + (length (xs ++ ys) - a - max_logs) ≡ length (xs ++ ys) - max_logs = omega arith in
    rw (e, l, drop-drop a, k) refl

-- A window that is open shows what is kept.
abbrev pub WindowShows : MainWindow → List LogEntry → Bool → Type 0
WindowShows never_opened kept updates = Unit {0}
WindowShows removed kept updates = Unit {0}
WindowShows (opened view) kept updates =
    (view.entries ≡ kept) × (view.shown ≡ format_logs kept) × (view.updates ≡ updates)

-- The application keeps the latest of the entries, and its window shows them.
abbrev pub Shows : App → List LogEntry → Type 0
Shows app received = (app.kept ≡ latest received) × WindowShows app.window app.kept app.updates

handle_logs-latest :
    (batch : List LogEntry) (view : RootView)
    → ((handle_logs batch view).entries ≡ latest (view.entries ++ batch))
      × ((handle_logs batch view).shown ≡ format_logs (latest (view.entries ++ batch)))
      × ((handle_logs batch view).updates ≡ view.updates)
unfolding handle_logs
handle_logs-latest batch view =
    let all_logs = view.entries ++ batch in
    elim (Bool-cases (ltb max_logs (length all_logs))) [
      | inl y ↦ rw (y, handle_logs) (refl, refl, refl)
      | inr y ↦
          let k : length all_logs - max_logs ≡ 0 = ground arith in
          rw (y, k, handle_logs) (refl, refl, refl)
    ]

WindowShows-process_logs :
    (batch kept : List LogEntry) (updates : Bool) (window : MainWindow)
    → WindowShows window kept updates
    → WindowShows (update_opened (handle_logs batch) window) (latest (kept ++ batch)) updates
unfolding update_opened
WindowShows-process_logs batch kept updates never_opened h = tt
WindowShows-process_logs batch kept updates removed h = tt
WindowShows-process_logs batch kept updates (opened view) h =
    let (a, b, c) = handle_logs-latest batch view in
    let e = h.0 in
    (
      a ∙ ap (λ x. latest (x ++ batch)) e,
      b ∙ ap (λ x. format_logs (latest (x ++ batch))) e,
      c ∙ h.2,
    )

pub Shows-process_logs :
    (batch : List LogEntry) (app : App) (received : List LogEntry)
    → Shows app received
    → Shows (process_logs batch app) (received ++ batch)
unfolding process_logs
Shows-process_logs batch app received h =
    let e : pop_excess (app.kept ++ batch) ≡ latest (app.kept ++ batch) =
      pop_excess-latest (app.kept ++ batch) in
    let f : latest (app.kept ++ batch) ≡ latest (received ++ batch) =
      rw h.0 (latest-latest received batch) in
    (e ∙ f, rw e (WindowShows-process_logs batch app.kept app.updates app.window h.1))

-- Updates of the window that leave alone what it shows of the logs.
WindowShows-update :
    (f : RootView → RootView) (kept : List LogEntry) (updates value : Bool) (window : MainWindow)
    → ((view : RootView)
        → ((f view).entries ≡ view.entries)
          × ((f view).shown ≡ view.shown)
          × ((f view).updates ≡ value))
    → WindowShows window kept updates
    → WindowShows (update_opened f window) kept value
unfolding update_opened
WindowShows-update f kept updates value never_opened e h = tt
WindowShows-update f kept updates value removed e h = tt
WindowShows-update f kept updates value (opened view) e h =
    let (a, b, c) = e view in (a ∙ h.0, b ∙ h.1, c)

WindowShows-reopen :
    (app : App) (received : List LogEntry)
    → WindowShows app.window app.kept app.updates
    → WindowShows (reopen app app.window) app.kept app.updates
WindowShows-reopen app received h = go app.window h
  where
    go :
        (window : MainWindow)
        → WindowShows window app.kept app.updates
        → WindowShows (reopen app window) app.kept app.updates
    go never_opened h =
        unfold reopen open_main_window new_view refresh_from_state in (refl, refl, refl)
    go removed h = unfold reopen open_main_window new_view refresh_from_state in (refl, refl, refl)
    go (opened view) h = unfold reopen in h

-- An event that tells of no entry.
abbrev IsSilent : UiEvent → Type 0
IsSilent (log entry) = ⊥
IsSilent (logs batch) = ⊥
IsSilent (online port) = Unit {0}
IsSilent refresh = Unit {0}
IsSilent (has_updates value) = Unit {0}
IsSilent popup = Unit {0}
IsSilent quit = Unit {0}
IsSilent cursor_tick = Unit {0}

Shows-update :
    (event : UiEvent) (app : App) (received : List LogEntry)
    → ((view : RootView)
        → ((handle_event app.state event view).entries ≡ view.entries)
          × ((handle_event app.state event view).shown ≡ view.shown)
          × ((handle_event app.state event view).updates ≡ view.updates))
    → Shows app received
    → Shows (update_window (handle_event app.state event) app) received
Shows-update event app received e h = (h.0, go app.window h.1)
  where
    go :
        (window : MainWindow)
        → WindowShows window app.kept app.updates
        → WindowShows (update_opened (handle_event app.state event) window) app.kept app.updates
    go never_opened h = unfold update_opened in tt
    go removed h = unfold update_opened in tt
    go (opened view) h =
        let (a, b, c) = e view in unfold update_opened in (a ∙ h.0, b ∙ h.1, c ∙ h.2)

handle_event-tick :
    (state : ServerState) (view : RootView)
    → ((handle_event state cursor_tick view).entries ≡ view.entries)
      × ((handle_event state cursor_tick view).shown ≡ view.shown)
      × ((handle_event state cursor_tick view).updates ≡ view.updates)
unfolding handle_event
handle_event-tick state view = elim (Bool-cases (blinks view.page)) [
  | inl y ↦ rw (y, handle_event) (refl, refl, refl)
  | inr y ↦ rw (y, handle_event) (refl, refl, refl)
]

pub Shows-process_event :
    (event : UiEvent) (app : App) (received : List LogEntry)
    → IsSilent event
    → Shows app received
    → Shows (process_event event app).0 received
unfolding process_event handle_event refresh_from_state process_popup
Shows-process_event (log entry) app received n h = absurd n
Shows-process_event (logs batch) app received n h = absurd n
Shows-process_event (online port) app received n h =
    Shows-update (online port) app received (λ view. (refl, refl, refl)) h
Shows-process_event refresh app received n h =
    Shows-update refresh app received (λ view. (refl, refl, refl)) h
Shows-process_event (has_updates value) app received n h = (
  h.0,
  WindowShows-update (handle_event app.state (has_updates value)) app.kept app.updates value
      app.window (λ view. (refl, refl, refl)) h.1,
)
Shows-process_event popup app received n h = (h.0, WindowShows-reopen app received h.1)
Shows-process_event quit app received n h = h
Shows-process_event cursor_tick app received n h =
    Shows-update cursor_tick app received (handle_event-tick app.state) h
