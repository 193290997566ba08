-- ===== src/Desktop/Root.antt =====
-- crates/desktop/src/ui/root.rs: the state of the main window and the events it handles.
use lab_stream_gate.Common.{
  ℕ, ◌-◌, Bool, true, false, not, Option, none, some, List, [], ◌∷◌, ◌++◌, ltb, ◌==◌, if◌then◌else◌,
  length, drop, retain,
}
use lab_stream_gate.Common.Text.{Text, codes, same}
use lab_stream_gate.Daemon.{contains_text}
use lab_stream_gate.Desktop.{
  InstanceData, ScopeData, ServerState, LogEntry, UiEvent, online, refresh, log, logs, has_updates,
  popup, quit, cursor_tick, find, has_host,
}
use lab_stream_gate.Desktop.NetworkLogs.Editor.{format_logs}

pub data Page : Type 0 where
  home log_page settings_page : Page
  scope_page : Text → Page

-- `struct RootView`, what its operations change; `shown` is the text that the editor of the log page
-- was last given.
pub record RootView : Type 0 where
  pub page : Page
  pub scopes : List ScopeData
  pub instances : List InstanceData
  pub entries : List LogEntry
  pub api_port : ℕ
  is_online : Bool
  pub updates : Bool
  interfaces : List Text
  selected_interface : Text
  cursor_visible : Bool
  pub shown : Text

unfoldable pub refresh_from_state : ServerState → RootView → RootView
refresh_from_state state view = record view { scopes = state.scopes; instances = state.instances }

-- `MAX_LOGS`.
abbrev pub max_logs : ℕ
max_logs = 1000

abbrev with_entries : List LogEntry → RootView → RootView
with_entries kept view = record view { entries = kept; shown = format_logs kept }

unfoldable pub handle_logs : List LogEntry → RootView → RootView
unfolding format_logs
handle_logs added view =
    let all_logs = view.entries ++ added in
    let excess : ℕ = length all_logs - max_logs in
    if ltb max_logs (length all_logs)
    then with_entries (drop excess all_logs) view
    else with_entries all_logs view

abbrev pub blinks : Page → Bool
blinks home = true
blinks log_page = false
blinks settings_page = false
blinks (scope_page host) = false

unfoldable pub handle_event : ServerState → UiEvent → RootView → RootView
unfolding refresh_from_state handle_logs
handle_event state (online port) view = record view { api_port = port; is_online = true }
handle_event state refresh view = refresh_from_state state view
handle_event state (log entry) view = handle_logs (entry ∷ []) view
handle_event state (logs entries) view = handle_logs entries view
handle_event state (has_updates value) view = record view { updates = value }
handle_event state popup view = view
handle_event state quit view = view
handle_event state cursor_tick view =
    if blinks view.page then record view { cursor_visible = not view.cursor_visible } else view

-- `default_scope`.
unfoldable pub default_scope : ScopeData
default_scope = record {
  host = codes "default-scope";
  name = codes "Default Scope";
  state = codes "allowed";
  features = record { basic = true; ping_fall = false };
  settings = [];
}

unfoldable pub scope_of : Page → RootView → Option ScopeData
unfolding find default_scope
scope_of (scope_page host) view =
    if same host (codes "default-scope")
    then some default_scope
    else find (has_host host) view.scopes
scope_of home view = none
scope_of log_page view = none
scope_of settings_page view = none

abbrev pub scope_for_page : RootView → Option ScopeData
scope_for_page view = scope_of view.page view

unfoldable pub instances_of : Page → RootView → List InstanceData
instances_of (scope_page host) view = retain (λ i. same i.scope_host host) view.instances
instances_of home view = []
instances_of log_page view = []
instances_of settings_page view = []

abbrev pub scoped_instances : RootView → List InstanceData
scoped_instances view = instances_of view.page view

unfoldable pub change_page : ServerState → Page → RootView → RootView
unfolding refresh_from_state
change_page state page view = refresh_from_state state (record view { page = page })

-- An address of a network interface by its text.
pub data Interface : Type 0 where
  v4 v6 : Text → Interface

abbrev push_new : Text → List Text → List Text
push_new ip found = if contains_text found ip then found else found ++ ip ∷ []

-- The loop of `default_interfaces`.
unfoldable pub add_interfaces : List Interface → List Text → List Text
unfolding contains_text
add_interfaces [] found = found
add_interfaces (v6 ip ∷ rest) found = add_interfaces rest found
add_interfaces (v4 ip ∷ rest) found = add_interfaces rest (push_new ip found)

-- `default_interfaces` from what `list_afinet_netifas` gives, `[]` also where it fails.
unfoldable pub default_interfaces : List Interface → List Text
unfolding add_interfaces
default_interfaces listed =
    push_new (codes "0.0.0.0") (add_interfaces listed (codes "127.0.0.1" ∷ []))

unfoldable pub refresh_interfaces : List Interface → RootView → RootView
unfolding default_interfaces
refresh_interfaces listed view =
    let found = default_interfaces listed in
    if contains_text found view.selected_interface
    then record view { interfaces = found }
    else record view { interfaces = found; selected_interface = codes "127.0.0.1" }

-- `RootView::view`, from the shared state and what else it reads there.
unfoldable pub new_view : ServerState → List LogEntry → ℕ → Bool → List Interface → RootView
unfolding format_logs refresh_from_state default_interfaces
new_view state entries api_port updates listed = refresh_from_state state (record {
  page = home;
  scopes = [];
  instances = [];
  entries = entries;
  api_port = api_port;
  is_online = not (api_port == 0);
  updates = updates;
  interfaces = default_interfaces listed;
  selected_interface = codes "127.0.0.1";
  cursor_visible = true;
  shown = format_logs entries;
})
