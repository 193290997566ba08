-- ===== src/Desktop/Api.antt =====
-- crates/desktop/src/daemon/api.rs: the handlers of the desktop application's HTTP interface. The
-- origin is the text of the header `Origin`, empty if there is none. And, of
-- crates/desktop/src/daemon/workers.rs: `pingfall`.
use lab_stream_gate.Common.{
  ℕ, Bool, true, false, ◌||◌, Option, none, some, List, [], ◌∷◌, ◌++◌, ◌==◌, if◌then◌else◌,
  is_empty, retain, ok, err,
}
use lab_stream_gate.Common.Text.{Text, codes, same}
use lab_stream_gate.Common.Dict.{lookup}
use lab_stream_gate.Http.{
  StatusCode, Http, http_error, ok_200, created, accepted, bad_request, forbidden,
}
use lab_stream_gate.Daemon.{Listen, ends_with}
use lab_stream_gate.Desktop.{
  InstanceData, FeatureFlags, ScopeData, refresh, popup, ServerState, send, Persist, persist_scopes,
  find, any, update_first, has_local, has_host, launch_instance, remove_instance,
}

-- The predicate of the CORS layer of `/pool` and `/popup`.
unfoldable pub allow_scope_origin : List ScopeData → Text → Bool
unfolding ends_with
allow_scope_origin [] origin = false
allow_scope_origin (s ∷ ss) origin =
    if ends_with origin s.host then true else allow_scope_origin ss origin

unfoldable pub get_instances : Text → ServerState → List InstanceData
get_instances origin s = retain (λ (i : InstanceData). same i.scope_host origin) s.instances

unfoldable pub launch :
    Listen → Option ℕ → Text → InstanceData → ServerState → ServerState × Http InstanceData
unfolding launch_instance
launch l measured origin requested s =
    launch_instance l measured (record requested { scope_host = origin }) s

unfoldable pub tunnel_message : Text → Text
tunnel_message local = codes "Tunnel " ++ (local ++ codes " not found")

unfoldable pub close_instance : Text → Text → ServerState → ServerState × Http StatusCode
unfolding find remove_instance tunnel_message
close_instance origin local s = elim (find (has_local local) s.instances) [
  | none ↦ (s, err (http_error bad_request (tunnel_message local)))
  | some i ↦
      let message = tunnel_message local ++ (codes " in scope " ++ origin) in
      if same i.scope_host origin
      then ((remove_instance local s).0, ok ok_200)
      else (s, err (http_error bad_request message))
]

unfoldable pub scope_message : Text → Text
scope_message origin = codes "Scope " ++ (origin ++ codes " not found")

abbrev pub pending : Text
pending = codes "pending"

unfoldable pub get_control_status : Text → ServerState → Http StatusCode
unfolding find scope_message
get_control_status origin s = elim (find (has_host origin) s.scopes) [
  | none ↦ err (http_error forbidden (scope_message origin))
  | some scope ↦ if same scope.state pending then ok created else ok accepted
]

abbrev pub basic_only : FeatureFlags
basic_only = record { basic = true; ping_fall = false }

-- The scope that a request makes; its body is none if it cannot be read.
unfoldable pub requested_scope : Text → Option ScopeData → ScopeData
requested_scope origin none = record {
  host = origin;
  name = origin;
  state = pending;
  features = basic_only;
  settings = [];
}
requested_scope origin (some body) = record {
  host = origin;
  name = if is_empty body.name then origin else body.name;
  state = pending;
  features = body.features;
  settings = body.settings;
}

unfoldable pub request_control :
    Persist → Text → Option ScopeData → ServerState → ServerState × StatusCode
unfolding any requested_scope persist_scopes
request_control io origin body s = if any (has_host origin) s.scopes then (s, accepted) else (
  send refresh
      (persist_scopes io (record s { scopes = s.scopes ++ requested_scope origin body ∷ [] })),
  ok_200,
)

abbrev pub with_info : ScopeData → ScopeData → ScopeData
with_info body scope = record scope {
  name = body.name;
  features = body.features;
  settings = body.settings;
}

unfoldable pub update_website_info :
    Persist → Text → ScopeData → ServerState → ServerState × Http StatusCode
unfolding find update_first persist_scopes scope_message
update_website_info io origin body s = elim (find (has_host origin) s.scopes) [
  | none ↦ (s, err (http_error forbidden (scope_message origin)))
  | some scope ↦ (
    send refresh (
        persist_scopes io
          (record s { scopes = update_first (has_host origin) (with_info body) s.scopes })),
    ok ok_200,
  )
]

unfoldable pub popup_window : ServerState → ServerState × StatusCode
popup_window s = (send popup s, ok_200)

-- `struct PingFallSettings`.
pub record PingFallSettings : Type 0 where
  pub status : List ℕ
  pub drop_unknown : Bool

-- `enum LatencyError`.
pub data LatencyError : Type 0 where
  request : LatencyError
  non_success_status : ℕ → LatencyError

unfoldable pub contains_code : List ℕ → ℕ → Bool
contains_code [] c = false
contains_code (d ∷ ds) c = d == c || contains_code ds c

unfoldable pub drops : PingFallSettings → LatencyError → Bool
unfolding contains_code
drops p (non_success_status code) = contains_code p.status code || is_empty p.status
drops p request = p.drop_unknown

-- The settings by which an instance's scope drops it, if the scope has the feature and the settings.
abbrev pub pingfall_value : Option ScopeData → Option Text
pingfall_value none = none
pingfall_value (some scope) =
    if scope.features.ping_fall then lookup (codes "pingfall") scope.settings else none

-- `pingfall`; `from_value` reads the settings, the default ones where they are of another form.
unfoldable pub pingfall :
    (Text → PingFallSettings) → InstanceData → LatencyError → ServerState → ServerState
unfolding find drops remove_instance
pingfall from_value i e s = elim (pingfall_value (find (has_host i.scope_host) s.scopes)) [
  | none ↦ s
  | some value ↦
      let dropped = (remove_instance i.local s).0 in
      if drops (from_value value) e then dropped else s
]
