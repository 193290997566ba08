-- ===== src/Desktop.antt =====
-- crates/desktop/src/daemon.rs, and the types of crates/desktop/src/models.rs: the state that the
-- desktop application's service and its window share, and the operations on it. And, of
-- crates/desktop/src/daemon/workers.rs: `update_instance_state`.
pub mod Api
pub mod Unique
pub mod Isolation
pub mod Models
pub mod NetworkLogs
pub mod Root
pub mod Pump
pub mod Latency
pub mod Launcher
mod Tests
use lab_stream_gate.Common.{
  ℕ, Bool, true, false, not, ◌&&◌, Option, none, some, List, [], ◌∷◌, ◌++◌, ◌==◌, if◌then◌else◌,
  length, retain, Result, ok, err,
}
use lab_stream_gate.Common.Text.{Text, codes, same}
use lab_stream_gate.Common.Dict.{Dict, lookup}
use lab_stream_gate.Http.{Http, http_error, bad_request}
use lab_stream_gate.Daemon.{Listen, create_tcp_listener}

-- The latency of an instance in milliseconds; none stands for -1.
pub record InstanceData : Type 0 where
  pub label : Text
  pub remote : Text
  pub local : Text
  pub latency : Option ℕ
  pub scope_host : Text

-- `FeatureFlags` by its two bits.
pub record FeatureFlags : Type 0 where
  pub basic : Bool
  pub ping_fall : Bool

-- The settings are JSON values by their texts.
pub record ScopeData : Type 0 where
  pub host : Text
  pub name : Text
  pub state : Text
  pub features : FeatureFlags
  pub settings : Dict Text

-- What the file `scopes.toml` holds.
pub data ScopesFile : Type 0 where
  is_absent is_torn : ScopesFile
  holds : List ScopeData → ScopesFile

-- `struct LogEntry`, its timestamp by the text it is printed as.
pub record LogEntry : Type 0 where
  pub timestamp : Text
  pub level : Text
  pub target : Text
  pub message : Text

pub data UiEvent : Type 0 where
  online : ℕ → UiEvent
  refresh : UiEvent
  log : LogEntry → UiEvent
  logs : List LogEntry → UiEvent
  has_updates : Bool → UiEvent
  popup quit cursor_tick : UiEvent

-- `struct ServerState`, what the operations use of it; `events` are those sent, the first one first.
-- An instance stands for its `ProxyInstance`.
pub record ServerState : Type 0 where
  pub instances : List InstanceData
  pub scopes : List ScopeData
  pub scopes_file : ScopesFile
  pub events : List UiEvent

abbrev pub send : UiEvent → ServerState → ServerState
send e s = record s { events = s.events ++ e ∷ [] }

-- How `persist_to` ends: the file is written, its directory cannot be made, or writing breaks off.
pub data Persist : Type 0 where
  is_written no_directory breaks_off : Persist

-- `persist_scopes`; failures are only logged.
unfoldable pub persist_scopes : Persist → ServerState → ServerState
persist_scopes is_written s = record s { scopes_file = holds s.scopes }
persist_scopes no_directory s = s
persist_scopes breaks_off s = record s { scopes_file = is_torn }

-- `iter().find(..)` and `iter().any(..)`.
unfoldable pub find {ℓ} : {A : Type ℓ} → (A → Bool) → List A → Option A
find p [] = none
find p (x ∷ xs) = if p x then some x else find p xs

unfoldable pub any {ℓ} : {A : Type ℓ} → (A → Bool) → List A → Bool
any p [] = false
any p (x ∷ xs) = if p x then true else any p xs

-- A change of what `iter_mut().find(..)` gives.
unfoldable pub update_first {ℓ} : {A : Type ℓ} → (A → Bool) → (A → A) → List A → List A
update_first p f [] = []
update_first p f (x ∷ xs) = let rest = update_first p f xs in if p x then f x ∷ xs else x ∷ rest

-- `position(..)` and `remove(index)`.
unfoldable pub remove_first {ℓ} : {A : Type ℓ} → (A → Bool) → List A → List A
remove_first p [] = []
remove_first p (x ∷ xs) = let rest = remove_first p xs in if p x then xs else x ∷ rest

abbrev pub has_local : Text → InstanceData → Bool
has_local l i = same i.local l

abbrev pub has_host : Text → ScopeData → Bool
has_host h s = same s.host h

abbrev pub is_duplicate : InstanceData → InstanceData → Bool
is_duplicate data_of i = same i.remote data_of.remote && same i.scope_host data_of.scope_host

abbrev pub relabel : Text → InstanceData → InstanceData
relabel label i = record i { label = label }

unfoldable pub taken_message : Text → Text
taken_message local =
    codes "The local address " ++ (local ++ codes " is already taken by another instance")

-- `ProxyInstance::new`.
unfoldable pub new_instance : InstanceData → Text → InstanceData
new_instance requested local = record requested { local = local; latency = none }

abbrev pub same_latency : Option ℕ → Option ℕ → Bool
same_latency none none = true
same_latency (some m) (some n) = m == n
same_latency none (some n) = false
same_latency (some m) none = false

-- `update_instance_state`, with whether it changed the instance.
unfoldable pub update_instance_state : InstanceData → Option ℕ → ServerState → ServerState × Bool
unfolding find update_first
update_instance_state instance_data elapsed s =
    let is_it : InstanceData → Bool = λ i. same i.remote instance_data.remote in
    elim (find is_it s.instances) [
      | none ↦ (s, false)
      | some i ↦
          let changed = record s {
            instances =
                update_first is_it (λ (j : InstanceData). record j { latency = elapsed })
                  s.instances;
          } in
          if same_latency i.latency elapsed then (s, false) else (changed, true)
    ]

-- What follows the listener. A new instance's latency is measured by a task that `launch_instance`
-- starts; `measured` is what it finds, and its update counts as done when the launch is.
unfoldable pub launch_at :
    Option ℕ → InstanceData → Text → ServerState → ServerState × Http InstanceData
unfolding any find update_first new_instance update_instance_state
launch_at measured requested local s =
    let made = new_instance requested local in
    let found = find (is_duplicate requested) s.instances in
    if any (has_local local) s.instances
    then (s, err (http_error bad_request (taken_message local)))
    else elim found [
      | some i ↦ (
        send refresh (record s {
          instances = update_first (is_duplicate requested) (relabel requested.label) s.instances;
        }),
        ok (relabel requested.label i),
      )
      | none ↦
          let pushed = send refresh (record s { instances = s.instances ++ made ∷ [] }) in
          ((update_instance_state made measured pushed).0, ok made)
    ]

unfoldable pub launch_instance :
    Listen → Option ℕ → InstanceData → ServerState → ServerState × Http InstanceData
unfolding launch_at create_tcp_listener
launch_instance l measured requested s = elim (create_tcp_listener l) [
  | err e ↦ (s, err e)
  | ok local ↦ launch_at measured requested local s
]

unfoldable pub remove_instance : Text → ServerState → ServerState × Bool
remove_instance local s =
    let left = retain (λ i. not (has_local local i)) s.instances in
    let after = record s { instances = left } in
    if length left == length s.instances then (after, false) else (send refresh after, true)

unfoldable pub allow_scope : Persist → Text → ServerState → ServerState
unfolding update_first persist_scopes
allow_scope io host s = send refresh (
    persist_scopes io (record s {
      scopes =
          update_first (has_host host) (λ (x : ScopeData). record x { state = codes "allowed" })
            s.scopes;
    }))

unfoldable pub remove_scope : Persist → Text → ServerState → ServerState
unfolding find remove_first persist_scopes
remove_scope io host s = elim (find (has_host host) s.scopes) [
  | none ↦ s
  | some scope ↦ send refresh (
      persist_scopes io (record s {
        scopes = remove_first (has_host host) s.scopes;
        instances = retain (λ i. not (same i.scope_host scope.host)) s.instances;
      }))
]
