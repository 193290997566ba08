-- ===== src/Desktop/Tests.antt =====
-- The theorems of the desktop application's service at concrete inputs.
use lab_stream_gate.Common.{map, ◌≡◌, refl, true, false, none, some, [], ◌∷◌, ok, err, arith}
use lab_stream_gate.Common.Text.{Text, codes, Text-discrete, ℕ_discrete}
use lab_stream_gate.Common.Dict.{lookup}
use lab_stream_gate.Http.{http_error, accepted, created, forbidden}
use lab_stream_gate.Daemon.{bound}
use lab_stream_gate.Desktop.{
  InstanceData, ScopeData, FeatureFlags, ServerState, refresh, is_absent, is_written, any,
  allow_scope, remove_scope,
}
use lab_stream_gate.Desktop.Api.{
  get_instances, launch, close_instance, get_control_status, request_control, scope_message,
  PingFallSettings, non_success_status,
}
use lab_stream_gate.Desktop.Unique.{IsTidy, Reach, here, next, launches, Reach-IsTidy}
use lab_stream_gate.Desktop.Latency.{latency_round, IsTold, latency_round-IsTold}
use lab_stream_gate.Desktop.Isolation.{
  unmeasured, get_instances-close_instance, get_instances-launch, get_control_status_lifecycle,
}

abbrev lab : Text
lab = codes "https://lab.example"

abbrev both : FeatureFlags
both = record { basic = true; ping_fall = true }

abbrev empty_state : ServerState
empty_state = record { instances = []; scopes = []; scopes_file = is_absent; events = [] }

empty_state-IsTidy : IsTidy empty_state
empty_state-IsTidy = record { locals = tt; hosts = tt }

abbrev wanted : InstanceData
wanted = record {
  label = codes "web";
  remote = codes "wss://gate.example/k";
  local = codes "127.0.0.1:0";
  latency = none;
  scope_host = [];
}

abbrev launched : ServerState
launched = (launch (bound (codes "127.0.0.1:1")) none lab wanted empty_state).0

Reach-launched : Reach empty_state launched
Reach-launched = next here (launches (bound (codes "127.0.0.1:1")) none lab wanted empty_state)

abbrev dropping : PingFallSettings
dropping = record { status = 503 ∷ []; drop_unknown = false }

abbrev lab_scope : ScopeData
lab_scope = record {
  host = lab;
  name = [];
  state = codes "allowed";
  features = both;
  settings = (codes "pingfall", codes "{}") ∷ [];
}

abbrev watched : ServerState
watched = record launched { scopes = lab_scope ∷ [] }

-- The instance is dropped, and the window hears of it.
latency_round-watched :
    (latency_round (λ t. dropping) (λ i. err (non_success_status 503)) watched).instances ≡ []
unfolding latency_round launch Text-discrete ℕ_discrete lookup
latency_round-watched = refl

latency_round-watched_events :
    (latency_round (λ t. dropping) (λ i. err (non_success_status 503)) watched).events
    ≡ refresh ∷ refresh ∷ []
unfolding latency_round launch Text-discrete ℕ_discrete lookup
latency_round-watched_events = refl

Reach-IsTidy_example : IsTidy launched
Reach-IsTidy_example = Reach-IsTidy empty_state launched empty_state-IsTidy Reach-launched

get_instances-close_instance_example :
    get_instances (codes "https://b.example") (close_instance lab (codes "127.0.0.1:1") launched).0
    ≡ get_instances (codes "https://b.example") launched
get_instances-close_instance_example =
    get_instances-close_instance lab (codes "https://b.example") (codes "127.0.0.1:1") launched
      (Reach-IsTidy empty_state launched empty_state-IsTidy Reach-launched) (λ e. ground arith)

get_instances-launch_example :
    map unmeasured (
      get_instances
        (codes "https://b.example")
        (launch (bound (codes "127.0.0.1:2")) (some 40) lab wanted launched).0)
    ≡ map unmeasured (get_instances (codes "https://b.example") launched)
get_instances-launch_example =
    get_instances-launch (bound (codes "127.0.0.1:2")) (some 40) lab (codes "https://b.example")
      wanted launched (λ e. ground arith)

get_control_status_lifecycle_example :
    let t = (request_control is_written lab none empty_state).0 in
    (get_control_status lab t ≡ ok created)
    × (get_control_status lab (allow_scope is_written lab t) ≡ ok accepted)
    × (get_control_status lab (remove_scope is_written lab t)
        ≡ err (http_error forbidden (scope_message lab)))
unfolding any
get_control_status_lifecycle_example =
    get_control_status_lifecycle is_written is_written lab none empty_state refl

latency_round-IsTold_example :
    IsTold watched (latency_round (λ t. dropping) (λ i. err (non_success_status 503)) watched)
latency_round-IsTold_example =
    latency_round-IsTold (λ t. dropping) (λ i. err (non_success_status 503)) watched
