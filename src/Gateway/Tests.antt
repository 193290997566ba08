-- ===== src/Gateway/Tests.antt =====
-- The theorems of the gateway at concrete inputs.
use lab_stream_gate.Common.{
  ℕ, ◌-◌, ◌%◌, ◌≤◌, ◌<◌, ◌≡◌, refl, ◌↔◌, ◌⊎◌, false, not, none, some, List, [], ◌∷◌, arith, length,
  ok, err, All,
}
use lab_stream_gate.Common.Text.{Text, codes, bytes, utf8, Text-discrete, ℕ_discrete}
use lab_stream_gate.Common.Dict.{lookup, insert, option_keep}
use lab_stream_gate.Http.{HttpError, http_error, bad_request, forbidden, unauthorized}
use lab_stream_gate.Proxy.{client_to_target, target_to_client}
use lab_stream_gate.Capture.Observer.{u64_mod}
use lab_stream_gate.Gateway.{TunnelRecord, is_expired, GlobalState}
use lab_stream_gate.Gateway.Validate.{
  validate_key, validate_target, key_message, host_message, target_host, contains_host, named_host,
}
use lab_stream_gate.Gateway.Validate.Keys.{IsKeyChar, validate_key_iff}
use lab_stream_gate.Gateway.Validate.Targets.{Names, OneOf, validate_target_iff}
use lab_stream_gate.Gateway.Auth.{authorize_management, Credential, authorize_management_iff}
use lab_stream_gate.Gateway.Persist.{
  persist_registry, load_registry, contents, PersistEffect, persist_registry-PersistEffect,
  load-persist_registry,
}
use lab_stream_gate.Gateway.Registry.{check_request, launch_tunnel, active_record}
use lab_stream_gate.Gateway.Registry.Laws.{live}
use lab_stream_gate.Gateway.Registry.Safety
use lab_stream_gate.Gateway.Registry.Safety.{
  IsSafe, IsPermitted, launches, Reach-IsSafe, active_record-IsPermitted,
}
use lab_stream_gate.Gateway.Traffic.{Admission, admit, finish, sum_values, health}
use lab_stream_gate.Gateway.Traffic.Counting.{occurrences, close_one}
use lab_stream_gate.Gateway.Traffic.Admitting.{IsAccounted}
use lab_stream_gate.Gateway.Traffic.History
use lab_stream_gate.Gateway.Traffic.History.{enters, ends, next, here, admit_iff, Reach-health}
use lab_stream_gate.Gateway.Session.{connected, completed, serve_connection, observed_connection}
use lab_stream_gate.Gateway.Session.Audited.{
  bytes_of, serve_connection-bytes, serve_connection-completed_iff,
}
use lab_stream_gate.Gateway.Session.Captured.{IsAudited, serve_connection-capture}
use lab_stream_gate.Gateway.Samples.{
  net, tunnel, tunnel_key, json, write_known, Dict-discrete, file_path, no_faults, state, peer,
  request, fresh, events, constant_time,
}

abbrev saved_state : GlobalState
saved_state = record state { disk = record { file = some (1 ∷ []); temporary = none } }

abbrev no_keys : List Text
no_keys = []

validate_key_iff_example :
    ((validate_key tunnel_key ≡ ok tt)
      ↔ ((16 ≤ length tunnel_key) × (length tunnel_key ≤ 128) × All IsKeyChar tunnel_key))
    × ((validate_key tunnel_key ≡ ok tt)
        ⊎ (validate_key tunnel_key ≡ err (http_error bad_request key_message)))
validate_key_iff_example = validate_key_iff tunnel_key

validate_target_iff_example :
    ((validate_target net (codes "web:80") (codes "web" ∷ []) ≡ ok tt)
      ↔ ((host : Text) × Names net (codes "web:80") host × OneOf host (codes "web" ∷ [])))
    × ((validate_target net (codes "web:80") (codes "web" ∷ [])
          ≡ err (http_error forbidden host_message))
        ↔ ((host : Text) × Names net (codes "web:80") host × (¬ OneOf host (codes "web" ∷ []))))
validate_target_iff_example = validate_target_iff net (codes "web:80") (codes "web" ∷ [])

authorize_management_iff_example :
    ((authorize_management constant_time (codes "s3cret") (some (codes "Bearer s3cret")) ≡ ok tt)
      ↔ ((value : Text) × (credential : Text) × ((some (codes "Bearer s3cret")) ≡ some value)
          × Credential value credential
          × (bytes credential ≡ bytes (codes "s3cret"))))
    × ((authorize_management constant_time (codes "s3cret") (some (codes "Bearer s3cret")) ≡ ok tt)
        ⊎ (authorize_management constant_time (codes "s3cret") (some (codes "Bearer s3cret"))
            ≡ err unauthorized))
authorize_management_iff_example =
    authorize_management_iff constant_time (codes "s3cret") (some (codes "Bearer s3cret"))

persist_registry-PersistEffect_example :
    PersistEffect json state (persist_registry json no_faults state)
persist_registry-PersistEffect_example = persist_registry-PersistEffect json no_faults state

load-persist_registry_example :
    (written : List ℕ) × (saved_state.disk.file ≡ some written)
    × ((k : Text)
        → lookup k (load_registry json 50 (some file_path) (contents written))
          ≡ option_keep (λ r. not (is_expired r 50)) (lookup k state.connections))
unfolding json write_known persist_registry Dict-discrete ℕ_discrete
load-persist_registry_example =
    load-persist_registry json no_faults state saved_state file_path 50 (tt, tt) refl refl

fresh-IsSafe : IsSafe net fresh
unfolding lookup
fresh-IsSafe = record { one_entry = tt; safe_entries = λ k r h. absurd (cc) }

abbrev launched : GlobalState
launched = (launch_tunnel net json no_faults 50 request fresh).0

fresh-launched : Safety.Reach net json fresh launched
fresh-launched = Safety.Reach.next Safety.Reach.here (launches no_faults 50 request fresh)

Reach-IsSafe_example : IsSafe net launched
Reach-IsSafe_example = Reach-IsSafe fresh-IsSafe fresh-launched

active_record-IsPermitted_example :
    IsPermitted net launched.allowed_target_hosts tunnel.target × (is_expired tunnel 50 ≡ false)
unfolding active_record launch_tunnel check_request validate_key validate_target json lookup
    persist_registry Dict-discrete ℕ_discrete target_host contains_host named_host utf8 insert
    is_expired
active_record-IsPermitted_example =
    active_record-IsPermitted net json no_faults 50 tunnel_key fresh launched launched tunnel
      fresh-IsSafe fresh-launched refl

fresh-IsAccounted : IsAccounted 2 state no_keys
unfolding occurrences lookup sum_values
fresh-IsAccounted = record {
  counts = record {
    healthy = refl;
    one_entry = tt;
    exact = λ k. refl;
    bounded = λ k. omega arith;
    total = refl;
  };
  slots = omega arith;
  limited = omega arith;
}

admit_iff_example :
    (((a : Admission) × ((admit net json no_faults 50 none peer tunnel_key state).1 ≡ ok a)) ↔ (
      ((r : TunnelRecord) × (live state 50 tunnel_key ≡ some r))
      × (occurrences tunnel_key no_keys < state.max_connections_per_tunnel)
      × (length no_keys < 2)))
    × (((a : Admission) × ((admit net json no_faults 50 none peer tunnel_key state).1 ≡ ok a)
          × (live state 50 tunnel_key ≡ some a.tunnel)
          × IsAccounted 2
              (admit net json no_faults 50 none peer tunnel_key state).0
              (tunnel_key ∷ no_keys))
        ⊎ ((e : HttpError) × ((admit net json no_faults 50 none peer tunnel_key state).1 ≡ err e)
            × IsAccounted 2 (admit net json no_faults 50 none peer tunnel_key state).0 no_keys))
admit_iff_example =
    admit_iff net json no_faults 50 none peer tunnel_key 2 no_keys state fresh-IsAccounted

abbrev admission : Admission
admission = record { tunnel = tunnel; key = tunnel_key; client = peer }

abbrev entered : GlobalState
entered = record state {
  connection_slots = 1;
  per_tunnel_connections = record { poisoned = false; counts = (tunnel_key, 1) ∷ [] };
}

coming-going :
    History.Reach net json state []
      (finish tunnel_key entered)
      (close_one tunnel_key (tunnel_key ∷ []))
unfolding admit lookup occurrences ℕ_discrete insert Text-discrete is_expired
coming-going =
    next (next (here []) (enters no_faults 50 none peer tunnel_key state entered [] admission refl))
      (ends tunnel_key entered (tunnel_key ∷ []) (omega arith))

Reach-health_example :
    ((k : Text)
      → occurrences k (close_one tunnel_key (tunnel_key ∷ []))
        ≤ (finish tunnel_key entered).max_connections_per_tunnel)
    × (length (close_one tunnel_key (tunnel_key ∷ [])) ≤ 2)
    × ((health (finish tunnel_key entered)).active_tunnel_connections
        ≡ length (close_one tunnel_key (tunnel_key ∷ [])))
    × ((health (finish tunnel_key entered)).available_connections
        ≡ 2 - length (close_one tunnel_key (tunnel_key ∷ [])))
Reach-health_example = Reach-health 2 fresh-IsAccounted coming-going

serve_connection-bytes_example :
    ((serve_connection net tunnel tunnel_key peer 10 events).client_to_target_bytes
      ≡ bytes_of client_to_target events.observations % u64_mod)
    × ((serve_connection net tunnel tunnel_key peer 10 events).target_to_client_bytes
        ≡ bytes_of target_to_client events.observations % u64_mod)
serve_connection-bytes_example = serve_connection-bytes net tunnel tunnel_key peer 10 events refl

serve_connection-capture_example :
    let a = serve_connection net tunnel tunnel_key peer 10 events in
    (a.captured_bytes ≤ 10)
    × IsAudited a events.observations (observed_connection tunnel 10 events).capture
serve_connection-capture_example =
    serve_connection-capture net tunnel tunnel_key peer 10 events (omega arith)

serve_connection-completed_iff_example :
    ((serve_connection net tunnel tunnel_key peer 10 events).result ≡ codes "completed")
    ↔ ((events.connect ≡ connected) × (events.proxied ≡ completed))
serve_connection-completed_iff_example =
    serve_connection-completed_iff net tunnel tunnel_key peer 10 events
