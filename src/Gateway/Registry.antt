-- ===== src/Gateway/Registry.antt =====
-- crates/wsrx/src/cli/serve.rs: the operations on the tunnel registry, which are the handlers
-- `launch_tunnel`, `get_tunnels` and `close_tunnel`, the lookup `active_record` behind `ping` and
-- `process_traffic`, and the periodic `remove_expired`. Each returns the new state and its result.
pub mod Laws
pub mod Outcomes
pub mod Safety
use lab_stream_gate.Common.{
  ℕ, ◌≡◌, Bool, true, false, not, Option, none, some, List, ◌==◌, if◌then◌else◌, length, Result, ok,
  err, ◌>>=◌, ◌>>◌, guard,
}
use lab_stream_gate.Common.Text.{Text, codes}
use lab_stream_gate.Common.Dict.{Dict, lookup, insert, remove, retain_values}
use lab_stream_gate.Http.{
  StatusCode, HttpError, Http, http_error, ok_200, created, no_content, bad_request, not_found,
  gone,
}
use lab_stream_gate.Gateway.{TunnelRecord, TunnelRequest, is_past, is_expired, GlobalState}
use lab_stream_gate.Net.{AddrText}
use lab_stream_gate.Gateway.Validate.{validate_key, validate_target}
use lab_stream_gate.Gateway.Persist.{RegistryJson, PersistIo, persist_registry}

unfoldable pub expiry_message : Text
expiry_message = codes "expiresAt must be in the future"

unfoldable pub not_found_message : Text
not_found_message = codes "tunnel not found"

unfoldable pub expired_message : Text
expired_message = codes "tunnel expired"

abbrev pub record_of : TunnelRequest → TunnelRecord
record_of req = record {
  target = req.target;
  expires_at = req.expires_at;
  instance_id = req.instance_id;
  challenge_id = req.challenge_id;
  user_id = req.user_id;
  competition_id = req.competition_id;
  capture = req.capture;
}

-- The checks of `launch_tunnel`, in their order.
unfoldable pub check_request : AddrText → ℕ → List Text → TunnelRequest → Http (Unit {0})
check_request net now allowed req = do
  validate_key req.key
  validate_target net req.target allowed
  guard (not (is_past req.expires_at now)) (http_error bad_request expiry_message)

-- What follows a call of `persist_registry` with `?`.
abbrev pub after_persist {ℓ} :
    {A : Type ℓ} → GlobalState × Http (Unit {0}) → A → GlobalState × Http A
after_persist (s, ok u) a = (s, ok a)
after_persist (s, err e) a = (s, err e)

unfoldable pub launch_tunnel :
    AddrText
    → RegistryJson
    → PersistIo
    → ℕ
    → TunnelRequest
    → GlobalState
    → GlobalState × Http (StatusCode × TunnelRecord)
launch_tunnel net json io now req state =
    elim (check_request net now state.allowed_target_hosts req) [
      | err e ↦ (state, err e)
      | ok u ↦
          let held = record state {
            connections = insert req.key (record_of req) state.connections;
          } in
          after_persist (persist_registry json io held) (created, record_of req)
    ]

-- A failure to persist is only logged.
unfoldable pub remove_expired : RegistryJson → PersistIo → ℕ → GlobalState → GlobalState
remove_expired json io now state =
    let kept = retain_values (λ r. not (is_expired r now)) state.connections in
    let cleaned = record state { connections = kept } in
    if length kept == length state.connections
    then cleaned
    else (persist_registry json io cleaned).0

unfoldable pub get_tunnels :
    RegistryJson → PersistIo → ℕ → GlobalState → GlobalState × Dict TunnelRecord
get_tunnels json io now state =
    let cleaned = remove_expired json io now state in (cleaned, cleaned.connections)

unfoldable pub close_tunnel :
    RegistryJson → PersistIo → Text → GlobalState → GlobalState × Http StatusCode
close_tunnel json io key state = elim (lookup key state.connections) [
  | none ↦ (state, err (http_error not_found not_found_message))
  | some r ↦
      let held = record state { connections = remove key state.connections } in
      after_persist (persist_registry json io held) no_content
]

unfoldable pub active_record :
    RegistryJson → PersistIo → ℕ → Text → GlobalState → GlobalState × Http TunnelRecord
active_record json io now key state = elim (lookup key state.connections) [
  | none ↦ (state, err (http_error not_found not_found_message))
  | some r ↦
      let held = record state { connections = remove key state.connections } in
      if is_expired r now
      then ((persist_registry json io held).0, err (http_error gone expired_message))
      else (state, ok r)
]

abbrev status_of : Http TunnelRecord → StatusCode
status_of (ok r) = ok_200
status_of (err e) = e.status

unfoldable pub ping : RegistryJson → PersistIo → ℕ → Text → GlobalState → GlobalState × StatusCode
unfolding active_record
ping json io now key state =
    let (after, result) = active_record json io now key state in (after, status_of result)
