-- ===== src/Gateway/Lifetime/Tests.antt =====
-- A launch, a request and a restart of the gateway at concrete inputs.
use lab_stream_gate.Common.{◌≡◌, refl, none, some, List, [], ◌∷◌, false, ok, arith}
use lab_stream_gate.Common.Text.{Text, codes, utf8, Text-discrete, ℕ_discrete}
use lab_stream_gate.Common.Dict.{lookup, insert}
use lab_stream_gate.Common.Parse.{strip_prefix}
use lab_stream_gate.Gateway.{is_expired, Disk, GlobalState}
use lab_stream_gate.Gateway.Samples.{
  net, json, constant_time, file_path, request, tunnel_key, write_known, Dict-discrete,
}
use lab_stream_gate.Gateway.Auth.{authorize_management}
use lab_stream_gate.Gateway.Persist.{load_registry, persist_registry}
use lab_stream_gate.Gateway.Validate.{parse_allowed_hosts, validate_key, validate_target}
use lab_stream_gate.Gateway.Registry.{launch_tunnel, check_request}
use lab_stream_gate.Gateway.Router.{post_pool, pool, management}
use lab_stream_gate.Gateway.Launch.{Config, launch, launch_with, started, default_capture_root}
use lab_stream_gate.Gateway.Lifetime.{Moment, requests, looks_up, run_history, apply, meaning}
use lab_stream_gate.Gateway.Lifetime.Standing.{keep, read_of}
use lab_stream_gate.Gateway.Lifetime.Restart.{launch-restart}

abbrev long_secret : Text
long_secret = codes "0123456789abcdef0123456789abcdef"

abbrev config : Config
config = record {
  secret = some long_secret;
  admin_token = none;
  gateway_admin_token = none;
  state_file = some file_path;
  allowed_target_hosts = codes "web" ∷ [];
  max_connections = 2;
  capture_root = none;
  max_capture_bytes = 10;
  max_connections_per_tunnel = 2;
  connection_timeout_seconds = 60;
}

abbrev empty_disk : Disk
empty_disk = record { file = none; temporary = none }

abbrev first_state : GlobalState
first_state = record {
  secret = long_secret;
  connections = [];
  state_file = some file_path;
  disk = empty_disk;
  allowed_target_hosts = codes "web" ∷ [];
  connection_slots = 2;
  capture_root = codes "/data";
  max_capture_bytes = 10;
  per_tunnel_connections = record { poisoned = false; counts = [] };
  max_connections_per_tunnel = 2;
  connection_timeout = 60;
}

-- A tunnel is launched, and a connection looks it up.
abbrev day : List Moment
day =
    record {
      now = 50;
      event =
          requests (some (codes "Bearer 0123456789abcdef0123456789abcdef"))
            (post_pool (ok request));
    }
    ∷ record { now = 60; event = looks_up tunnel_key }
    ∷ []

launch-restart_example :
    (t : GlobalState) × (launch json 70 config
        (run_history constant_time net json day first_state).disk
        (read_of (run_history constant_time net json day first_state).disk.file)
      ≡ ok t)
    × ((k : Text)
        → lookup k t.connections
          ≡ keep 70 (
              meaning constant_time net first_state.secret first_state.allowed_target_hosts day
                (λ j. lookup j first_state.connections)
                k))
unfolding launch launch_with started json write_known Dict-discrete Text-discrete ℕ_discrete
    load_registry parse_allowed_hosts default_capture_root run_history apply management pool
    launch_tunnel check_request validate_key validate_target authorize_management utf8 strip_prefix
    persist_registry insert lookup is_expired
launch-restart_example =
    launch-restart constant_time net json config file_path empty_disk 40 70 day first_state refl
      refl (omega arith, (omega arith, omega arith)) ((1 ∷ [], refl), ((1 ∷ [], refl), tt))
