-- ===== src/Gateway/Samples.antt =====
-- Concrete inputs for the gateway.
use lab_stream_gate.Common.{
  ℕ, ◌≡◌, subst, ap, sym, ◌↔◌, length, true, false, none, some, List, [], ◌∷◌, Result, ok, err,
  if◌then◌else◌, arith, is_yes,
}
use lab_stream_gate.Common.Text.{Text, codes, same, Text-discrete, ℕ_discrete}
use lab_stream_gate.Common.Dict.{Dict, lookup, IsDict}
use lab_stream_gate.Net.{AddrText, SocketAddr, v4}
use lab_stream_gate.Proxy.{client_to_target, target_to_client}
use lab_stream_gate.Capture.Pcap.{Timestamp}
use lab_stream_gate.Gateway.Auth.{ConstantTime}
use lab_stream_gate.Gateway.Session.{Events, connected, completed}
use lab_stream_gate.Gateway.{TunnelRecord, TunnelRequest, FilePath, GlobalState}
use lab_stream_gate.Gateway.Persist.{RegistryJson, PersistIo, whole}

abbrev pub net : AddrText
net = record { parse_socket_addr = λ s. none; parse_ip = λ s. none; ip_to_string = λ ip. [] }

abbrev pub tunnel : TunnelRecord
tunnel = record {
  target = codes "web:80";
  expires_at = some 100;
  instance_id = codes "i1";
  challenge_id = codes "c1";
  user_id = codes "u1";
  competition_id = none;
  capture = true;
}

abbrev pub tunnel_key : Text
tunnel_key = codes "abcdefgh-1234567"

abbrev pub registry : Dict TunnelRecord
registry = (tunnel_key, tunnel) ∷ []

unfoldable pub Dict-discrete : Discrete (Dict TunnelRecord)
unfolding Text-discrete
Dict-discrete = hlevel ℕ_discrete

-- A serializer that knows one registry.
unfoldable pub write_known : Dict TunnelRecord → Result Text (List ℕ)
unfolding Dict-discrete
write_known m = if is_yes (Dict-discrete m registry) then ok (1 ∷ []) else err []

abbrev pub read_known : List ℕ → Result Text (Dict TunnelRecord)
read_known b = if same b (1 ∷ []) then ok registry else err []

pub write_known-eq_ok :
    (m : Dict TunnelRecord) (b : List ℕ) → write_known m ≡ ok b → (m ≡ registry) × (b ≡ 1 ∷ [])
unfolding write_known
write_known-eq_ok m b h = ground arith

pub read_known-eq_ok : (b : List ℕ) (m : Dict TunnelRecord) → read_known b ≡ ok m → registry ≡ m
read_known-eq_ok b m h = ground arith

unfoldable pub json : RegistryJson
unfolding write_known ℕ_discrete
json = record {
  to_vec = write_known;
  from_slice = read_known;
  from_slice-IsDict = λ b m h. subst IsDict (read_known-eq_ok b m h) (tt, tt);
  from_slice-to_vec = λ m b d h.
      let (e, f) = write_known-eq_ok m b h in
      (registry, ap read_known f, λ k. ap (lookup k) (sym e));
}

abbrev pub file_path : FilePath
file_path = record { path = codes "/data/r.json"; parent = some (codes "/data"); is_tmp = false }

abbrev pub no_faults : PersistIo
no_faults = record { create_dir_all = none; write = whole; rename = none }

abbrev pub state : GlobalState
state = record {
  secret = codes "s3cret";
  connections = registry;
  state_file = some file_path;
  disk = record { file = none; temporary = none };
  allowed_target_hosts = codes "web" ∷ [];
  connection_slots = 2;
  capture_root = codes "/data/captures";
  max_capture_bytes = 10;
  per_tunnel_connections = record { poisoned = false; counts = [] };
  max_connections_per_tunnel = 2;
  connection_timeout = 60;
}

abbrev pub peer : SocketAddr
peer = record { ip = v4 (record { a = 10; b = 0; c = 0; d = 7 }); port = 4711 }

abbrev pub request : TunnelRequest
request = record {
  key = tunnel_key;
  target = tunnel.target;
  expires_at = tunnel.expires_at;
  instance_id = tunnel.instance_id;
  challenge_id = tunnel.challenge_id;
  user_id = tunnel.user_id;
  competition_id = tunnel.competition_id;
  capture = tunnel.capture;
}

-- A gateway that has just started, without a state file.
abbrev pub fresh : GlobalState
fresh = record state { connections = []; state_file = none }

abbrev pub stamp : Timestamp
stamp = record { seconds = 7; micros = 5 }

-- A connection over which eight bytes go one way and two go back.
abbrev pub events : Events
events = record {
  connection_id = codes "n1";
  started_at = 60;
  ended_at = 61;
  connect = connected;
  capture_start = none;
  observations =
      record {
        direction = client_to_target;
        content = 1 ∷ 2 ∷ 3 ∷ 4 ∷ 5 ∷ 6 ∷ 7 ∷ 8 ∷ [];
        accepted = true;
        time = stamp;
      }
      ∷ record { direction = target_to_client; content = 9 ∷ 9 ∷ []; accepted = true; time = stamp }
      ∷ [];
  proxied = completed;
}

-- `ConstantTimeEq` as the comparison of lists.
pub constant_time_iff : (xs ys : List ℕ) → length xs ≡ length ys → (same xs ys ≡ true) ↔ (xs ≡ ys)
constant_time_iff xs ys l = (λ h. ground arith, λ e. ground arith)

abbrev pub constant_time : ConstantTime
constant_time = record { ct_eq = same; ct_eq_iff = constant_time_iff }
