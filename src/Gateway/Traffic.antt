-- ===== src/Gateway/Traffic.antt =====
-- crates/wsrx/src/cli/serve.rs: admission of a connection by `process_traffic`, the permits that it
-- holds (`TunnelConnectionPermit` and a permit of the semaphore `connection_slots`), and `health`.
pub mod Counting
pub mod Admitting
pub mod History
use lab_stream_gate.Common.{
  ℕ, zero, suc, ◌+◌, ◌-◌, ◌≡◌, Bool, true, false, Option, none, some, List, [], ◌∷◌, leb, ◌==◌,
  if◌then◌else◌, length, Result, ok, err,
}
use lab_stream_gate.Common.Text.{Text, codes}
use lab_stream_gate.Common.Dict.{Dict, lookup, insert, remove}
use lab_stream_gate.Common.Parse.{split_first, trim}
use lab_stream_gate.Http.{
  StatusCode, HttpError, Http, http_error, internal_server_error, too_many_requests,
  service_unavailable,
}
use lab_stream_gate.Gateway.{TunnelRecord, Counts, GlobalState}
use lab_stream_gate.Net.{AddrText, SocketAddr}
use lab_stream_gate.Gateway.Persist.{RegistryJson, PersistIo}
use lab_stream_gate.Gateway.Registry.{active_record}

unfoldable pub counter_message : Text
counter_message = codes "connection counter unavailable"

unfoldable pub tunnel_limit_message : Text
tunnel_limit_message = codes "tunnel connection limit reached"

unfoldable pub gateway_limit_message : Text
gateway_limit_message = codes "gateway connection limit reached"

-- `or_default` of a counter.
abbrev pub or_zero : Option ℕ → ℕ
or_zero none = 0
or_zero (some n) = n

unfoldable pub acquire_healthy : Text → ℕ → Counts → ℕ → Counts × Http (Unit {0})
acquire_healthy key limit c count =
    if leb limit count
    then (
      record c { counts = insert key count c.counts },
      err (http_error too_many_requests tunnel_limit_message),
    )
    else (record c { counts = insert key (count + 1) c.counts }, ok tt)

-- `TunnelConnectionPermit::acquire`: the entry is made before the limit is tested.
unfoldable pub acquire : Text → ℕ → Counts → Counts × Http (Unit {0})
unfolding acquire_healthy
acquire key limit c =
    if c.poisoned
    then (c, err (http_error internal_server_error counter_message))
    else acquire_healthy key limit c (or_zero (lookup key c.counts))

-- `TunnelConnectionPermit::drop`; `saturating_sub` is the subtraction of natural numbers.
unfoldable pub release : Text → Counts → Counts
release key c = elim (lookup key c.counts) [
  | none ↦ c
  | some count ↦
      let left = count - 1 in
      let gone = record c { counts = remove key c.counts } in
      let lower = record c { counts = insert key left c.counts } in
      if c.poisoned then c else if left == 0 then gone else lower
]

-- `forwarded_client`: the first address of `x-forwarded-for`, if the header is text and the address
-- can be read, with the port of the peer.
unfoldable pub forwarded_client : AddrText → Option Text → SocketAddr → SocketAddr
forwarded_client net none peer = peer
forwarded_client net (some value) peer = elim (net.parse_ip (trim (split_first b',' value))) [
  | none ↦ peer
  | some ip ↦ record { ip = ip; port = peer.port }
]

-- What the code behind the WebSocket upgrade works with; it owns one permit of either kind.
pub record Admission : Type 0 where
  pub tunnel : TunnelRecord
  pub key : Text
  pub client : SocketAddr

-- A semaphore's permit is taken, or the tunnel's permit is dropped by the early return.
unfoldable pub take_slot : Text → Admission → GlobalState → GlobalState × Http Admission
unfolding release
take_slot key a s =
    if s.connection_slots == 0
    then (
      record s { per_tunnel_connections = release key s.per_tunnel_connections },
      err (http_error service_unavailable gateway_limit_message),
    )
    else (record s { connection_slots = s.connection_slots - 1 }, ok a)

unfoldable pub take_tunnel :
    Text → Admission → GlobalState → Counts × Http (Unit {0}) → GlobalState × Http Admission
unfolding take_slot
take_tunnel key a s (c, ok u) = take_slot key a (record s { per_tunnel_connections = c })
take_tunnel key a s (c, err e) = (record s { per_tunnel_connections = c }, err e)

unfoldable pub take_permits :
    AddrText
    → Option Text
    → SocketAddr
    → Text
    → GlobalState × Http TunnelRecord
    → GlobalState × Http Admission
unfolding take_tunnel acquire forwarded_client
take_permits net header peer key (s, err e) = (s, err e)
take_permits net header peer key (s, ok r) =
    take_tunnel key (record { tunnel = r; key = key; client = forwarded_client net header peer }) s
      (acquire key s.max_connections_per_tunnel s.per_tunnel_connections)

-- `process_traffic` up to the upgrade.
unfoldable pub admit :
    AddrText
    → RegistryJson
    → PersistIo
    → ℕ
    → Option Text
    → SocketAddr
    → Text
    → GlobalState
    → GlobalState × Http Admission
unfolding take_permits active_record
admit net json io now header peer key s =
    take_permits net header peer key (active_record json io now key s)

-- The end of a connection, or of an upgrade that fails: both permits are dropped.
unfoldable pub finish : Text → GlobalState → GlobalState
unfolding release
finish key s = record s {
  connection_slots = s.connection_slots + 1;
  per_tunnel_connections = release key s.per_tunnel_connections;
}

unfoldable pub sum_values : Dict ℕ → ℕ
sum_values [] = 0
sum_values ((k, n) ∷ m) = n + sum_values m

-- The numbers that `health` reports.
pub record Health : Type 0 where
  active_tunnels : ℕ
  pub available_connections : ℕ
  pub active_tunnel_connections : ℕ

unfoldable pub health : GlobalState → Health
unfolding sum_values
health s = record {
  active_tunnels = length s.connections;
  available_connections = s.connection_slots;
  active_tunnel_connections =
      if s.per_tunnel_connections.poisoned then 0 else sum_values s.per_tunnel_connections.counts;
}
