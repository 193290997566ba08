-- ===== src/Gateway/Session.antt =====
-- crates/wsrx/src/cli/serve.rs: `ConnectionObserver`, `classify_proxy_error`, and the code of
-- `process_traffic` behind the WebSocket upgrade, which ends in one call of `write_audit`.
pub mod Audited
pub mod Captured
use lab_stream_gate.Common.{
  ℕ, ◌+◌, ◌%◌, ◌^◌, Bool, true, false, ◌&&◌, ◌||◌, Option, none, some, List, [], ◌∷◌, ◌++◌, ltb,
  if◌then◌else◌, length, take, is_empty, Result, ok, err,
}
use lab_stream_gate.Common.Text.{Text, codes}
use lab_stream_gate.Common.Parse.{contains}
use lab_stream_gate.Net.{IpAddr, SocketAddr, AddrText}
use lab_stream_gate.Proxy.{TrafficDirection, client_to_target, target_to_client, ProxyStats}
use lab_stream_gate.Capture.Pcap.{Timestamp}
use lab_stream_gate.Capture.Observer.{u64_mod, CaptureObserver, observe}
use lab_stream_gate.Capture.Segment.{relative_path}
use lab_stream_gate.Gateway.{TunnelRecord}

-- `struct ConnectionAudit`.
pub record ConnectionAudit : Type 0 where
  pub connection_id : Text
  pub instance_id : Text
  pub challenge_id : Text
  pub user_id : Text
  pub competition_id : Option Text
  pub client_ip : Text
  pub target : Text
  pub started_at : ℕ
  pub ended_at : ℕ
  pub client_to_target_bytes : ℕ
  pub target_to_client_bytes : ℕ
  pub result : Text
  pub capture_path : Option Text
  pub captured_bytes : ℕ
  pub capture_truncated : Bool

-- `struct ConnectionObserver`, with the observer of the capture if there is one.
pub record ConnectionObserver : Type 0 where
  pub client_to_target : ℕ
  pub target_to_client : ℕ
  pub capture : Option CaptureObserver

-- One call of an observer: the message, the time, and whether the channel of the capture takes it.
pub record Observation : Type 0 where
  pub direction : TrafficDirection
  pub content : List ℕ
  pub accepted : Bool
  pub time : Timestamp

abbrev pub pass_on : Observation → Option CaptureObserver → Option CaptureObserver
pass_on o none = none
pass_on o (some c) = some (observe o.accepted o.direction o.content o.time c)

unfoldable pub count_traffic : TrafficDirection → ℕ → ConnectionObserver → ConnectionObserver
count_traffic client_to_target n c = record c {
  client_to_target = (c.client_to_target + n) % u64_mod;
}
count_traffic target_to_client n c = record c {
  target_to_client = (c.target_to_client + n) % u64_mod;
}

-- `ConnectionObserver::observe`.
unfoldable pub observe_traffic : Observation → ConnectionObserver → ConnectionObserver
unfolding count_traffic
observe_traffic o c =
    let counted = count_traffic o.direction (length o.content) c in
    record counted { capture = pass_on o counted.capture }

unfoldable pub observe_all : List Observation → ConnectionObserver → ConnectionObserver
unfolding observe_traffic
observe_all [] c = c
observe_all (o ∷ os) c = observe_all os (observe_traffic o c)

-- `ConnectionObserver::stats`.
abbrev pub stats : ConnectionObserver → ProxyStats
stats c = record { client_to_target = c.client_to_target; target_to_client = c.target_to_client }

abbrev pub reset_text : Text
reset_text = codes "Connection reset without closing handshake"

abbrev pub ungraceful : Text
ungraceful = codes "completed_ungraceful_close"

unfoldable pub classify_proxy_error : Text → ProxyStats → Text
classify_proxy_error error s =
    if (ltb 0 s.client_to_target || ltb 0 s.target_to_client) && contains reset_text error
    then ungraceful
    else codes "proxy_error:" ++ error

-- How `timeout(CONNECT_TIMEOUT, TcpStream::connect(..))` ends.
pub data Connect : Type 0 where
  connected : Connect
  connect_failed : Text → Connect
  connect_timed_out : Connect

-- How the timed run of the proxy ends; a failure comes with the error's text.
pub data Proxied : Type 0 where
  completed : Proxied
  proxy_failed : Text → Proxied
  proxy_timed_out : Proxied

-- What the surroundings of one connection do.
pub record Events : Type 0 where
  pub connection_id : Text
  pub started_at : ℕ
  pub ended_at : ℕ
  pub connect : Connect
  pub capture_start : Option Text
  pub observations : List Observation
  pub proxied : Proxied

unfoldable pub audit_instance : TunnelRecord → Text → Text
audit_instance r key = if is_empty r.instance_id then take 32 key else r.instance_id

-- `write_audit`, the record that it writes.
unfoldable pub audit :
    AddrText
    → TunnelRecord
    → Text
    → SocketAddr
    → Events
    → ProxyStats
    → Text
    → Option Text
    → ℕ
    → Bool
    → ConnectionAudit
audit net r instance_id client e s result path captured truncated = record {
  connection_id = e.connection_id;
  instance_id = instance_id;
  challenge_id = r.challenge_id;
  user_id = r.user_id;
  competition_id = r.competition_id;
  client_ip = net.ip_to_string client.ip;
  target = r.target;
  started_at = e.started_at;
  ended_at = e.ended_at;
  client_to_target_bytes = s.client_to_target;
  target_to_client_bytes = s.target_to_client;
  result = result;
  capture_path = path;
  captured_bytes = captured;
  capture_truncated = truncated;
}

abbrev pub no_stats : ProxyStats
no_stats = record { client_to_target = 0; target_to_client = 0 }

-- The observer of a capture that starts, none if the record asks for none or starting fails.
unfoldable pub start_capture : Bool → Option Text → ℕ → Option CaptureObserver
start_capture false e max_bytes = none
start_capture true (some e) max_bytes = none
start_capture true none max_bytes =
    some (record { captured = 0; truncated = false; max_bytes = max_bytes; sent = [] })

abbrev pub result_text : Proxied → ProxyStats → Text
result_text completed s = codes "completed"
result_text (proxy_failed e) s = classify_proxy_error e s
result_text proxy_timed_out s = codes "connection_timeout"

abbrev pub captured_bytes_of : Option CaptureObserver → ℕ
captured_bytes_of none = 0
captured_bytes_of (some c) = c.captured

abbrev pub truncated_of : Option CaptureObserver → Bool
truncated_of none = false
truncated_of (some c) = c.truncated

abbrev pub path_of : Text → Text → Option CaptureObserver → Option Text
path_of instance_id connection_id none = none
path_of instance_id connection_id (some c) = some (relative_path instance_id connection_id)

-- The observer of the connection when the proxy starts.
unfoldable pub started_connection : TunnelRecord → ℕ → Events → ConnectionObserver
unfolding start_capture
started_connection r max_bytes e = record {
  client_to_target = 0;
  target_to_client = 0;
  capture = start_capture r.capture e.capture_start max_bytes;
}

-- The observer when it has ended.
unfoldable pub observed_connection : TunnelRecord → ℕ → Events → ConnectionObserver
unfolding observe_all started_connection
observed_connection r max_bytes e = observe_all e.observations (started_connection r max_bytes e)

-- The audit record, of an observer `c`, for each outcome of connecting.
unfoldable pub conclude :
    AddrText
    → TunnelRecord
    → Text
    → SocketAddr
    → Events
    → ConnectionObserver
    → Connect
    → ConnectionAudit
unfolding audit classify_proxy_error
conclude net r instance_id client e c (connect_failed error) =
    audit net r instance_id client e no_stats (codes "target_connect_failed:" ++ error) none 0 false
conclude net r instance_id client e c connect_timed_out =
    audit net r instance_id client e no_stats (codes "target_connect_timeout") none 0 false
conclude net r instance_id client e c connected =
    audit net r instance_id client e (stats c) (result_text e.proxied (stats c))
      (path_of instance_id e.connection_id c.capture) (captured_bytes_of c.capture)
      (truncated_of c.capture)

-- The code behind the upgrade: the audit record of the connection.
unfoldable pub serve_connection :
    AddrText → TunnelRecord → Text → SocketAddr → ℕ → Events → ConnectionAudit
unfolding conclude audit_instance observed_connection
serve_connection net r key client max_bytes e =
    conclude net r (audit_instance r key) client e (observed_connection r max_bytes e) e.connect
