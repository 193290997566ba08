-- ===== src/Gateway/Session/Audited.antt =====
-- What an audit record says of the traffic of its connection.
use lab_stream_gate.Common.{
  ℕ, ◌+◌, ◌%◌, ◌<◌, ◌≡◌, refl, ap, ◌∙◌, ◌≢◌, ◌↔◌, List, [], ◌∷◌, arith, length,
}
use lab_stream_gate.Common.Text.{Text, codes}
use lab_stream_gate.Net.{SocketAddr, AddrText}
use lab_stream_gate.Proxy.{TrafficDirection, client_to_target, target_to_client, ProxyStats}
use lab_stream_gate.Capture.Observer.{u64_mod}
use lab_stream_gate.Gateway.{TunnelRecord}
use lab_stream_gate.Gateway.Session.{
  ConnectionObserver, Observation, observe_traffic, observe_all, Connect, connected, Events,
  conclude, connect_failed, connect_timed_out, completed, proxy_failed, proxy_timed_out, Proxied,
  audit_instance, audit, stats, result_text, started_connection, count_traffic, observed_connection,
  serve_connection, classify_proxy_error,
}

-- The bytes of the calls in one direction.
abbrev pub count_in : TrafficDirection → TrafficDirection → ℕ → ℕ
count_in client_to_target client_to_target n = n
count_in client_to_target target_to_client n = 0
count_in target_to_client client_to_target n = 0
count_in target_to_client target_to_client n = n

unfoldable pub bytes_of : TrafficDirection → List Observation → ℕ
bytes_of d [] = 0
bytes_of d (o ∷ os) = count_in d o.direction (length o.content) + bytes_of d os

count_traffic-counters :
    (d : TrafficDirection) (n : ℕ) (c : ConnectionObserver)
    → c.client_to_target < u64_mod
    → c.target_to_client < u64_mod
    → ((count_traffic d n c).client_to_target
        ≡ (c.client_to_target + count_in client_to_target d n) % u64_mod)
      × ((count_traffic d n c).target_to_client
          ≡ (c.target_to_client + count_in target_to_client d n) % u64_mod)
unfolding count_traffic
count_traffic-counters client_to_target n c one two = (omega arith, omega arith)
count_traffic-counters target_to_client n c one two = (omega arith, omega arith)

-- The counters of a connection's observer, after calls in any order.
observe_all-counters :
    (os : List Observation) (c : ConnectionObserver)
    → c.client_to_target < u64_mod
    → c.target_to_client < u64_mod
    → ((observe_all os c).client_to_target
        ≡ (c.client_to_target + bytes_of client_to_target os) % u64_mod)
      × ((observe_all os c).target_to_client
          ≡ (c.target_to_client + bytes_of target_to_client os) % u64_mod)
unfolding observe_all observe_traffic bytes_of
observe_all-counters [] c one two = (omega arith, omega arith)
observe_all-counters (o ∷ os) c one two =
    let (here, there) = count_traffic-counters o.direction (length o.content) c one two in
    let (left, right) = observe_all-counters os (observe_traffic o c) (omega arith) (omega arith) in
    (omega arith, omega arith)

conclude-bytes :
    (net : AddrText) (r : TunnelRecord) (instance_id : Text) (client : SocketAddr) (e : Events)
    (c : ConnectionObserver) (outcome : Connect)
    → outcome ≡ connected
    → ((conclude net r instance_id client e c outcome).client_to_target_bytes ≡ c.client_to_target)
      × ((conclude net r instance_id client e c outcome).target_to_client_bytes
          ≡ c.target_to_client)
unfolding conclude audit
conclude-bytes net r instance_id client e c connected up = (refl, refl)
conclude-bytes net r instance_id client e c (connect_failed error) up = ground arith
conclude-bytes net r instance_id client e c connect_timed_out up = ground arith

-- A connection that is established is audited with the bytes of the observations in each direction,
-- as 64-bit counters.
pub serve_connection-bytes :
    (net : AddrText) (r : TunnelRecord) (key : Text) (client : SocketAddr) (max_bytes : ℕ)
    (e : Events)
    → e.connect ≡ connected
    → ((serve_connection net r key client max_bytes e).client_to_target_bytes
        ≡ bytes_of client_to_target e.observations % u64_mod)
      × ((serve_connection net r key client max_bytes e).target_to_client_bytes
          ≡ bytes_of target_to_client e.observations % u64_mod)
unfolding serve_connection observed_connection started_connection
serve_connection-bytes net r key client max_bytes e up =
    let (there, back) =
      observe_all-counters e.observations (started_connection r max_bytes e) (omega arith)
        (omega arith) in
    let (left, right) =
      conclude-bytes net r (audit_instance r key) client e (observed_connection r max_bytes e)
        e.connect up in
    (
      left ∙ there ∙ ap (λ n. n % u64_mod) (omega arith),
      right ∙ back ∙ ap (λ n. n % u64_mod) (omega arith),
    )

classify-≢-completed :
    (error : Text) (s : ProxyStats) → classify_proxy_error error s ≢ codes "completed"
unfolding classify_proxy_error
classify-≢-completed error s h = ground arith

result_text-eq-completed :
    (p : Proxied) (s : ProxyStats) → result_text p s ≡ codes "completed" → p ≡ completed
result_text-eq-completed completed s h = refl
result_text-eq-completed (proxy_failed error) s h = absurd (classify-≢-completed error s h)
result_text-eq-completed proxy_timed_out s h = ground arith

conclude-completed_iff :
    (net : AddrText) (r : TunnelRecord) (instance_id : Text) (client : SocketAddr) (e : Events)
    (c : ConnectionObserver) (outcome : Connect)
    → ((conclude net r instance_id client e c outcome).result ≡ codes "completed")
      ↔ ((outcome ≡ connected) × (e.proxied ≡ completed))
unfolding conclude audit
conclude-completed_iff net r instance_id client e c connected = (
  λ h. (refl, result_text-eq-completed e.proxied (stats c) h),
  λ (up, done). ap (λ p. result_text p (stats c)) done,
)
conclude-completed_iff net r instance_id client e c (connect_failed error) =
    (λ h. ground arith, λ (up, done). ground arith)
conclude-completed_iff net r instance_id client e c connect_timed_out =
    (λ h. ground arith, λ (up, done). ground arith)

-- An audit record says "completed" exactly if the connection was established and the proxy ended
-- without an error, before its time was up.
pub serve_connection-completed_iff :
    (net : AddrText) (r : TunnelRecord) (key : Text) (client : SocketAddr) (max_bytes : ℕ)
    (e : Events)
    → ((serve_connection net r key client max_bytes e).result ≡ codes "completed")
      ↔ ((e.connect ≡ connected) × (e.proxied ≡ completed))
unfolding serve_connection
serve_connection-completed_iff net r key client max_bytes e =
    conclude-completed_iff net r (audit_instance r key) client e (observed_connection r max_bytes e)
      e.connect
