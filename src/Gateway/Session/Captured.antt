-- ===== src/Gateway/Session/Captured.antt =====
-- crates/wsrx/src/cli/serve.rs and crates/wsrx/src/cli/capture.rs together: what an audit record says
-- of the capture of its connection.
use lab_stream_gate.Common.{
  ◌≢◌, ℕ, ◌+◌, ◌≤◌, ◌<◌, ◌≡◌, refl, sym, ap, subst, ◌∙◌, ◌⊎◌, inl, Bool, true, false, Option, none,
  some, List, [], ◌∷◌, ◌++◌, ◌-◌, zero, suc, arith, length, take, min, ltb, Bool-cases, append-nil,
  append_assoc, length-take, inr,
}
use lab_stream_gate.Common.Text.{Text}
use lab_stream_gate.Net.{SocketAddr, AddrText}
use lab_stream_gate.Proxy.{TrafficDirection, client_to_target, target_to_client}
use lab_stream_gate.Capture.Observer.{
  u64_mod, CaptureObserver, observe, after_reserve, reserve, exchange, set_truncated, mark_cut,
  commit, give_back,
}
use lab_stream_gate.Capture.Pcap.{CaptureMessage, packet, finish, Timestamp}
use lab_stream_gate.Capture.Observer.Interleaving.{total_size}
use lab_stream_gate.Gateway.{TunnelRecord}
use lab_stream_gate.Gateway.Session.{
  ConnectionAudit, ConnectionObserver, Observation, observe_traffic, observe_all, Connect,
  connected, Events, conclude, connect_failed, connect_timed_out, audit_instance, audit,
  started_connection, count_traffic, pass_on, start_capture, observed_connection, serve_connection,
}

-- What the writer of a capture is to be sent for the calls: each message whole, with its direction and
-- time, in their order.
abbrev pub packets_of : List Observation → List CaptureMessage
packets_of [] = []
packets_of (o ∷ os) = packet o.direction o.content o.time ∷ packets_of os

packets_of-append :
    (os : List Observation) (o : Observation)
    → packets_of (os ++ o ∷ []) ≡ packets_of os ++ packet o.direction o.content o.time ∷ []
packets_of-append [] o = refl
packets_of-append (p ∷ os) o =
    ap (◌∷◌ (packet p.direction p.content p.time)) (packets_of-append os o)

total_size-append :
    (ms : List CaptureMessage) (m : CaptureMessage)
    → total_size (ms ++ m ∷ []) ≡ total_size ms + total_size (m ∷ [])
total_size-append [] m = omega arith
total_size-append (n ∷ ms) m = omega (arith, total_size-append ms m)

-- The messages and their bytes, counted together.
abbrev weight : List CaptureMessage → ℕ
weight [] = 0
weight (finish ∷ ms) = weight ms
weight (packet d content t ∷ ms) = suc (length content + weight ms)

weight-append :
    (ms : List CaptureMessage) (d : TrafficDirection) (content : List ℕ) (t : Timestamp)
    → weight (ms ++ packet d content t ∷ []) ≡ weight ms + suc (length content)
weight-append [] d content t = omega arith
weight-append (finish ∷ ms) d content t = weight-append ms d content t
weight-append (packet e other u ∷ ms) d content t = omega (arith, weight-append ms d content t)

-- The state of a capture at a point where the calls `seen` have been observed.
unfoldable pub IsCaptured : ℕ → List Observation → Option CaptureObserver → Type 0
IsCaptured max_bytes seen none = Unit
IsCaptured max_bytes seen (some c) =
    (c.max_bytes ≡ max_bytes)
    × (c.captured ≤ max_bytes)
    × (c.captured ≡ total_size c.sent)
    × (c.truncated ≡ false → c.sent ≡ packets_of seen)
    × (weight c.sent ≤ weight (packets_of seen))
    × (c.truncated ≡ true → weight c.sent < weight (packets_of seen))

count_traffic-capture :
    (d : TrafficDirection) (n : ℕ) (c : ConnectionObserver)
    → (count_traffic d n c).capture ≡ c.capture
unfolding count_traffic
count_traffic-capture client_to_target n c = refl
count_traffic-capture target_to_client n c = refl

reserve-cases :
    (max_bytes size captured : ℕ)
    → ((max_bytes ≤ captured) × (reserve max_bytes size captured [] ≡ none))
      ⊎ ((captured < max_bytes)
          × (reserve max_bytes size captured [] ≡ some (min (max_bytes - captured) size, captured)))
unfolding reserve
reserve-cases max_bytes size captured = ground arith

take-whole : (n : ℕ) (xs : List ℕ) → length xs ≤ n → take n xs ≡ xs
take-whole zero [] h = refl
take-whole zero (x ∷ xs) h = absurd (omega arith)
take-whole (suc n) [] h = refl
take-whole (suc n) (x ∷ xs) h = ap (◌∷◌ x) (take-whole n xs (omega arith))

observe-IsCaptured :
    (o : Observation) (max_bytes : ℕ) (seen : List Observation) (c : CaptureObserver)
    → max_bytes < u64_mod
    → IsCaptured max_bytes seen (some c)
    → IsCaptured max_bytes
        (seen ++ o ∷ [])
        (some (observe o.accepted o.direction o.content o.time c))
unfolding IsCaptured observe after_reserve exchange set_truncated mark_cut commit give_back
observe-IsCaptured o max_bytes seen c small (same, bound, counted, exact, light, lost) =
    let all = λ (b : Bool).
      ap weight (packets_of-append seen (record o { accepted = b }))
      ∙ weight-append (packets_of seen) o.direction o.content o.time in
    elim (reserve-cases c.max_bytes (length o.content) c.captured) [
      | inl (full, e) ↦ rw e (
        same,
        bound,
        counted,
        λ f. absurd (cc),
        omega (arith, light, all o.accepted),
        λ f. omega (arith, light, all o.accepted),
      )
      | inr (room, e) ↦
          let n : ℕ = min (c.max_bytes - c.captured) (length o.content) in
          let l = length-take n o.content in
          let g = total_size-append c.sent (packet o.direction (take n o.content) o.time) in
          let w = weight-append c.sent o.direction (take n o.content) o.time in
          elim (Bool-cases (ltb n (length o.content))) [
            | inl y ↦
                let short : n < length o.content = ground (arith, y) in
                elim (Bool-cases o.accepted) [
                  | inl k ↦ rw e (
                      rw (y, k)
                        (
                          same,
                          omega (arith, same),
                          omega (arith, counted, g, l),
                          λ f. absurd (cc),
                          omega (arith, light, all true, w, l),
                          λ f. omega (arith, light, all true, w, l, short),
                        ))
                  | inr k ↦ rw e (
                      rw (y, k)
                        (
                          same,
                          omega (arith, same),
                          omega (arith, counted),
                          λ f. absurd (cc),
                          omega (arith, light, all false),
                          λ f. omega (arith, light, all false),
                        ))
                ]
            | inr y ↦ elim (Bool-cases o.accepted) [
              | inl k ↦
                  let whole : take n o.content ≡ o.content =
                    take-whole n o.content (ground (arith, y)) in
                  rw e (
                    rw (y, k)
                      (
                        same,
                        omega (arith, same),
                        omega (arith, counted, g, l),
                        λ f.
                            ap (λ x. c.sent ++ packet o.direction x o.time ∷ []) whole
                            ∙ ap (λ ms. ms ++ packet o.direction o.content o.time ∷ []) (exact f)
                            ∙ sym (packets_of-append seen (record o { accepted = true })),
                        omega (arith, light, all true, w, l),
                        λ f. omega (arith, lost f, all true, w, l),
                      ))
              | inr k ↦ rw e (
                  rw (y, k)
                    (
                      same,
                      omega (arith, same),
                      omega (arith, counted),
                      λ f. absurd (cc),
                      omega (arith, light, all false),
                      λ f. omega (arith, light, all false),
                    ))
            ]
          ]
    ]

pass_on-IsCaptured :
    (o : Observation) (max_bytes : ℕ) (seen : List Observation) (c : Option CaptureObserver)
    → max_bytes < u64_mod
    → IsCaptured max_bytes seen c
    → IsCaptured max_bytes (seen ++ o ∷ []) (pass_on o c)
unfolding IsCaptured
pass_on-IsCaptured o max_bytes seen none small h = tt
pass_on-IsCaptured o max_bytes seen (some c) small h = observe-IsCaptured o max_bytes seen c small h

observe_all-IsCaptured :
    (os : List Observation) (max_bytes : ℕ) (seen : List Observation) (c : ConnectionObserver)
    → max_bytes < u64_mod
    → IsCaptured max_bytes seen c.capture
    → IsCaptured max_bytes (seen ++ os) (observe_all os c).capture
unfolding observe_all observe_traffic
observe_all-IsCaptured [] max_bytes seen c small h =
    subst (λ os. IsCaptured max_bytes os c.capture) (sym (append-nil seen)) h
observe_all-IsCaptured (o ∷ os) max_bytes seen c small h =
    subst (λ ps. IsCaptured max_bytes ps (observe_all os (observe_traffic o c)).capture)
      (append_assoc seen (o ∷ []) os)
      (observe_all-IsCaptured os max_bytes (seen ++ o ∷ []) (observe_traffic o c) small (
        pass_on-IsCaptured o max_bytes seen (count_traffic o.direction (length o.content) c).capture
          small
          (subst (IsCaptured max_bytes seen)
            (sym (count_traffic-capture o.direction (length o.content) c)) h)))

-- What an audit record says of the capture `c`, when the calls `seen` have been observed.
abbrev pub IsAudited : ConnectionAudit → List Observation → Option CaptureObserver → Type 0
IsAudited a seen o =
    (a.capture_path ≡ none)
    ⊎ ((c : CaptureObserver) × (o ≡ some c)
        × (a.captured_bytes ≡ total_size c.sent)
        × (((a.capture_truncated ≡ false) × (c.sent ≡ packets_of seen))
            ⊎ ((a.capture_truncated ≡ true) × (c.sent ≢ packets_of seen))))

conclude-capture :
    (net : AddrText) (r : TunnelRecord) (instance_id : Text) (client : SocketAddr) (e : Events)
    (c : ConnectionObserver) (outcome : Connect) (max_bytes : ℕ) (seen : List Observation)
    → IsCaptured max_bytes seen c.capture
    → let a = conclude net r instance_id client e c outcome in
      (a.captured_bytes ≤ max_bytes) × IsAudited a seen c.capture
unfolding conclude audit IsCaptured
conclude-capture net r instance_id client e c connected max_bytes seen h = at c.capture h
  where
    at :
        (o : Option CaptureObserver)
        → IsCaptured max_bytes seen o
        → let a = conclude net r instance_id client e (record c { capture = o }) connected in
          (a.captured_bytes ≤ max_bytes) × IsAudited a seen o
    at none h = (omega arith, inl refl)
    at (some o) (same, bound, counted, exact, light, lost) = (
      bound,
      inr (
        o,
        refl,
        counted,
        elim (Bool-cases o.truncated) [
          | inl y ↦ inr (y, λ e. let l = lost y in omega (arith, ap weight e, l))
          | inr n ↦ inl (n, exact n)
        ],
      ),
    )
conclude-capture net r instance_id client e c (connect_failed error) max_bytes seen h =
    (omega arith, inl refl)
conclude-capture net r instance_id client e c connect_timed_out max_bytes seen h =
    (omega arith, inl refl)

started_connection-IsCaptured :
    (asked : Bool) (failure : Option Text) (max_bytes : ℕ)
    → IsCaptured max_bytes [] (start_capture asked failure max_bytes)
unfolding IsCaptured start_capture
started_connection-IsCaptured false failure max_bytes = tt
started_connection-IsCaptured true (some error) max_bytes = tt
started_connection-IsCaptured true none max_bytes =
    (refl, omega arith, refl, λ h. refl, omega arith, λ h. absurd (cc))

-- With a limit below 2^64, the bytes captured never exceed the limit, and unless the audit record names
-- no capture they are the bytes in the messages that the writer of the capture has been sent; and the
-- record marks the capture as truncated exactly if those are not all messages that were observed, whole
-- and in their order, with their directions and times.
pub serve_connection-capture :
    (net : AddrText) (r : TunnelRecord) (key : Text) (client : SocketAddr) (max_bytes : ℕ)
    (e : Events)
    → max_bytes < u64_mod
    → let a = serve_connection net r key client max_bytes e in
      (a.captured_bytes ≤ max_bytes)
      × IsAudited a e.observations (observed_connection r max_bytes e).capture
unfolding serve_connection observed_connection started_connection
serve_connection-capture net r key client max_bytes e small =
    conclude-capture net r (audit_instance r key) client e (observed_connection r max_bytes e)
      e.connect max_bytes e.observations
      (observe_all-IsCaptured e.observations max_bytes [] (started_connection r max_bytes e) small
        (started_connection-IsCaptured r.capture e.capture_start max_bytes))
