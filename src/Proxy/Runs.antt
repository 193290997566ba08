-- ===== src/Proxy/Runs.antt =====
-- What a session of the tunnel delivers, counts and reports, under every schedule of its two loops.
use lab_stream_gate.Common.{
  ℕ, zero, suc, ◌↔◌, ◌%◌, ◌≡◌, refl, subst, inl, inr, false, Option, none, some, List, [], ◌∷◌,
  ◌++◌, append-nil, append_assoc, arith, length, Result, ok, err, Option-cases,
}
use lab_stream_gate.Proxy.{
  Error, Message, others, TrafficDirection, client_to_target, target_to_client, ProxyStats,
  payloads, is_remote_close_without_handshake,
}
use lab_stream_gate.Proxy.Session.{
  Session, Event, polls, sends, cancels, u64_mod, start, flow_of, receive, poll, sent, act, step,
  run, proxy_stream_observed, proxy,
}
use lab_stream_gate.Proxy.Delivery.{
  readable, observed, IsFaithful, IsFaithful-opposite, IsFaithful-receive, IsFaithful-skip,
  IsFaithful-sent,
}

-- Both directions of a session, for streams that give the bytes `up` and `down`.
pub record IsFaithfulSession (up down : List ℕ) (s : Session) : Type 0 where
  upward : IsFaithful client_to_target up s.client s.log
  downward : IsFaithful target_to_client down s.target s.log

receive-IsFaithful :
    (up down : List ℕ) (d : TrafficDirection) (s : Session) (m : Message)
    (rest : List (Result Error Message))
    → IsFaithfulSession up down s
    → (flow_of d s).sending ≡ none
    → (flow_of d s).incoming ≡ ok m ∷ rest
    → IsFaithfulSession up down (receive d s (flow_of d s) m rest)
unfolding receive
receive-IsFaithful up down client_to_target s (Message.binary c) rest v idle head = record {
  upward = IsFaithful-receive client_to_target up c s.client s.log rest v.upward idle head;
  downward = IsFaithful-opposite target_to_client down c s.target s.log v.downward;
}
receive-IsFaithful up down target_to_client s (Message.binary c) rest v idle head = record {
  upward = IsFaithful-opposite client_to_target up c s.client s.log v.upward;
  downward = IsFaithful-receive target_to_client down c s.target s.log rest v.downward idle head;
}
receive-IsFaithful up down client_to_target s others rest v idle head = record {
  upward = IsFaithful-skip client_to_target up s.client s.log rest v.upward idle head;
  downward = v.downward;
}
receive-IsFaithful up down target_to_client s others rest v idle head = record {
  upward = v.upward;
  downward = IsFaithful-skip target_to_client down s.target s.log rest v.downward idle head;
}

poll-IsFaithful :
    (up down : List ℕ) (d : TrafficDirection) (s : Session) (incoming : List (Result Error Message))
    → IsFaithfulSession up down s
    → (flow_of d s).sending ≡ none
    → (flow_of d s).incoming ≡ incoming
    → IsFaithfulSession up down (poll d s (flow_of d s) incoming)
unfolding poll
poll-IsFaithful up down d s [] v idle e = record { upward = v.upward; downward = v.downward }
poll-IsFaithful up down d s (err x ∷ rest) v idle e = record {
  upward = v.upward;
  downward = v.downward;
}
poll-IsFaithful up down d s (ok m ∷ rest) v idle e = receive-IsFaithful up down d s m rest v idle e

sent-IsFaithful :
    (up down : List ℕ) (d : TrafficDirection) (s : Session) (m : Message) (outcome : Option Error)
    → IsFaithfulSession up down s
    → (flow_of d s).sending ≡ some m
    → IsFaithfulSession up down (sent d s (flow_of d s) m outcome)
unfolding sent
sent-IsFaithful up down d s m (some e) v busy = record { upward = v.upward; downward = v.downward }
sent-IsFaithful up down client_to_target s m none v busy = record {
  upward = IsFaithful-sent client_to_target up s.client s.log m v.upward busy;
  downward = v.downward;
}
sent-IsFaithful up down target_to_client s m none v busy = record {
  upward = v.upward;
  downward = IsFaithful-sent target_to_client down s.target s.log m v.downward busy;
}

act-IsFaithful :
    (up down : List ℕ) (e : Event) (s : Session)
    → IsFaithfulSession up down s
    → IsFaithfulSession up down (act e s)
unfolding act
act-IsFaithful up down (polls d) s v = elim (Option-cases (flow_of d s).sending) [
  | inl idle ↦ rw (idle, act) (poll-IsFaithful up down d s _ v idle refl)
  | inr (m, busy) ↦ rw (busy, act) v
]
act-IsFaithful up down (sends d outcome) s v = elim (Option-cases (flow_of d s).sending) [
  | inl idle ↦ rw (idle, act) v
  | inr (m, busy) ↦ rw (busy, act) (sent-IsFaithful up down d s m outcome v busy)
]
act-IsFaithful up down cancels s v = record { upward = v.upward; downward = v.downward }

step-IsFaithful :
    (up down : List ℕ) (e : Event) (s : Session)
    → IsFaithfulSession up down s
    → IsFaithfulSession up down (step e s)
unfolding step
step-IsFaithful up down e s v = elim (Option-cases s.result) [
  | inl more ↦ rw (more, step) (act-IsFaithful up down e s v)
  | inr (r, over) ↦ rw (over, step) v
]

run-IsFaithful :
    (up down : List ℕ) (events : List Event) (s : Session)
    → IsFaithfulSession up down s
    → IsFaithfulSession up down (run events s)
unfolding run
run-IsFaithful up down [] s v = v
run-IsFaithful up down (e ∷ events) s v =
    run-IsFaithful up down events (step e s) (step-IsFaithful up down e s v)

start-IsFaithful :
    (from_client from_target : List (Result Error Message))
    → IsFaithfulSession
        (readable from_client)
        (readable from_target)
        (start from_client from_target)
unfolding start observed payloads
start-IsFaithful from_client from_target = record {
  upward = record { whole = refl; told = refl; counted = omega arith };
  downward = record { whole = refl; told = refl; counted = omega arith };
}

-- Under every schedule, in each direction the bytes that have been delivered, then those of the
-- message that is being sent, then those that the stream still gives are the bytes that the stream
-- gave at the start, in their order; the observer has been told exactly of those delivered or being
-- sent, and the counter is their number modulo 2^64.
pub run-start-IsFaithful :
    (from_client from_target : List (Result Error Message)) (events : List Event)
    → IsFaithfulSession
        (readable from_client)
        (readable from_target)
        (run events (start from_client from_target))
run-start-IsFaithful from_client from_target events =
    run-IsFaithful _ _ events _ (start-IsFaithful from_client from_target)

-- The statistics of a session that ends well are the numbers of bytes, modulo 2^64, that the
-- observer has been told of in each direction.
proxy_stream_observed-stats :
    (from_client from_target : List (Result Error Message)) (events : List Event) (t : ProxyStats)
    → proxy_stream_observed from_client from_target events ≡ some (ok t)
    → let log = (run events (start from_client from_target)).log in
      (t.client_to_target ≡ length (observed client_to_target log) % u64_mod)
      × (t.target_to_client ≡ length (observed target_to_client log) % u64_mod)
unfolding proxy_stream_observed
proxy_stream_observed-stats from_client from_target events t h =
    let v = run-start-IsFaithful from_client from_target events in
    (ground (arith, v.upward.counted), ground (arith, v.downward.counted))

-- `proxy` fails exactly when the session fails, with the same error, unless that is a close of the
-- WebSocket without a handshake.
proxy-eq-err_iff :
    (from_client from_target : List (Result Error Message)) (events : List Event) (e : Error)
    → (proxy from_client from_target events ≡ some (err e)) ↔ (
        (proxy_stream_observed from_client from_target events ≡ some (err e))
        × (is_remote_close_without_handshake e ≡ false))
unfolding proxy
proxy-eq-err_iff from_client from_target events e = (λ h. ground arith, λ h. ground arith)

-- A round of a loop: it reads a message and sends it.
abbrev pub rounds : TrafficDirection → ℕ → List Event
rounds d zero = []
rounds d (suc n) = polls d ∷ sends d none ∷ rounds d n

abbrev pub all_ok : List Message → List (Result Error Message)
all_ok [] = []
all_ok (m ∷ ms) = ok m ∷ all_ok ms

-- The loop of the direction is between two messages, with these to come and those delivered.
abbrev pub Stands : TrafficDirection → List Message → List Message → Session → Type 0
Stands d ms gone s =
    (s.result ≡ none)
    × ((flow_of d s).sending ≡ none)
    × ((flow_of d s).incoming ≡ all_ok ms)
    × ((flow_of d s).delivered ≡ gone)

round-Stands :
    (d : TrafficDirection) (m : Message) (ms gone : List Message) (s : Session)
    → Stands d (m ∷ ms) gone s
    → Stands d ms (gone ++ m ∷ []) (step (sends d none) (step (polls d) s))
unfolding step
round-Stands client_to_target (Message.binary c) ms gone s h = ground arith
round-Stands client_to_target others ms gone s h = ground arith
round-Stands target_to_client (Message.binary c) ms gone s h = ground arith
round-Stands target_to_client others ms gone s h = ground arith

rounds-Stands :
    (d : TrafficDirection) (ms gone : List Message) (s : Session)
    → Stands d ms gone s
    → Stands d [] (gone ++ ms) (run (rounds d (length ms)) s)
unfolding run
rounds-Stands d [] gone s h = rw (append-nil gone) h
rounds-Stands d (m ∷ ms) gone s h =
    let s' : Session = step (sends d none) (step (polls d) s) in
    subst (λ g. Stands d [] g (run (rounds d (length ms)) s')) (append_assoc gone (m ∷ []) ms)
      (rounds-Stands d ms (gone ++ m ∷ []) s' (round-Stands d m ms gone s h))

abbrev pub stream_of :
    TrafficDirection
    → List (Result Error Message)
    → List (Result Error Message)
    → List (Result Error Message)
stream_of client_to_target from_client from_target = from_client
stream_of target_to_client from_client from_target = from_target

start-Stands :
    (d : TrafficDirection) (from_client from_target : List (Result Error Message))
    (ms : List Message)
    → stream_of d from_client from_target ≡ all_ok ms
    → Stands d ms [] (start from_client from_target)
unfolding start
start-Stands client_to_target from_client from_target ms e = (refl, refl, e, refl)
start-Stands target_to_client from_client from_target ms e = (refl, refl, e, refl)

-- A loop whose stream gives messages and then ends, and whose sink never fails, delivers every
-- message of the stream in as many rounds, and one more poll then ends the session well.
pub rounds-deliver :
    (d : TrafficDirection) (from_client from_target : List (Result Error Message))
    (ms : List Message)
    → stream_of d from_client from_target ≡ all_ok ms
    → let s = run (rounds d (length ms)) (start from_client from_target) in
      ((flow_of d s).delivered ≡ ms) × ((step (polls d) s).result ≡ some (ok tt))
unfolding step
rounds-deliver d from_client from_target ms e =
    let (r, i, n, g) =
      rounds-Stands d ms [] (start from_client from_target)
        (start-Stands d from_client from_target ms e) in
    (g, ended d r i n)
  where
    ended :
        (d : TrafficDirection)
        → (run (rounds d (length ms)) (start from_client from_target)).result ≡ none
        → (flow_of d (run (rounds d (length ms)) (start from_client from_target))).sending ≡ none
        → (flow_of d (run (rounds d (length ms)) (start from_client from_target))).incoming ≡ []
        → (step (polls d) (run (rounds d (length ms)) (start from_client from_target))).result
          ≡ some (ok tt)
    ended client_to_target r i n = ground arith
    ended target_to_client r i n = ground arith
