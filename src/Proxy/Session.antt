-- ===== src/Proxy/Session.antt =====
-- crates/wsrx/src/proxy.rs: `forward_observed`, `proxy_stream_observed`, `proxy_observed`, `proxy`.
-- Two loops forward messages and `select!` polls them in any order: an event says which one moves.
-- What `select!` drops when it ends, a message between the stream and the sink included, is gone.
use lab_stream_gate.Common.{
  ℕ, ◌+◌, ◌%◌, ◌^◌, Option, none, some, List, [], ◌∷◌, ◌++◌, if◌then◌else◌, length, Result, ok, err,
}
use lab_stream_gate.Proxy.{
  Error, Message, others, TrafficDirection, client_to_target, target_to_client, ProxyStats,
  is_remote_close_without_handshake,
}

-- One direction: what its stream will still give, the message that its sink is sending, what its
-- sink has sent, and its counter of bytes, an `AtomicU64`.
pub record Flow : Type 0 where
  pub incoming : List (Result Error Message)
  pub sending : Option Message
  pub delivered : List Message
  pub count : ℕ

-- The calls of the observer, the first one first.
abbrev pub Log : Type 0
Log = List (TrafficDirection × List ℕ)

pub record Session : Type 0 where
  pub client : Flow
  pub target : Flow
  pub log : Log
  pub result : Option (Result Error (Unit {0}))

-- A loop reads its stream; a sink has sent its message or fails; the token is cancelled.
pub data Event : Type 0 where
  polls : TrafficDirection → Event
  sends : TrafficDirection → Option Error → Event
  cancels : Event

abbrev pub u64_mod : ℕ
u64_mod = 2 ^ 64

unfoldable pub start_flow : List (Result Error Message) → Flow
start_flow incoming = record { incoming = incoming; sending = none; delivered = []; count = 0 }

unfoldable pub start : List (Result Error Message) → List (Result Error Message) → Session
unfolding start_flow
start from_client from_target = record {
  client = start_flow from_client;
  target = start_flow from_target;
  log = [];
  result = none;
}

abbrev pub flow_of : TrafficDirection → Session → Flow
flow_of client_to_target s = s.client
flow_of target_to_client s = s.target

abbrev pub set_flow : TrafficDirection → Session → Flow → Session
set_flow client_to_target s f = record s { client = f }
set_flow target_to_client s f = record s { target = f }

-- The body of the loop up to `sink.send`: a binary message is counted and observed.
unfoldable pub receive :
    TrafficDirection → Session → Flow → Message → List (Result Error Message) → Session
receive d s f (Message.binary content) rest =
    record (set_flow d s (record f {
      incoming = rest;
      sending = some (Message.binary content);
      count = (f.count + length content) % u64_mod;
    })) { log = s.log ++ (d, content) ∷ [] }
receive d s f others rest = set_flow d s (record f { incoming = rest; sending = some others })

-- `stream.next()`: the end of the stream ends the loop, and so does its error, by `?`.
unfoldable pub poll : TrafficDirection → Session → Flow → List (Result Error Message) → Session
unfolding receive
poll d s f [] = record s { result = some (ok tt) }
poll d s f (err e ∷ rest) = record s { result = some (err e) }
poll d s f (ok m ∷ rest) = receive d s f m rest

-- The end of `sink.send`.
unfoldable pub sent : TrafficDirection → Session → Flow → Message → Option Error → Session
sent d s f m none = set_flow d s (record f { sending = none; delivered = f.delivered ++ m ∷ [] })
sent d s f m (some e) = record s { result = some (err e) }

-- A loop that is sending does not poll its stream, and one that is not sending has nothing to send.
unfoldable pub act : Event → Session → Session
unfolding poll sent
act (polls d) s = elim ((flow_of d s).sending) [
  | none ↦ poll d s (flow_of d s) (flow_of d s).incoming
  | some m ↦ s
]
act (sends d outcome) s = elim ((flow_of d s).sending) [
  | none ↦ s
  | some m ↦ sent d s (flow_of d s) m outcome
]
act cancels s = record s { result = some (ok tt) }

-- The first loop that ends decides the result, and nothing happens after that.
unfoldable pub step : Event → Session → Session
unfolding act
step e s = elim s.result [ none ↦ act e s | some r ↦ s ]

unfoldable pub run : List Event → Session → Session
unfolding step
run [] s = s
run (e ∷ es) s = run es (step e s)

abbrev pub stats : Session → ProxyStats
stats s = record { client_to_target = s.client.count; target_to_client = s.target.count }

-- `proxy_stream_observed` under a schedule; `none` while no loop has ended.
unfoldable pub proxy_stream_observed :
    List (Result Error Message)
    → List (Result Error Message)
    → List Event
    → Option (Result Error ProxyStats)
unfolding run start
proxy_stream_observed from_client from_target events =
    let s = run events (start from_client from_target) in
    elim s.result [ none ↦ none | some (ok u) ↦ some (ok (stats s)) | some (err e) ↦ some (err e) ]

-- `proxy` takes a close without a handshake for an end.
abbrev pub as_proxy_result : Result Error ProxyStats → Result Error (Unit {0})
as_proxy_result (ok u) = ok tt
as_proxy_result (err e) = if is_remote_close_without_handshake e then ok tt else err e

unfoldable pub proxy :
    List (Result Error Message)
    → List (Result Error Message)
    → List Event
    → Option (Result Error (Unit {0}))
unfolding proxy_stream_observed is_remote_close_without_handshake
proxy from_client from_target events = elim (proxy_stream_observed from_client from_target events) [
  | none ↦ none
  | some r ↦ some (as_proxy_result r)
]
