-- ===== src/Proxy/Tests.antt =====
-- The theorems of the proxy at concrete inputs.
use lab_stream_gate.Common.{◌≡◌, refl, none, some, List, [], ◌∷◌, length, Result, ok, err}
use lab_stream_gate.Proxy.{
  Error, web_socket, protocol, reset_without_closing_handshake, Message, others, client_to_target,
  target_to_client, ProxyStats,
}
use lab_stream_gate.Proxy.Session.{Event, polls, sends, run, start, flow_of, step}
use lab_stream_gate.Proxy.Delivery.{readable}
use lab_stream_gate.Proxy.Runs.{IsFaithfulSession, rounds, run-start-IsFaithful, rounds-deliver}

abbrev messages : List Message
messages = Message.binary (1 ∷ 2 ∷ []) ∷ others ∷ Message.binary (3 ∷ []) ∷ []

abbrev from_client : List (Result Error Message)
from_client = ok (Message.binary (1 ∷ 2 ∷ [])) ∷ ok others ∷ ok (Message.binary (3 ∷ [])) ∷ []

abbrev reset : Error
reset = web_socket (protocol reset_without_closing_handshake)

abbrev broken : List (Result Error Message)
broken = err reset ∷ []

-- The first message is read and sent, then the other side ends.
abbrev events : List Event
events = polls client_to_target ∷ sends client_to_target none ∷ polls target_to_client ∷ []

abbrev outcome : ProxyStats
outcome = record { client_to_target = 2; target_to_client = 0 }

run-start-IsFaithful_example :
    IsFaithfulSession (readable from_client) (readable []) (run events (start from_client []))
run-start-IsFaithful_example = run-start-IsFaithful from_client [] events

rounds-deliver_example :
    let s = run (rounds client_to_target (length messages)) (start from_client []) in
    ((flow_of client_to_target s).delivered ≡ messages)
    × ((step (polls client_to_target) s).result ≡ some (ok tt))
rounds-deliver_example = rounds-deliver client_to_target from_client [] messages refl
