-- ===== src/Proxy.antt =====
-- crates/wsrx/src/proxy.rs: errors, messages, the byte codec of the TCP side and the WebSocket
-- stream's conversions. The loop that forwards is in Proxy/Session.antt.
pub mod Session
pub mod Delivery
pub mod Runs
mod Tests
use lab_stream_gate.Common.{
  ℕ, ◌≡◌, refl, Bool, true, false, Option, none, some, List, [], ◌∷◌, ◌++◌, append-nil,
  append_assoc, Result, ok, err, is_empty,
}
use lab_stream_gate.Common.Text.{Text, bytes}

-- The errors of the crate tungstenite, as far as the code tells them apart.
pub data ProtocolError : Type 0 where
  reset_without_closing_handshake : ProtocolError
  other_protocol : Text → ProtocolError

pub data TgError : Type 0 where
  protocol : ProtocolError → TgError
  other : Text → TgError

-- `enum Error`, the parts from other crates as their texts.
pub data Error : Type 0 where
  io : Text → Error
  web_socket : TgError → Error
  axum : Text → Error

unfoldable pub is_remote_close_without_handshake : Error → Bool
is_remote_close_without_handshake (web_socket (protocol reset_without_closing_handshake)) = true
is_remote_close_without_handshake _ = false

pub data Message : Type 0 where
  binary : List ℕ → Message
  others : Message

pub data TrafficDirection : Type 0 where
  client_to_target target_to_client : TrafficDirection

pub record ProxyStats : Type 0 where
  pub client_to_target : ℕ
  pub target_to_client : ℕ

-- A message of tungstenite or of axum; pings, pongs and closes are `control`.
pub data WsMessage : Type 0 where
  binary : List ℕ → WsMessage
  text : Text → WsMessage
  control : WsMessage

-- `From<TgMessage>` and `From<AxMessage>`, which are the same code.
unfoldable pub from_ws : WsMessage → Message
from_ws (WsMessage.binary payload) = Message.binary payload
from_ws (WsMessage.text s) = Message.binary (bytes s)
from_ws WsMessage.control = others

pub data Poll {ℓ} (A : Type ℓ) : Type ℓ where
  ready : A → Poll A
  pending : Poll A

-- `WrappedWsStream::poll_next` over what the inner stream's poll gives; `into` makes the inner
-- stream's error one of ours.
unfoldable pub poll_next {ℓ} :
    {E : Type ℓ}
    → (E → Error)
    → Poll (Option (Result E WsMessage))
    → Poll (Option (Result Error Message))
unfolding from_ws
poll_next into pending = pending
poll_next into (ready none) = ready none
poll_next into (ready (some (ok m))) = ready (some (ok (from_ws m)))
poll_next into (ready (some (err e))) = ready (some (err (into e)))

-- `WrappedWsStream::start_send`: what the inner stream is given to send, if anything.
unfoldable pub start_send : Message → Option WsMessage
start_send (Message.binary payload) = some (WsMessage.binary payload)
start_send others = none

-- `MessageCodec::decode`: the message and what is left in the buffer.
unfoldable pub decode : List ℕ → Option Message × List ℕ
decode [] = (none, [])
decode (b ∷ buf) = (some (Message.binary (b ∷ buf)), [])

-- `MessageCodec::encode`: the buffer afterwards.
unfoldable pub encode : Message → List ℕ → List ℕ
encode (Message.binary payload) buf = buf ++ payload
encode others buf = buf

-- The bytes that messages carry through the tunnel.
unfoldable pub payload : Message → List ℕ
payload (Message.binary content) = content
payload others = []

unfoldable pub payloads : List Message → List ℕ
unfolding payload
payloads [] = []
payloads (m ∷ ms) = payload m ++ payloads ms

-- The buffer after the messages have been encoded one after the other.
unfoldable pub encode_all : List Message → List ℕ → List ℕ
unfolding encode
encode_all [] buf = buf
encode_all (m ∷ ms) buf = encode_all ms (encode m buf)

-- A message of the stream back, as the tests of a round trip read it.
unfoldable pub decoded : List ℕ → List Message
unfolding decode
decoded buf = elim ((decode buf).0) [ none ↦ [] | some m ↦ m ∷ [] ]

encode_all-payloads : (ms : List Message) (buf : List ℕ) → encode_all ms buf ≡ buf ++ payloads ms
unfolding encode_all payloads
encode_all-payloads [] buf = simp append-nil
encode_all-payloads (Message.binary p ∷ ms) buf =
    rw (encode_all-payloads ms (buf ++ p)) (append_assoc buf p (payloads ms))
encode_all-payloads (others ∷ ms) buf = encode_all-payloads ms buf

-- The messages that one side encodes into an empty buffer are decoded, in one message or none, to
-- the same bytes, and the buffer is empty afterwards.
decode-encode_all :
    (ms : List Message)
    → (payloads (decoded (encode_all ms [])) ≡ payloads ms) × ((decode (encode_all ms [])).1 ≡ [])
unfolding decoded payloads
decode-encode_all ms = rw (encode_all-payloads ms []) (whole (payloads ms))
  where
    whole : (buf : List ℕ) → (payloads (decoded buf) ≡ buf) × ((decode buf).1 ≡ [])
    whole [] = (refl, refl)
    whole (b ∷ buf) = (simp append-nil, refl)
