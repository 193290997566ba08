-- ===== src/Capture/Pcap.antt =====
-- crates/wsrx/src/cli/capture.rs: `write_capture`, `write_packet` and `write_global_header`.
use lab_stream_gate.Common.{ℕ, ◌+◌, Option, none, some, List, [], ◌∷◌, ◌++◌, length}
use lab_stream_gate.Common.Text.{Text}
use lab_stream_gate.Common.Parse.{rsplit_once, parse_u16}
use lab_stream_gate.Net.{Ipv4, SocketAddr, AddrText}
use lab_stream_gate.Proxy.{TrafficDirection, client_to_target, target_to_client}
use lab_stream_gate.Capture.Bytes.{le16, le32, chunks}
use lab_stream_gate.Capture.Packet.{build_udp_packet, ipv4_or_documentation}

-- The time since the epoch of a `SystemTime`, zero for one before it.
pub record Timestamp : Type 0 where
  pub seconds : ℕ
  pub micros : ℕ

-- `enum CaptureMessage`; the sender that answers a `Finish` has no part in the file.
pub data CaptureMessage : Type 0 where
  packet : TrafficDirection → List ℕ → Timestamp → CaptureMessage
  finish : CaptureMessage

unfoldable pub global_header : List ℕ
unfolding le16 le32
global_header =
    le32 0xa1b2c3d4 ++ (le16 2 ++ (le16 4 ++ (le32 0 ++ (le32 0 ++ (le32 65535 ++ le32 1)))))

-- What `write_packet` writes; `as u32` keeps the four low bytes.
unfoldable pub packet_record : Timestamp → List ℕ → List ℕ
unfolding le32
packet_record t content =
    le32 t.seconds
    ++ (le32 t.micros ++ (le32 (length content) ++ (le32 (length content) ++ content)))

-- The addresses that the frames of a capture carry.
pub record Endpoints : Type 0 where
  pub client_ip : Ipv4
  pub client_port : ℕ
  pub target_ip : Ipv4
  pub target_port : ℕ

abbrev pub documentation : ℕ → Ipv4
documentation host = record { a = 192; b = 0; c = 2; d = host }

unfoldable pub port_of_target : Text → ℕ
port_of_target target = elim (rsplit_once b':' target) [
  | none ↦ 0
  | some (host, port) ↦ elim (parse_u16 port) [ none ↦ 0 | some n ↦ n ]
]

unfoldable pub endpoints : AddrText → SocketAddr → Text → Endpoints
unfolding port_of_target ipv4_or_documentation
endpoints net client target = record {
  client_ip = ipv4_or_documentation client.ip (documentation 1);
  client_port = client.port;
  target_ip = elim (net.parse_socket_addr target) [
    | none ↦ documentation 2
    | some address ↦ ipv4_or_documentation address.ip (documentation 2)
  ];
  target_port = port_of_target target;
}

unfoldable pub frame : Endpoints → TrafficDirection → List ℕ → List ℕ
frame e client_to_target chunk =
    build_udp_packet e.client_ip e.client_port e.target_ip e.target_port chunk
frame e target_to_client chunk =
    build_udp_packet e.target_ip e.target_port e.client_ip e.client_port chunk

-- The file and the number of calls of `write_packet`. A call succeeds, or fails and leaves some
-- bytes behind.
pub record Writer : Type 0 where
  pub file : List ℕ
  pub writes : ℕ

abbrev pub FileIo : Type 0
FileIo = ℕ → Option (List ℕ)

-- The loop over the chunks of a packet, which a failure ends.
unfoldable pub write_chunks :
    FileIo → Endpoints → TrafficDirection → Timestamp → Writer → List (List ℕ) → Writer
unfolding packet_record frame
write_chunks io e d t w [] = w
write_chunks io e d t w (c ∷ cs) = elim (io w.writes) [
  | none ↦
      write_chunks io e d t
        (record { file = w.file ++ packet_record t (frame e d c); writes = w.writes + 1 }) cs
  | some torn ↦ record { file = w.file ++ torn; writes = w.writes + 1 }
]

abbrev pub chunk_size : ℕ
chunk_size = 65507

-- The loop over the messages, up to `Finish` or the end of the channel.
unfoldable pub write_messages : FileIo → Endpoints → Writer → List CaptureMessage → Writer
unfolding write_chunks
write_messages io e w [] = w
write_messages io e w (packet d content t ∷ ms) =
    write_messages io e (write_chunks io e d t w (chunks chunk_size content)) ms
write_messages io e w (finish ∷ ms) = w

-- The file of a capture, after its header.
unfoldable pub write_capture : AddrText → FileIo → SocketAddr → Text → List CaptureMessage → List ℕ
unfolding write_messages endpoints
write_capture net io client target ms =
    (write_messages io (endpoints net client target) (record { file = global_header; writes = 0 })
      ms).file
