-- ===== src/Capture/Replay.antt =====
-- A capture reads back as the traffic that it was given.
use lab_stream_gate.Common.{
  ℕ, zero, suc, ◌+◌, ◌<◌, ◌≡◌, refl, sym, ap, ◌∙◌, Option, none, some, List, [], ◌∷◌, ◌++◌,
  append_assoc, append-nil, map, arith, ltb, if◌then◌else◌, length, take, drop, All, take-append,
  drop-append, length-append,
}
use lab_stream_gate.Net.{octets}
use mathlib.Core.Path.{ap₂}
use mathlib.Core.List.{map-append}
use lab_stream_gate.Proxy.{TrafficDirection, client_to_target, target_to_client}
use lab_stream_gate.Capture.Bytes.{u32_mod, from_le, from_le-le32, chunks, concat, chunks_lem}
use lab_stream_gate.Capture.Packet.{Dissection}
use lab_stream_gate.Capture.Pcap.{
  Timestamp, CaptureMessage, packet, finish, packet_record, Endpoints, frame, Writer, FileIo,
  write_chunks, write_messages, chunk_size,
}

pub record Record : Type 0 where
  pub time : Timestamp
  pub content : List ℕ

unfoldable pub encode_records : List Record → List ℕ
encode_records [] = []
encode_records (r ∷ rs) = packet_record r.time r.content ++ encode_records rs

abbrev prepend : Record → Option (List Record) → Option (List Record)
prepend r none = none
prepend r (some rs) = some (r ∷ rs)

-- A reader of the records of a pcap file, on fuel for their number.
unfoldable pub read_records : ℕ → List ℕ → Option (List Record)
read_records fuel [] = some []
read_records zero (b ∷ file) = none
read_records (suc fuel) (b ∷ file) =
    let body = drop 16 (b ∷ file) in
    let size = from_le (take 4 (drop 8 (b ∷ file))) in
    let time : Timestamp = record {
      seconds = from_le (take 4 (b ∷ file));
      micros = from_le (take 4 (drop 4 (b ∷ file)));
    } in
    let rest = read_records fuel (drop size body) in
    if ltb (length body) size
    then none
    else prepend (record { time = time; content = take size body }) rest

-- The numbers of the record fit their fields.
abbrev pub Fits : Record → Type 0
Fits r = (r.time.seconds < u32_mod) × (r.time.micros < u32_mod) × (length r.content < u32_mod)

pub read_records-encode_records :
    (rs : List Record) → All Fits rs → read_records (length rs) (encode_records rs) ≡ some rs
unfolding read_records encode_records packet_record
read_records-encode_records [] h = refl
read_records-encode_records (r ∷ rs) ((hs, hm, hl), h) =
    rw
      (
        from_le-le32 r.time.seconds hs,
        from_le-le32 r.time.micros hm,
        from_le-le32 (length r.content) hl,
        drop-append r.content (encode_records rs),
        take-append r.content (encode_records rs),
        read_records-encode_records rs h,
      )
      (ground (arith, length-append r.content (encode_records rs)))

-- What a reader should find in the frame of a chunk: the endpoints of its direction and the chunk.
abbrev pub expected : Endpoints → TrafficDirection → List ℕ → Dissection
expected e client_to_target chunk = record {
  ether_type = 0x0800;
  version_and_length = 0x45;
  total_length = 28 + length chunk;
  protocol = 17;
  source_ip = octets e.client_ip;
  dest_ip = octets e.target_ip;
  source_port = e.client_port;
  dest_port = e.target_port;
  udp_length = 8 + length chunk;
  content = chunk;
}
expected e target_to_client chunk = record {
  ether_type = 0x0800;
  version_and_length = 0x45;
  total_length = 28 + length chunk;
  protocol = 17;
  source_ip = octets e.target_ip;
  dest_ip = octets e.client_ip;
  source_port = e.target_port;
  dest_port = e.client_port;
  udp_length = 8 + length chunk;
  content = chunk;
}

-- The message that the reader should find, in pieces.
pub record Piece : Type 0 where
  pub direction : TrafficDirection
  pub time : Timestamp
  pub chunk : List ℕ

abbrev pub pieces : TrafficDirection → Timestamp → List (List ℕ) → List Piece
pieces d t [] = []
pieces d t (c ∷ cs) = record { direction = d; time = t; chunk = c } ∷ pieces d t cs

unfoldable pub all_pieces : List CaptureMessage → List Piece
all_pieces [] = []
all_pieces (packet d content t ∷ ms) = pieces d t (chunks chunk_size content) ++ all_pieces ms
all_pieces (finish ∷ ms) = []

abbrev pub record_of_piece : Endpoints → Piece → Record
record_of_piece e p = record { time = p.time; content = frame e p.direction p.chunk }

-- The bytes given to the capture up to its end, in the order of the packets.
unfoldable pub traffic : List CaptureMessage → List ℕ
traffic [] = []
traffic (packet d content t ∷ ms) = content ++ traffic ms
traffic (finish ∷ ms) = []

unfoldable pub piece_bytes : List Piece → List ℕ
piece_bytes [] = []
piece_bytes (p ∷ ps) = p.chunk ++ piece_bytes ps

abbrev pub no_faults : FileIo
no_faults n = none

encode_records-append :
    (rs ss : List Record) → encode_records (rs ++ ss) ≡ encode_records rs ++ encode_records ss
unfolding encode_records
encode_records-append [] ss = refl
encode_records-append (r ∷ rs) ss =
    ap (◌++◌ (packet_record r.time r.content)) (encode_records-append rs ss)
    ∙ sym (append_assoc (packet_record r.time r.content) (encode_records rs) (encode_records ss))

piece_bytes-append :
    (ps qs : List Piece) → piece_bytes (ps ++ qs) ≡ piece_bytes ps ++ piece_bytes qs
unfolding piece_bytes
piece_bytes-append [] qs = refl
piece_bytes-append (p ∷ ps) qs =
    ap (◌++◌ p.chunk) (piece_bytes-append ps qs)
    ∙ sym (append_assoc p.chunk (piece_bytes ps) (piece_bytes qs))

piece_bytes-pieces :
    (d : TrafficDirection) (t : Timestamp) (cs : List (List ℕ))
    → piece_bytes (pieces d t cs) ≡ concat cs
unfolding piece_bytes concat
piece_bytes-pieces d t [] = refl
piece_bytes-pieces d t (c ∷ cs) = ap (◌++◌ c) (piece_bytes-pieces d t cs)

pub all_pieces-traffic : (ms : List CaptureMessage) → piece_bytes (all_pieces ms) ≡ traffic ms
unfolding all_pieces traffic
all_pieces-traffic [] = unfold piece_bytes in refl
all_pieces-traffic (finish ∷ ms) = unfold piece_bytes in refl
all_pieces-traffic (packet d content t ∷ ms) =
    piece_bytes-append (pieces d t (chunks chunk_size content)) (all_pieces ms)
    ∙ ap₂ ◌++◌
        (piece_bytes-pieces d t (chunks chunk_size content)
          ∙ (chunks_lem chunk_size content (omega arith)).0)
        (all_pieces-traffic ms)

write_chunks-file :
    (e : Endpoints) (d : TrafficDirection) (t : Timestamp) (w : Writer) (cs : List (List ℕ))
    → (write_chunks no_faults e d t w cs).file
      ≡ w.file ++ encode_records (map (record_of_piece e) (pieces d t cs))
unfolding write_chunks encode_records
write_chunks-file e d t w [] = sym (append-nil w.file)
write_chunks-file e d t w (c ∷ cs) =
    write_chunks-file e d t
      (record { file = w.file ++ packet_record t (frame e d c); writes = w.writes + 1 }) cs
    ∙ append_assoc w.file (packet_record t (frame e d c)) _

pub write_messages-file :
    (e : Endpoints) (w : Writer) (ms : List CaptureMessage)
    → (write_messages no_faults e w ms).file
      ≡ w.file ++ encode_records (map (record_of_piece e) (all_pieces ms))
unfolding write_messages all_pieces
write_messages-file e w [] = unfold encode_records in sym (append-nil w.file)
write_messages-file e w (finish ∷ ms) = unfold encode_records in sym (append-nil w.file)
write_messages-file e w (packet d content t ∷ ms) =
    let cs = chunks chunk_size content in
    let f = record_of_piece e in
    write_messages-file e (write_chunks no_faults e d t w cs) ms
    ∙ ap (λ x. x ++ encode_records (map f (all_pieces ms))) (write_chunks-file e d t w cs)
    ∙ append_assoc w.file _ _
    ∙ ap (◌++◌ w.file) (sym (encode_records-append (map f (pieces d t cs)) (map f (all_pieces ms))))
    ∙ ap (λ x. w.file ++ encode_records x) (sym (map-append f (pieces d t cs) (all_pieces ms)))
