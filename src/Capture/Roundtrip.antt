-- ===== src/Capture/Roundtrip.antt =====
-- The round trip of a whole capture: writing, reading and dissecting.
use lab_stream_gate.Common.{
  ℕ, ◌+◌, ◌≤◌, ◌<◌, ◌≡◌, refl, sym, ap, subst, ◌∙◌, some, List, [], ◌∷◌, map, arith, length, drop,
  All, All-append, Option-cases, inl, inr,
}
use lab_stream_gate.Common.Text.{Text}
use lab_stream_gate.Common.Parse.{rsplit_once, parse_u16, parse_u16-lt}
use lab_stream_gate.Net.{SocketAddr, AddrText}
use lab_stream_gate.Proxy.{TrafficDirection, client_to_target, target_to_client}
use lab_stream_gate.Capture.Bytes.{u16_mod, u32_mod, chunks, chunks_lem}
use lab_stream_gate.Capture.Packet.{build_udp_packet, dissect, dissect-build_udp_packet}
use lab_stream_gate.Capture.Pcap.{
  Timestamp, CaptureMessage, packet, finish, global_header, Endpoints, endpoints, port_of_target,
  frame, write_messages, write_capture, chunk_size,
}
use lab_stream_gate.Capture.Replay.{
  Record, encode_records, read_records, Fits, read_records-encode_records, expected, Piece, pieces,
  all_pieces, record_of_piece, traffic, piece_bytes, no_faults, all_pieces-traffic,
  write_messages-file,
}

-- The times of the packets fit the fields of their records, as they do until the year 2106.
abbrev pub TimesFit : List CaptureMessage → Type 0
TimesFit [] = Unit {0}
TimesFit (packet d content t ∷ ms) = (t.seconds < u32_mod) × (t.micros < u32_mod) × TimesFit ms
TimesFit (finish ∷ ms) = Unit {0}

length-frame :
    (e : Endpoints) (d : TrafficDirection) (chunk : List ℕ)
    → length (frame e d chunk) ≡ 42 + length chunk
unfolding frame build_udp_packet
length-frame e client_to_target chunk = omega arith
length-frame e target_to_client chunk = omega arith

abbrev IsPiece : Piece → Type 0
IsPiece p = (length p.chunk ≤ 65507) × (p.time.seconds < u32_mod) × (p.time.micros < u32_mod)

IsPiece-Fits : (e : Endpoints) (p : Piece) → IsPiece p → Fits (record_of_piece e p)
IsPiece-Fits e p (l, s, m) = (s, m, omega (arith, length-frame e p.direction p.chunk))

All-IsPiece-pieces :
    (d : TrafficDirection) (t : Timestamp) (cs : List (List ℕ))
    → t.seconds < u32_mod
    → t.micros < u32_mod
    → All (λ c. length c ≤ chunk_size) cs
    → All IsPiece (pieces d t cs)
All-IsPiece-pieces d t [] s m h = tt
All-IsPiece-pieces d t (c ∷ cs) s m (l, h) = ((l, s, m), All-IsPiece-pieces d t cs s m h)

All-IsPiece-all_pieces : (ms : List CaptureMessage) → TimesFit ms → All IsPiece (all_pieces ms)
unfolding all_pieces
All-IsPiece-all_pieces [] h = tt
All-IsPiece-all_pieces (finish ∷ ms) h = tt
All-IsPiece-all_pieces (packet d content t ∷ ms) (s, m, h) =
    All-append IsPiece (pieces d t (chunks chunk_size content)) (all_pieces ms)
      (All-IsPiece-pieces d t (chunks chunk_size content) s m
        (chunks_lem chunk_size content (omega arith)).1)
      (All-IsPiece-all_pieces ms h)

All-Fits :
    (e : Endpoints) (ps : List Piece) → All IsPiece ps → All Fits (map (record_of_piece e) ps)
All-Fits e [] h = tt
All-Fits e (p ∷ ps) (q, h) = (IsPiece-Fits e p q, All-Fits e ps h)

dissect-frame :
    (e : Endpoints) (d : TrafficDirection) (chunk : List ℕ)
    → e.client_port < u16_mod
    → e.target_port < u16_mod
    → length chunk ≤ 65507
    → dissect (frame e d chunk) ≡ expected e d chunk
unfolding frame
dissect-frame e client_to_target chunk hc ht l = dissect-build_udp_packet _ _ _ _ chunk hc ht l
dissect-frame e target_to_client chunk hc ht l = dissect-build_udp_packet _ _ _ _ chunk ht hc l

map-dissect :
    (e : Endpoints) (ps : List Piece)
    → e.client_port < u16_mod
    → e.target_port < u16_mod
    → All IsPiece ps
    → map (λ (r : Record). dissect r.content) (map (record_of_piece e) ps)
      ≡ map (λ (p : Piece). expected e p.direction p.chunk) ps
map-dissect e [] hc ht h = refl
map-dissect e (p ∷ ps) hc ht ((l, _, _), h) =
    cc (dissect-frame e p.direction p.chunk hc ht l, map-dissect e ps hc ht h)

port_of_target-lt : (target : Text) → port_of_target target < u16_mod
unfolding port_of_target
port_of_target-lt target = elim (Option-cases (rsplit_once b':' target)) [
  | inl n ↦ ground arith
  | inr ((host, port), e) ↦ elim (Option-cases (parse_u16 port)) [
    | inl n ↦ ground arith
    | inr (k, f) ↦ ground (arith, parse_u16-lt port k f)
  ]
]

endpoints-ports :
    (net : AddrText) (client : SocketAddr) (target : Text)
    → client.port < u16_mod
    → ((endpoints net client target).client_port < u16_mod)
      × ((endpoints net client target).target_port < u16_mod)
unfolding endpoints
endpoints-ports net client target h = (h, port_of_target-lt target)

-- The header is 24 bytes long, and the records follow it.
write_capture-records :
    (net : AddrText) (client : SocketAddr) (target : Text) (ms : List CaptureMessage)
    → drop 24 (write_capture net no_faults client target ms)
      ≡ encode_records (map (record_of_piece (endpoints net client target)) (all_pieces ms))
write_capture-records net client target ms =
    ap (drop 24) (opened ∙ write_messages-file (endpoints net client target) _ ms)
    ∙ unfold global_header in refl
  where
    opened :
        write_capture net no_faults client target ms
        ≡ (write_messages no_faults
            (endpoints net client target)
            (record { file = global_header; writes = 0 })
            ms).file
    opened = unfold write_capture in refl

-- If no write fails, the port of the client is a 16-bit number and the times fit 32 bits, the file
-- of a capture reads back, after its header, as one record for each piece of each packet, in
-- order; each record is a frame with the endpoints of its direction, and the pieces together are
-- the bytes that the capture was given.
pub read_records-write_capture :
    (net : AddrText) (client : SocketAddr) (target : Text) (ms : List CaptureMessage)
    → client.port < u16_mod
    → TimesFit ms
    → let e = endpoints net client target in
      (rs : List Record) × (read_records
          (length rs)
          (drop 24 (write_capture net no_faults client target ms))
        ≡ some rs)
      × (map (λ (r : Record). dissect r.content) rs
          ≡ map (λ (p : Piece). expected e p.direction p.chunk) (all_pieces ms))
      × (piece_bytes (all_pieces ms) ≡ traffic ms)
read_records-write_capture net client target ms hp h =
    let e = endpoints net client target in
    let rs : List Record = map (record_of_piece e) (all_pieces ms) in
    let ports = endpoints-ports net client target hp in
    let good = All-IsPiece-all_pieces ms h in
    (
      rs,
      subst (λ x. read_records (length rs) x ≡ some rs)
          (sym (write_capture-records net client target ms))
          (read_records-encode_records rs (All-Fits e (all_pieces ms) good)),
      map-dissect e (all_pieces ms) ports.0 ports.1 good,
      all_pieces-traffic ms,
    )
