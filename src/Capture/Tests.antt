-- ===== src/Capture/Tests.antt =====
-- The theorems of the capture at concrete inputs.
use lab_stream_gate.Common.{
  ℕ, ◌+◌, ◌-◌, ◌≤◌, ◌<◌, ◌≡◌, ◌↔◌, ◌⊎◌, refl, Bool, true, none, some, List, [], ◌∷◌, ◌++◌, length,
  take, drop, retain, arith, if◌then◌else◌, map, drop,
}
use lab_stream_gate.Common.Text.{Text, codes, same, Text-discrete, ℕ_discrete}
use lab_stream_gate.Common.Dict.{lookup, insert}
use lab_stream_gate.Net.{Ipv4, v4, SocketAddr, AddrText}
use lab_stream_gate.Proxy.{client_to_target, target_to_client}
use lab_stream_gate.Capture.Packet.{ipv4_checksum, dissect, build_udp_packet}
use lab_stream_gate.Capture.Checksum.{IsIpv4}
use lab_stream_gate.Capture.Checksum.Reference.{
  ones_sum, ipv4_checksum-ones_sum, build_udp_packet-ones_sum,
}
use lab_stream_gate.Capture.Pcap.{
  Timestamp, CaptureMessage, packet, finish, endpoints, write_capture,
}
use lab_stream_gate.Capture.Replay.{
  Record, Piece, read_records, all_pieces, piece_bytes, traffic, expected, no_faults,
}
use lab_stream_gate.Capture.Roundtrip.{TimesFit, read_records-write_capture}
use lab_stream_gate.Capture.Observer.{reserve, exchange, set_truncated, commit}
use lab_stream_gate.Capture.Observer.Interleaving.{
  Shared, Reach, next, here, reserves, is_taken, finds_full, returns, started, total_size, sum_of,
  held, due, Reach-captured,
}
use lab_stream_gate.Capture.Retention.{Capture, cleanup_files}
use lab_stream_gate.Capture.Retention.Trimming.{
  is_recent, IsOrdered, IsTrimmed, cleanup_files-IsTrimmed,
}
use mathlib.Core.List.{Perm}
use lab_stream_gate.Capture.Segment.{IsSegment, safe_segment, safe_segment-IsSegment}
use lab_stream_gate.Capture.AuditLog.{Files, AuditIo, audit_file, contents, append_audit}
use lab_stream_gate.Capture.AuditLog.Appending.{reaches_limit}
use lab_stream_gate.Capture.AuditLog.Appending.{lookup-append_audit}

abbrev home : Ipv4
home = record { a = 10; b = 0; c = 0; d = 7 }

abbrev away : Ipv4
away = record { a = 192; b = 168; c = 1; d = 2 }

home-IsIpv4 : IsIpv4 home
home-IsIpv4 = record {
  a_octet = omega arith;
  b_octet = omega arith;
  c_octet = omega arith;
  d_octet = omega arith;
}

away-IsIpv4 : IsIpv4 away
away-IsIpv4 = record {
  a_octet = omega arith;
  b_octet = omega arith;
  c_octet = omega arith;
  d_octet = omega arith;
}

abbrev three : List ℕ
three = 1 ∷ 2 ∷ 3 ∷ []

abbrev net : AddrText
net = record { parse_socket_addr = λ s. none; parse_ip = λ s. none; ip_to_string = λ ip. [] }

abbrev client : SocketAddr
client = record { ip = v4 home; port = 4711 }

abbrev stamp : Timestamp
stamp = record { seconds = 7; micros = 5 }

abbrev sent : List CaptureMessage
sent =
    packet client_to_target (1 ∷ 2 ∷ 3 ∷ []) stamp
    ∷ packet target_to_client (4 ∷ []) stamp
    ∷ finish
    ∷ []

sent-TimesFit : TimesFit sent
sent-TimesFit = (omega arith, omega arith, (omega arith, omega arith, tt))

abbrev two_calls : Shared
two_calls = record {
  observer = record {
    captured = 2;
    truncated = true;
    max_bytes = 2;
    sent = packet client_to_target (1 ∷ 2 ∷ []) stamp ∷ [];
  };
  calls = [];
  seen = 4;
}

Reach-two_calls : Reach (started 2) two_calls
unfolding reserve exchange set_truncated commit
Reach-two_calls =
    next
      (next
        (next (next here (reserves (started 2) client_to_target (1 ∷ 2 ∷ []) stamp 0 2 [] refl))
          (is_taken _ [] [] (packet client_to_target (1 ∷ 2 ∷ []) stamp) refl))
        (finds_full _ (3 ∷ 4 ∷ []) 2 [] refl))
      (returns _ [] [] refl)

abbrev always : Text → Bool
always p = true

abbrev captures : List Capture
captures =
    record { path = codes "a"; modified = 199000000000000; size = 8 }
    ∷ record { path = codes "b"; modified = 100; size = 8 }
    ∷ record { path = codes "c"; modified = 198000000000000; size = 8 }
    ∷ []

abbrev calm : AuditIo
calm = record {
  create_dir_all = none;
  remove_file = none;
  rename = none;
  open_file = none;
  write_line = none;
  write_newline = none;
  flush = none;
  metadata = none;
}

abbrev log_files : Files
log_files = (codes "i1.jsonl", 4 ∷ 10 ∷ []) ∷ []

abbrev log_files_after : Files
log_files_after = (codes "i1.jsonl", 4 ∷ 10 ∷ 5 ∷ 10 ∷ []) ∷ []

build_udp_packet-ones_sum_example :
    let header = take 20 (drop 14 (build_udp_packet home 4711 away 80 three)) in
    ones_sum 0 header ≡ 0xffff
build_udp_packet-ones_sum_example =
    build_udp_packet-ones_sum home away 4711 80 three home-IsIpv4 away-IsIpv4 (omega arith)

ipv4_checksum-ones_sum_example :
    ipv4_checksum (0x45 ∷ 0 ∷ 0 ∷ 31 ∷ []) ≡ 0xffff - ones_sum 0 (0x45 ∷ 0 ∷ 0 ∷ 31 ∷ [])
ipv4_checksum-ones_sum_example =
    ipv4_checksum-ones_sum (0x45 ∷ 0 ∷ 0 ∷ 31 ∷ []) (ground arith) (omega arith) refl

read_records-write_capture_example :
    let e = endpoints net client (codes "web:80") in
    (rs : List Record) × (read_records
        (length rs)
        (drop 24 (write_capture net no_faults client (codes "web:80") sent))
      ≡ some rs)
    × (map (λ (r : Record). dissect r.content) rs
        ≡ map (λ (p : Piece). expected e p.direction p.chunk) (all_pieces sent))
    × (piece_bytes (all_pieces sent) ≡ traffic sent)
read_records-write_capture_example =
    read_records-write_capture net client (codes "web:80") sent (omega arith) sent-TimesFit

Reach-captured_example :
    (two_calls.observer.captured ≡ total_size two_calls.observer.sent + sum_of held two_calls.calls)
    × (two_calls.observer.captured ≤ 2)
    × ((two_calls.observer.truncated ≡ true)
        ⊎ (0 < sum_of due two_calls.calls)
        ⊎ (two_calls.observer.captured ≡ two_calls.seen))
Reach-captured_example = Reach-captured 2 two_calls (omega arith) Reach-two_calls

safe_segment-IsSegment_example :
    IsSegment (safe_segment (codes "../i-1"))
    × ((safe_segment (codes "../i-1") ≡ (codes "../i-1")) ↔ IsSegment (codes "../i-1"))
safe_segment-IsSegment_example = safe_segment-IsSegment (codes "../i-1")

lookup-append_audit_example :
    let path = safe_segment (codes "i1") ++ codes ".jsonl" in
    let rotated = safe_segment (codes "i1") ++ codes ".jsonl.1" in
    let old = lookup path log_files in
    lookup (codes "i1.jsonl") log_files_after ≡ (
      if same path (codes "i1.jsonl")
      then some ((if reaches_limit calm old then [] else contents old) ++ ((5 ∷ []) ++ b'\n' ∷ []))
      else (if same rotated (codes "i1.jsonl")
          then (if reaches_limit calm old then old else lookup (codes "i1.jsonl") log_files)
          else lookup (codes "i1.jsonl") log_files))
unfolding append_audit safe_segment audit_file Text-discrete ℕ_discrete lookup insert
lookup-append_audit_example =
    lookup-append_audit calm (codes "i1") (codes "i1.jsonl") (5 ∷ []) log_files log_files_after
      (tt, tt) refl

cleanup_files-IsTrimmed_example :
    (young : List Capture) × Perm young (retain (is_recent 200000000000000 1) captures)
    × IsOrdered young
    × IsTrimmed 10 young (cleanup_files always 200000000000000 1 10 captures)
cleanup_files-IsTrimmed_example =
    cleanup_files-IsTrimmed always 200000000000000 1 10 captures (λ p. refl) (omega arith)
      (omega arith)
