-- ===== src/Capture/Packet.antt =====
-- crates/wsrx/src/cli/capture.rs: `build_udp_packet`, `ipv4_checksum` and `ipv4_or_documentation`.
use lab_stream_gate.Common.{
  ℕ, zero, suc, ◌+◌, ◌-◌, ◌*◌, ◌/◌, ◌%◌, ◌≤◌, ◌<◌, ◌≡◌, List, [], ◌∷◌, ◌++◌, arith, length, take,
  drop, none, some, ◌==◌, if◌then◌else◌,
}
use lab_stream_gate.Net.{Ipv4, octets, IpAddr, v4, v6, to_ipv4_mapped}
use lab_stream_gate.Capture.Bytes.{u16_mod, u32_mod, be16, from_be}

-- The loop over `chunks_exact(2)`, in 32 bits.
unfoldable pub sum_words : ℕ → List ℕ → ℕ
sum_words acc [] = acc
sum_words acc (h ∷ []) = acc
sum_words acc (h ∷ l ∷ rest) = sum_words ((acc + (h * 256 + l)) % u32_mod) rest

-- The `while` loop, on fuel for its rounds.
unfoldable pub fold_carries : ℕ → ℕ → ℕ
fold_carries zero n = n
fold_carries (suc fuel) n =
    let rest = fold_carries fuel (n % u16_mod + n / u16_mod) in if n / u16_mod == 0 then n else rest

-- Three rounds are enough for every sum of 32 bits.
unfoldable pub ipv4_checksum : List ℕ → ℕ
unfolding sum_words fold_carries
ipv4_checksum header = 0xffff - fold_carries 3 (sum_words 0 header) % u16_mod

-- The IP header with its checksum field.
unfoldable pub ip_header : ℕ → ℕ → Ipv4 → Ipv4 → List ℕ
unfolding be16
ip_header checksum ip_length source dest =
    0x45
    ∷ 0
    ∷ (be16 ip_length
        ++ (0 ∷ 0 ∷ (be16 0x4000 ++ (64 ∷ 17 ∷ (be16 checksum ++ (octets source ++ octets dest))))))

unfoldable pub udp_header : ℕ → ℕ → ℕ → List ℕ
unfolding be16
udp_header source_port dest_port udp_length =
    be16 source_port ++ (be16 dest_port ++ (be16 udp_length ++ (0 ∷ 0 ∷ [])))

abbrev ethernet_addresses : List ℕ
ethernet_addresses = 0 ∷ 0 ∷ 0 ∷ 0 ∷ 0 ∷ 0 ∷ 0 ∷ 0 ∷ 0 ∷ 0 ∷ 0 ∷ 0 ∷ []

unfoldable pub build_udp_packet : Ipv4 → ℕ → Ipv4 → ℕ → List ℕ → List ℕ
unfolding ip_header udp_header ipv4_checksum be16
build_udp_packet source_ip source_port dest_ip dest_port payload =
    let ip_length : ℕ = 20 + 8 + length payload in
    let checksum : ℕ = ipv4_checksum (ip_header 0 ip_length source_ip dest_ip) in
    ethernet_addresses
    ++ (be16 0x0800
        ++ (ip_header checksum ip_length source_ip dest_ip
            ++ (udp_header source_port dest_port (8 + length payload) ++ payload)))

unfoldable pub ipv4_or_documentation : IpAddr → Ipv4 → Ipv4
unfolding to_ipv4_mapped
ipv4_or_documentation (v4 ip) fallback = ip
ipv4_or_documentation (v6 start rest) fallback = elim (to_ipv4_mapped start rest) [
  | none ↦ fallback
  | some ip ↦ ip
]

-- What a reader finds in a frame.
pub record Dissection : Type 0 where
  pub ether_type : ℕ
  pub version_and_length : ℕ
  pub total_length : ℕ
  pub protocol : ℕ
  pub source_ip : List ℕ
  pub dest_ip : List ℕ
  pub source_port : ℕ
  pub dest_port : ℕ
  pub udp_length : ℕ
  pub content : List ℕ

abbrev pub field_at : ℕ → ℕ → List ℕ → List ℕ
field_at start size frame = take size (drop start frame)

unfoldable pub dissect : List ℕ → Dissection
dissect frame = record {
  ether_type = from_be 0 (field_at 12 2 frame);
  version_and_length = from_be 0 (field_at 14 1 frame);
  total_length = from_be 0 (field_at 16 2 frame);
  protocol = from_be 0 (field_at 23 1 frame);
  source_ip = field_at 26 4 frame;
  dest_ip = field_at 30 4 frame;
  source_port = from_be 0 (field_at 34 2 frame);
  dest_port = from_be 0 (field_at 36 2 frame);
  udp_length = from_be 0 (field_at 38 2 frame);
  content = drop 42 frame;
}

-- A frame of a payload of at most 65507 bytes, between 16-bit ports, reads back: an IPv4 frame
-- with a UDP datagram, its addresses and ports, lengths that are true, and the payload.
pub dissect-build_udp_packet :
    (source dest : Ipv4) (source_port dest_port : ℕ) (payload : List ℕ)
    → source_port < u16_mod
    → dest_port < u16_mod
    → length payload ≤ 65507
    → dissect (build_udp_packet source source_port dest dest_port payload) ≡ record {
      ether_type = 0x0800;
      version_and_length = 0x45;
      total_length = 28 + length payload;
      protocol = 17;
      source_ip = octets source;
      dest_ip = octets dest;
      source_port = source_port;
      dest_port = dest_port;
      udp_length = 8 + length payload;
      content = payload;
    }
unfolding dissect build_udp_packet
dissect-build_udp_packet source dest source_port dest_port payload hs hd hl = ground arith
