-- ===== src/Net.antt =====
-- `std::net`: addresses, and their text forms, which the standard library reads and prints.
use lab_stream_gate.Common.{ℕ, Option, none, some, List, [], ◌∷◌, if◌then◌else◌}
use lab_stream_gate.Common.Text.{Text, same}

-- `Ipv4Addr` by its octets.
pub record Ipv4 : Type 0 where
  pub a : ℕ
  pub b : ℕ
  pub c : ℕ
  pub d : ℕ

abbrev pub octets : Ipv4 → List ℕ
octets ip = ip.a ∷ ip.b ∷ ip.c ∷ ip.d ∷ []

-- `IpAddr`; an address of version 6 is its first twelve octets and its last four.
pub data IpAddr : Type 0 where
  v4 : Ipv4 → IpAddr
  v6 : List ℕ → Ipv4 → IpAddr

pub record SocketAddr : Type 0 where
  pub ip : IpAddr
  pub port : ℕ

-- Reading and printing addresses.
pub record AddrText : Type 0 where
  pub parse_socket_addr : Text → Option SocketAddr
  pub parse_ip : Text → Option IpAddr
  pub ip_to_string : IpAddr → Text

-- The first twelve octets of `::ffff:a.b.c.d`.
abbrev pub mapped_prefix : List ℕ
mapped_prefix = 0 ∷ 0 ∷ 0 ∷ 0 ∷ 0 ∷ 0 ∷ 0 ∷ 0 ∷ 0 ∷ 0 ∷ 0xff ∷ 0xff ∷ []

-- `Ipv6Addr::to_ipv4_mapped`.
unfoldable pub to_ipv4_mapped : List ℕ → Ipv4 → Option Ipv4
to_ipv4_mapped start rest = if same start mapped_prefix then some rest else none
