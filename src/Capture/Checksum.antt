-- ===== src/Capture/Checksum.antt =====
-- crates/wsrx/src/cli/capture.rs: sums over the header that `build_udp_packet` writes, as the code adds
-- them up.
pub mod Reference
use lab_stream_gate.Common.{
  ℕ, zero, suc, ◌+◌, ◌-◌, ◌*◌, ◌%◌, ◌≤◌, ◌<◌, ◌≡◌, refl, List, arith, length,
}
use lab_stream_gate.Net.{Ipv4}
use lab_stream_gate.Capture.Bytes.{u16_mod, u32_mod}
use lab_stream_gate.Capture.Packet.{
  sum_words, fold_carries, ipv4_checksum, ip_header, build_udp_packet, field_at,
}

-- Four octets.
pub record IsIpv4 (ip : Ipv4) : Type 0 where
  pub a_octet : ip.a < 256
  pub b_octet : ip.b < 256
  pub c_octet : ip.c < 256
  pub d_octet : ip.d < 256

abbrev word_sum : Ipv4 → ℕ
word_sum ip = (ip.a * 256 + ip.b) + (ip.c * 256 + ip.d)

-- The sum over a header does not wrap.
sum_words-ip_header :
    (checksum ip_length : ℕ) (source dest : Ipv4)
    → checksum < u16_mod
    → ip_length < u16_mod
    → IsIpv4 source
    → IsIpv4 dest
    → sum_words 0 (ip_header checksum ip_length source dest)
      ≡ 0x4500 + ip_length + 0x4000 + 0x4011 + checksum + word_sum source + word_sum dest
unfolding sum_words ip_header
sum_words-ip_header checksum ip_length source dest hc hl hs hd = omega arith

-- The folded sum is congruent to the sum, and is zero only for zero.
fold_carries_small :
    (n : ℕ)
    → n < 0xa0000
    → (fold_carries 3 n < u16_mod)
      × (n % 0xffff ≡ fold_carries 3 n % 0xffff)
      × (0 < n → 0 < fold_carries 3 n)
unfolding fold_carries
fold_carries_small n h = ground arith

complement :
    (rest folded : ℕ)
    → 0 < rest
    → rest + 0xffff < 0xa0000
    → folded ≡ fold_carries 3 rest
    → fold_carries 3 (rest + (0xffff - folded)) ≡ 0xffff
complement rest folded p h e =
    let (small, same, pos) = fold_carries_small rest (omega arith) in
    let (small', same', pos') = fold_carries_small (rest + (0xffff - folded)) (omega arith) in
    omega (arith, pos p, pos' (omega arith))

-- Three rounds end the loop for every sum of 32 bits: what they leave fits 16 bits, and more rounds
-- change nothing.
pub fold_carries-ends :
    (n extra : ℕ)
    → n < u32_mod
    → (fold_carries 3 n < u16_mod) × (fold_carries (suc (suc (suc extra))) n ≡ fold_carries 3 n)
unfolding fold_carries
fold_carries-ends n zero h = ground arith
fold_carries-ends n (suc extra) h = ground arith

abbrev rest_of_header : ℕ → Ipv4 → Ipv4 → ℕ
rest_of_header ip_length source dest =
    0x4500 + ip_length + 0x4000 + 0x4011 + word_sum source + word_sum dest

ipv4_checksum-complement :
    (ip_length : ℕ) (source dest : Ipv4)
    → ip_length < u16_mod
    → IsIpv4 source
    → IsIpv4 dest
    → ipv4_checksum (ip_header 0 ip_length source dest)
      ≡ 0xffff - fold_carries 3 (rest_of_header ip_length source dest)
ipv4_checksum-complement ip_length source dest hl hs hd =
    let e : sum_words 0 (ip_header 0 ip_length source dest) ≡ rest_of_header ip_length source dest =
      omega (arith, sum_words-ip_header 0 ip_length source dest (omega arith) hl hs hd) in
    let (small, _, _) = fold_carries_small (rest_of_header ip_length source dest) (omega arith) in
    rw (as_folded, e) (omega arith)
  where
    as_folded :
        ipv4_checksum (ip_header 0 ip_length source dest)
        ≡ 0xffff - fold_carries 3 (sum_words 0 (ip_header 0 ip_length source dest)) % u16_mod
    as_folded = unfold ipv4_checksum in refl

pub ip_header-sum :
    (ip_length : ℕ) (source dest : Ipv4)
    → ip_length < u16_mod
    → IsIpv4 source
    → IsIpv4 dest
    → fold_carries 3 (
        sum_words 0
          (ip_header (ipv4_checksum (ip_header 0 ip_length source dest)) ip_length source dest))
      ≡ 0xffff
ip_header-sum ip_length source dest hl hs hd =
    let c : ℕ = ipv4_checksum (ip_header 0 ip_length source dest) in
    let rest : ℕ = rest_of_header ip_length source dest in
    let ec : c ≡ 0xffff - fold_carries 3 rest =
      ipv4_checksum-complement ip_length source dest hl hs hd in
    let sum : sum_words 0 (ip_header c ip_length source dest)
        ≡ rest + (0xffff - fold_carries 3 rest) =
      omega (arith, sum_words-ip_header c ip_length source dest (omega arith) hl hs hd) in
    rw sum (complement rest (fold_carries 3 rest) (omega arith) (omega arith) refl)
