-- ===== src/Capture/Checksum/Reference.antt =====
-- `ipv4_checksum` of crates/wsrx/src/cli/capture.rs against the definition of the checksum in RFC 1071:
-- a sum in one's complement arithmetic, where each carry is added at once.
use lab_stream_gate.Common.{
  ℕ, zero, suc, ◌+◌, ◌-◌, ◌*◌, ◌/◌, ◌%◌, ◌≤◌, ◌<◌, ◌≡◌, refl, sym, ◌∙◌, List, take, drop, [], ◌∷◌,
  arith, length, leb, if◌then◌else◌, All, ◌⊎◌, inl, inr, Bool-cases, ◌==◌,
}
use lab_stream_gate.Capture.Bytes.{u16_mod, u32_mod, be16}
use lab_stream_gate.Net.{Ipv4}
use lab_stream_gate.Capture.Checksum.{IsIpv4, fold_carries-ends, ip_header-sum}
use lab_stream_gate.Capture.Packet.{
  sum_words, fold_carries, ipv4_checksum, ip_header, build_udp_packet,
}

-- The sum of two words of 16 bits in one's complement arithmetic.
abbrev pub ones_add : ℕ → ℕ → ℕ
ones_add a b = if leb u16_mod (a + b) then a + b - 0xffff else a + b

unfoldable pub ones_sum : ℕ → List ℕ → ℕ
ones_sum acc [] = acc
ones_sum acc (h ∷ []) = ones_add acc (h * 256)
ones_sum acc (h ∷ l ∷ rest) = ones_sum (ones_add acc (h * 256 + l)) rest

-- The two sums so far are the same number in one's complement arithmetic, which has two zeros.
record Agree (n b : ℕ) : Type 0 where
  congruent : n % 0xffff ≡ b % 0xffff
  zeros : ((n ≡ 0) × (b ≡ 0)) ⊎ ((0 < n) × (0 < b))

Agree-add :
    (n b w : ℕ)
    → Agree n b
    → b ≤ 0xffff
    → w ≤ 0xffff
    → n + w < u32_mod
    → Agree ((n + w) % u32_mod) (ones_add b w) × (ones_add b w ≤ 0xffff)
Agree-add n b w h k l m =
    let c = h.congruent in
    let z = h.zeros in
    elim (Bool-cases (leb u16_mod (b + w))) [
      | inl y ↦
          let g : u16_mod ≤ b + w = ground arith in
          rw (y, ones_add)
            (record { congruent = omega (arith, c, g); zeros = ground (arith, z, g) }, omega arith)
      | inr y ↦
          let g : b + w < u16_mod = ground arith in
          rw (y, ones_add)
            (record { congruent = omega (arith, c, g); zeros = ground (arith, z, g) }, omega arith)
    ]

Agree-sum :
    (n b : ℕ) (bytes : List ℕ)
    → Agree n b
    → b ≤ 0xffff
    → All (λ x. x < 256) bytes
    → n + length bytes * 0xffff < u32_mod
    → length bytes % 2 ≡ 0
    → Agree (sum_words n bytes) (ones_sum b bytes)
      × (ones_sum b bytes ≤ 0xffff)
      × (sum_words n bytes < u32_mod)
unfolding sum_words ones_sum
Agree-sum n b [] h k a l p = (h, k, omega arith)
Agree-sum n b (c ∷ []) h k a l p = absurd (omega arith)
Agree-sum n b (c ∷ d ∷ rest) h k a l p =
    let w : ℕ = c * 256 + d in
    let (next, small) =
      Agree-add n b w h k (omega (arith, a.0, a.1.0)) (omega (arith, a.0, a.1.0)) in
    Agree-sum ((n + w) % u32_mod) (ones_add b w) rest next small a.1.1 (omega (arith, a.0, a.1.0))
      (omega arith)

Agree-fold_carries : (fuel n : ℕ) → Agree n (fold_carries fuel n)
unfolding fold_carries
Agree-fold_carries zero n = record { congruent = refl; zeros = ground arith }
Agree-fold_carries (suc fuel) n = elim (Bool-cases (n / u16_mod == 0)) [
  | inl y ↦ rw (y, fold_carries) (record { congruent = refl; zeros = ground arith })
  | inr y ↦
      let next : ℕ = n % u16_mod + n / u16_mod in
      let h = Agree-fold_carries fuel next in
      let c = h.congruent in
      let e : n % 0xffff ≡ next % 0xffff = omega arith in
      rw (y, fold_carries)
        (record { congruent = omega (arith, c, e); zeros = ground (arith, h.zeros) })
]

Agree-eq : (n a b : ℕ) → Agree n a → Agree n b → a ≤ 0xffff → b ≤ 0xffff → a ≡ b
Agree-eq n a b h k l m =
    let c = h.congruent in let d = k.congruent in ground (arith, h.zeros, k.zeros, c, d)

-- In 16-bit words, whether the loop's sum is folded or each carry is added at once is the same.
fold_carries-ones_sum :
    (bytes : List ℕ)
    → All (λ x. x < 256) bytes
    → length bytes ≤ 65536
    → length bytes % 2 ≡ 0
    → (fold_carries 3 (sum_words 0 bytes) ≡ ones_sum 0 bytes) × (ones_sum 0 bytes ≤ 0xffff)
fold_carries-ones_sum bytes a l p =
    let start : Agree 0 0 = record { congruent = refl; zeros = ground arith } in
    let (h, small, bound) = Agree-sum 0 0 bytes start (omega arith) a (omega arith) p in
    let n : ℕ = sum_words 0 bytes in
    let f = Agree-fold_carries 3 n in
    let (word, _) = fold_carries-ends n 0 bound in
    (Agree-eq n (fold_carries 3 n) (ones_sum 0 bytes) f h (omega arith) small, small)

-- For a header of an even number of bytes, and of at most 65536, `ipv4_checksum` is the one's
-- complement of the sum of its words in one's complement arithmetic, as RFC 1071 defines it.
pub ipv4_checksum-ones_sum :
    (header : List ℕ)
    → All (λ x. x < 256) header
    → length header ≤ 65536
    → length header % 2 ≡ 0
    → ipv4_checksum header ≡ 0xffff - ones_sum 0 header
unfolding ipv4_checksum
ipv4_checksum-ones_sum header a l p =
    let (e, small) = fold_carries-ones_sum header a l p in omega (arith, e, small)

ip_header-bytes :
    (source dest : Ipv4) (checksum ip_length : ℕ)
    → IsIpv4 source
    → IsIpv4 dest
    → checksum < u16_mod
    → ip_length < u16_mod
    → All (λ x. x < 256) (ip_header checksum ip_length source dest)
      × (length (ip_header checksum ip_length source dest) ≡ 20)
unfolding ip_header be16
ip_header-bytes source dest checksum ip_length hs hd hc hl = (
  ground (
    arith, hs.a_octet, hs.b_octet, hs.c_octet, hs.d_octet, hd.a_octet, hd.b_octet, hd.c_octet,
    hd.d_octet,
  ),
  refl,
)

-- In a frame of a payload of at most 65507 bytes between addresses of four octets, the words of the IP
-- header, its checksum included, add up to 0xffff in one's complement arithmetic, each carry added at
-- once as in RFC 1071, which is the test that a receiver makes.
pub build_udp_packet-ones_sum :
    (source dest : Ipv4) (source_port dest_port : ℕ) (payload : List ℕ)
    → IsIpv4 source
    → IsIpv4 dest
    → length payload ≤ 65507
    → let header = take 20 (drop 14 (build_udp_packet source source_port dest dest_port payload)) in
      ones_sum 0 header ≡ 0xffff
unfolding build_udp_packet ip_header
build_udp_packet-ones_sum source dest source_port dest_port payload hs hd hl =
    let n : ℕ = 20 + 8 + length payload in
    let c : ℕ = ipv4_checksum (ip_header 0 n source dest) in
    let small : c < u16_mod = unfold ipv4_checksum in omega arith in
    let (a, l) = ip_header-bytes source dest c n hs hd small (omega arith) in
    let (e, _) =
      fold_carries-ones_sum (ip_header c n source dest) a (omega arith) (omega (arith, l)) in
    sym e ∙ ip_header-sum n source dest (omega arith) hs hd
