-- ===== src/Tests/Compat.antt =====
-- Packets on which the laws of the compatibility layer are used.
use ipv_8_public_base_statio.Common.{◌<◌}
use ipv_8_public_base_statio.Common.{
  ℕ, ◌≡◌, List, [], ◌∷◌, true, arith, refl, length, replicate, ◌++◌,
}
use ipv_8_public_base_statio.Common.Bytes.{AreBytes}
use ipv_8_public_base_statio.Compat.Checksum.{
  checksum, fold_carries, ip_header_checksum, ones_complement_sum, sum_words,
}
use ipv_8_public_base_statio.Compat.Ip.{
  after_step, ip_version, ipv4_ihl, ipv4_ttl, ipv6_next_header, l4_loop, l4_offset, l4_step,
  set_ipv4_ttl,
}
use ipv_8_public_base_statio.Compat.Ip.Laws.{IsL4, l4_offset-IsL4}
use ipv_8_public_base_statio.Compat.Ttl.{decrement_ipv4, decrement_ttl, write_checksum}
use ipv_8_public_base_statio.Compat.Ttl.Laws.{IsCountedDown, decrement_ttl-IsCountedDown}

-- From 10.0.0.1 to 10.0.0.2, with TTL 64 and TCP.
abbrev ipv4_packet : List ℕ
ipv4_packet =
    69 ∷ 0 ∷ 0 ∷ 20 ∷ 0 ∷ 0 ∷ 0 ∷ 0 ∷ 64 ∷ 6 ∷ 0 ∷ 0 ∷ 10 ∷ 0 ∷ 0 ∷ 1 ∷ 10 ∷ 0 ∷ 0 ∷ 2 ∷ []

-- An IPv6 header, a hop-by-hop header and the first byte of TCP.
abbrev ipv6_packet : List ℕ
ipv6_packet =
    (96 ∷ 0 ∷ 0 ∷ 0 ∷ 0 ∷ 9 ∷ 0 ∷ 64 ∷ replicate 32 1) ++ (6 ∷ 0 ∷ 1 ∷ 4 ∷ 0 ∷ 0 ∷ 0 ∷ 0 ∷ 80 ∷ [])

counted : decrement_ttl ipv4_packet ≡ (
  true,
  69 ∷ 0 ∷ 0 ∷ 20 ∷ 0 ∷ 0 ∷ 0 ∷ 0 ∷ 63 ∷ 6 ∷ 103 ∷ 226 ∷ 10 ∷ 0 ∷ 0 ∷ 1 ∷ 10 ∷ 0 ∷ 0 ∷ 2 ∷ [],
)
unfolding decrement_ttl decrement_ipv4 write_checksum ip_header_checksum checksum set_ipv4_ttl
    ipv4_ttl ip_version ones_complement_sum sum_words fold_carries
counted = refl

behind_hop_by_hop : l4_offset ipv6_packet ≡ (6, 48)
unfolding l4_offset l4_loop l4_step after_step ip_version ipv6_next_header
behind_hop_by_hop = refl

small_packet : length ipv6_packet < 18446744073709551615
small_packet = omega arith

l4_offset-IsL4_example : IsL4 ipv6_packet (l4_offset ipv6_packet)
l4_offset-IsL4_example = l4_offset-IsL4 ipv6_packet small_packet

ihl_is_20 : ipv4_ihl ipv4_packet ≡ 20
unfolding ipv4_ihl ip_version
ihl_is_20 = refl

ttl_is_64 : ipv4_ttl ipv4_packet ≡ 64
unfolding ipv4_ttl
ttl_is_64 = refl

ipv4_packet-AreBytes : AreBytes ipv4_packet
ipv4_packet-AreBytes = ground arith

decrement_ttl-IsCountedDown_example : IsCountedDown ipv4_packet (decrement_ttl ipv4_packet)
decrement_ttl-IsCountedDown_example =
    decrement_ttl-IsCountedDown ipv4_packet ipv4_packet-AreBytes (λ e. omega (arith, ihl_is_20, e))
      (omega (arith, ttl_is_64))
