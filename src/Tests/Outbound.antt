-- ===== src/Tests/Outbound.antt =====
-- Packets on their way out.
use ipv_8_public_base_statio.Common.{
  ℕ, ◌≡◌, ◌<◌, List, [], ◌∷◌, ◌++◌, true, arith, refl, length, some, none,
}
use ipv_8_public_base_statio.Common.Bytes.{AreBytes}
use ipv_8_public_base_statio.Compat.Checksum.{
  checksum, fold_carries, icmp_checksum, ip_header_checksum, ones_complement_sum, sum_words,
}
use ipv_8_public_base_statio.Compat.Icmp.{
  error_v4, generate_time_exceeded_v4, icmp_message, outer_v4, quoted_v4, wrap_v4, written_at,
}
use ipv_8_public_base_statio.Compat.Ip.{
  ip_version, ipv4_dst, ipv4_ihl, ipv4_proto, ipv4_src, ipv4_ttl, l4_offset, set_ipv4_ttl,
}
use ipv_8_public_base_statio.Compat.Mss.{
  clamp_at, clamp_mss, clamp_tcp, find_mss, mss_step, read_mss, read_tcp,
}
use ipv_8_public_base_statio.Compat.Mss.Clamp.{IsClamped, clamp_mss-IsClamped}
use ipv_8_public_base_statio.Compat.Outbound.{
  Outcome, forward, inject_icmp, inject_or_drop, outbound_hop, process_outbound,
}
use ipv_8_public_base_statio.Compat.Mss.{recompute_checksums}
use ipv_8_public_base_statio.Common.{inl}
use ipv_8_public_base_statio.Compat.Mss.Recomputed.{
  EndsAt, SumsVerify, recompute_checksums-Verifies,
}
use ipv_8_public_base_statio.Compat.Ttl.{
  decrement_ipv4, decrement_ttl, is_group_v4, is_multicast_or_broadcast, write_checksum,
}

-- A SYN from 10.0.0.1 to 10.0.0.2 with a NOP and an MSS of 1460, with TTL 64.
abbrev syn : List ℕ
syn =
    (69 ∷ 0 ∷ 0 ∷ 48 ∷ 0 ∷ 0 ∷ 0 ∷ 0 ∷ 64 ∷ 6 ∷ 0 ∷ 0 ∷ 10 ∷ 0 ∷ 0 ∷ 1 ∷ 10 ∷ 0 ∷ 0 ∷ 2 ∷ [])
    ++ ((4 ∷ 210 ∷ 0 ∷ 80 ∷ 0 ∷ 0 ∷ 0 ∷ 1 ∷ 0 ∷ 0 ∷ 0 ∷ 0 ∷ 112 ∷ 2 ∷ 255 ∷ 255 ∷ 0 ∷ 0 ∷ 0 ∷ 0
          ∷ [])
        ++ (1 ∷ 2 ∷ 4 ∷ 5 ∷ 180 ∷ 0 ∷ 0 ∷ 0 ∷ []))

mss_read : read_mss syn ≡ some 1460
unfolding read_mss read_tcp l4_offset ip_version ipv4_ihl ipv4_proto find_mss mss_step
mss_read = refl

mss_clamped : (clamp_mss syn 1200).0 ≡ true
unfolding clamp_mss clamp_tcp clamp_at l4_offset ip_version ipv4_ihl ipv4_proto find_mss mss_step
mss_clamped = refl

small_syn : length syn < 18446744073709551615
small_syn = omega arith

clamp_mss-IsClamped_example : IsClamped syn 1200 (clamp_mss syn 1200)
clamp_mss-IsClamped_example = clamp_mss-IsClamped syn 1200 small_syn (omega arith)

-- The same with TTL 1.
abbrev last_hop : List ℕ
last_hop = 69 ∷ 0 ∷ 0 ∷ 20 ∷ 0 ∷ 0 ∷ 0 ∷ 0 ∷ 1 ∷ 6 ∷ 0 ∷ 0 ∷ 10 ∷ 0 ∷ 0 ∷ 1 ∷ 10 ∷ 0 ∷ 0 ∷ 2 ∷ []

abbrev router : List ℕ
router = 10 ∷ 0 ∷ 0 ∷ 9 ∷ []

abbrev kind_of : Outcome → ℕ
kind_of forward = 0
kind_of (inject_icmp icmp) = length icmp
kind_of Outcome.dropped = 1

-- The answer is the outer header, eight bytes and the whole packet of 20.
last_hop_answered : kind_of (process_outbound last_hop 1400 none router none).0 ≡ 48
unfolding process_outbound outbound_hop inject_or_drop generate_time_exceeded_v4 error_v4 wrap_v4
    icmp_message quoted_v4 outer_v4 written_at icmp_checksum ip_header_checksum checksum
    ones_complement_sum sum_words fold_carries decrement_ttl decrement_ipv4 write_checksum ipv4_ttl
    set_ipv4_ttl ip_version ipv4_ihl ipv4_src is_multicast_or_broadcast ipv4_dst is_group_v4
last_hop_answered = refl

syn-AreBytes : AreBytes syn
syn-AreBytes = ground arith

syn-EndsAt : EndsAt syn 20
unfolding ip_version
syn-EndsAt = inl (refl, refl)

recompute_checksums-Verifies_example : SumsVerify syn 20 (recompute_checksums syn 20)
recompute_checksums-Verifies_example =
    recompute_checksums-Verifies syn 20 syn-AreBytes (omega arith) (omega arith) (omega arith)
      syn-EndsAt
