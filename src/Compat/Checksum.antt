-- ===== src/Compat/Checksum.antt =====
-- The Internet checksum of a header, an ICMP message or TCP (src/core/ipv8-compat/src/checksum.rs).
-- A function that writes into the buffer returns the buffer behind its result.
use ipv_8_public_base_statio.Common.{
  ℕ, zero, suc, ◌+◌, ◌-◌, ◌*◌, ◌/◌, ◌%◌, List, [], ◌∷◌, ltb, ◌==◌, if◌then◌else◌, length, take,
  drop, ◌++◌, set, get_or, ◌||◌,
}
use ipv_8_public_base_statio.Common.Bytes.{be16, of_be16, to_be, u16, u32}
pub mod Laws
pub mod Tcp

-- The sum of the 16-bit words in a u32. The last byte of an odd count is a high byte.
unfoldable pub sum_words : ℕ → List ℕ → ℕ
sum_words sum [] = sum
sum_words sum (last ∷ []) = u32 (sum + last * 256)
sum_words sum (hi ∷ lo ∷ others) = sum_words (u32 (sum + of_be16 hi lo)) others

-- `while sum >> 16 != 0`, for at most the given number of passes.
unfoldable pub fold_carries : ℕ → ℕ → ℕ
fold_carries zero sum = sum
fold_carries (suc passes) sum =
    let rest = fold_carries passes (sum % 65536 + sum / 65536) in
    if sum / 65536 == 0 then sum else rest

-- Two passes suffice for a u32.
abbrev pub fold_passes : ℕ
fold_passes = 2

unfoldable pub ones_complement_sum : List ℕ → ℕ
unfolding sum_words fold_carries
ones_complement_sum bytes = fold_carries fold_passes (sum_words 0 bytes)

unfoldable pub checksum : List ℕ → ℕ
unfolding ones_complement_sum
checksum bytes = 65535 - ones_complement_sum bytes

unfoldable pub ip_header_checksum : List ℕ → ℕ × List ℕ
unfolding checksum
ip_header_checksum header =
    if ltb (length header) 20 || ltb (length header) (get_or header 0 0 % 16 * 4)
    then (0, header)
    else (
      checksum (take (get_or header 0 0 % 16 * 4) (set (set header 10 0) 11 0)),
      set (set header 10 0) 11 0,
    )

unfoldable pub icmp_checksum : List ℕ → ℕ × List ℕ
unfolding checksum
icmp_checksum icmp =
    if ltb (length icmp) 4
    then (0, icmp)
    else (checksum (set (set icmp 2 0) 3 0), set (set icmp 2 0) 3 0)

-- The sum of a pseudo-header and of a segment whose checksum field is cleared, complemented.
unfoldable pub pseudo_checksum : List ℕ → List ℕ → ℕ
pseudo_checksum pseudo segment =
    65535
    - fold_carries fold_passes
        (u32 (ones_complement_sum pseudo + ones_complement_sum (set (set segment 16 0) 17 0)))

-- The addresses, a zero, the protocol and the length of the segment.
abbrev pub pseudo_v4 : List ℕ → ℕ → List ℕ
pseudo_v4 packet tcp_offset =
    take 8 (drop 12 packet) ++ (0 ∷ get_or packet 9 0 ∷ be16 (u16 (length packet - tcp_offset)))

unfoldable pub tcp_checksum_v4 : List ℕ → ℕ → ℕ
tcp_checksum_v4 packet tcp_offset =
    if ltb (length packet) (tcp_offset + 20)
    then 0
    else pseudo_checksum (pseudo_v4 packet tcp_offset) (drop tcp_offset packet)

-- The addresses, the length of the segment, three zeros and the protocol.
abbrev pub pseudo_v6 : List ℕ → ℕ → ℕ → List ℕ
pseudo_v6 packet l4_offset next_header =
    take 32 (drop 8 packet)
    ++ (to_be 4 (u32 (length packet - l4_offset)) ++ (0 ∷ 0 ∷ 0 ∷ next_header ∷ []))

-- For a packet with a whole IPv6 header.
unfoldable pub tcp_checksum_v6_with_proto : List ℕ → ℕ → ℕ → ℕ
tcp_checksum_v6_with_proto packet l4_offset next_header =
    if ltb (length packet) (l4_offset + 20)
    then 0
    else pseudo_checksum (pseudo_v6 packet l4_offset next_header) (drop l4_offset packet)

unfoldable pub tcp_checksum_v6 : List ℕ → ℕ → ℕ
tcp_checksum_v6 packet tcp_offset = tcp_checksum_v6_with_proto packet tcp_offset 6

unfoldable pub icmpv6_checksum : List ℕ → ℕ × List ℕ
icmpv6_checksum pkt = if ltb (length pkt) 44 then (0, pkt) else (
  65535
      - fold_carries fold_passes (
          u32 (
            ones_complement_sum (pseudo_v6 pkt 40 58)
            + ones_complement_sum (drop 40 (set (set pkt 42 0) 43 0)))),
  set (set pkt 42 0) 43 0,
)
