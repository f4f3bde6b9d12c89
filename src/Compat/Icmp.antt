-- ===== src/Compat/Icmp.antt =====
-- The ICMP errors that a router sends back (src/core/ipv8-compat/src/icmp.rs). The buffers of zeros
-- into which the source writes the fields are lists of the fields; an address is its bytes.
use ipv_8_public_base_statio.Common.{
  ℕ, zero, suc, ◌+◌, ◌/◌, ◌%◌, List, ◌∷◌, [], ◌||◌, ltb, ◌==◌, if◌then◌else◌, length, take, drop,
  set, Option, none, some, ◌++◌, not, min, replicate,
}
use ipv_8_public_base_statio.Common.Bytes.{be16, to_be, u16, u32}
use ipv_8_public_base_statio.Compat.Checksum.{icmp_checksum, icmpv6_checksum, ip_header_checksum}
use ipv_8_public_base_statio.Compat.Ip.{
  ip_version, ipv4_ihl, ipv4_min_hdr, ipv4_src, ipv6_hdr, ipv6_src,
}
pub mod Message
pub mod Laws
pub mod V6

-- The checksum goes to bytes `at` and `at + 1` of the buffer that the function leaves.
unfoldable pub written_at : ℕ → ℕ × List ℕ → List ℕ
written_at at (cs, p) = set (set p at (cs / 256 % 256)) (suc at) (cs % 256)

-- The part of the packet that comes back.
unfoldable pub quoted_v4 : List ℕ → List ℕ
quoted_v4 original = take (min (ipv4_ihl original + 8) (length original)) original

unfoldable pub quoted_v6 : List ℕ → List ℕ
quoted_v6 original = take (min (ipv6_hdr + 8) (length original)) original

unfoldable pub icmp_message : ℕ → ℕ → List ℕ → List ℕ → List ℕ
icmp_message kind code rest payload =
    written_at 2 (icmp_checksum (kind ∷ code ∷ 0 ∷ 0 ∷ (rest ++ payload)))

-- The outer header, before its checksum.
unfoldable pub outer_v4 : List ℕ → List ℕ → ℕ → List ℕ
outer_v4 our_addr src total_len =
    69 ∷ 0 ∷ (be16 (u16 total_len) ++ (0 ∷ 0 ∷ 0 ∷ 0 ∷ 64 ∷ 1 ∷ 0 ∷ 0 ∷ (our_addr ++ src)))

-- The checksum of the header is taken while the rest of the buffer is still zeros.
unfoldable pub wrap_v4 : List ℕ → List ℕ → List ℕ → List ℕ
wrap_v4 our_addr src icmp =
    take 20 (
      written_at 10 (
        ip_header_checksum
          (outer_v4 our_addr src (ipv4_min_hdr + length icmp) ++ replicate (length icmp) 0)))
    ++ icmp

unfoldable pub error_v4 : ℕ → ℕ → List ℕ → List ℕ → List ℕ → Option (List ℕ)
error_v4 kind code rest original our_addr =
    if not (ip_version original == 4) || ltb (length original) ipv4_min_hdr
    then none
    else reply (ipv4_src original)
  where
    reply : Option (List ℕ) → Option (List ℕ)
    reply none = none
    reply (some src) =
        some (wrap_v4 our_addr src (icmp_message kind code rest (quoted_v4 original)))

unfoldable pub generate_time_exceeded_v4 : List ℕ → List ℕ → Option (List ℕ)
generate_time_exceeded_v4 original our_addr = error_v4 11 0 (0 ∷ 0 ∷ 0 ∷ 0 ∷ []) original our_addr

unfoldable pub generate_frag_needed_v4 : List ℕ → List ℕ → ℕ → Option (List ℕ)
generate_frag_needed_v4 original our_addr mtu = error_v4 3 4 (0 ∷ 0 ∷ be16 mtu) original our_addr

unfoldable pub outer_v6 : List ℕ → List ℕ → ℕ → List ℕ
outer_v6 our_addr src icmp_len =
    96 ∷ 0 ∷ 0 ∷ 0 ∷ (be16 (u16 icmp_len) ++ (58 ∷ 64 ∷ (our_addr ++ src)))

unfoldable pub error_v6 : ℕ → ℕ → List ℕ → List ℕ → List ℕ → Option (List ℕ)
error_v6 kind code rest original our_addr =
    if not (ip_version original == 6) || ltb (length original) ipv6_hdr
    then none
    else reply (ipv6_src original)
  where
    reply : Option (List ℕ) → Option (List ℕ)
    reply none = none
    reply (some src) =
        let icmp = kind ∷ code ∷ 0 ∷ 0 ∷ (rest ++ quoted_v6 original) in
        some (written_at 42 (icmpv6_checksum (outer_v6 our_addr src (length icmp) ++ icmp)))

unfoldable pub generate_time_exceeded_v6 : List ℕ → List ℕ → Option (List ℕ)
generate_time_exceeded_v6 original our_addr = error_v6 3 0 (0 ∷ 0 ∷ 0 ∷ 0 ∷ []) original our_addr

unfoldable pub generate_packet_too_big_v6 : List ℕ → List ℕ → ℕ → Option (List ℕ)
generate_packet_too_big_v6 original our_addr mtu = error_v6 2 0 (to_be 4 mtu) original our_addr
