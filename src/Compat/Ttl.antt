-- ===== src/Compat/Ttl.antt =====
-- Counting down the TTL, and telling multicast and broadcast (src/core/ipv8-compat/src/ttl.rs).
use ipv_8_public_base_statio.Common.{
  ℕ, zero, suc, ◌-◌, ◌/◌, ◌%◌, List, ◌∷◌, [], Bool, true, false, ◌||◌, ◌&&◌, ltb, ◌==◌,
  if◌then◌else◌, length, set, get_or, Option, none, some, not,
}
use ipv_8_public_base_statio.Compat.Checksum.{ip_header_checksum}
use ipv_8_public_base_statio.Compat.Ip.{
  ip_version, ipv4_dst, ipv4_min_hdr, ipv4_ttl, ipv6_dst, ipv6_hdr, ipv6_hop_limit, set_ipv4_ttl,
  set_ipv6_hop_limit,
}
pub mod Laws
pub mod Kept

-- The checksum goes to bytes 10 and 11 of the header that `ip_header_checksum` leaves.
unfoldable pub write_checksum : ℕ × List ℕ → List ℕ
write_checksum (cs, p) =
    if ltb (length p) 12 then p else set (set p 10 (cs / 256 % 256)) 11 (cs % 256)

unfoldable pub decrement_ipv4 : List ℕ → Bool × List ℕ
decrement_ipv4 p = if ltb (length p) ipv4_min_hdr || ipv4_ttl p == 0 then (false, p) else (
  ltb 0 (ipv4_ttl p - 1),
  write_checksum (ip_header_checksum (set_ipv4_ttl p (ipv4_ttl p - 1))),
)

unfoldable pub decrement_ipv6 : List ℕ → Bool × List ℕ
decrement_ipv6 p =
    if ltb (length p) ipv6_hdr || ipv6_hop_limit p == 0
    then (false, p)
    else (ltb 0 (ipv6_hop_limit p - 1), set_ipv6_hop_limit p (ipv6_hop_limit p - 1))

unfoldable pub decrement_ttl : List ℕ → Bool × List ℕ
decrement_ttl p =
    if ip_version p == 4
    then decrement_ipv4 p
    else if ip_version p == 6
    then decrement_ipv6 p
    else (false, p)

-- Multicast is 224.0.0.0/4 and ff00::/8. A last byte of 255 counts as a broadcast.
unfoldable pub is_group_v4 : Option (List ℕ) → Bool
is_group_v4 none = false
is_group_v4 (some o) =
    get_or o 0 0 / 16 == 14
    || (((get_or o 0 0 == 255 && get_or o 1 0 == 255)
          && (get_or o 2 0 == 255 && get_or o 3 0 == 255))
        || (get_or o 3 0 == 255 && not (get_or o 0 0 == 0)))

unfoldable pub is_group_v6 : Option (List ℕ) → Bool
is_group_v6 none = false
is_group_v6 (some o) = get_or o 0 0 == 255

unfoldable pub is_multicast_or_broadcast : List ℕ → Bool
unfolding ip_version ipv4_dst ipv6_dst is_group_v4 is_group_v6
is_multicast_or_broadcast p =
    if ip_version p == 4
    then is_group_v4 (ipv4_dst p)
    else if ip_version p == 6
    then is_group_v6 (ipv6_dst p)
    else false
