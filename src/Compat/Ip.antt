-- ===== src/Compat/Ip.antt =====
-- Reading and writing the fields of IP headers (src/core/ipv8-compat/src/ip.rs). A field that the
-- buffer does not hold reads as 0 or none, and is not written.
use ipv_8_public_base_statio.Common.{
  ℕ, zero, suc, ◌+◌, ◌*◌, ◌/◌, ◌%◌, List, ◌∷◌, [], Bool, true, false, ◌||◌, ltb, ◌==◌,
  if◌then◌else◌, length, take, drop, set, get_or, contains, Option, none, some, ◌++◌, not, min, ◌-◌,
  ◌≤◌,
}
use ipv_8_public_base_statio.Common.Words.{has_bit}
pub mod Laws
pub mod Agrees

abbrev pub ipv4_min_hdr : ℕ
ipv4_min_hdr = 20

abbrev pub ipv6_hdr : ℕ
ipv6_hdr = 40

unfoldable pub ip_version : List ℕ → ℕ
ip_version [] = 0
ip_version (first ∷ others) = first / 16

unfoldable pub ipv4_ihl : List ℕ → ℕ
unfolding ip_version
ipv4_ihl p =
    let ihl = get_or p 0 0 % 16 * 4 in
    if not (ip_version p == 4) || ltb (length p) ipv4_min_hdr
    then 0
    else if ltb ihl ipv4_min_hdr || ltb (length p) ihl
    then 0
    else ihl

unfoldable pub ipv4_ttl : List ℕ → ℕ
ipv4_ttl p = if ltb (length p) 9 then 0 else get_or p 8 0

unfoldable pub set_ipv4_ttl : List ℕ → ℕ → List ℕ
set_ipv4_ttl p ttl = if ltb (length p) 9 then p else set p 8 ttl

unfoldable pub ipv4_proto : List ℕ → ℕ
ipv4_proto p = if ltb (length p) 10 then 0 else get_or p 9 0

unfoldable pub ipv4_src : List ℕ → Option (List ℕ)
ipv4_src p = if ltb (length p) 16 then none else some (take 4 (drop 12 p))

unfoldable pub ipv4_dst : List ℕ → Option (List ℕ)
ipv4_dst p = if ltb (length p) 20 then none else some (take 4 (drop 16 p))

unfoldable pub ipv4_df_set : List ℕ → Bool
ipv4_df_set p = if ltb (length p) 7 then false else has_bit 64 (get_or p 6 0)

unfoldable pub ipv6_hop_limit : List ℕ → ℕ
ipv6_hop_limit p = if ltb (length p) 8 then 0 else get_or p 7 0

unfoldable pub set_ipv6_hop_limit : List ℕ → ℕ → List ℕ
set_ipv6_hop_limit p hl = if ltb (length p) 8 then p else set p 7 hl

unfoldable pub ipv6_next_header : List ℕ → ℕ
ipv6_next_header p = if ltb (length p) 7 then 0 else get_or p 6 0

unfoldable pub ipv6_src : List ℕ → Option (List ℕ)
ipv6_src p = if ltb (length p) 24 then none else some (take 16 (drop 8 p))

unfoldable pub ipv6_dst : List ℕ → Option (List ℕ)
ipv6_dst p = if ltb (length p) 40 then none else some (take 16 (drop 24 p))

-- One pass of the loop over the extension headers: it breaks, gives up, or goes on behind a header.
pub data L4Step : Type 0 where
  halt : L4Step
  unknown : L4Step
  behind : ℕ → ℕ → L4Step

abbrev saturating_add : ℕ → ℕ → ℕ
saturating_add a b = min (a + b) 18446744073709551615

-- Behind a header of the given length, unless the buffer ends before.
abbrev skip : List ℕ → ℕ → ℕ → L4Step
skip p off hlen =
    if ltb (length p) (off + 2) || ltb (length p) (saturating_add off hlen)
    then unknown
    else behind (get_or p off 0) (saturating_add off hlen)

unfoldable pub l4_step : List ℕ → ℕ → ℕ → L4Step
l4_step p next off =
    if contains (6 ∷ 17 ∷ 58 ∷ 1 ∷ []) next
    then halt
    else if contains (0 ∷ 43 ∷ 60 ∷ []) next
    then skip p off ((get_or p (off + 1) 0 + 1) * 8)
    else if next == 44
    then if ltb (length p) (off + 8) then unknown else behind (get_or p off 0) (off + 8)
    else if next == 51
    then skip p off ((get_or p (off + 1) 0 + 2) * 4)
    else halt

unfoldable pub after_step : L4Step → ℕ × ℕ → (ℕ → ℕ → ℕ × ℕ) → ℕ × ℕ
after_step halt here go_on = here
after_step unknown here go_on = (0, 0)
after_step (behind next off) here go_on = go_on next off

-- `for _ in 0..8`
unfoldable pub l4_loop : ℕ → List ℕ → ℕ → ℕ → ℕ × ℕ
l4_loop zero p next off = (next, off)
l4_loop (suc passes) p next off = after_step (l4_step p next off) (next, off) (l4_loop passes p)

unfoldable pub l4_offset : List ℕ → ℕ × ℕ
l4_offset p =
    if ip_version p == 4
    then if ipv4_ihl p == 0 then (0, 0) else (ipv4_proto p, ipv4_ihl p)
    else if ip_version p == 6
    then if ltb (length p) ipv6_hdr then (0, 0) else l4_loop 8 p (ipv6_next_header p) ipv6_hdr
    else (0, 0)
