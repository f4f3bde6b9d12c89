-- ===== src/Compat/Outbound.antt =====
-- The pipeline that a packet passes on its way out, and in (src/core/ipv8-compat/src/lib.rs). The
-- packet, which the source changes in place, is returned behind the outcome.
use ipv_8_public_base_statio.Common.{
  ℕ, ◌-◌, List, ◌&&◌, ◌||◌, ltb, ◌==◌, if◌then◌else◌, length, Option, none, some, not, Bool, true,
  false, ◌>>=◌,
}
use ipv_8_public_base_statio.Common.Bytes.{u16, u32}
use ipv_8_public_base_statio.Compat.Icmp.{
  generate_frag_needed_v4, generate_packet_too_big_v6, generate_time_exceeded_v4,
  generate_time_exceeded_v6,
}
use ipv_8_public_base_statio.Compat.Ip.{ip_version, ipv4_df_set}
use ipv_8_public_base_statio.Compat.Mss.{clamp_mss}
use ipv_8_public_base_statio.Compat.Ttl.{decrement_ttl, is_multicast_or_broadcast}
pub mod Errors
pub mod Laws

pub data Outcome : Type 0 where
  forward : Outcome
  inject_icmp : List ℕ → Outcome
  dropped : Outcome

unfoldable pub inject_or_drop : Option (List ℕ) → Outcome
inject_or_drop none = dropped
inject_or_drop (some icmp) = inject_icmp icmp

-- `our_addr_v6.and_then(...)`
unfoldable pub with_v6 : Option (List ℕ) → (List ℕ → Option (List ℕ)) → Option (List ℕ)
with_v6 none generate = none
with_v6 (some a6) generate = generate a6

abbrev pub mss_target_of : List ℕ → ℕ → Option ℕ → ℕ
mss_target_of packet effective_mtu none =
    u16 (effective_mtu - (if ip_version packet == 6 then 60 else 40))
mss_target_of packet effective_mtu (some target) = target

abbrev time_exceeded : ℕ → List ℕ → List ℕ → Option (List ℕ) → Option (List ℕ)
time_exceeded ver packet our_addr_v4 our_addr_v6 =
    if ver == 4
    then generate_time_exceeded_v4 packet our_addr_v4
    else with_v6 our_addr_v6 (generate_time_exceeded_v6 packet)

-- From the TTL on: the answer of `decrement_ttl` and the packet that it left.
unfoldable pub outbound_hop :
    ℕ → ℕ → Option ℕ → List ℕ → Option (List ℕ) → Bool × List ℕ → Outcome × List ℕ
outbound_hop ver effective_mtu mss_target our_addr_v4 our_addr_v6 (false, packet) =
    (inject_or_drop (time_exceeded ver packet our_addr_v4 our_addr_v6), packet)
outbound_hop ver effective_mtu mss_target our_addr_v4 our_addr_v6 (true, packet) =
    if (ver == 4 && ipv4_df_set packet) && ltb effective_mtu (length packet)
    then (inject_or_drop (generate_frag_needed_v4 packet our_addr_v4 (u16 effective_mtu)), packet)
    else if ver == 6 && ltb effective_mtu (length packet)
    then (
      inject_or_drop
          (with_v6 our_addr_v6 (λ a6. generate_packet_too_big_v6 packet a6 (u32 effective_mtu))),
      packet,
    )
    else (forward, (clamp_mss packet (mss_target_of packet effective_mtu mss_target)).1)

unfoldable pub process_outbound :
    List ℕ → ℕ → Option ℕ → List ℕ → Option (List ℕ) → Outcome × List ℕ
process_outbound packet effective_mtu mss_target our_addr_v4 our_addr_v6 =
    if not (ip_version packet == 4) && not (ip_version packet == 6)
    then (forward, packet)
    else if is_multicast_or_broadcast packet
    then (forward, packet)
    else outbound_hop (ip_version packet) effective_mtu mss_target our_addr_v4 our_addr_v6
        (decrement_ttl packet)

unfoldable pub process_inbound : List ℕ → ℕ → Option ℕ → List ℕ
process_inbound packet effective_mtu mss_target =
    (clamp_mss packet (mss_target_of packet effective_mtu mss_target)).1
