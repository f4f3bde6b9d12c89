-- ===== src/Compat/Mss.antt =====
-- Clamping the MSS option of a TCP SYN (src/core/ipv8-compat/src/mss.rs).
use ipv_8_public_base_statio.Common.{
  ℕ, zero, suc, ◌+◌, ◌-◌, ◌*◌, ◌/◌, ◌%◌, List, ◌∷◌, [], ◌||◌, ◌&&◌, ltb, leb, ◌==◌, if◌then◌else◌,
  length, take, drop, ◌++◌, set, get_or, Option, none, some, not, Bool, true, false,
}
use ipv_8_public_base_statio.Common.Bytes.{of_be16}
use ipv_8_public_base_statio.Common.Words.{has_bit}
use ipv_8_public_base_statio.Compat.Checksum.{ip_header_checksum, tcp_checksum_v4, tcp_checksum_v6}
use ipv_8_public_base_statio.Compat.Ip.{ip_version, l4_offset}
pub mod Options
pub mod Laws
pub mod Clamp
pub mod Recomputed

abbrev pub tcp_min_hdr : ℕ
tcp_min_hdr = 20

-- The length of the TCP header, which the upper half of its byte 12 gives in words.
abbrev pub data_offset : List ℕ → ℕ → ℕ
data_offset packet l4_off = get_or packet (l4_off + 12) 0 / 16 % 16 * 4

-- A round of the loop at `pos`: it breaks, has the option, or goes on at a later place.
pub data MssStep : Type 0 where
  ended : MssStep
  found : MssStep
  next : ℕ → MssStep

unfoldable pub mss_step : List ℕ → ℕ → ℕ → MssStep
mss_step packet opts_end pos =
    let kind = get_or packet pos 0 in
    let opt_len = get_or packet (pos + 1) 0 in
    if leb opts_end pos || kind == 0
    then ended
    else if kind == 1
    then next (pos + 1)
    else if leb opts_end (pos + 1) || (opt_len == 0 || ltb opts_end (pos + opt_len))
    then ended
    else if kind == 2 && opt_len == 4
    then found
    else next (pos + opt_len)

abbrev pub after_round : MssStep → ℕ → (ℕ → Option ℕ) → Option ℕ
after_round ended pos go = none
after_round found pos go = some pos
after_round (next to) pos go = go to

-- The place of the MSS option. Each round passes a byte or more, so that the bytes of the options
-- are fuel enough.
unfoldable pub find_mss : ℕ → List ℕ → ℕ → ℕ → Option ℕ
find_mss zero packet opts_end pos = none
find_mss (suc fuel) packet opts_end pos =
    after_round (mss_step packet opts_end pos) pos (find_mss fuel packet opts_end)

-- The place of the MSS option of a packet with a TCP header at `l4_off`.
abbrev pub mss_place : List ℕ → ℕ → Option ℕ
mss_place packet l4_off =
    find_mss (data_offset packet l4_off) packet (l4_off + data_offset packet l4_off)
      (l4_off + tcp_min_hdr)

-- Is there a TCP header at `l4_off`, with its options within the buffer?
abbrev pub has_options : List ℕ → ℕ → Bool
has_options packet l4_off =
    not (ltb (data_offset packet l4_off) tcp_min_hdr)
    && not (ltb (length packet) (l4_off + data_offset packet l4_off))

abbrev pub mss_at : List ℕ → ℕ → ℕ
mss_at packet pos = of_be16 (get_or packet (pos + 2) 0) (get_or packet (pos + 3) 0)

abbrev pub put_be16 : List ℕ → ℕ → ℕ → List ℕ
put_be16 packet at v = set (set packet at (v / 256 % 256)) (at + 1) (v % 256)

-- `ip_header_checksum` clears its field in the packet before the sum is written there.
unfoldable pub recompute_ip : List ℕ → ℕ → List ℕ
recompute_ip packet l4_off =
    put_be16 ((ip_header_checksum (take l4_off packet)).1 ++ drop l4_off packet) 10
      (ip_header_checksum (take l4_off packet)).0

unfoldable pub recompute_checksums : List ℕ → ℕ → List ℕ
recompute_checksums packet l4_off =
    if ip_version packet == 4
    then put_be16 (recompute_ip packet l4_off) (l4_off + 16)
        (tcp_checksum_v4 (recompute_ip packet l4_off) l4_off)
    else if ip_version packet == 6
    then put_be16 packet (l4_off + 16) (tcp_checksum_v6 packet l4_off)
    else packet

unfoldable pub clamp_at : List ℕ → ℕ → ℕ → Option ℕ → Bool × List ℕ
clamp_at packet target l4_off none = (false, packet)
clamp_at packet target l4_off (some pos) = (
  true,
  if ltb target (mss_at packet pos)
      then recompute_checksums (put_be16 packet (pos + 2) target) l4_off
      else packet,
)

unfoldable pub clamp_tcp : List ℕ → ℕ → ℕ × ℕ → Bool × List ℕ
clamp_tcp packet target (proto, l4_off) =
    if not (proto == 6) || ltb (length packet) (l4_off + tcp_min_hdr)
    then (false, packet)
    else if not (has_bit 2 (get_or packet (l4_off + 13) 0)) || not (has_options packet l4_off)
    then (false, packet)
    else clamp_at packet target l4_off (mss_place packet l4_off)

unfoldable pub clamp_mss : List ℕ → ℕ → Bool × List ℕ
clamp_mss packet target_mss = clamp_tcp packet target_mss (l4_offset packet)

unfoldable pub read_tcp : List ℕ → ℕ × ℕ → Option ℕ
read_tcp packet (proto, l4_off) =
    if not (proto == 6) || ltb (length packet) (l4_off + tcp_min_hdr)
    then none
    else if not (has_options packet l4_off)
    then none
    else value (mss_place packet l4_off)
  where
    value : Option ℕ → Option ℕ
    value none = none
    value (some pos) = some (mss_at packet pos)

unfoldable pub read_mss : List ℕ → Option ℕ
read_mss packet = read_tcp packet (l4_offset packet)
