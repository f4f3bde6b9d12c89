-- ===== src/Codec/Decode.antt =====
-- The decoder (src/core/ipv8-codec/src/decode.rs).
pub mod Chain
pub mod Loop
pub mod Sound
use ipv_8_public_base_statio.Common.{
  ℕ, zero, suc, ◌+◌, ◌-◌, ◌*◌, ◌/◌, ◌%◌, Bool, not, true, false, List, [], ◌∷◌, ◌++◌, ltb, ◌==◌,
  if◌then◌else◌, length, is_empty, get_or, take, drop, contains, Result, ok, err, diverged, ◌>>=◌,
  ◌>>◌, reject_if,
}
use ipv_8_public_base_statio.Common.Bytes.{of_be16}
use ipv_8_public_base_statio.Codec.Address.{IPv8Address}
use ipv_8_public_base_statio.Codec.Header.{
  IPv8Header, ExtensionHeader, base_header_size, max_payload_len, max_packet_len, protocol_version,
  max_ext_chain, has_extension, from_u8,
}

pub data DecodeError : Type 0 where
  too_short : ℕ → DecodeError
  bad_version : ℕ → DecodeError
  payload_too_long : ℕ → DecodeError
  payload_beyond_buffer : ℕ → ℕ → DecodeError
  packet_too_long : DecodeError
  ext_header_truncated : DecodeError
  too_many_ext_headers : DecodeError
  ext_len_zero : DecodeError
  ext_chain_cycle : DecodeError
  flag_mismatch : DecodeError

pub record Decoded : Type 0 where
  pub header : IPv8Header
  pub payload : List ℕ

-- `a != b` on Booleans.
abbrev differs : Bool → Bool → Bool
differs true b = not b
differs false b = b

unfoldable pub read_addr : List ℕ → IPv8Address
read_addr b = record {
  protocol = of_be16 (get_or b 0 0) (get_or b 1 0);
  region_hi = of_be16 (get_or b 2 0) (get_or b 3 0);
  region_mid = of_be16 (get_or b 4 0) (get_or b 5 0);
  region_lo = of_be16 (get_or b 6 0) (get_or b 7 0);
  subnet1 = of_be16 (get_or b 8 0) (get_or b 9 0);
  subnet2 = of_be16 (get_or b 10 0) (get_or b 11 0);
  node_hash = of_be16 (get_or b 12 0) (get_or b 13 0);
  session_id = of_be16 (get_or b 14 0) (get_or b 15 0);
}

-- The loop over the chain; its state is `cursor`, `cur_type`, `idx`, `seen` and `ext_headers`.
unfoldable pub ext_loop :
    ℕ
    → List ℕ
    → ℕ
    → ℕ
    → ℕ
    → List ℕ
    → List ExtensionHeader
    → Result DecodeError (List ExtensionHeader × ℕ)
ext_loop zero buf cursor cur_type idx seen ext_headers = diverged
ext_loop (suc fuel) buf cursor cur_type idx seen ext_headers = do
  reject_if (contains seen cur_type) ext_chain_cycle
  reject_if (ltb (length buf) (cursor + 2)) ext_header_truncated
  let ptr_next = get_or buf cursor 0
  let ext_len = get_or buf (cursor + 1) 0
  reject_if (ext_len == 0) ext_len_zero
  let plen = ext_len * 8
  reject_if (ltb (length buf) (cursor + 2 + plen)) ext_header_truncated
  let exts =
      ext_headers
      ++ (record { ext_type = from_u8 cur_type; payload = take plen (drop (cursor + 2) buf) } ∷ [])
  reject_if (ltb max_ext_chain (idx + 1)) too_many_ext_headers
  let rest =
      ext_loop fuel buf (cursor + (2 + plen)) ptr_next (idx + 1) (seen ++ (cur_type ∷ [])) exts
  if ptr_next == 0 then ok (exts, cursor + (2 + plen)) else rest

-- `idx` passes 64 in round 65 at the latest.
abbrev pub ext_fuel : ℕ
ext_fuel = 65

unfoldable pub decode_chain : List ℕ → ℕ → Result DecodeError (List ExtensionHeader × ℕ)
decode_chain buf next_header =
    if next_header == 0
    then ok ([], base_header_size)
    else ext_loop ext_fuel buf base_header_size next_header 0 [] []

unfoldable pub decode : List ℕ → Result DecodeError Decoded
decode buf = do
  reject_if (ltb (length buf) base_header_size) (too_short (length buf))
  let version = get_or buf 0 0 / 16
  reject_if (not (version == protocol_version)) (bad_version version)
  let flags = of_be16 (get_or buf 1 0) (get_or buf 2 0)
  let payload_len = of_be16 (get_or buf 3 0) (get_or buf 4 0)
  reject_if (ltb max_payload_len payload_len) (payload_too_long payload_len)
  let next_header = get_or buf 6 0
  (ext_headers, cursor) ← decode_chain buf next_header
  reject_if (differs (has_extension flags) (not (is_empty ext_headers))) flag_mismatch
  reject_if (ltb (length buf) (cursor + payload_len))
      (payload_beyond_buffer payload_len (length buf - cursor))
  reject_if (ltb max_packet_len (cursor + payload_len)) packet_too_long
  ok (record {
    header = record {
      version = version;
      min_compat_ver = get_or buf 0 0 % 16;
      flags = flags;
      payload_len = payload_len;
      hop_limit = get_or buf 5 0;
      next_header = next_header;
      src_addr = read_addr (take 16 (drop 7 buf));
      dst_addr = read_addr (take 16 (drop 23 buf));
      ext_headers = ext_headers;
    };
    payload = take payload_len (drop cursor buf);
  })
