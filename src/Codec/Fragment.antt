-- ===== src/Codec/Fragment.antt =====
-- The fragment header and the fragmenter (src/core/ipv8-codec/src/fragment.rs).
pub mod Round
pub mod Laws
pub mod Reading
use ipv_8_public_base_statio.Common.{
  ℕ, zero, suc, ◌+◌, ◌-◌, ◌*◌, ◌/◌, ◌%◌, Bool, true, false, not, List, [], ◌∷◌, ◌++◌, Option, none,
  some, min, ltb, leb, ◌==◌, if◌then◌else◌, length, get_or, take, drop, ◌&&◌, ◌||◌, Result, ok, err,
  diverged, ◌>>=◌, ◌>>◌, reject_if, map_err,
}
use ipv_8_public_base_statio.Common.Bytes.{be16, of_be, of_be16, to_be, u16}
use ipv_8_public_base_statio.Common.Words.{clear_bit, has_bit, set_bit}
use ipv_8_public_base_statio.Codec.Header.{
  IPv8Header, ExtensionHeader, ExtType, attach_ext_headers, base_header_size, ext_total,
  fragment_bit, has_extension_bit, is_fragment_type,
}
use ipv_8_public_base_statio.Codec.Encode.{EncodeError, encode_header}
use ipv_8_public_base_statio.Codec.Decode.{DecodeError, Decoded, decode}

abbrev pub frag_ext_wire : ℕ
frag_ext_wire = 10

pub record FragmentInfo : Type 0 where
  pub id : ℕ
  pub offset : ℕ
  pub more : Bool

unfoldable pub to_ext : FragmentInfo → ExtensionHeader
to_ext f =
    let word = f.offset % 8192 * 8 + (if f.more then 4 else 0) in
    record { ext_type = ExtType.fragment; payload = to_be 4 f.id ++ (be16 word ++ (0 ∷ 0 ∷ [])) }

unfoldable pub parse_info : ExtensionHeader → Option FragmentInfo
parse_info ext =
    let word = of_be16 (get_or ext.payload 4 0) (get_or ext.payload 5 0) in
    if not (is_fragment_type ext.ext_type) || not (length ext.payload == 8)
    then Option.none
    else Option.some (record {
      id = of_be (take 4 ext.payload);
      offset = word / 8 % 8192;
      more = has_bit 4 word;
    })

pub data FragmentError : Type 0 where
  not_a_valid_packet : DecodeError → FragmentError
  already_fragmented : FragmentError
  length_mismatch : FragmentError
  mtu_too_small : ℕ → FragmentError

unfoldable pub decode_err_from_encode : EncodeError → DecodeError
decode_err_from_encode (EncodeError.payload_too_long n) = DecodeError.payload_too_long n
decode_err_from_encode _ = DecodeError.too_short 0

abbrev pub any_fragment : List ExtensionHeader → Bool
any_fragment [] = false
any_fragment (e ∷ es) =
    let rest = any_fragment es in if is_fragment_type e.ext_type then true else rest

-- The header of the fragment at `pos`, with `size` bytes of the payload.
unfoldable pub fragment_header : IPv8Header → ℕ → ℕ → ℕ → ℕ → Bool → IPv8Header
fragment_header h id offset_units pos size more =
    let info = to_ext (record { id = id; offset = offset_units; more = more }) in
    let chain = if pos == 0 then info ∷ h.ext_headers else info ∷ [] in
    let hdr =
      attach_ext_headers
        (record {
          version = h.version;
          min_compat_ver = h.min_compat_ver;
          flags = clear_bit fragment_bit (clear_bit has_extension_bit h.flags);
          payload_len = u16 size;
          hop_limit = h.hop_limit;
          next_header = 0;
          src_addr = h.src_addr;
          dst_addr = h.dst_addr;
          ext_headers = [];
        })
        chain in
    record hdr { flags = set_bit fragment_bit hdr.flags }

-- The loop; its state is `offset_units` and `pos`, and `out` is what it returns.
unfoldable pub fragment_loop : ℕ → Decoded → ℕ → ℕ → ℕ → ℕ → Result FragmentError (List (List ℕ))
fragment_loop zero d chunk id offset_units pos = diverged
fragment_loop (suc fuel) d chunk id offset_units pos =
    let size = min chunk (length d.payload - pos) in
    let more = ltb (pos + size) (length d.payload) in
    let rest = fragment_loop fuel d chunk id (u16 (offset_units + size / 8)) (pos + size) in
    if not (ltb pos (length d.payload)) then ok [] else do
      (n, buf) ←
          map_err (λ e. not_a_valid_packet (decode_err_from_encode e))
            (encode_header (fragment_header d.header id offset_units pos size more) [])
      outs ← rest
      ok ((buf ++ take size (drop pos d.payload)) ∷ outs)

-- Each round takes at least one byte of the payload.
unfoldable pub fragment_packet : List ℕ → ℕ → ℕ → Result FragmentError (List (List ℕ))
fragment_packet packet max_len id = do
  d ← map_err not_a_valid_packet (decode packet)
  reject_if (any_fragment d.header.ext_headers) already_fragmented
  if leb (length packet) max_len then ok (packet ∷ []) else do
    reject_if (not (length d.payload == d.header.payload_len)) length_mismatch
    let budget = max_len - (base_header_size + frag_ext_wire + ext_total d.header.ext_headers)
    let chunk = budget / 8 * 8
    reject_if (ltb chunk 8) (mtu_too_small max_len)
    fragment_loop (suc (length d.payload)) d chunk id 0 0
