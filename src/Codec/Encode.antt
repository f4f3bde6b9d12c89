-- ===== src/Codec/Encode.antt =====
-- The encoder (src/core/ipv8-codec/src/encode.rs).
use ipv_8_public_base_statio.Common.{
  ℕ, ◌+◌, ◌-◌, ◌*◌, ◌%◌, Bool, not, ◌||◌, true, false, List, [], ◌∷◌, ◌++◌, ltb, ◌==◌, length,
  is_empty, Result, ok, ◌>>=◌, ◌>>◌, reject_if,
}
use ipv_8_public_base_statio.Common.Bytes.{be16, u8}
use ipv_8_public_base_statio.Codec.Address.{write_to}
use ipv_8_public_base_statio.Codec.Header.{
  IPv8Header, ExtensionHeader, base_header_size, max_payload_len, max_packet_len, protocol_version,
  max_ext_chain, reserved_ok, has_extension, ext_len, ext_total, first_wire,
}

-- The fields that a text names.
pub data FieldName : Type 0 where
  min_compat_ver_field has_extension_field : FieldName

pub data EncodeError : Type 0 where
  bad_version : ℕ → EncodeError
  field_overflow : FieldName → EncodeError
  reserved_bits : EncodeError
  payload_too_long : ℕ → EncodeError
  payload_length_mismatch : ℕ → ℕ → EncodeError
  too_many_ext_headers : ℕ → EncodeError
  packet_too_long : EncodeError
  next_header_mismatch : ℕ → ℕ → EncodeError
  flag_mismatch : FieldName → EncodeError
  address_reserved : EncodeError

-- `a != b` on Booleans.
abbrev differs : Bool → Bool → Bool
differs true b = not b
differs false b = b

-- The chain, each header with the type of its successor, 0 at the end.
unfoldable pub encode_chain : List ExtensionHeader → List ℕ
unfolding first_wire ext_len
encode_chain [] = []
encode_chain (e ∷ es) = first_wire es ∷ ext_len e ∷ (e.payload ++ encode_chain es)

-- The 40 bytes; the last one is padding.
unfoldable pub encode_base : IPv8Header → List ℕ
unfolding write_to
encode_base hdr =
    (u8 (hdr.version * 16) + hdr.min_compat_ver % 16)
    ∷ (be16 hdr.flags
        ++ (be16 hdr.payload_len
            ++ (hdr.hop_limit
                ∷ hdr.next_header
                ∷ ((write_to hdr.src_addr).0 ++ ((write_to hdr.dst_addr).0 ++ (0 ∷ []))))))

-- The guards in front of the first write.
unfoldable pub check_header : IPv8Header → Result EncodeError (Unit {0})
check_header hdr = do
  reject_if (not (hdr.version == protocol_version)) (bad_version hdr.version)
  reject_if (ltb 15 hdr.min_compat_ver) (field_overflow min_compat_ver_field)
  reject_if (not (reserved_ok hdr.flags)) reserved_bits
  reject_if (ltb max_payload_len hdr.payload_len) (payload_too_long hdr.payload_len)
  reject_if (ltb max_ext_chain (length hdr.ext_headers))
      (too_many_ext_headers (length hdr.ext_headers))
  reject_if (ltb max_packet_len (base_header_size + ext_total hdr.ext_headers + hdr.payload_len))
      packet_too_long
  reject_if (not (hdr.next_header == first_wire hdr.ext_headers))
      (next_header_mismatch (first_wire hdr.ext_headers) hdr.next_header)
  reject_if (differs (has_extension hdr.flags) (not (is_empty hdr.ext_headers)))
      (flag_mismatch has_extension_field)

-- The number of bytes written and the vector `out` after the call.
unfoldable pub encode_header : IPv8Header → List ℕ → Result EncodeError (ℕ × List ℕ)
unfolding write_to
encode_header hdr out = do
  check_header hdr
  reject_if (not (write_to hdr.src_addr).1 || not (write_to hdr.dst_addr).1) address_reserved
  let out' = out ++ (encode_base hdr ++ encode_chain hdr.ext_headers)
  ok (length out' - length out, out')

unfoldable pub encode : IPv8Header → List ℕ → Result EncodeError (List ℕ)
unfolding encode_header
encode hdr payload = do
  reject_if (not (length payload == hdr.payload_len))
      (payload_length_mismatch hdr.payload_len (length payload))
  (n, out) ← encode_header hdr []
  ok (out ++ payload)
