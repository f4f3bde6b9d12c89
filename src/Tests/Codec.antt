-- ===== src/Tests/Codec.antt =====
-- The codec at concrete packets.
use ipv_8_public_base_statio.Common.{
  ℕ, ◌≡◌, ◌≢◌, refl, List, [], ◌∷◌, ◌++◌, ok, err, diverged, arith, replicate, All, inl, inr,
}
use ipv_8_public_base_statio.Common.Bytes.{to_be}
use ipv_8_public_base_statio.Codec.Address.{IPv8Address, IsAddress, protocol_magic, write_to}
use ipv_8_public_base_statio.Codec.Header.{
  attach_ext_headers, IPv8Header, ExtensionHeader, ExtType, has_extension_bit, ext_total,
  first_wire, wire_size, ext_len, wire, from_u8, Fresh,
}
use ipv_8_public_base_statio.Codec.Encode.{
  encode, encode_header, encode_base, encode_chain, check_header,
}
use ipv_8_public_base_statio.Codec.Decode.{decode, ext_chain_cycle, decode_chain, read_addr}
use ipv_8_public_base_statio.Codec.Decode.Loop.{decode-ne-diverged}
use ipv_8_public_base_statio.Codec.Decode.Sound.{decode-IsSound, IsSound}
use ipv_8_public_base_statio.Codec.Fragment.{
  fragment_header, fragment_loop, fragment_packet, to_ext,
}
use ipv_8_public_base_statio.Codec.Fragment.Round.{Within}
use ipv_8_public_base_statio.Codec.Fragment.Laws.{fragment_packet-Within}
use ipv_8_public_base_statio.Codec.RoundTrip.{IsExt, IsHeader, decode-encode}
use ipv_8_public_base_statio.Codec.RoundTrip.Repeated.{Repeats, decode-encode_repeated}

abbrev pub addr : IPv8Address
addr = record {
  protocol = protocol_magic;
  region_hi = 1;
  region_mid = 2;
  region_lo = 3;
  subnet1 = 4;
  subnet2 = 5;
  node_hash = 6;
  session_id = 7;
}

pub addr-IsAddress : IsAddress addr
addr-IsAddress = record {
  protocol_u16 = omega arith;
  region_hi_u16 = omega arith;
  region_mid_u16 = omega arith;
  region_lo_u16 = omega arith;
  subnet1_u16 = omega arith;
  subnet2_u16 = omega arith;
  node_hash_u16 = omega arith;
  session_id_u16 = omega arith;
}

abbrev trace : ExtensionHeader
trace = record { ext_type = ExtType.route_trace; payload = replicate 8 9 }

abbrev card : ExtensionHeader
card = record { ext_type = ExtType.agent_card; payload = replicate 16 7 }

abbrev header : List ExtensionHeader → ℕ → IPv8Header
header exts next_header = record {
  version = 8;
  min_compat_ver = 0;
  flags = has_extension_bit;
  payload_len = 3;
  hop_limit = 64;
  next_header = next_header;
  src_addr = addr;
  dst_addr = addr;
  ext_headers = exts;
}

abbrev payload : List ℕ
payload = 1 ∷ 2 ∷ 3 ∷ []

trace-IsExt : IsExt trace
unfolding wire from_u8 ext_len
trace-IsExt = record {
  registered = refl;
  not_end = λ e. absurd (omega arith);
  units = refl;
  not_empty = λ e. absurd (omega arith);
}

card-IsExt : IsExt card
unfolding wire from_u8 ext_len
card-IsExt = record {
  registered = refl;
  not_end = λ e. absurd (omega arith);
  units = refl;
  not_empty = λ e. absurd (omega arith);
}

header-IsHeader :
    (exts : List ExtensionHeader) (next_header : ℕ)
    → All IsExt exts
    → IsHeader (header exts next_header)
header-IsHeader exts next_header h = record {
  flags_u16 = omega arith;
  payload_len_u16 = omega arith;
  src_ok = addr-IsAddress;
  dst_ok = addr-IsAddress;
  exts_ok = h;
}

abbrev addr_bytes : List ℕ
addr_bytes = 251 ∷ 20 ∷ 0 ∷ 1 ∷ 0 ∷ 2 ∷ 0 ∷ 3 ∷ 0 ∷ 4 ∷ 0 ∷ 5 ∷ 0 ∷ 6 ∷ 0 ∷ 7 ∷ []

abbrev base_bytes : ℕ → List ℕ
base_bytes next_header =
    128
    ∷ 0
    ∷ has_extension_bit
    ∷ 0
    ∷ 3
    ∷ 64
    ∷ next_header
    ∷ (addr_bytes ++ (addr_bytes ++ (0 ∷ [])))

abbrev packet : List ℕ
packet = base_bytes 5 ++ ((4 ∷ 1 ∷ trace.payload) ++ ((0 ∷ 2 ∷ card.payload) ++ payload))

packet_written : encode (header (trace ∷ card ∷ []) 5) payload ≡ ok packet
unfolding encode encode_header encode_base encode_chain check_header write_to first_wire wire
    ext_len ext_total wire_size
packet_written = refl

packet-Fresh : Fresh [] (trace ∷ card ∷ [])
unfolding wire
packet-Fresh = (refl, (refl, tt))

decode-encode_example :
    decode packet ≡ ok (record { header = header (trace ∷ card ∷ []) 5; payload = payload })
decode-encode_example =
    decode-encode (header (trace ∷ card ∷ []) 5) payload packet
      (header-IsHeader (trace ∷ card ∷ []) 5 (trace-IsExt, (card-IsExt, tt))) packet-Fresh
      packet_written

decode-IsSound_example :
    IsSound packet (record { header = header (trace ∷ card ∷ []) 5; payload = payload })
decode-IsSound_example =
    decode-IsSound packet (record { header = header (trace ∷ card ∷ []) 5; payload = payload })
      (decode-encode (header (trace ∷ card ∷ []) 5) payload packet
        (header-IsHeader (trace ∷ card ∷ []) 5 (trace-IsExt, (card-IsExt, tt))) packet-Fresh
        packet_written)

decode-ne-diverged_example : decode packet ≢ diverged
decode-ne-diverged_example = decode-ne-diverged packet

abbrev repeated : List ℕ
repeated = base_bytes 5 ++ ((5 ∷ 1 ∷ trace.payload) ++ ((0 ∷ 1 ∷ trace.payload) ++ payload))

repeated_written : encode (header (trace ∷ trace ∷ []) 5) payload ≡ ok repeated
unfolding encode encode_header encode_base encode_chain check_header write_to first_wire wire
    ext_len ext_total wire_size
repeated_written = refl

trace-Repeats : Repeats [] (trace ∷ trace ∷ [])
unfolding wire
trace-Repeats = inr (refl, inl refl)

decode-encode_repeated_example : decode repeated ≡ err ext_chain_cycle
decode-encode_repeated_example =
    decode-encode_repeated (header (trace ∷ trace ∷ []) 5) payload repeated
      (header-IsHeader (trace ∷ trace ∷ []) 5 (trace-IsExt, (trace-IsExt, tt))) trace-Repeats
      repeated_written

-- "FB14" and 28 zeros.
abbrev text : List ℕ
text = 70 ∷ 66 ∷ 49 ∷ 52 ∷ replicate 28 48

abbrev zero_addr : IPv8Address
zero_addr = record {
  protocol = protocol_magic;
  region_hi = 0;
  region_mid = 0;
  region_lo = 0;
  subnet1 = 0;
  subnet2 = 0;
  node_hash = 0;
  session_id = 0;
}

-- A packet of 24 bytes of payload without extension headers.
abbrev pub plain_head : ℕ → ℕ → ℕ → List ℕ
plain_head flags size next_header =
    128 ∷ 0 ∷ flags ∷ 0 ∷ size ∷ 64 ∷ next_header ∷ (addr_bytes ++ (addr_bytes ++ (0 ∷ [])))

abbrev pub plain : List ℕ
plain = plain_head 0 24 0 ++ (replicate 8 1 ++ (replicate 8 2 ++ replicate 8 3))

-- Its three fragments of 58 bytes.
abbrev pub plain_fragments : List (List ℕ)
plain_fragments =
    (plain_head 96 8 6 ++ ((0 ∷ 1 ∷ 0 ∷ 0 ∷ 0 ∷ 9 ∷ 0 ∷ 4 ∷ 0 ∷ 0 ∷ []) ++ replicate 8 1))
    ∷ (plain_head 96 8 6 ++ ((0 ∷ 1 ∷ 0 ∷ 0 ∷ 0 ∷ 9 ∷ 0 ∷ 12 ∷ 0 ∷ 0 ∷ []) ++ replicate 8 2))
    ∷ (plain_head 96 8 6 ++ ((0 ∷ 1 ∷ 0 ∷ 0 ∷ 0 ∷ 9 ∷ 0 ∷ 16 ∷ 0 ∷ 0 ∷ []) ++ replicate 8 3))
    ∷ []

pub plain_cut : fragment_packet plain 58 9 ≡ ok plain_fragments
unfolding fragment_packet fragment_loop fragment_header to_ext to_be attach_ext_headers
    encode_header check_header encode_base encode_chain write_to first_wire wire ext_len ext_total
    wire_size decode decode_chain read_addr
plain_cut = refl

fragment_packet-Within_example : Within 58 plain_fragments
fragment_packet-Within_example = fragment_packet-Within plain 58 9 plain_fragments plain_cut
