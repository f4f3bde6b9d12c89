-- ===== src/Codec/Reassembly/RoundTrip.antt =====
-- Fragmentation and reassembly in full: a packet that is cut comes back as the same bytes.
use ipv_8_public_base_statio.Common.{
  ℕ, ◌+◌, ◌-◌, ◌*◌, ◌/◌, ◌^◌, ◌≤◌, ◌<◌, ◌≡◌, refl, ap, false, List, [], none, length, ok, arith,
  inl, inr, length-append, ◌++◌,
}
use ipv_8_public_base_statio.Codec.Address.{to_bytes}
use ipv_8_public_base_statio.Codec.Header.{IPv8Header, Fresh, ext_total, is_fragment}
use ipv_8_public_base_statio.Codec.Encode.{encode, encode_base, encode_chain}
use ipv_8_public_base_statio.Codec.Decode.{Decoded, decode}
use ipv_8_public_base_statio.Codec.RoundTrip.{
  IsHeader, decode-encode, encode-eq-ok, length-encode_base, length-encode_chain,
}
use ipv_8_public_base_statio.Codec.Fragment.{any_fragment, fragment_packet}
use ipv_8_public_base_statio.Codec.Fragment.Laws.{fragment_cut}
use ipv_8_public_base_statio.Codec.Reassembly.{
  Reassembler, complete, find_group, max_groups, reassembly_timeout, waiting,
}
use ipv_8_public_base_statio.Codec.Reassembly.Calls.{feed}
use ipv_8_public_base_statio.Codec.Reassembly.InOrder.{feed_rest}

fragmented-plain :
    (packet : List ℕ) (d : Decoded) (m id : ℕ) (outs : List (List ℕ))
    → decode packet ≡ ok d
    → fragment_packet packet m id ≡ ok outs
    → any_fragment d.header.ext_headers ≡ false
unfolding fragment_packet
fragmented-plain packet d m id outs e cut = ground arith

length-encode :
    (h : IPv8Header) (payload packet : List ℕ)
    → encode h payload ≡ ok packet
    → (length packet ≡ 40 + ext_total h.ext_headers + length payload) × (length payload ≤ 65467)
length-encode h payload packet e =
    let (a, size, form) = encode-eq-ok h payload e in
    (
      omega (
        arith,
        ap length form,
        length-append (encode_base h ++ encode_chain h.ext_headers) payload,
        length-append (encode_base h) (encode_chain h.ext_headers),
        length-encode_base h,
        length-encode_chain h.ext_headers,
      ),
      omega (arith, a.payload_len_le),
    )

-- Let a packet that the encoder wrote be longer than the limit `m`, and let the fragmenter cut it.
-- Then the fragments, decoded and inserted in their order within 30 seconds of the first, into a
-- reassembler that has room for a group and none under their key, give the packet back byte for
-- byte with the last of them.
pub feed-fragment_packet :
    (h : IPv8Header) (payload packet : List ℕ) (m id : ℕ) (outs : List (List ℕ)) (clock : ℕ → ℕ)
    (r : Reassembler)
    → IsHeader h
    → Fresh [] h.ext_headers
    → is_fragment h.flags ≡ false
    → encode h payload ≡ ok packet
    → id < 256 ^ 4
    → m < length packet
    → fragment_packet packet m id ≡ ok outs
    → ((i : ℕ) → clock i - clock 0 < reassembly_timeout)
    → find_group (record { src = to_bytes h.src_addr; dst = to_bytes h.dst_addr; id = id }) r.groups
      ≡ none
    → length r.groups < max_groups
    → (r' : Reassembler) × (feed clock 0 r waiting outs ≡ ok (r', complete packet))
feed-fragment_packet h payload packet m id outs clock r v fresh plain e small long cut soon new
      room =
    let d : Decoded = record { header = h; payload = payload } in
    let read : decode packet ≡ ok d = decode-encode h payload packet v fresh e in
    let (len, fits) = length-encode h payload packet e in
    elim (fragment_cut packet d m id outs read cut) [
      | inl (short, whole) ↦ absurd (omega arith)
      | inr (big, loop) ↦
          let some_bytes : 0 < length payload = omega arith in
          feed_rest d packet id ((m - (50 + ext_total h.ext_headers)) / 8 * 8) clock
            (record { written = e; not_empty = some_bytes; unfragmented = plain }) v fresh
            (fragmented-plain packet d m id outs read cut) small fits big (omega arith) soon _ 0 0 r
            waiting outs some_bytes (inr (refl, refl, new, room)) loop
    ]
