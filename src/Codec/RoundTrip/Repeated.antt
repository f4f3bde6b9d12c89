-- ===== src/Codec/RoundTrip/Repeated.antt =====
-- The encoder writes chains in which a type repeats, and the decoder refuses them.
use ipv_8_public_base_statio.Common.{
  ℕ, zero, suc, ◌+◌, ◌*◌, ◌/◌, ◌≤◌, ◌≡◌, refl, ap, ◌∙◌, true, false, List, [], ◌∷◌, ◌++◌, length,
  get_or, drop, contains, ok, err, arith, All, ◌⊎◌, inl, inr, append_assoc, ==_ne, le→ltb,
  length-append,
}
use ipv_8_public_base_statio.Common.Bytes.{of_be16}
use ipv_8_public_base_statio.Codec.Header.{IPv8Header, ExtensionHeader, wire, ext_len, first_wire}
use ipv_8_public_base_statio.Codec.Encode.{encode, encode_chain, encode_base}
use ipv_8_public_base_statio.Codec.Decode.{
  decode, ext_loop, decode_chain, ext_chain_cycle, DecodeError,
}
use ipv_8_public_base_statio.Codec.Decode.Chain.{ext_loop-step, more_at}
use ipv_8_public_base_statio.Codec.RoundTrip.{
  Accepted, IsExt, IsHeader, base_read, base_rest, encode-eq-ok, ext_here, length-encode_base,
}

-- Some type of the chain occurs twice, or is in `seen`.
abbrev pub Repeats : List ℕ → List ExtensionHeader → Type 0
Repeats seen [] = ⊥
Repeats seen (e ∷ es) =
    (contains seen (wire e.ext_type) ≡ true)
    ⊎ ((contains seen (wire e.ext_type) ≡ false) × Repeats (seen ++ (wire e.ext_type ∷ [])) es)

ext_loop-repeated :
    (f t : ℕ) (buf : List ℕ) (cursor idx : ℕ) (seen : List ℕ) (acc : List ExtensionHeader)
    → contains seen t ≡ true
    → ext_loop (suc f) buf cursor t idx seen acc ≡ err ext_chain_cycle
unfolding ext_loop
ext_loop-repeated f t buf cursor idx seen acc h = rw h

ext_loop-Repeats :
    (fuel : ℕ) (e : ExtensionHeader) (es : List ExtensionHeader) (buf : List ℕ) (cursor idx : ℕ)
    (seen : List ℕ) (acc : List ExtensionHeader) (tail : List ℕ)
    → drop cursor buf ≡ encode_chain (e ∷ es) ++ tail
    → All IsExt (e ∷ es)
    → Repeats seen (e ∷ es)
    → idx + length (e ∷ es) ≤ 64
    → length (e ∷ es) ≤ fuel
    → ext_loop fuel buf cursor (wire e.ext_type) idx seen acc ≡ err ext_chain_cycle
unfolding first_wire
ext_loop-Repeats zero e es buf cursor idx seen acc tail at v d room fuel = absurd (omega arith)
ext_loop-Repeats (suc f) e es buf cursor idx seen acc tail at v (inl hit) room fuel =
    ext_loop-repeated f (wire e.ext_type) buf cursor idx seen acc hit
ext_loop-Repeats (suc f) e [] buf cursor idx seen acc tail at v (inr later) room fuel =
    absurd later.1
ext_loop-Repeats (suc f) e (e' ∷ es) buf cursor idx seen acc tail at v (inr later) room fuel =
    ext_loop-step buf cursor (wire e'.ext_type) (ext_len e) e.payload
      (encode_chain (e' ∷ es) ++ tail) (ext_here buf cursor e (e' ∷ es) tail at) v.0.units f
      (wire e.ext_type) idx seen acc later.0 v.0.not_empty (omega arith)
    ∙ rw (==_ne (wire e'.ext_type) 0 v.1.0.not_end) (
        ext_loop-Repeats f e' es buf (cursor + (2 + ext_len e * 8)) (idx + 1)
          (seen ++ (wire e.ext_type ∷ [])) _ tail
          (more_at buf cursor (wire e'.ext_type) (ext_len e) e.payload
            (encode_chain (e' ∷ es) ++ tail) (ext_here buf cursor e (e' ∷ es) tail at) v.0.units)
          v.1 later.1 (omega arith) (omega arith))

decode_chain-Repeats :
    (exts : List ExtensionHeader) (buf tail : List ℕ)
    → drop 40 buf ≡ encode_chain exts ++ tail
    → All IsExt exts
    → Repeats [] exts
    → length exts ≤ 64
    → decode_chain buf (first_wire exts) ≡ err ext_chain_cycle
unfolding decode_chain first_wire
decode_chain-Repeats [] buf tail at v d room = absurd d
decode_chain-Repeats (e ∷ es) buf tail at v d room =
    rw (==_ne (wire e.ext_type) 0 v.0.not_end)
      (ext_loop-Repeats 65 e es buf 40 0 [] [] tail at v d (omega arith) (omega arith))

decode_of_chain_error :
    (buf : List ℕ) (h : IPv8Header)
    → Accepted h
    → 40 ≤ length buf
    → get_or buf 0 0 ≡ h.version * 16 + h.min_compat_ver
    → of_be16 (get_or buf 3 0) (get_or buf 4 0) ≡ h.payload_len
    → {x : DecodeError} → decode_chain buf (get_or buf 6 0) ≡ err x
    → decode buf ≡ err x
unfolding decode
decode_of_chain_error buf h a long e0 e3 c =
    let ver : get_or buf 0 0 / 16 ≡ 8 = omega (arith, a.version_eq, a.compat_le) in
    rw (le→ltb (length buf) 40 long, ver, e3, le→ltb 65467 h.payload_len a.payload_len_le, c) refl

-- Where some extension type occurs twice, the encoder still writes the packet, and the decoder
-- refuses what it wrote.
pub decode-encode_repeated :
    (h : IPv8Header) (payload out : List ℕ)
    → IsHeader h
    → Repeats [] h.ext_headers
    → encode h payload ≡ ok out
    → decode out ≡ err ext_chain_cycle
decode-encode_repeated h payload out v again e =
    let (a, size, written) = encode-eq-ok h payload e in
    let tail : List ℕ = encode_chain h.ext_headers ++ payload in
    let (r0, r1, r3) = base_read h tail v a in
    let (r5, r6, after) = base_rest h tail in
    rw (written, append_assoc (encode_base h) (encode_chain h.ext_headers) payload)
      (decode_of_chain_error (encode_base h ++ tail) h a
        (omega (arith, length-append (encode_base h) tail, length-encode_base h)) r0 r3
        (ap (decode_chain (encode_base h ++ tail)) (r6 ∙ a.next_eq)
          ∙ decode_chain-Repeats h.ext_headers (encode_base h ++ tail) payload after v.exts_ok again
              a.chain_le))
