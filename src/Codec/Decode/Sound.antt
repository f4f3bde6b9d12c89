-- ===== src/Codec/Decode/Sound.antt =====
-- What a buffer that decodes has (src/core/ipv8-codec/src/decode.rs).
use ipv_8_public_base_statio.Common.{
  ℕ, ◌+◌, ◌≤◌, ◌≡◌, ◌≢◌, refl, ap, sym, ◌∙◌, not, List, [], length, is_empty, get_or, take, drop,
  ◌==◌, ok, arith, All, length-take, length-drop, inl, inr, Bool-cases, Result-cases, Result-fails,
  ==_iff, subst,
}
use ipv_8_public_base_statio.Codec.Header.{
  ExtensionHeader, ext_total, first_wire, has_extension, Fresh,
}
use ipv_8_public_base_statio.Codec.Decode.{Decoded, decode, decode_chain}
use ipv_8_public_base_statio.Codec.Decode.Loop.{HasUnits, ext_loop-IsRead}

-- A decoded packet: its header and payload are consistent with each other and with the buffer.
pub record IsSound (buf : List ℕ) (d : Decoded) : Type 0 where
  pub version_eq : d.header.version ≡ 8
  pub payload_size : length d.payload ≡ d.header.payload_len
  pub payload_len_le : d.header.payload_len ≤ 65467
  pub total_le : 40 + ext_total d.header.ext_headers + d.header.payload_len ≤ 65507
  pub buffer_le : 40 + ext_total d.header.ext_headers + d.header.payload_len ≤ length buf
  pub next_eq : d.header.next_header ≡ first_wire d.header.ext_headers
  pub flag_eq : has_extension d.header.flags ≡ not (is_empty d.header.ext_headers)
  pub chain_le : length d.header.ext_headers ≤ 64
  pub distinct : Fresh [] d.header.ext_headers
  pub units : All HasUnits d.header.ext_headers

-- What is known of the chain that `decode_chain` returns.
record IsChain (buf : List ℕ) (t : ℕ) (exts : List ExtensionHeader) (end : ℕ) : Type 0 where
  end_eq : end ≡ 40 + ext_total exts
  next_eq : first_wire exts ≡ t
  chain_le : length exts ≤ 64
  distinct : Fresh [] exts
  units : All HasUnits exts

decode_chain-IsChain :
    (buf : List ℕ) (t : ℕ) (exts : List ExtensionHeader) (end : ℕ)
    → decode_chain buf t ≡ ok (exts, end)
    → IsChain buf t exts end
unfolding decode_chain first_wire ext_total
decode_chain-IsChain buf t exts end e = elim (Bool-cases (t == 0)) [
  | inl z ↦
      let none_read : exts ≡ [] = ground arith in
      let stop : end ≡ 40 = ground arith in
      record {
        end_eq = stop ∙ ap (λ es. 40 + ext_total es) (sym none_read);
        next_eq = ap first_wire none_read ∙ sym ((==_iff t 0).0 z);
        chain_le = omega (arith, ap length none_read);
        distinct = subst (Fresh []) (sym none_read) tt;
        units = subst (All HasUnits) (sym none_read) tt;
      }
  | inr nz ↦
      let r = ext_loop-IsRead 65 buf 40 t 0 [] [] exts end refl (rw nz at e) in
      record {
        end_eq = r.end_eq ∙ ap (λ es. 40 + ext_total es) (sym r.appended);
        next_eq = ap first_wire r.appended ∙ r.starts;
        chain_le = r.bounded;
        distinct = subst (Fresh []) (sym r.appended) r.fresh;
        units = subst (All HasUnits) (sym r.appended) r.units;
      }
]

-- The guards of `decode`, and the parts of what it returns.
decode_parts :
    (buf : List ℕ) (d : Decoded) (exts : List ExtensionHeader) (end : ℕ)
    → decode_chain buf (get_or buf 6 0) ≡ ok (exts, end)
    → decode buf ≡ ok d
    → (d.header.version ≡ 8)
      × (d.header.payload_len ≤ 65467)
      × (d.header.ext_headers ≡ exts)
      × (d.header.next_header ≡ get_or buf 6 0)
      × (has_extension d.header.flags ≡ not (is_empty exts))
      × (end + d.header.payload_len ≤ length buf)
      × (end + d.header.payload_len ≤ 65507)
      × (d.payload ≡ take d.header.payload_len (drop end buf))
unfolding decode
decode_parts buf d exts end c e = ground arith

decoded_with_chain :
    (buf : List ℕ) (d : Decoded) (exts : List ExtensionHeader) (end : ℕ)
    → decode_chain buf (get_or buf 6 0) ≡ ok (exts, end)
    → decode buf ≡ ok d
    → IsSound buf d
decoded_with_chain buf d exts end c e =
    let (ver, len, same, next, flag, room, total, slice) = decode_parts buf d exts end c e in
    let k = decode_chain-IsChain buf (get_or buf 6 0) exts end c in
    let whole : ext_total d.header.ext_headers ≡ ext_total exts = ap ext_total same in
    record {
      version_eq = ver;
      payload_size = omega (
        arith,
        ap length slice,
        length-take d.header.payload_len (drop end buf),
        length-drop end buf,
      );
      payload_len_le = len;
      total_le = omega (arith, k.end_eq);
      buffer_le = omega (arith, k.end_eq);
      next_eq = next ∙ sym k.next_eq ∙ ap first_wire (sym same);
      flag_eq = flag ∙ ap (λ es. not (is_empty es)) (sym same);
      chain_le = omega (arith, ap length same, k.chain_le);
      distinct = subst (Fresh []) (sym same) k.distinct;
      units = subst (All HasUnits) (sym same) k.units;
    }

no_chain :
    (buf : List ℕ) (d : Decoded)
    → ((r : List ExtensionHeader × ℕ) → decode_chain buf (get_or buf 6 0) ≢ ok r)
    → decode buf ≢ ok d
unfolding decode
no_chain buf d h e = elim (Result-fails (decode_chain buf (get_or buf 6 0)) h) [
  | inl (x, c) ↦ ground arith
  | inr c ↦ ground arith
]

-- Whatever buffer decodes: its version is 8, the payload has the declared length, the whole packet
-- lies in the buffer and has at most 65507 bytes, the chain has at most 64 headers of pairwise
-- different types, each in units of 8 bytes, NextHeader names its first type, and the extension
-- flag says whether there is a chain.
pub decode-IsSound : (buf : List ℕ) (d : Decoded) → decode buf ≡ ok d → IsSound buf d
decode-IsSound buf d e = elim (Result-cases (decode_chain buf (get_or buf 6 0))) [
  | inl ((exts, end), c) ↦ decoded_with_chain buf d exts end c e
  | inr none_read ↦ absurd (no_chain buf d none_read e)
]
