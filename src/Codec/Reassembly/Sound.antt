-- ===== src/Codec/Reassembly/Sound.antt =====
-- What a group of parts of one packet gives: the packet.
use ipv_8_public_base_statio.Common.{
  ℕ, ◌%◌, ◌<◌, ◌≡◌, ap, sym, ◌∙◌, true, false, List, [], ◌∷◌, ◌++◌, some, if◌then◌else◌, length,
  take, inl, inr, Result-cases, ok, arith, not, is_empty, take-length, Result-fails, ==_iff,
}
use ipv_8_public_base_statio.Common.Words.{clear_bit, set_bit, has_bit}
use ipv_8_public_base_statio.Codec.Header.{
  IPv8Header, ExtensionHeader, attach_ext_headers, is_fragment,
}
use ipv_8_public_base_statio.Codec.Encode.{encode, encode_header}
use ipv_8_public_base_statio.Codec.Decode.{Decoded}
use ipv_8_public_base_statio.Codec.RoundTrip.{Accepted, encode-eq-ok}
use ipv_8_public_base_statio.Codec.Reassembly.{Group, complete, emit, is_done, rebuilt_header}
use ipv_8_public_base_statio.Codec.Reassembly.Part.{IsPart, plain_flags, SameHead}

-- A packet that the encoder writes, that has a payload and is no fragment itself.
pub record IsWhole (d : Decoded) (packet : List ℕ) : Type 0 where
  pub written : encode d.header d.payload ≡ ok packet
  pub not_empty : 0 < length d.payload
  pub unfragmented : is_fragment d.header.flags ≡ false

-- Clearing both flags and setting the one that the chain asks for gives the flags back.
plain_flags-some :
    (f : ℕ) → has_bit 32 f ≡ false → has_bit 64 f ≡ true → set_bit 64 (plain_flags f) ≡ f
plain_flags-some f h e = ground arith

plain_flags-none :
    (f : ℕ) → has_bit 32 f ≡ false → has_bit 64 f ≡ false → clear_bit 64 (plain_flags f) ≡ f
plain_flags-none f h e = ground arith

restored_flags :
    (f : ℕ) (exts : List ExtensionHeader)
    → has_bit 32 f ≡ false
    → has_bit 64 f ≡ not (is_empty exts)
    → (if is_empty exts then clear_bit 64 (plain_flags f) else set_bit 64 (plain_flags f)) ≡ f
restored_flags f [] h e = plain_flags-none f h e
restored_flags f (x ∷ xs) h e = plain_flags-some f h e

-- The header that the reassembler rebuilds from the fields of the first fragment.
rebuilt_header-restores :
    (d : Decoded) (g : Group)
    → SameHead d.header g
    → g.orig_ext ≡ some d.header.ext_headers
    → Accepted d.header
    → is_fragment d.header.flags ≡ false
    → rebuilt_header g d.header.payload_len ≡ d.header
unfolding rebuilt_header attach_ext_headers
rebuilt_header-restores d g (v, c, f, h, s, t) e a plain = rw e (λ i. record {
  version = v i;
  min_compat_ver = c i;
  flags =
      (ap (λ x. if is_empty d.header.ext_headers then clear_bit 64 x else set_bit 64 x) f
          ∙ restored_flags d.header.flags d.header.ext_headers plain a.flag_eq)
        i;
  payload_len = small i;
  hop_limit = h i;
  next_header = (sym a.next_eq) i;
  src_addr = s i;
  dst_addr = t i;
  ext_headers = d.header.ext_headers;
})
  where
    small : d.header.payload_len % 65536 ≡ d.header.payload_len
    small = omega (arith, a.payload_len_le)

encode_header-written :
    (h : IPv8Header) (payload packet : List ℕ)
    → encode h payload ≡ ok packet
    → (n : ℕ) × (buf : List ℕ) × (encode_header h [] ≡ ok (n, buf)) × (packet ≡ buf ++ payload)
unfolding encode
encode_header-written h payload packet e = elim (Result-cases (encode_header h [])) [
  | inl ((n, buf), w) ↦ (n, buf, w, ground arith)
  | inr none_written ↦ absurd (elim (Result-fails (encode_header h []) none_written) [
    | inl (x, bad) ↦ ground arith
    | inr bad ↦ ground arith
  ])
]

done_total :
    (d : Decoded) (g : Group)
    → IsPart d g
    → is_done g ≡ true
    → (g.total ≡ some (length d.payload)) × (g.pos ≡ length d.payload)
unfolding is_done
done_total d g p e = elim p.total_eq [
  | inl unknown ↦ absurd (never (rw unknown at e))
  | inr known ↦ (known, (==_iff g.pos (length d.payload)).0 (rw known at e))
]
  where
    never : false ≡ true → ⊥
    never h = cc

emit_as :
    (g : Group) (t n : ℕ) (h : IPv8Header) (buf : List ℕ)
    → g.total ≡ some t
    → rebuilt_header g t ≡ h
    → encode_header h [] ≡ ok (n, buf)
    → emit g ≡ complete (buf ++ g.payload)
unfolding emit
emit_as g t n h buf e r w = ground arith

-- A finished group gives the packet.
pub emit-IsPart :
    (d : Decoded) (packet : List ℕ) (g : Group)
    → IsWhole d packet
    → IsPart d g
    → is_done g ≡ true
    → emit g ≡ complete packet
emit-IsPart d packet g whole p e =
    let (total, filled) = done_total d g p e in
    let (a, size, form) = encode-eq-ok d.header d.payload whole.written in
    let (n, buf, w, parts) = encode_header-written d.header d.payload packet whole.written in
    let chain : g.orig_ext ≡ some d.header.ext_headers = elim p.chain_eq [
      | inl unset ↦ absurd (omega (arith, (p.chain_first unset).0, whole.not_empty, filled))
      | inr set ↦ set
    ] in
    let restored : rebuilt_header g (length d.payload) ≡ d.header =
      ap (rebuilt_header g) size ∙ rebuilt_header-restores d g p.head chain a whole.unfragmented in
    let content : g.payload ≡ d.payload =
      p.payload_eq ∙ ap (λ k. take k d.payload) filled ∙ take-length d.payload in
    emit_as g (length d.payload) n d.header buf total restored w
    ∙ ap complete (ap (λ xs. buf ++ xs) content ∙ sym parts)
