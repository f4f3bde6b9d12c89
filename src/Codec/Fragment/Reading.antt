-- ===== src/Codec/Fragment/Reading.antt =====
-- What the decoder reads from a fragment: its header and its share of the payload.
use ipv_8_public_base_statio.Common.{
  ℕ, ◌<◌, ◌≡◌, ◌≢◌, refl, ap, sym, ◌∙◌, Bool, true, false, List, [], ◌∷◌, ◌++◌, ◌==◌, if◌then◌else◌,
  length, arith, inl, inr, Bool-cases, All, ok, contains,
}
use ipv_8_public_base_statio.Common.Bytes.{to_be}
use ipv_8_public_base_statio.Common.Words.{set_bit, clear_bit}
use ipv_8_public_base_statio.Codec.Header.{
  IPv8Header, ExtensionHeader, Fresh, attach_ext_headers, ext_len, from_u8, wire, is_fragment_type,
  first_wire,
}
use ipv_8_public_base_statio.Codec.Encode.{encode, encode_header}
use ipv_8_public_base_statio.Codec.Decode.{decode}
use ipv_8_public_base_statio.Codec.RoundTrip.{IsExt, IsHeader, decode-encode}
use ipv_8_public_base_statio.Codec.Fragment.{FragmentInfo, any_fragment, fragment_header, to_ext}

to_ext-IsExt : (f : FragmentInfo) → IsExt (to_ext f)
unfolding to_ext to_be wire from_u8 ext_len
to_ext-IsExt f = record {
  registered = refl;
  not_end = λ e. absurd (omega arith);
  units = refl;
  not_empty = λ e. absurd (omega arith);
}

-- An extension header whose number is 6 is a fragment header.
not_fragment-wire :
    (e : ExtensionHeader) → IsExt e → is_fragment_type e.ext_type ≡ false → wire e.ext_type ≢ 6
unfolding from_u8
not_fragment-wire e v plain six =
    clash (ap is_fragment_type (ap from_u8 (sym six) ∙ v.registered) ∙ plain)
  where
    clash : true ≡ false → ⊥
    clash h = cc

contains-cons_ne :
    (seen : List ℕ) (a x : ℕ) → x ≢ a → contains seen a ≡ false → contains (x ∷ seen) a ≡ false
contains-cons_ne seen a x h e = ground arith

-- The types of a chain without fragment headers stay new behind one.
Fresh-cons :
    (seen : List ℕ) (exts : List ExtensionHeader)
    → All IsExt exts
    → any_fragment exts ≡ false
    → Fresh seen exts
    → Fresh (6 ∷ seen) exts
Fresh-cons seen [] v plain fresh = tt
Fresh-cons seen (e ∷ es) v plain fresh = elim (Bool-cases (is_fragment_type e.ext_type)) [
  | inl bad ↦ absurd (clash (sym (rw bad at plain)))
  | inr good ↦ (
    contains-cons_ne seen (wire e.ext_type) 6 (λ six. not_fragment-wire e v.0 good (sym six))
        fresh.0,
    Fresh-cons (seen ++ (wire e.ext_type ∷ [])) es v.1 (rw good at plain) fresh.1,
  )
]
  where
    clash : false ≡ true → ⊥
    clash h = cc

set_flags-lt : (f : ℕ) → f < 65536 → set_bit 32 (set_bit 64 (clear_bit 32 (clear_bit 64 f))) < 65536
set_flags-lt f h = ground arith

encode_as :
    (h : IPv8Header) (n : ℕ) (buf payload : List ℕ)
    → encode_header h [] ≡ ok (n, buf)
    → length payload ≡ h.payload_len
    → encode h payload ≡ ok (buf ++ payload)
unfolding encode
encode_as h n buf payload e size = ground arith

module _ (h : IPv8Header) (v : IsHeader h) (fresh : Fresh [] h.ext_headers)
    (plain : any_fragment h.ext_headers ≡ false) (id units pos size : ℕ) (more : Bool) where
  abbrev info : ExtensionHeader
  info = to_ext (record { id = id; offset = units; more = more })

  chain_at :
      (fragment_header h id units pos size more).ext_headers
      ≡ (if pos == 0 then info ∷ h.ext_headers else info ∷ [])
  unfolding fragment_header attach_ext_headers
  chain_at = refl

  fragment_header-IsHeader : IsHeader (fragment_header h id units pos size more)
  unfolding fragment_header attach_ext_headers first_wire wire to_ext
  fragment_header-IsHeader = elim (Bool-cases (pos == 0)) [
    | inl start ↦ rw start (record {
      flags_u16 = set_flags-lt h.flags v.flags_u16;
      payload_len_u16 = omega arith;
      src_ok = v.src_ok;
      dst_ok = v.dst_ok;
      exts_ok = (to_ext-IsExt _, v.exts_ok);
    })
    | inr later ↦ rw later (record {
      flags_u16 = set_flags-lt h.flags v.flags_u16;
      payload_len_u16 = omega arith;
      src_ok = v.src_ok;
      dst_ok = v.dst_ok;
      exts_ok = (to_ext-IsExt _, tt);
    })
  ]

  fragment_header-Fresh : Fresh [] (fragment_header h id units pos size more).ext_headers
  unfolding fragment_header attach_ext_headers wire to_ext
  fragment_header-Fresh = elim (Bool-cases (pos == 0)) [
    | inl start ↦ rw start (refl, Fresh-cons [] h.ext_headers v.exts_ok plain fresh)
    | inr later ↦ rw later (refl, tt)
  ]

  sized : size < 65536 → (fragment_header h id units pos size more).payload_len ≡ size
  unfolding fragment_header attach_ext_headers
  sized small = omega arith

  -- What the fragmenter writes for one fragment, the decoder reads back.
  pub fragment-decode :
      (n : ℕ) (buf slice : List ℕ)
      → encode_header (fragment_header h id units pos size more) [] ≡ ok (n, buf)
      → length slice ≡ size
      → size < 65536
      → decode (buf ++ slice)
        ≡ ok (record { header = fragment_header h id units pos size more; payload = slice })
  fragment-decode n buf slice e long small =
      decode-encode (fragment_header h id units pos size more) slice (buf ++ slice)
        fragment_header-IsHeader fragment_header-Fresh
        (encode_as (fragment_header h id units pos size more) n buf slice e
          (long ∙ sym (sized small)))
