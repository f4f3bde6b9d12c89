-- ===== src/Codec/Reassembly/Part.antt =====
-- Groups that hold parts of one packet: each step of `insert` keeps them so.
use ipv_8_public_base_statio.Common.{
  ℕ, zero, suc, ◌+◌, ◌*◌, ◌≤◌, ◌≡◌, ◌≢◌, ◌⊎◌, refl, ap, sym, subst, ◌∙◌, Bool, true, false, List,
  ◌++◌, Option, none, some, ltb, ◌==◌, if◌then◌else◌, length, take, drop, All, inl, inr, take-add,
  Bool-cases, Option-cases, ok, arith, not, ◌&&◌, is_some,
}
use ipv_8_public_base_statio.Common.Words.{clear_bit}
use ipv_8_public_base_statio.Codec.Header.{IPv8Header, ExtensionHeader}
use ipv_8_public_base_statio.Codec.Decode.{Decoded}
use ipv_8_public_base_statio.Codec.Fragment.{FragmentInfo}
use ipv_8_public_base_statio.Codec.Reassembly.{Group, admit, store, advance, new_group, find_chunk}
use ipv_8_public_base_statio.Codec.Reassembly.Maps.{
  All-put_chunk, All-remove_chunk, All-find_chunk, find_chunk-put_other,
}

-- The bytes are those of the payload from `start` on.
abbrev pub IsSlice : List ℕ → ℕ × List ℕ → Type 0
IsSlice whole (start, bytes) =
    (bytes ≡ take (length bytes) (drop start whole)) × (start + length bytes ≤ length whole)

abbrev pub plain_flags : ℕ → ℕ
plain_flags flags = clear_bit 32 (clear_bit 64 flags)

-- A fragment of the packet `d`, with the fragment header `frag`.
pub record IsFragmentOf (d : Decoded) (frag : FragmentInfo) (hdr : IPv8Header) (payload : List ℕ)
    : Type 0 where
  pub version_eq : hdr.version ≡ d.header.version
  pub compat_eq : hdr.min_compat_ver ≡ d.header.min_compat_ver
  pub flags_eq : plain_flags hdr.flags ≡ plain_flags d.header.flags
  pub hop_eq : hdr.hop_limit ≡ d.header.hop_limit
  pub src_eq : hdr.src_addr ≡ d.header.src_addr
  pub dst_eq : hdr.dst_addr ≡ d.header.dst_addr
  pub slice : IsSlice d.payload (frag.offset * 8, payload)
  pub last : frag.more ≡ ltb (frag.offset * 8 + length payload) (length d.payload)
  pub chain : frag.offset ≡ 0 → drop 1 hdr.ext_headers ≡ d.header.ext_headers

-- The fields that a group has from its first fragment.
abbrev pub SameHead : IPv8Header → Group → Type 0
SameHead h g =
    (g.version ≡ h.version)
    × (g.min_compat_ver ≡ h.min_compat_ver)
    × (g.flags ≡ plain_flags h.flags)
    × (g.hop_limit ≡ h.hop_limit)
    × (g.src ≡ h.src_addr)
    × (g.dst ≡ h.dst_addr)

-- A group all of whose fragments were fragments of the packet `d`.
pub record IsPart (d : Decoded) (g : Group) : Type 0 where
  pub head : SameHead d.header g
  pub chunks_ok : All (IsSlice d.payload) g.chunks
  pub within : g.pos ≤ length d.payload
  pub payload_eq : g.payload ≡ take g.pos d.payload
  pub total_eq : (g.total ≡ none) ⊎ (g.total ≡ some (length d.payload))
  pub chain_eq : (g.orig_ext ≡ none) ⊎ (g.orig_ext ≡ some d.header.ext_headers)
  -- The chain comes with the bytes at 0.
  pub chain_first : g.orig_ext ≡ none → (g.pos ≡ 0) × (find_chunk 0 g.chunks ≡ none)

pub new_group-IsPart :
    (d : Decoded) (frag : FragmentInfo) (hdr : IPv8Header) (payload : List ℕ) (now : ℕ)
    → IsFragmentOf d frag hdr payload
    → IsPart d (new_group now hdr)
unfolding new_group find_chunk
new_group-IsPart d frag hdr payload now f = record {
  head = (f.version_eq, f.compat_eq, f.flags_eq, f.hop_eq, f.src_eq, f.dst_eq);
  chunks_ok = tt;
  within = omega arith;
  payload_eq = refl;
  total_eq = inl refl;
  chain_eq = inl refl;
  chain_first = λ e. (refl, refl);
}

-- The group keeps what it is but its total.
admit_total :
    (g h : Group) (more : Bool) (start len : ℕ)
    → admit g more start len ≡ ok h
    → (h ≡ g) ⊎ ((more ≡ false) × (h ≡ record g { total = some (start + len) }))
unfolding admit
admit_total g h more start len e = ground arith

final_total :
    (d : Decoded) (frag : FragmentInfo) (hdr : IPv8Header) (payload : List ℕ)
    → IsFragmentOf d frag hdr payload
    → frag.more ≡ false
    → frag.offset * 8 + length payload ≡ length d.payload
final_total d frag hdr payload f e =
    elim (Bool-cases (ltb (frag.offset * 8 + length payload) (length d.payload))) [
      | inl short ↦ absurd (clash (sym e ∙ f.last ∙ short))
      | inr long ↦ omega (arith, ltb-false long, f.slice.1)
    ]
  where
    clash : false ≡ true → ⊥
    clash h = cc

    ltb-false :
        ltb (frag.offset * 8 + length payload) (length d.payload) ≡ false
        → length d.payload ≤ frag.offset * 8 + length payload
    ltb-false h = ground arith

pub admit-IsPart :
    (d : Decoded) (frag : FragmentInfo) (hdr : IPv8Header) (payload : List ℕ) (g h : Group)
    → IsFragmentOf d frag hdr payload
    → IsPart d g
    → admit g frag.more (frag.offset * 8) (length payload) ≡ ok h
    → IsPart d h
admit-IsPart d frag hdr payload g h f p e =
    elim (admit_total g h frag.more (frag.offset * 8) (length payload) e) [
      | inl same ↦ subst (IsPart d) (sym same) p
      | inr (ends, now) ↦ subst (IsPart d) (sym now) (record {
        head = p.head;
        chunks_ok = p.chunks_ok;
        within = p.within;
        payload_eq = p.payload_eq;
        chain_eq = p.chain_eq;
        chain_first = p.chain_first;
        total_eq = inr (ap some (final_total d frag hdr payload f ends));
      })
    ]

-- The chain that a group has after a fragment, with the chain that it had.
stored_chain :
    (o : Option (List ExtensionHeader)) (others exts : List ExtensionHeader) (first : Bool)
    → (o ≡ none) ⊎ (o ≡ some exts)
    → (first ≡ true → others ≡ exts)
    → ((if first && not (is_some o) then some others else o) ≡ none)
      ⊎ ((if first && not (is_some o) then some others else o) ≡ some exts)
stored_chain none others exts true h e = inr (ap some (e refl))
stored_chain none others exts false h e = inl refl
stored_chain (some c) others exts true h e = h
stored_chain (some c) others exts false h e = h

stored_none :
    (o : Option (List ExtensionHeader)) (others : List ExtensionHeader) (first : Bool)
    → (if first && not (is_some o) then some others else o) ≡ none
    → (first ≡ false) × (o ≡ none)
stored_none none others true h = absurd (never h)
  where
    never : ◌≡◌ {A = Option (List ExtensionHeader)} (some others) none → ⊥
    never e = cc
stored_none none others false h = (refl, refl)
stored_none (some c) others true h = absurd (never h)
  where
    never : ◌≡◌ {A = Option (List ExtensionHeader)} (some c) none → ⊥
    never e = cc
stored_none (some c) others false h = absurd (never h)
  where
    never : ◌≡◌ {A = Option (List ExtensionHeader)} (some c) none → ⊥
    never e = cc

at_zero : (o : ℕ) → (o * 8 == 0) ≡ true → o ≡ 0
at_zero o h = ground arith

not_zero : (o : ℕ) → (o * 8 == 0) ≡ false → o * 8 ≢ 0
not_zero o h e = ground arith

pub store-IsPart :
    (d : Decoded) (frag : FragmentInfo) (hdr : IPv8Header) (payload : List ℕ) (g : Group)
    → IsFragmentOf d frag hdr payload
    → IsPart d g
    → IsPart d (store g (drop 1 hdr.ext_headers) (frag.offset * 8) payload).0
unfolding store
store-IsPart d frag hdr payload g f p = record {
  head = p.head;
  chunks_ok =
      All-put_chunk (IsSlice d.payload) (frag.offset * 8) payload g.chunks f.slice p.chunks_ok;
  within = p.within;
  payload_eq = p.payload_eq;
  total_eq = p.total_eq;
  chain_eq =
      stored_chain g.orig_ext (drop 1 hdr.ext_headers) d.header.ext_headers (frag.offset * 8 == 0)
        p.chain_eq (λ e. f.chain (at_zero frag.offset e));
  chain_first = λ e.
      let (later, unset) =
        stored_none g.orig_ext (drop 1 hdr.ext_headers) (frag.offset * 8 == 0) e in
      (
        (p.chain_first unset).0,
        find_chunk-put_other (frag.offset * 8) 0 payload g.chunks (not_zero frag.offset later)
            ∙ (p.chain_first unset).1,
      );
}

pub advance-IsPart :
    (d : Decoded) (rounds : ℕ) (g : Group) → IsPart d g → IsPart d (advance rounds g)
unfolding advance
advance-IsPart d zero g p = p
advance-IsPart d (suc rounds) g p = elim (Option-cases (find_chunk g.pos g.chunks)) [
  | inl gap ↦ rw (gap, advance) p
  | inr (bytes, next) ↦
      let piece : IsSlice d.payload (g.pos, bytes) =
        All-find_chunk (IsSlice d.payload) g.pos g.chunks bytes next p.chunks_ok in
      rw (next, advance)
        (advance-IsPart d rounds _ (record {
          head = p.head;
          chunks_ok = All-remove_chunk (IsSlice d.payload) g.pos g.chunks p.chunks_ok;
          within = piece.1;
          payload_eq =
              ap (λ xs. xs ++ bytes) p.payload_eq
              ∙ ap (λ xs. take g.pos d.payload ++ xs) piece.0
              ∙ sym (take-add g.pos (length bytes) d.payload);
          total_eq = p.total_eq;
          chain_eq = p.chain_eq;
          chain_first = λ e. absurd (missing g bytes (p.chain_first e) next);
        }))
]
  where
    missing :
        (g : Group) (bytes : List ℕ)
        → (g.pos ≡ 0) × (find_chunk 0 g.chunks ≡ none)
        → find_chunk g.pos g.chunks ≡ some bytes
        → ⊥
    missing g bytes (start, none_there) h = cc
