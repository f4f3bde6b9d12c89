-- ===== src/Codec/Reassembly/Steps.antt =====
-- The fragments of one packet in order: what each call of `insert` does.
use ipv_8_public_base_statio.Common.{
  ℕ, ◌+◌, ◌-◌, ◌*◌, ◌%◌, ◌^◌, ◌≤◌, ◌<◌, ◌≡◌, refl, ap, sym, ◌∙◌, Bool, true, false, List, [], ◌∷◌,
  Option, none, some, ltb, ◌==◌, if◌then◌else◌, length, take, drop, min, inl, inr, Bool-cases, ok,
  arith, not, ◌&&◌, take-add, length-take, length-drop,
}
use ipv_8_public_base_statio.Common.Words.{has_bit-set_bit}
use ipv_8_public_base_statio.Common.Bytes.{u16}
use ipv_8_public_base_statio.Codec.Header.{
  IPv8Header, ExtensionHeader, attach_ext_headers, is_fragment,
}
use ipv_8_public_base_statio.Codec.Decode.{Decoded}
use ipv_8_public_base_statio.Codec.Fragment.{FragmentInfo, fragment_header, to_ext}
use ipv_8_public_base_statio.Codec.Fragment.Round.{parse_info-to_ext}
use ipv_8_public_base_statio.Codec.Reassembly.{
  Group, GroupKey, Reassembler, admit, advance, check_fragment, complete, emit, find_chunk,
  insert_in, is_done, put_chunk, put_group, remove_group, store, waiting,
}
use ipv_8_public_base_statio.Codec.Reassembly.Part.{IsFragmentOf, IsPart, IsSlice, plain_flags}
use ipv_8_public_base_statio.Codec.Reassembly.Single.{
  advance_one, check_as, group_at, insert_in_as, plain_flags-fragment,
}
use ipv_8_public_base_statio.Codec.Reassembly.Sound.{IsWhole, emit-IsPart}

module _ (d : Decoded) (id units chunk : ℕ) (small_id : id < 256 ^ 4)
    (fits : length d.payload ≤ 65467) (inside : units * 8 < length d.payload) (big : 8 ≤ chunk)
    (aligned : chunk % 8 ≡ 0) where
  abbrev pub size : ℕ
  size = min chunk (length d.payload - units * 8)

  abbrev pub more : Bool
  more = ltb (units * 8 + size) (length d.payload)

  abbrev pub slice : List ℕ
  slice = take size (drop (units * 8) d.payload)

  abbrev pub frag : FragmentInfo
  frag = record { id = id; offset = units; more = more }

  abbrev pub hdr : IPv8Header
  hdr = fragment_header d.header id units (units * 8) size more

  pub length-slice : length slice ≡ size
  length-slice =
      omega
        (arith, length-take size (drop (units * 8) d.payload), length-drop (units * 8) d.payload)

  slice-IsSlice : IsSlice d.payload (units * 8, slice)
  slice-IsSlice = (
    ap (λ k. take k (drop (units * 8) d.payload)) (sym length-slice),
    omega (arith, length-slice),
  )

  others : List ExtensionHeader
  others = if units * 8 == 0 then d.header.ext_headers else []

  hdr-chain : hdr.ext_headers ≡ to_ext frag ∷ others
  unfolding fragment_header attach_ext_headers others
  hdr-chain = elim (Bool-cases (units * 8 == 0)) [
    | inl start ↦ rw start refl
    | inr later ↦ rw later refl
  ]

  others_at : units ≡ 0 → others ≡ d.header.ext_headers
  unfolding others
  others_at start = ground arith

  pub hdr-IsFragmentOf : IsFragmentOf d frag hdr slice
  unfolding fragment_header attach_ext_headers
  hdr-IsFragmentOf = record {
    version_eq = refl;
    compat_eq = refl;
    flags_eq = elim (Bool-cases (units * 8 == 0)) [
      | inl start ↦ rw start (plain_flags-fragment d.header.flags)
      | inr later ↦ rw later (plain_flags-fragment d.header.flags)
    ];
    hop_eq = refl;
    src_eq = refl;
    dst_eq = refl;
    slice = slice-IsSlice;
    last = ap (λ k. ltb (units * 8 + k) (length d.payload)) (sym length-slice);
    chain = λ start. ap (drop 1) hdr-chain ∙ others_at start;
  }

  aligned_slice : (more && not (length slice % 8 == 0)) ≡ false
  aligned_slice = ground (arith, length-slice)

  hdr-flag : is_fragment hdr.flags ≡ true
  unfolding fragment_header
  hdr-flag =
      has_bit-set_bit 32
        (attach_ext_headers
          (record d.header {
            flags = plain_flags d.header.flags;
            payload_len = u16 size;
            next_header = 0;
            ext_headers = [];
          })
          (if units * 8 == 0 then to_ext frag ∷ d.header.ext_headers else to_ext frag ∷ [])).flags
        (omega arith)

  pub check_fragment-hdr : check_fragment hdr slice ≡ ok frag
  unfolding to_ext
  check_fragment-hdr =
      check_as hdr slice frag (to_ext frag) others hdr-chain
        (parse_info-to_ext frag small_id (omega arith)) hdr-flag refl (omega arith) aligned_slice

  -- The group with the fragment stored, and with it moved to the payload.
  abbrev pub stored : ℕ → Option ℕ → Group
  stored created total = record (group_at d created (units * 8)) {
    total = total;
    orig_ext = some d.header.ext_headers;
    chunks = (units * 8, slice) ∷ [];
  }

  abbrev pub moved : ℕ → Option ℕ → Group
  moved created total = record (group_at d created (units * 8 + size)) { total = total }

  store-slice :
      (created : ℕ) (total : Option ℕ)
      → store
          (record (group_at d created (units * 8)) { total = total })
          (drop 1 hdr.ext_headers)
          (units * 8)
          slice
        ≡ (stored created total, false)
  unfolding store put_chunk find_chunk others
  store-slice created total =
      rw (ap (drop 1) hdr-chain) (elim (Bool-cases (units * 8 == 0)) [
        | inl start ↦ rw start refl
        | inr later ↦ rw later refl
      ])

  chain_set :
      (if units * 8 + size == 0 then none else some d.header.ext_headers)
      ≡ some d.header.ext_headers
  chain_set = ground arith

  filled : more ≡ false → (units * 8 + size == length d.payload) ≡ true
  filled ends = ground arith

  advance-stored :
      (created : ℕ) (total : Option ℕ) → advance 1 (stored created total) ≡ moved created total
  advance-stored created total =
      advance_one
        (record (group_at d created (units * 8)) {
          total = total;
          orig_ext = some d.header.ext_headers;
        })
        slice
      ∙ λ i. record {
        orig_ext = (sym chain_set) i;
        flags = plain_flags d.header.flags;
        version = d.header.version;
        min_compat_ver = d.header.min_compat_ver;
        hop_limit = d.header.hop_limit;
        src = d.header.src_addr;
        dst = d.header.dst_addr;
        chunks = [];
        pos = units * 8 + length-slice i;
        total = total;
        payload = sym (take-add (units * 8) size d.payload) i;
        created = created;
      }

  admit-more :
      (created : ℕ)
      → more ≡ true
      → admit (group_at d created (units * 8)) more (units * 8) (length slice)
        ≡ ok (group_at d created (units * 8))
  unfolding admit
  admit-more created goes_on = ground arith

  admit-last :
      (created : ℕ)
      → more ≡ false
      → admit (group_at d created (units * 8)) more (units * 8) (length slice)
        ≡ ok (record (group_at d created (units * 8)) { total = some (length d.payload) })
  unfolding admit
  admit-last created ends = ground (arith, length-slice)

  -- A fragment that is not the last one lets the group grow by its bytes.
  pub insert_in-more :
      (r : Reassembler) (key : GroupKey) (created : ℕ)
      → more ≡ true
      → insert_in r key (group_at d created (units * 8)) hdr slice frag ≡ (
        record { groups = put_group key (group_at d created (units * 8 + size)) r.groups },
        waiting,
      )
  unfolding is_done
  insert_in-more r key created goes_on =
      insert_in_as r key (group_at d created (units * 8)) (group_at d created (units * 8))
        (stored created none) (moved created none) hdr slice frag (admit-more created goes_on)
        (store-slice created none) (advance-stored created none)

  -- The last fragment finishes the group.
  insert_in-last :
      (r : Reassembler) (key : GroupKey) (created : ℕ)
      → more ≡ false
      → insert_in r key (group_at d created (units * 8)) hdr slice frag ≡ (
        record { groups = remove_group key r.groups },
        emit (moved created (some (length d.payload))),
      )
  unfolding is_done
  insert_in-last r key created ends =
      insert_in_as r key (group_at d created (units * 8))
        (record (group_at d created (units * 8)) { total = some (length d.payload) })
        (stored created (some (length d.payload))) (moved created (some (length d.payload))) hdr
        slice frag (admit-last created ends) (store-slice created (some (length d.payload)))
        (advance-stored created (some (length d.payload)))
      ∙ rw (filled ends) refl

  finished-IsPart :
      (created : ℕ) → more ≡ false → IsPart d (moved created (some (length d.payload)))
  unfolding find_chunk
  finished-IsPart created ends = record {
    head = (refl, refl, refl, refl, refl, refl);
    chunks_ok = tt;
    within = omega arith;
    payload_eq = refl;
    total_eq = inr refl;
    chain_eq = inr chain_set;
    chain_first = λ unset. absurd (never (sym chain_set ∙ unset));
  }
    where
      never : ◌≡◌ {A = Option (List ExtensionHeader)} (some d.header.ext_headers) none → ⊥
      never h = cc

  -- The last fragment gives the packet.
  pub insert_in-complete :
      (r : Reassembler) (key : GroupKey) (created : ℕ) (packet : List ℕ)
      → IsWhole d packet
      → more ≡ false
      → insert_in r key (group_at d created (units * 8)) hdr slice frag
        ≡ (record { groups = remove_group key r.groups }, complete packet)
  unfolding is_done
  insert_in-complete r key created packet whole ends =
      insert_in-last r key created ends
      ∙ ap (λ x. (record { groups = remove_group key r.groups }, x))
          (emit-IsPart d packet (moved created (some (length d.payload))) whole
            (finished-IsPart created ends) (filled ends))
