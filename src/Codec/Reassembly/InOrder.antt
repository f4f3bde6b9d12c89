-- ===== src/Codec/Reassembly/InOrder.antt =====
-- What the fragmenter cuts, the reassembler puts together.
use ipv_8_public_base_statio.Common.{
  ℕ, zero, suc, ◌+◌, ◌-◌, ◌*◌, ◌/◌, ◌%◌, ◌^◌, ◌≤◌, ◌<◌, ◌≡◌, ◌⊎◌, refl, ap, sym, subst, ◌∙◌, Bool,
  true, false, List, [], ◌∷◌, ◌++◌, none, some, ltb, length, take, drop, min, inl, inr, Bool-cases,
  Result, ok, diverged, arith, lt→ltb,
}
use ipv_8_public_base_statio.Common.Bytes.{u16}
use ipv_8_public_base_statio.Codec.Address.{to_bytes}
use ipv_8_public_base_statio.Codec.Header.{IPv8Header, Fresh, attach_ext_headers}
use ipv_8_public_base_statio.Codec.Encode.{encode_header}
use ipv_8_public_base_statio.Codec.Decode.{Decoded, decode}
use ipv_8_public_base_statio.Codec.RoundTrip.{IsHeader}
use ipv_8_public_base_statio.Codec.Fragment.{
  FragmentError, FragmentInfo, any_fragment, fragment_header, fragment_loop,
}
use ipv_8_public_base_statio.Codec.Fragment.Round.{IsRound, round-IsRound}
use ipv_8_public_base_statio.Codec.Fragment.Reading.{fragment-decode}
use ipv_8_public_base_statio.Codec.Reassembly.{
  GroupKey, Inserted, Reassembler, complete, find_group, insert, insert_in, key_of, max_groups,
  new_group, put_group, reap, remove_group, reassembly_timeout, waiting,
}
use ipv_8_public_base_statio.Codec.Reassembly.Maps.{find_group-put_same}
use ipv_8_public_base_statio.Codec.Reassembly.Single.{group_at}
use ipv_8_public_base_statio.Codec.Reassembly.Sound.{IsWhole}
use ipv_8_public_base_statio.Codec.Reassembly.Steps
use ipv_8_public_base_statio.Codec.Reassembly.Calls.{
  feed, feed_step, insert_found, insert_fresh, loop_ended, new_group-group_at,
}

module _ (d : Decoded) (packet : List ℕ) (id chunk : ℕ) (clock : ℕ → ℕ) (whole : IsWhole d packet)
    (v : IsHeader d.header) (fresh : Fresh [] d.header.ext_headers)
    (plain : any_fragment d.header.ext_headers ≡ false) (small_id : id < 256 ^ 4)
    (fits : length d.payload ≤ 65467) (big : 8 ≤ chunk) (aligned : chunk % 8 ≡ 0)
    (soon : (i : ℕ) → clock i - clock 0 < reassembly_timeout) where
  abbrev pub key : GroupKey
  key = record { src = to_bytes d.header.src_addr; dst = to_bytes d.header.dst_addr; id = id }

  -- The group holds the bytes before `units`, or is still to be made.
  abbrev pub Ready : ℕ → Reassembler → ℕ → Type 0
  Ready i r units =
      (find_group key r.groups ≡ some (group_at d (clock 0) (units * 8)))
      ⊎ ((units ≡ 0) × (i ≡ 0) × (find_group key r.groups ≡ none) × (length r.groups < max_groups))

  module _ (units : ℕ) (inside : units * 8 < length d.payload) where
    abbrev size : ℕ
    size = min chunk (length d.payload - units * 8)

    abbrev more : Bool
    more = ltb (units * 8 + size) (length d.payload)

    abbrev slice : List ℕ
    slice = take size (drop (units * 8) d.payload)

    abbrev frag : FragmentInfo
    frag = record { id = id; offset = units; more = more }

    abbrev hdr : IPv8Header
    hdr = fragment_header d.header id units (units * 8) size more

    key_of-hdr : key_of hdr frag ≡ key
    unfolding key_of fragment_header attach_ext_headers
    key_of-hdr = refl

    insert-Ready :
        (i : ℕ) (r : Reassembler)
        → Ready i r units
        → insert (clock i) r hdr slice
          ≡ insert_in (reap (clock i) r) key (group_at d (clock 0) (units * 8)) hdr slice frag
    insert-Ready i r (inl found) =
        insert_found (clock i) r hdr slice frag
          (Steps.check_fragment-hdr d id units chunk small_id fits inside big aligned)
          (group_at d (clock 0) (units * 8))
          (subst (λ k. find_group k r.groups ≡ some (group_at d (clock 0) (units * 8)))
            (sym key_of-hdr) found)
          (soon i)
        ∙ ap (λ k. insert_in (reap (clock i) r) k (group_at d (clock 0) (units * 8)) hdr slice frag)
            key_of-hdr
    insert-Ready i r (inr (at_start, first, missing, room)) =
        insert_fresh (clock i) r hdr slice frag
          (Steps.check_fragment-hdr d id units chunk small_id fits inside big aligned)
          (subst (λ k. find_group k r.groups ≡ none) (sym key_of-hdr) missing) room
        ∙ (λ t. insert_in (reap (clock i) r) (key_of-hdr t) (start_group t) hdr slice frag)
      where
        at_zero : units * 8 ≡ 0
        at_zero = omega arith

        start_group : new_group (clock i) hdr ≡ group_at d (clock 0) (units * 8)
        start_group =
            new_group-group_at d frag hdr slice (clock i)
              (Steps.hdr-IsFragmentOf d id units chunk small_id fits inside big aligned)
            ∙ (λ t. group_at d (clock (first t)) (sym at_zero t))

    -- What the call does that takes the fragment in.
    insert_more :
        (i : ℕ) (r : Reassembler)
        → Ready i r units
        → more ≡ true
        → insert (clock i) r hdr slice ≡ (
          record {
            groups =
                put_group key (group_at d (clock 0) (units * 8 + size)) (reap (clock i) r).groups;
          },
          waiting,
        )
    insert_more i r ready goes_on =
        insert-Ready i r ready
        ∙ Steps.insert_in-more d id units chunk small_id fits inside big aligned (reap (clock i) r)
            key (clock 0) goes_on

    insert_last :
        (i : ℕ) (r : Reassembler)
        → Ready i r units
        → more ≡ false
        → insert (clock i) r hdr slice
          ≡ (record { groups = remove_group key (reap (clock i) r).groups }, complete packet)
    insert_last i r ready ends =
        insert-Ready i r ready
        ∙ Steps.insert_in-complete d id units chunk small_id fits inside big aligned
            (reap (clock i) r) key (clock 0) packet whole ends

    reads_back :
        (n : ℕ) (buf : List ℕ)
        → encode_header hdr [] ≡ ok (n, buf)
        → decode (buf ++ slice) ≡ ok (record { header = hdr; payload = slice })
    reads_back n buf e =
        fragment-decode d.header v fresh plain id units (units * 8) size more n buf slice e
          (Steps.length-slice d id units chunk small_id fits inside big aligned) (omega arith)

  -- From any fragment on, the rest of them gives the packet.
  pub feed_rest :
      (fuel i units : ℕ) (r : Reassembler) (before : Inserted) (outs : List (List ℕ))
      → units * 8 < length d.payload
      → Ready i r units
      → fragment_loop fuel d chunk id units (units * 8) ≡ ok outs
      → (r' : Reassembler) × (feed clock i r before outs ≡ ok (r', complete packet))
  unfolding fragment_loop feed
  feed_rest zero i units r before outs inside ready e = absurd (never e)
    where
      never : ◌≡◌ {A = Result FragmentError (List (List ℕ))} diverged (ok outs) → ⊥
      never h = cc
  feed_rest (suc f) i units r before outs inside ready e =
      let next =
        fragment_loop f d chunk id (u16 (units + size units inside / 8))
          (units * 8 + size units inside) in
      let round : IsRound (encode_header (hdr units inside) []) next (slice units inside) outs =
        round-IsRound (encode_header (hdr units inside) []) next (slice units inside) outs
          (rw (lt→ltb (units * 8) (length d.payload) inside) at e) in
      let read = reads_back units inside round.n round.buf round.written in
      elim (Bool-cases (more units inside)) [
        | inr ends ↦
            let over : length d.payload ≤ units * 8 + size units inside = ground arith in
            let done : round.more_outs ≡ [] =
              loop_ended f d chunk id (u16 (units + size units inside / 8))
                (units * 8 + size units inside) round.more_outs over round.goes_on in
            let r' : Reassembler = record { groups = remove_group key (reap (clock i) r).groups } in
            (
              r',
              ap (feed clock i r before)
                    (round.outs_eq ∙ ap (λ os. (round.buf ++ slice units inside) ∷ os) done)
                  ∙ feed_step clock i r r' before (complete packet)
                      (round.buf ++ slice units inside) [] _ read
                      (insert_last units inside i r ready ends),
            )
        | inl goes_on ↦
            let units' : ℕ = units + chunk / 8 in
            let at' : units * 8 + size units inside ≡ units' * 8 = ground arith in
            let offset' : u16 (units + size units inside / 8) ≡ units' = ground arith in
            let r' : Reassembler = record {
              groups =
                  put_group key (group_at d (clock 0) (units * 8 + size units inside))
                    (reap (clock i) r).groups;
            } in
            let ready' : Ready (suc i) r' units' = inl (
              find_group-put_same key (group_at d (clock 0) (units * 8 + size units inside))
                (reap (clock i) r).groups
              ∙ ap (λ p. some (group_at d (clock 0) p)) at') in
            let (r'', fed) =
              feed_rest f (suc i) units' r' waiting round.more_outs (ground arith) ready'
                ((λ t. fragment_loop f d chunk id (sym offset' t) (sym at' t)) ∙ round.goes_on) in
            (
              r'',
              ap (feed clock i r before) round.outs_eq
                  ∙ feed_step clock i r r' before waiting (round.buf ++ slice units inside)
                      round.more_outs _ read (insert_more units inside i r ready goes_on)
                  ∙ fed,
            )
      ]
