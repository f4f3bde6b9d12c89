-- ===== src/Codec/Reassembly/Bounds.antt =====
-- The number of groups.
use ipv_8_public_base_statio.Common.{
  ℕ, zero, suc, ◌≤◌, ◌<◌, ◌≡◌, ◌*◌, refl, ap, Option, Bool, false, List, [], ◌∷◌, none, some, ltb,
  leb, length, inl, inr, Bool-cases, Option-cases, Result-cases, Result-fails, arith,
  length-retain_le, ltb→lt, drop,
}
use ipv_8_public_base_statio.Codec.Header.{IPv8Header}
use ipv_8_public_base_statio.Codec.Fragment.{FragmentInfo}
use ipv_8_public_base_statio.Codec.Reassembly.{
  Group, GroupKey, Reassembler, admit, advance, check_fragment, find_group, insert, insert_in,
  find_chunk, is_done, is_live, key_of, max_groups, new_group, put_group, reap, remove_group,
  same_key, store,
}
use ipv_8_public_base_statio.Codec.Reassembly.Maps.{length-remove_chunk_lt}

length-put_group_le :
    (k : GroupKey) (v : Group) (gs : List (GroupKey × Group))
    → length (put_group k v gs) ≤ suc (length gs)
unfolding put_group
length-put_group_le k v [] = omega arith
length-put_group_le k v ((l, g) ∷ gs) = ground (arith, length-put_group_le k v gs)

length-put_group_same :
    (k : GroupKey) (v g : Group) (gs : List (GroupKey × Group))
    → find_group k gs ≡ some g
    → length (put_group k v gs) ≡ length gs
unfolding put_group find_group
length-put_group_same k v g [] e = absurd (never e)
  where
    never : ◌≡◌ {A = Option Group} none (some g) → ⊥
    never h = cc
length-put_group_same k v g ((l, x) ∷ gs) e = elim (Bool-cases (same_key l k)) [
  | inl same ↦ rw same refl
  | inr other ↦ rw other (ap suc (length-put_group_same k v g gs (rw other at e)))
]

length-remove_group_le :
    (k : GroupKey) (gs : List (GroupKey × Group)) → length (remove_group k gs) ≤ length gs
unfolding remove_group
length-remove_group_le k [] = omega arith
length-remove_group_le k ((l, g) ∷ gs) = ground (arith, length-remove_group_le k gs)

-- An insertion into a group writes one entry or removes it.
insert_in-bound :
    (r : Reassembler) (k : GroupKey) (g : Group) (hdr : IPv8Header) (payload : List ℕ)
    (frag : FragmentInfo) (n : ℕ)
    → ((v : Group) → length (put_group k v r.groups) ≤ n)
    → length r.groups ≤ n
    → length (insert_in r k g hdr payload frag).0.groups ≤ n
unfolding insert_in
insert_in-bound r k g hdr payload frag n fits small =
    elim (Result-cases (admit g frag.more (frag.offset * 8) (length payload))) [
      | inr refused ↦
          elim (Result-fails (admit g frag.more (frag.offset * 8) (length payload)) refused) [
            | inl (e, bad) ↦ rw (bad, insert_in) (fits g)
            | inr bad ↦ rw (bad, insert_in) (fits g)
          ]
      | inl (h, admitted) ↦
          let kept : Group × Bool = store h (drop 1 hdr.ext_headers) (frag.offset * 8) payload in
          let moved : Group = advance (length kept.0.chunks) kept.0 in
          elim (Bool-cases kept.1) [
            | inl displaced ↦ rw (admitted, insert_in, displaced) (fits kept.0)
            | inr new ↦ elim (Bool-cases (is_done moved)) [
              | inl done ↦
                  rw (admitted, insert_in, new, done)
                    (omega (arith, length-remove_group_le k r.groups))
              | inr not_yet ↦ rw (admitted, insert_in, new, not_yet) (fits moved)
            ]
          ]
    ]

-- However many fragments arrive, the reassembler never holds more than 64 groups.
pub insert-bound :
    (now : ℕ) (r : Reassembler) (hdr : IPv8Header) (payload : List ℕ)
    → length r.groups ≤ 64
    → length (insert now r hdr payload).0.groups ≤ 64
unfolding insert reap
insert-bound now r hdr payload small =
    let live : Reassembler = reap now r in
    let again : Reassembler = reap now live in
    let live_le = length-retain_le (is_live now) r.groups in
    let again_le = length-retain_le (is_live now) live.groups in
    elim (Result-cases (check_fragment hdr payload)) [
      | inr refused ↦ elim (Result-fails (check_fragment hdr payload) refused) [
        | inl (e, bad) ↦ rw (bad, insert) small
        | inr bad ↦ rw (bad, insert) small
      ]
      | inl (frag, e) ↦
          let k : GroupKey = key_of hdr frag in
          let g' : Group = new_group now hdr in
          elim (Option-cases (find_group k live.groups)) [
            | inr (g, found) ↦
                rw (e, insert, found)
                  (insert_in-bound live k g hdr payload frag 64
                    (λ v. omega (arith, length-put_group_same k v g live.groups found))
                    (omega arith))
            | inl missing ↦ elim (Bool-cases (ltb (length live.groups) max_groups)) [
              | inl room ↦
                  rw (e, insert, missing, room)
                    (insert_in-bound live k g' hdr payload frag 64
                      (λ v. omega (
                        arith,
                        length-put_group_le k v live.groups,
                        ltb→lt (length live.groups) max_groups room,
                      ))
                      (omega arith))
              | inr full ↦ elim (Bool-cases (leb max_groups (length again.groups))) [
                | inl still ↦ rw (e, insert, missing, full, still) (omega arith)
                | inr freed ↦
                    rw (e, insert, missing, full, freed)
                      (insert_in-bound again k g' hdr payload frag 64
                        (λ v. omega (
                          arith,
                          length-put_group_le k v again.groups,
                          leb-false (length again.groups) freed,
                        ))
                        (omega arith))
              ]
            ]
          ]
    ]
  where
    leb-false : (n : ℕ) → leb max_groups n ≡ false → n < 64
    leb-false n h = ground arith

find_chunk-empty : (k : ℕ) (cs : List (ℕ × List ℕ)) → length cs ≤ 0 → find_chunk k cs ≡ none
unfolding find_chunk
find_chunk-empty k [] few = refl
find_chunk-empty k (c ∷ cs) few = absurd (omega arith)

-- As many rounds as there are chunks are enough for the loop: it stops where no chunk follows.
pub advance_gap :
    (rounds : ℕ) (g : Group)
    → length g.chunks ≤ rounds
    → find_chunk (advance rounds g).pos (advance rounds g).chunks ≡ none
unfolding advance find_chunk
advance_gap zero g few = find_chunk-empty g.pos g.chunks few
advance_gap (suc n) g few = elim (Option-cases (find_chunk g.pos g.chunks)) [
  | inl gap ↦ rw (gap, advance) gap
  | inr (bytes, next) ↦
      rw (next, advance)
        (advance_gap n _ (omega (arith, length-remove_chunk_lt g.pos g.chunks bytes next)))
]
