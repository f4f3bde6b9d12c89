-- ===== src/Codec/Reassembly/History.antt =====
-- Whatever arrives before, in whatever order and however often, the fragments of one packet give
-- nothing but that packet.
use ipv_8_public_base_statio.Common.{
  ℕ, ◌*◌, ◌≡◌, ◌≢◌, refl, ap, sym, subst, ◌∙◌, Bool, List, [], ◌∷◌, ltb, leb, length, drop, All,
  inl, inr, Bool-cases, Option-cases, Result-cases, Result-fails, Result, ok, diverged, arith,
}
use ipv_8_public_base_statio.Codec.Header.{IPv8Header}
use ipv_8_public_base_statio.Codec.Decode.{Decoded}
use ipv_8_public_base_statio.Codec.Fragment.{FragmentInfo}
use ipv_8_public_base_statio.Codec.Reassembly.{
  Group, GroupKey, Inserted, Reassembler, ReassemblyError, admit, advance, check_fragment, complete,
  encoder_diverged, find_group, insert, insert_in, is_done, is_live, key_of, max_groups, new_group,
  panicked, put_group, reap, rejected, store, waiting,
}
use ipv_8_public_base_statio.Codec.Reassembly.Maps.{
  All-find_group, All-put_group, All-remove_group, All-retain,
}
use ipv_8_public_base_statio.Codec.Reassembly.Part.{
  IsFragmentOf, IsPart, admit-IsPart, advance-IsPart, new_group-IsPart, store-IsPart,
}
use ipv_8_public_base_statio.Codec.Reassembly.Sound.{IsWhole, emit-IsPart}

-- No packet but this one, and no panic.
abbrev pub Harmless : List ℕ → Inserted → Type 0
Harmless packet (rejected e) = Unit {0}
Harmless packet waiting = Unit {0}
Harmless packet (complete out) = out ≡ packet
Harmless packet (panicked e) = ⊥
Harmless packet encoder_diverged = ⊥

-- The groups under the key hold parts of the packet.
abbrev pub PartsOf : Decoded → GroupKey → List (GroupKey × Group) → Type 0
PartsOf d key groups = All (λ entry. entry.0 ≡ key → IsPart d entry.1) groups

admit-ne-diverged : (g : Group) (more : Bool) (start len : ℕ) → admit g more start len ≢ diverged
unfolding admit
admit-ne-diverged g more start len e = ground arith

check_fragment-ne-diverged :
    (hdr : IPv8Header) (payload : List ℕ) → check_fragment hdr payload ≢ diverged
unfolding check_fragment
check_fragment-ne-diverged hdr payload e = ground arith

-- What an insertion into a group keeps; `k` is the key of the fragment.
abbrev Keeps : Decoded → List ℕ → GroupKey → GroupKey → Reassembler × Inserted → Type 0
Keeps d packet key k result = PartsOf d key result.0.groups × (k ≡ key → Harmless packet result.1)

module _ (d : Decoded) (packet : List ℕ) (key : GroupKey) (whole : IsWhole d packet) where
  put_part :
      (k : GroupKey) (g : Group) (groups : List (GroupKey × Group))
      → PartsOf d key groups
      → (k ≡ key → IsPart d g)
      → PartsOf d key (put_group k g groups)
  put_part k g groups all part =
      All-put_group (λ entry. entry.0 ≡ key → IsPart d entry.1) k g groups part all

  insert_in-Keeps :
      (r : Reassembler) (k : GroupKey) (g : Group) (hdr : IPv8Header) (payload : List ℕ)
      (frag : FragmentInfo)
      → PartsOf d key r.groups
      → (k ≡ key → IsPart d g × IsFragmentOf d frag hdr payload)
      → Keeps d packet key k (insert_in r k g hdr payload frag)
  unfolding insert_in
  insert_in-Keeps r k g hdr payload frag all rel =
      elim (Result-cases (admit g frag.more (frag.offset * 8) (length payload))) [
        | inr refused ↦
            elim (Result-fails (admit g frag.more (frag.offset * 8) (length payload)) refused) [
              | inl (e, bad) ↦
                  rw (bad, insert_in) (put_part k g r.groups all (λ same. (rel same).0), λ same. tt)
              | inr bad ↦
                  absurd (admit-ne-diverged g frag.more (frag.offset * 8) (length payload) bad)
            ]
        | inl (h, admitted) ↦
            let others = drop 1 hdr.ext_headers in
            let kept : Group × Bool = store h others (frag.offset * 8) payload in
            let moved : Group = advance (length kept.0.chunks) kept.0 in
            let stored_part : k ≡ key → IsPart d kept.0 = λ same.
              store-IsPart d frag hdr payload h (rel same).1
                (admit-IsPart d frag hdr payload g h (rel same).1 (rel same).0 admitted) in
            let moved_part : k ≡ key → IsPart d moved =
              λ same. advance-IsPart d (length kept.0.chunks) kept.0 (stored_part same) in
            elim (Bool-cases kept.1) [
              | inl displaced ↦
                  rw (admitted, insert_in, displaced)
                    (put_part k kept.0 r.groups all stored_part, λ same. tt)
              | inr new ↦ elim (Bool-cases (is_done moved)) [
                | inl done ↦
                    rw (admitted, insert_in, new, done)
                      (
                        All-remove_group (λ entry. entry.0 ≡ key → IsPart d entry.1) k r.groups all,
                        λ same.
                            subst (Harmless packet)
                              (sym (emit-IsPart d packet moved whole (moved_part same) done)) refl,
                      )
                | inr not_yet ↦
                    rw (admitted, insert_in, new, not_yet)
                      (put_part k moved r.groups all moved_part, λ same. tt)
              ]
            ]
      ]

-- The fragment `frag` arrives under the key.
abbrev pub Arrives : GroupKey → IPv8Header → List ℕ → FragmentInfo → Type 0
Arrives key hdr payload frag = (check_fragment hdr payload ≡ ok frag) × (key_of hdr frag ≡ key)

-- Each packet that arrives under the key is a fragment of `d`.
abbrev pub Belongs : Decoded → GroupKey → IPv8Header → List ℕ → Type 0
Belongs d key hdr payload =
    (frag : FragmentInfo) → Arrives key hdr payload frag → IsFragmentOf d frag hdr payload

module _ (d : Decoded) (packet : List ℕ) (key : GroupKey) (whole : IsWhole d packet) where
  room_found :
      (now : ℕ) (r : Reassembler) (hdr : IPv8Header) (payload : List ℕ) (frag : FragmentInfo)
      → PartsOf d key r.groups
      → (key_of hdr frag ≡ key → IsFragmentOf d frag hdr payload)
      → Keeps d packet key
          (key_of hdr frag)
          (insert_in r (key_of hdr frag) (new_group now hdr) hdr payload frag)
  room_found now r hdr payload frag all rel =
      insert_in-Keeps d packet key whole r (key_of hdr frag) (new_group now hdr) hdr payload frag
        all (λ same. (new_group-IsPart d frag hdr payload now (rel same), rel same))

  live_parts :
      (now : ℕ) (r : Reassembler) → PartsOf d key r.groups → PartsOf d key (reap now r).groups
  unfolding reap
  live_parts now r all =
      All-retain (λ entry. entry.0 ≡ key → IsPart d entry.1) (is_live now) r.groups all

  accepted-Keeps :
      (now : ℕ) (r : Reassembler) (hdr : IPv8Header) (payload : List ℕ) (frag : FragmentInfo)
      → PartsOf d key r.groups
      → check_fragment hdr payload ≡ ok frag
      → (key_of hdr frag ≡ key → IsFragmentOf d frag hdr payload)
      → Keeps d packet key (key_of hdr frag) (insert now r hdr payload)
  unfolding insert
  accepted-Keeps now r hdr payload frag all e rel =
      let k : GroupKey = key_of hdr frag in
      let live : Reassembler = reap now r in
      let again : Reassembler = reap now live in
      let all_live = live_parts now r all in
      let all_again = live_parts now live all_live in
      elim (Option-cases (find_group k live.groups)) [
        | inr (g, found) ↦
            rw (e, insert, found)
              (insert_in-Keeps d packet key whole live k g hdr payload frag all_live (λ same. (
                All-find_group (λ entry. entry.0 ≡ key → IsPart d entry.1) k live.groups g found
                    all_live same,
                rel same,
              )))
        | inl missing ↦ elim (Bool-cases (ltb (length live.groups) max_groups)) [
          | inl room ↦
              rw (e, insert, missing, room) (room_found now live hdr payload frag all_live rel)
          | inr full ↦ elim (Bool-cases (leb max_groups (length again.groups))) [
            | inl still ↦ rw (e, insert, missing, full, still) (all_again, λ same. tt)
            | inr freed ↦
                rw (e, insert, missing, full, freed)
                  (room_found now again hdr payload frag all_again rel)
          ]
        ]
      ]

  insert-Keeps :
      (now : ℕ) (r : Reassembler) (hdr : IPv8Header) (payload : List ℕ)
      → PartsOf d key r.groups
      → Belongs d key hdr payload
      → PartsOf d key (insert now r hdr payload).0.groups
        × ((frag : FragmentInfo)
            → Arrives key hdr payload frag
            → Harmless packet (insert now r hdr payload).1)
  unfolding insert
  insert-Keeps now r hdr payload all belongs = elim (Result-cases (check_fragment hdr payload)) [
    | inl (frag, e) ↦
        let kept = accepted-Keeps now r hdr payload frag all e (λ same. belongs frag (e, same)) in
        (kept.0, λ other arrives. kept.1 (same_frag hdr payload frag other e arrives))
    | inr refused ↦ elim (Result-fails (check_fragment hdr payload) refused) [
      | inl (x, bad) ↦ rw (bad, insert) (all, λ frag arrives. tt)
      | inr bad ↦ absurd (check_fragment-ne-diverged hdr payload bad)
    ]
  ]
    where
      same_frag :
          (hdr : IPv8Header) (payload : List ℕ) (frag other : FragmentInfo)
          → check_fragment hdr payload ≡ ok frag
          → Arrives key hdr payload other
          → key_of hdr frag ≡ key
      same_frag hdr payload frag other e arrives =
          ap (key_of hdr) (unwrap frag other (sym e ∙ arrives.0)) ∙ arrives.1
        where
          unwrap :
              (frag other : FragmentInfo)
              → ◌≡◌ {A = Result ReassemblyError FragmentInfo} (ok frag) (ok other)
              → frag ≡ other
          unwrap frag other h = cc

-- A packet that arrives, decoded, at a time.
pub record Arrival : Type 0 where
  pub now : ℕ
  pub header : IPv8Header
  pub payload : List ℕ

-- The reassembler after a history of arrivals.
unfoldable pub after : List Arrival → Reassembler → Reassembler
after [] r = r
after (a ∷ as') r = after as' (insert a.now r a.header a.payload).0

module _ (d : Decoded) (packet : List ℕ) (key : GroupKey) (whole : IsWhole d packet) where
  after-PartsOf :
      (history : List Arrival) (r : Reassembler)
      → PartsOf d key r.groups
      → All (λ a. Belongs d key a.header a.payload) history
      → PartsOf d key (after history r).groups
  unfolding after
  after-PartsOf [] r all belong = all
  after-PartsOf (a ∷ others) r all belong =
      after-PartsOf others _
        (insert-Keeps d packet key whole a.now r a.header a.payload all belong.0).0 belong.1

-- Let all fragments that arrive under one key, before and now, be fragments of one packet that the
-- encoder wrote, in any order, some of them twice or never, among packets of any other kind. Then
-- the reassembler gives no other packet under that key and does not panic there.
pub insert-Harmless :
    (d : Decoded) (packet : List ℕ) (key : GroupKey) (history : List Arrival) (now : ℕ)
    (hdr : IPv8Header) (payload : List ℕ) (frag : FragmentInfo)
    → IsWhole d packet
    → All (λ a. Belongs d key a.header a.payload) history
    → Belongs d key hdr payload
    → Arrives key hdr payload frag
    → Harmless packet (insert now (after history (record { groups = [] })) hdr payload).1
insert-Harmless d packet key history now hdr payload frag whole before belongs arrives =
    (insert-Keeps d packet key whole now (after history (record { groups = [] })) hdr payload
        (after-PartsOf d packet key whole history (record { groups = [] }) tt before) belongs).1
      frag arrives
