-- ===== src/Routing/Static/Shortest.antt =====
-- The search meets each address by as few hops as any walk takes
-- (src/core/ipv8-routing/src/static_route.rs).
use ipv_8_public_base_statio.Common.{
  ℕ, zero, suc, ◌+◌, ◌≤◌, ◌≡◌, ◌⊎◌, refl, ap, sym, subst, ◌∙◌, true, false, List, [], ◌∷◌, ◌++◌,
  length, String, str_eq, str_eq_refl, str_eq→≡, arith, Bool-cases, inl, inr,
}
use ipv_8_public_base_statio.Routing.Static.{Frontier, has_parent, holds, neighbors, search, visit}
use ipv_8_public_base_statio.Routing.Static.Rank.{rank, rank-below, rank-top, root_met}
use ipv_8_public_base_statio.Routing.Static.Search.{Searching, round, visit-work, work}
use ipv_8_public_base_statio.Routing.Static.Trace.{EndsAt, IsWalk}
use ipv_8_public_base_statio.Routing.Static.Visits.{
  IsLink, has_parent-more, has_parent-top, holds-append, holds-last, holds-more, holds-snoc,
  holds-top, holds_self,
}

-- The ranks do not fall along the queue.
abbrev Sorted : List (String × String) → List String → Type 0
Sorted prev [] = Unit
Sorted prev (x ∷ xs) =
    ((y : String) → holds xs y ≡ true → rank prev x ≤ rank prev y) × Sorted prev xs

Sorted-snoc :
    (prev : List (String × String)) (c p : String) (q : List String)
    → has_parent prev c ≡ false
    → ((x : String) → holds q x ≡ true → has_parent prev x ≡ true)
    → ((x : String) → holds q x ≡ true → rank prev x ≤ suc (rank prev p))
    → Sorted prev q
    → Sorted ((c, p) ∷ prev) (q ++ (c ∷ []))
Sorted-snoc prev c p [] new met high s = ((λ y h. cc), tt)
Sorted-snoc prev c p (x ∷ xs) new met high (first, s) =
    let kept : rank ((c, p) ∷ prev) x ≡ rank prev x =
      rank-below prev c p x new (met x (holds_self xs x)) in
    (
      (λ y h. elim (holds-snoc xs c y h) [
        | inl is_c ↦ omega (
          arith,
          kept,
          high x (holds_self xs x),
          ap (rank ((c, p) ∷ prev)) is_c,
          rank-top prev c p,
        )
        | inr old ↦
            omega
              (arith, kept, first y old, rank-below prev c p y new (met y (holds-more xs x y old)))
      ]),
      Sorted-snoc prev c p xs new (λ y h. met y (holds-more xs x y h))
          (λ y h. high y (holds-more xs x y h)) s,
    )

module _ (links : List (String × List String)) (local : String) where
  -- Whatever an address is linked to is met, and at most one hop further.
  abbrev Near : List (String × String) → String → Type 0
  Near prev x =
      (y : String)
      → IsLink links x y
      → (has_parent prev y ≡ true) × (rank prev y ≤ suc (rank prev x))

  -- What holds of the ranks between two rounds.
  pub record Ranking (queue : List String) (prev : List (String × String)) : Type 0 where
    pub sorted : Sorted prev queue
    pub top :
        (x q : String)
        → has_parent prev x ≡ true
        → holds queue q ≡ true
        → rank prev x ≤ suc (rank prev q)
    pub near : (x : String) → has_parent prev x ≡ true → (holds queue x ≡ true) ⊎ Near prev x

  -- What holds of them while the neighbours `todo` of `cur` are still to be looked at.
  record Ranked (cur : String) (todo : List String) (f : Frontier) : Type 0 where
    cur_met : has_parent f.prev cur ≡ true
    queued : (x : String) → holds f.queue x ≡ true → has_parent f.prev x ≡ true
    sorted : Sorted f.prev f.queue
    low : (q : String) → holds f.queue q ≡ true → rank f.prev cur ≤ rank f.prev q
    high : (x : String) → has_parent f.prev x ≡ true → rank f.prev x ≤ suc (rank f.prev cur)
    near :
        (x : String)
        → has_parent f.prev x ≡ true
        → (holds f.queue x ≡ true) ⊎ ((x ≡ cur) ⊎ Near f.prev x)
    near_cur :
        (y : String)
        → IsLink links cur y
        → (holds todo y ≡ true)
          ⊎ ((has_parent f.prev y ≡ true) × (rank f.prev y ≤ suc (rank f.prev cur)))

  met-Ranked :
      (cur nb : String) (others : List String) (f : Frontier)
      → has_parent f.prev nb ≡ true
      → Ranked cur (nb ∷ others) f
      → Ranked cur others f
  met-Ranked cur nb others f met r = record {
    cur_met = r.cur_met;
    queued = r.queued;
    sorted = r.sorted;
    low = r.low;
    high = r.high;
    near = r.near;
    near_cur = λ y link. elim (r.near_cur y link) [
      | inr done ↦ inr done
      | inl left ↦ elim (holds-top others nb y left) [
        | inl is_nb ↦
            let y_met : has_parent f.prev y ≡ true = ap (has_parent f.prev) is_nb ∙ met in
            inr (y_met, r.high y y_met)
        | inr later ↦ inl later
      ]
    ];
  }

  new-Ranked :
      (cur nb : String) (others queue : List String) (prev : List (String × String))
      → has_parent prev nb ≡ false
      → Ranked cur (nb ∷ others) (record { queue = queue; prev = prev })
      → Ranked cur others (record { queue = queue ++ (nb ∷ []); prev = (nb, cur) ∷ prev })
  new-Ranked cur nb others queue prev unmet r = record {
    cur_met = has_parent-more prev nb cur cur r.cur_met;
    queued = λ x h. elim (holds-snoc queue nb x h) [
      | inl is_nb ↦ ap (has_parent ((nb, cur) ∷ prev)) is_nb ∙ nb_met
      | inr old ↦ has_parent-more prev nb cur x (r.queued x old)
    ];
    sorted = Sorted-snoc prev nb cur queue unmet r.queued (λ x h. r.high x (r.queued x h)) r.sorted;
    low = λ q h. elim (holds-snoc queue nb q h) [
      | inl is_nb ↦ omega (arith, at q is_nb, same cur r.cur_met)
      | inr old ↦ omega (arith, same cur r.cur_met, same q (r.queued q old), r.low q old)
    ];
    high = λ x h. elim (has_parent-top prev nb cur x h) [
      | inl is_nb ↦ omega (arith, at x is_nb, same cur r.cur_met)
      | inr seen ↦ omega (arith, same cur r.cur_met, same x seen, r.high x seen)
    ];
    near = λ x h. elim (has_parent-top prev nb cur x h) [
      | inl is_nb ↦ inl (ap (holds (queue ++ (nb ∷ []))) is_nb ∙ holds-last queue nb)
      | inr seen ↦ elim (r.near x seen) [
        | inl there ↦ inl (holds-append queue nb x there)
        | inr (inl is_cur) ↦ inr (inl is_cur)
        | inr (inr all) ↦ inr (
            inr (λ y link.
              let (y_met, le) = all y link in
              (has_parent-more prev nb cur y y_met, omega (arith, same y y_met, same x seen, le))))
      ]
    ];
    near_cur = λ y link. elim (r.near_cur y link) [
      | inr (y_met, le) ↦
          inr (
            has_parent-more prev nb cur y y_met,
            omega (arith, same y y_met, same cur r.cur_met, le),
          )
      | inl left ↦ elim (holds-top others nb y left) [
        | inl is_nb ↦ inr (
          ap (has_parent ((nb, cur) ∷ prev)) is_nb ∙ nb_met,
          omega (arith, at y is_nb, same cur r.cur_met),
        )
        | inr later ↦ inl later
      ]
    ];
  }
    where
      nb_met : has_parent ((nb, cur) ∷ prev) nb ≡ true
      nb_met = rw (str_eq_refl nb) refl

      at : (x : String) → x ≡ nb → rank ((nb, cur) ∷ prev) x ≡ suc (rank prev cur)
      at x e = ap (rank ((nb, cur) ∷ prev)) e ∙ rank-top prev nb cur

      same : (x : String) → has_parent prev x ≡ true → rank ((nb, cur) ∷ prev) x ≡ rank prev x
      same x seen = rank-below prev nb cur x unmet seen

  visit-Ranked :
      (cur : String) (todo : List String) (f : Frontier)
      → Ranked cur todo f
      → Ranked cur [] (visit cur todo f)
  unfolding visit
  visit-Ranked cur [] f r = r
  visit-Ranked cur (nb ∷ others) f r = elim (Bool-cases (has_parent f.prev nb)) [
    | inl met ↦ rw met (visit-Ranked cur others f (met-Ranked cur nb others f met r))
    | inr unmet ↦ rw unmet (
        visit-Ranked cur others (record { queue = f.queue ++ (nb ∷ []); prev = (nb, cur) ∷ f.prev })
          (new-Ranked cur nb others f.queue f.prev unmet r))
  ]

  round-Ranking :
      (cur : String) (queue : List String) (prev : List (String × String))
      → ((x : String) → holds (cur ∷ queue) x ≡ true → has_parent prev x ≡ true)
      → Ranking (cur ∷ queue) prev
      → let f = visit cur (neighbors links cur) (record { queue = queue; prev = prev }) in
        Ranking f.queue f.prev
  round-Ranking cur queue prev met g =
      let r : Ranked cur []
          (visit cur (neighbors links cur) (record { queue = queue; prev = prev })) =
        visit-Ranked cur (neighbors links cur) (record { queue = queue; prev = prev })
          (record {
            cur_met = met cur (holds_self queue cur);
            queued = λ x h. met x (holds-more queue cur x h);
            sorted = g.sorted.1;
            low = g.sorted.0;
            high = λ x h. g.top x cur h (holds_self queue cur);
            near = λ x h. elim (g.near x h) [
              | inr all ↦ inr (inr all)
              | inl there ↦ elim (holds-top queue cur x there) [
                | inl is_cur ↦ inr (inl is_cur)
                | inr later ↦ inl later
              ]
            ];
            near_cur = λ y link. inl link;
          }) in
      record {
        sorted = r.sorted;
        top = λ x q h k. omega (arith, r.high x h, r.low q k);
        near = λ x h. elim (r.near x h) [
          | inl there ↦ inl there
          | inr (inr all) ↦ inr all
          | inr (inl is_cur) ↦ inr (λ y link.
              elim (r.near_cur y (subst (λ (z : String). IsLink links z y) is_cur link)) [
                | inl left ↦ cc
                | inr (y_met, le) ↦ (
                  y_met,
                  subst
                      (λ (z : String).
                        rank
                          (visit cur (neighbors links cur)
                            (record { queue = queue; prev = prev })).prev
                          y
                        ≤ suc (
                            rank
                              (visit cur (neighbors links cur)
                                (record { queue = queue; prev = prev })).prev
                              z))
                      (sym is_cur) le,
                )
              ])
        ];
      }

  -- A walk from an address that is met leads to one that is met, not further than the walk is long, or
  -- passes one that waits in the queue.
  along :
      (queue : List String) (prev : List (String × String)) (dst a : String) (path : List String)
      → Ranking queue prev
      → has_parent prev a ≡ true
      → IsWalk links a path
      → EndsAt dst path
      → ((has_parent prev dst ≡ true) × (rank prev dst ≤ rank prev a + length path))
        ⊎ ((q : String) × ((holds queue q ≡ true) × (rank prev q ≤ rank prev a + length path)))
  along queue prev dst a [] g met walk ends = absurd ends
  along queue prev dst a (x ∷ []) g met (link, _) ends = elim (g.near a met) [
    | inl there ↦ inr (a, (there, omega arith))
    | inr all ↦
        let (x_met, le) = all x link in
        inl (
          subst (λ (z : String). has_parent prev z ≡ true) ends x_met,
          omega (arith, ap (rank prev) ends, le),
        )
  ]
  along queue prev dst a (x ∷ y ∷ r) g met (link, walk) ends = elim (g.near a met) [
    | inl there ↦ inr (a, (there, omega arith))
    | inr all ↦
        let (x_met, le) = all x link in
        elim (along queue prev dst x (y ∷ r) g x_met walk ends) [
          | inl (dst_met, far) ↦ inl (dst_met, omega (arith, le, far))
          | inr (q, (there, far)) ↦ inr (q, (there, omega (arith, le, far)))
        ]
  ]

  -- Every walk to `dst` is found, and none is shorter than what the rank of `dst` says.
  abbrev pub Shortest : String → List (String × String) → Type 0
  Shortest dst prev =
      (path : List String)
      → IsWalk links local path
      → EndsAt dst path
      → (has_parent prev dst ≡ true) × (rank prev dst ≤ rank prev local + length path)

  emptied :
      (dst : String) (prev : List (String × String))
      → has_parent prev local ≡ true
      → Ranking [] prev
      → Shortest dst prev
  emptied dst prev met g path walk ends = elim (along [] prev dst local path g met walk ends) [
    | inl there ↦ there
    | inr (q, (waits, _)) ↦ cc
  ]

  popped :
      (dst : String) (queue : List String) (prev : List (String × String))
      → has_parent prev local ≡ true
      → has_parent prev dst ≡ true
      → Ranking (dst ∷ queue) prev
      → Shortest dst prev
  popped dst queue prev met dst_met g path walk ends =
      elim (along (dst ∷ queue) prev dst local path g met walk ends) [
        | inl there ↦ there
        | inr (q, (waits, far)) ↦ elim (holds-top queue dst q waits) [
          | inl is_dst ↦ (dst_met, omega (arith, ap (rank prev) is_dst, far))
          | inr later ↦ (dst_met, omega (arith, g.sorted.0 q later, far))
        ]
      ]

  pub search-Shortest :
      (fuel : ℕ) (dst : String) (queue : List String) (prev : List (String × String))
      → work links local queue prev ≤ fuel
      → Searching links local queue prev
      → Ranking queue prev
      → Shortest dst (search fuel links dst queue prev)
  unfolding search
  search-Shortest zero dst [] prev h s g = emptied dst prev (root_met links local prev s.tree) g
  search-Shortest zero dst (cur ∷ queue) prev h s g = absurd (omega arith)
  search-Shortest (suc fuel) dst [] prev h s g =
      emptied dst prev (root_met links local prev s.tree) g
  search-Shortest (suc fuel) dst (cur ∷ queue) prev h s g =
      let f : Frontier = visit cur (neighbors links cur) (record { queue = queue; prev = prev }) in
      elim (Bool-cases (str_eq cur dst)) [
        | inl found ↦
            let same : cur ≡ dst = str_eq→≡ cur dst found in
            rw found (
              popped dst queue prev (root_met links local prev s.tree)
                (subst (λ (z : String). has_parent prev z ≡ true) same
                  (s.queued cur (holds_self queue cur)))
                (subst (λ (z : String). Ranking (z ∷ queue) prev) same g))
        | inr other ↦ rw other (
            search-Shortest fuel dst f.queue f.prev
              (omega (
                arith,
                h,
                visit-work links local cur (neighbors links cur)
                    (record { queue = queue; prev = prev }) (λ y e. e),
              ))
              (round links local cur queue prev s) (round-Ranking cur queue prev s.queued g))
      ]
