-- ===== src/Qos/Scheduler/Laws.antt =====
-- What the priority scheduler keeps, and the order in which it serves
-- (src/core/ipv8-qos/src/scheduler.rs).
use ipv_8_public_base_statio.Common.{
  ℕ, zero, suc, ◌+◌, ◌-◌, ◌≤◌, ◌<◌, ◌≡◌, ◌≢◌, ◌⊎◌, inl, inr, refl, ap, sym, ◌∙◌, Option, none, some,
  List, [], ◌∷◌, ◌++◌, min, length, get_or, set, replicate, leb, ◌==◌, arith, subst, length-append,
  length-set, Bool-cases, leb→le, ==_iff,
}
use ipv_8_public_base_statio.Qos.Scheduler.{
  PriorityScheduler, new, push, pop_class, or_else, take_below, take_next,
}
use ipv_8_public_base_statio.Qos.Scheduler.Queues.{List-cases, get_or-lengths, lengths, lengths-set}
use ipv_8_public_base_statio.Common.{get_or-set_other, get_or-set_same}

module _ {T : Type 0} where
  -- The counters agree with the queues, of which there are four, and no queue passes the capacity.
  pub record IsScheduler (s : PriorityScheduler T) : Type 0 where
    pub four : length s.queues ≡ 4
    pub counts_eq : s.counts ≡ lengths s.queues
    pub within : (k : ℕ) → length (get_or s.queues k []) ≤ s.cap

  count_at :
      (s : PriorityScheduler T)
      → IsScheduler s
      → (c : ℕ) → get_or s.counts c 0 ≡ length (get_or s.queues c [])
  count_at s inv c = ap (λ ns. get_or ns c 0) inv.counts_eq ∙ get_or-lengths s.queues c

  -- What the scheduler becomes when class `c` holds `q` instead.
  pub with_queue : PriorityScheduler T → ℕ → List T → PriorityScheduler T
  with_queue s c q = record s { queues = set s.queues c q; counts = set s.counts c (length q) }

  with_queue-IsScheduler :
      (s : PriorityScheduler T) (c : ℕ) (q : List T)
      → IsScheduler s
      → c < 4
      → length q ≤ s.cap
      → IsScheduler (with_queue s c q)
  unfolding with_queue
  with_queue-IsScheduler s c q inv h fits = record {
    four = length-set s.queues c q ∙ inv.four;
    counts_eq = ap (λ ns. set ns c (length q)) inv.counts_eq ∙ sym (lengths-set s.queues c q);
    within = λ k. elim (Bool-cases (k == c)) [
      | inl e ↦
          let same : k ≡ c = (==_iff k c).0 e in
          let here = get_or-set_same s.queues c q [] (omega (arith, inv.four)) in
          omega (arith, ap (λ j. length (get_or (set s.queues c q) j [])) same, ap length here)
      | inr e ↦
          let other : k ≢ c = λ same. ground (arith, (==_iff k c).1 same) in
          omega (
            arith,
            ap length (get_or-set_other s.queues c k q [] (λ e. other (sym e))),
            inv.within k,
          )
    ];
  }

  -- A new scheduler has four empty queues.
  pub new-IsScheduler : (limit : ℕ) → IsScheduler (new {T = T} limit)
  unfolding new lengths
  new-IsScheduler limit = record {
    four = refl;
    counts_eq = refl;
    within = λ k. omega (arith, ap length (empty_at 4 k));
  }
    where
      empty_at : (n k : ℕ) → get_or {A = List T} (replicate n []) k [] ≡ []
      empty_at zero k = refl
      empty_at (suc n) zero = refl
      empty_at (suc n) (suc k) = empty_at n k

  abbrev pub Pushed : PriorityScheduler T → ℕ → T → Type 0
  Pushed s class item =
      ((length (get_or s.queues (min class 3) []) < s.cap)
        × (push s class item
            ≡ (with_queue s (min class 3) (get_or s.queues (min class 3) [] ++ (item ∷ [])), none)))
      ⊎ ((length (get_or s.queues (min class 3) []) ≡ s.cap)
          × (push s class item ≡ (record s { dropped = s.dropped + 1 }, some item)))

  -- `push` on each branch: with room the item joins the end of its class, the classes above 3
  -- counting as 3, and nothing comes back; a full class changes nothing but the count of drops, and
  -- hands the item back.
  pub push_lem :
      (s : PriorityScheduler T) (class : ℕ) (item : T) → IsScheduler s → Pushed s class item
  unfolding push with_queue
  push_lem s class item inv =
      let c : ℕ = min class 3 in
      let n : get_or s.counts c 0 ≡ length (get_or s.queues c []) = count_at s inv c in
      let most = inv.within c in
      elim (Bool-cases (leb s.cap (get_or s.counts c 0))) [
        | inl full ↦
            let h = leb→le s.cap (get_or s.counts c 0) full in inr (omega arith, rw full refl)
        | inr room ↦
            let more = length-append (get_or s.queues c []) (item ∷ []) in
            let one_more : get_or s.counts c 0 + 1 ≡ length (get_or s.queues c [] ++ (item ∷ [])) =
              omega arith in
            inl (ground arith, rw (room, one_more) refl)
      ]

  -- `push` keeps a scheduler well formed: four queues, counters equal to their lengths, and no
  -- queue beyond the capacity.
  pub push-IsScheduler :
      (s : PriorityScheduler T) (class : ℕ) (item : T)
      → IsScheduler s
      → IsScheduler (push s class item).0
  push-IsScheduler s class item inv = elim (push_lem s class item inv) [
    | inl (room, e) ↦
        subst (λ r. IsScheduler r.0) (sym e)
          (with_queue-IsScheduler s (min class 3) (get_or s.queues (min class 3) [] ++ (item ∷ []))
            inv (omega arith)
            (omega (arith, length-append (get_or s.queues (min class 3) []) (item ∷ []))))
    | inr (full, e) ↦
        subst (λ r. IsScheduler r.0) (sym e)
          (record { four = inv.four; counts_eq = inv.counts_eq; within = inv.within })
  ]

  -- The class that `take_next` serves, and what it leaves.
  pub record IsServed (s : PriorityScheduler T) (n : ℕ) (item : T) (after : PriorityScheduler T)
      : Type 0 where
    pub class : ℕ
    pub rest : List T
    pub class_lt : class < n
    pub head_eq : get_or s.queues class [] ≡ item ∷ rest
    pub higher : (k : ℕ) → class < k → k < n → get_or s.queues k [] ≡ []
    pub after_eq : after ≡ with_queue s class rest

  take_below-empty :
      (s : PriorityScheduler T) (n : ℕ)
      → get_or s.queues n [] ≡ []
      → take_below s (suc n) ≡ take_below s n
  unfolding take_below or_else pop_class
  take_below-empty s n e = ap (λ q. or_else (pop_class s n q) (take_below s n)) e

  take_below-cons :
      (s : PriorityScheduler T) (n : ℕ) (x : T) (rest : List T)
      → IsScheduler s
      → get_or s.queues n [] ≡ x ∷ rest
      → take_below s (suc n) ≡ some (x, with_queue s n rest)
  unfolding take_below or_else pop_class with_queue
  take_below-cons s n x rest inv e =
      let one_less : get_or s.counts n 0 - 1 ≡ length rest =
        omega (arith, count_at s inv n, ap length e) in
      ap (λ q. or_else (pop_class s n q) (take_below s n)) e
      ∙ ap (λ k. some (x, record s { queues = set s.queues n rest; counts = set s.counts n k }))
          one_less

  take_below-IsServed :
      (s : PriorityScheduler T) (n : ℕ)
      → IsScheduler s
      → ((take_below s n ≡ none) × ((k : ℕ) → k < n → get_or s.queues k [] ≡ []))
        ⊎ ((item : T) × (after : PriorityScheduler T) × (take_below s n ≡ some (item, after))
            × IsServed s n item after)
  unfolding take_below
  take_below-IsServed s zero inv = inl (refl, λ k h. absurd (omega arith))
  take_below-IsServed s (suc n) inv = elim (List-cases (get_or s.queues n [])) [
    | inr (x, rest, e) ↦ inr (
      x,
      with_queue s n rest,
      take_below-cons s n x rest inv e,
      record {
        class = n;
        rest = rest;
        class_lt = omega arith;
        head_eq = e;
        higher = λ k lo hi. absurd (omega arith);
        after_eq = refl;
      },
    )
    | inl e ↦ elim (take_below-IsServed s n inv) [
      | inl (none_left, all) ↦ inl (
        take_below-empty s n e ∙ none_left,
        λ k h. elim (below k n h) [ inl lt ↦ all k lt | inr same ↦ at_class s k n same e ],
      )
      | inr (item, after, found, r) ↦ inr (
        item,
        after,
        take_below-empty s n e ∙ found,
        record {
          class = r.class;
          rest = r.rest;
          class_lt = omega (arith, r.class_lt);
          head_eq = r.head_eq;
          higher = λ k lo hi. elim (below k n hi) [
            | inl lt ↦ r.higher k lo lt
            | inr same ↦ at_class s k n same e
          ];
          after_eq = r.after_eq;
        },
      )
    ]
  ]
    where
      below : (k n : ℕ) → k < suc n → (k < n) ⊎ (k ≡ n)
      below k n h = ground arith

      at_class :
          (s : PriorityScheduler T) (k n : ℕ)
          → k ≡ n
          → get_or s.queues n [] ≡ []
          → get_or s.queues k [] ≡ []
      at_class s k n same e = ap (λ j. get_or s.queues j []) same ∙ e

  abbrev pub Taken : PriorityScheduler T → Type 0
  Taken s =
      ((take_next s ≡ none) × ((k : ℕ) → k < 4 → get_or s.queues k [] ≡ []))
      ⊎ ((item : T) × (after : PriorityScheduler T) × (take_next s ≡ some (item, after))
          × IsServed s 4 item after)

  -- `take_next` on a well-formed scheduler: it returns nothing exactly when the four queues are
  -- empty, and otherwise the oldest item of the highest class that has one, and only that class
  -- loses its head.
  pub take_next_lem : (s : PriorityScheduler T) → IsScheduler s → Taken s
  unfolding take_next
  take_next_lem s inv = take_below-IsServed s 4 inv

  -- What `take_next` leaves, when it serves an item, is well formed again.
  pub take_next-IsScheduler :
      (s : PriorityScheduler T) (item : T) (after : PriorityScheduler T)
      → IsScheduler s
      → take_next s ≡ some (item, after)
      → IsScheduler after
  take_next-IsScheduler s item after inv e = elim (take_next_lem s inv) [
    | inl (nothing, empty) ↦ absurd (none-ne-some (sym nothing ∙ e))
    | inr (x, left, found, r) ↦
        let same : left ≡ after = some_inj (sym found ∙ e) in
        subst IsScheduler same (
          subst IsScheduler (sym r.after_eq) (
            with_queue-IsScheduler s r.class r.rest inv r.class_lt
              (omega (arith, ap length r.head_eq, inv.within r.class))))
  ]
    where
      none-ne-some : ◌≡◌ {A = Option (T × PriorityScheduler T)} none (some (item, after)) → ⊥
      none-ne-some h = cc

      some_inj :
          {x : T} {left : PriorityScheduler T}
          → ◌≡◌ {A = Option (T × PriorityScheduler T)} (some (x, left)) (some (item, after))
          → left ≡ after
      some_inj h = cc
