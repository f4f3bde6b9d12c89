-- ===== src/Routing/Static/Search.antt =====
-- The search ends within its fuel, and its parents form a tree over links.
use ipv_8_public_base_statio.Common.{
  ℕ, zero, suc, ◌+◌, ◌≤◌, ◌≡◌, refl, ap, sym, subst, Bool, true, false, List, [], ◌∷◌, ◌++◌,
  if◌then◌else◌, length, length-append, String, str_eq, str_eq_refl, arith, Bool-cases, inl, inr,
}
use ipv_8_public_base_statio.Routing.Static.{
  Frontier, has_parent, holds, neighbors, search, search_fuel, visit,
}
use ipv_8_public_base_statio.Routing.Static.Visits.{
  IsLink, Tree, Visiting, has_parent-more, holds-more, holds-top, visit-Visiting,
}

-- How many of the addresses listed as neighbours are still to be met.
abbrev pub unmet : List (String × String) → List String → ℕ
unmet prev [] = 0
unmet prev (y ∷ ys) = (if has_parent prev y then 0 else 1) + unmet prev ys

abbrev pub all_unmet : List (String × String) → List (String × List String) → ℕ
all_unmet prev [] = 0
all_unmet prev ((x, ns) ∷ others) = unmet prev ns + all_unmet prev others

unmet-le : (prev : List (String × String)) (ys : List String) → unmet prev ys ≤ length ys
unmet-le prev [] = omega arith
unmet-le prev (y ∷ ys) = ground (arith, unmet-le prev ys)

pub all_unmet-le :
    (prev : List (String × String)) (links : List (String × List String))
    → 1 + all_unmet prev links ≤ search_fuel links
all_unmet-le prev [] = omega arith
all_unmet-le prev ((x, ns) ∷ others) = omega (arith, unmet-le prev ns, all_unmet-le prev others)

one : Bool → ℕ
one b = if b then 0 else 1

one-le : (a b : Bool) → (a ≡ true → b ≡ true) → one b ≤ one a
unfolding one
one-le a b h = ground arith

one-grows :
    (prev : List (String × String)) (c p y : String)
    → one (has_parent ((c, p) ∷ prev) y) ≤ one (has_parent prev y)
one-grows prev c p y =
    one-le (has_parent prev y) (has_parent ((c, p) ∷ prev) y) (has_parent-more prev c p y)

unmet-grows :
    (prev : List (String × String)) (c p : String) (ys : List String)
    → unmet ((c, p) ∷ prev) ys ≤ unmet prev ys
unfolding one
unmet-grows prev c p [] = omega arith
unmet-grows prev c p (y ∷ ys) = omega (arith, one-grows prev c p y, unmet-grows prev c p ys)

unmet-less :
    (prev : List (String × String)) (c p : String) (ys : List String)
    → has_parent prev c ≡ false
    → holds ys c ≡ true
    → suc (unmet ((c, p) ∷ prev) ys) ≤ unmet prev ys
unfolding one
unmet-less prev c p [] new here = cc
unmet-less prev c p (y ∷ ys) new here = elim (holds-top ys y c here) [
  | inl same ↦
      subst (λ (z : String). suc (unmet ((c, p) ∷ prev) (z ∷ ys)) ≤ unmet prev (z ∷ ys)) same
        (rw (str_eq_refl c, new) (omega (arith, unmet-grows prev c p ys)))
  | inr later ↦ omega (arith, one-grows prev c p y, unmet-less prev c p ys new later)
]

all_unmet-grows :
    (prev : List (String × String)) (c p : String) (links : List (String × List String))
    → all_unmet ((c, p) ∷ prev) links ≤ all_unmet prev links
all_unmet-grows prev c p [] = omega arith
all_unmet-grows prev c p ((x, ns) ∷ others) =
    omega (arith, unmet-grows prev c p ns, all_unmet-grows prev c p others)

all_unmet-less :
    (prev : List (String × String)) (c p a : String) (links : List (String × List String))
    → has_parent prev c ≡ false
    → IsLink links a c
    → suc (all_unmet ((c, p) ∷ prev) links) ≤ all_unmet prev links
unfolding neighbors
all_unmet-less prev c p a [] new link = cc
all_unmet-less prev c p a ((x, ns) ∷ others) new link = elim (Bool-cases (str_eq x a)) [
  | inl same ↦ omega (
    arith,
    unmet-less prev c p ns new (chosen (str_eq x a) same link),
    all_unmet-grows prev c p others,
  )
  | inr other ↦ omega (
    arith,
    unmet-grows prev c p ns,
    all_unmet-less prev c p a others new (passed (str_eq x a) other link),
  )
]
  where
    chosen :
        (b : Bool)
        → b ≡ true
        → holds (if b then ns else neighbors others a) c ≡ true
        → holds ns c ≡ true
    chosen true e h = h
    chosen false e h = cc

    passed :
        (b : Bool)
        → b ≡ false
        → holds (if b then ns else neighbors others a) c ≡ true
        → holds (neighbors others a) c ≡ true
    passed true e h = cc
    passed false e h = h

module _ (links : List (String × List String)) (local : String) where
  abbrev pub work : List String → List (String × String) → ℕ
  work queue prev = length queue + all_unmet prev links

  abbrev after : List String → String → Frontier → ℕ
  after others cur f = work (visit cur others f).queue (visit cur others f).prev

  pub visit-work :
      (cur : String) (todo : List String) (f : Frontier)
      → ((y : String) → holds todo y ≡ true → IsLink links cur y)
      → work (visit cur todo f).queue (visit cur todo f).prev ≤ work f.queue f.prev
  unfolding visit
  visit-work cur [] f linked = omega arith
  visit-work cur (nb ∷ others) f linked =
      let g : Frontier = record { queue = f.queue ++ (nb ∷ []); prev = (nb, cur) ∷ f.prev } in
      elim (Bool-cases (has_parent f.prev nb)) [
        | inl met ↦
            subst (λ (h : Frontier). after others cur h ≤ work f.queue f.prev)
              (sym (ap (λ (b : Bool). if b then f else g) met))
              (visit-work cur others f (λ y h. linked y (holds-more others nb y h)))
        | inr new ↦
            subst (λ (h : Frontier). after others cur h ≤ work f.queue f.prev)
              (sym (ap (λ (b : Bool). if b then f else g) new))
              (omega (
                arith,
                visit-work cur others g (λ y h. linked y (holds-more others nb y h)),
                length-append f.queue (nb ∷ []),
                all_unmet-less f.prev nb cur cur links new (linked nb (rw (str_eq_refl nb) refl)),
              ))
      ]

  -- Between two rounds of the search.
  pub record Searching (queue : List String) (prev : List (String × String)) : Type 0 where
    pub tree : Tree links local prev
    pub queued : (x : String) → holds queue x ≡ true → has_parent prev x ≡ true

  pub round :
      (cur : String) (queue : List String) (prev : List (String × String))
      → Searching (cur ∷ queue) prev
      → let f = visit cur (neighbors links cur) (record { queue = queue; prev = prev }) in
        Searching f.queue f.prev
  round cur queue prev s =
      let v : Visiting links local cur []
          (visit cur (neighbors links cur) (record { queue = queue; prev = prev })) =
        visit-Visiting links local cur (neighbors links cur) (record { queue = queue; prev = prev })
          (record {
            tree = s.tree;
            cur_met = s.queued cur (rw (str_eq_refl cur) refl);
            queued = λ x h. s.queued x (holds-more queue cur x h);
            to_do = λ y h. h;
          }) in
      record { tree = v.tree; queued = v.queued }

  pub search-Tree :
      (fuel : ℕ) (dst : String) (queue : List String) (prev : List (String × String))
      → work queue prev ≤ fuel
      → Searching queue prev
      → Tree links local (search fuel links dst queue prev)
  unfolding search
  search-Tree zero dst [] prev h s = s.tree
  search-Tree zero dst (cur ∷ queue) prev h s = absurd (omega arith)
  search-Tree (suc fuel) dst [] prev h s = s.tree
  search-Tree (suc fuel) dst (cur ∷ queue) prev h s =
      let f : Frontier = visit cur (neighbors links cur) (record { queue = queue; prev = prev }) in
      elim (Bool-cases (str_eq cur dst)) [
        | inl found ↦ rw found s.tree
        | inr other ↦ rw other (
            search-Tree fuel dst f.queue f.prev
              (omega (
                arith,
                h,
                visit-work cur (neighbors links cur) (record { queue = queue; prev = prev })
                    (λ y e. e),
              ))
              (round cur queue prev s))
      ]
