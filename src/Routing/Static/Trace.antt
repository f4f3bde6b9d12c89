-- ===== src/Routing/Static/Trace.antt =====
-- The way back from the destination over the parents.
use ipv_8_public_base_statio.Common.{
  ℕ, zero, suc, ◌≤◌, ◌≡◌, refl, ap, sym, subst, ◌∙◌, true, false, List, [], ◌∷◌, Option, some,
  if◌then◌else◌, length, String, str_eq, str_eq_refl, str_eq→≡, arith, Bool-cases, inl, inr,
}
use ipv_8_public_base_statio.Common.{◌+◌}
use ipv_8_public_base_statio.Routing.Static.Rank.{rank, rank-below, rank-root, rank-top}
use ipv_8_public_base_statio.Routing.Static.{has_parent, parent_of, trace, trace_on}
use ipv_8_public_base_statio.Routing.Static.Visits.{IsLink, Tree, grow, has_parent-top, root}

-- Each address of the list is linked to the one before it, and the first to `a`.
abbrev pub IsWalk : List (String × List String) → String → List String → Type 0
IsWalk links a [] = Unit
IsWalk links a (x ∷ xs) = IsLink links a x × IsWalk links x xs

abbrev pub EndsAt : String → List String → Type 0
EndsAt dst [] = ⊥
EndsAt dst (x ∷ []) = x ≡ dst
EndsAt dst (x ∷ y ∷ r) = EndsAt dst (y ∷ r)

EndsAt-cons : (dst p x : String) (r : List String) → EndsAt dst (x ∷ r) → EndsAt dst (p ∷ x ∷ r)
EndsAt-cons dst p x r h = h

module _ (links : List (String × List String)) (local : String) where
  parent_found :
      (prev : List (String × String)) (x : String)
      → Tree links local prev
      → has_parent prev x ≡ true
      → (p : String) × ((parent_of prev x ≡ some p) × (has_parent prev p ≡ true))
  unfolding parent_of
  parent_found prev x root h = elim (Bool-cases (str_eq local x)) [
    | inl same ↦ (local, (rw same refl, rw (str_eq_refl local) refl))
    | inr other ↦ elim (has_parent-top [] local local x h) [
      | inl is_local ↦ (local, (rw (is_local, str_eq_refl local) refl, rw (str_eq_refl local) refl))
      | inr never ↦ cc
    ]
  ]
  parent_found prev' x (grow {prev} c p p_met c_new link t) h = elim (Bool-cases (str_eq c x)) [
    | inl same ↦ (p, (rw same refl, more prev c p p p_met))
    | inr other ↦ elim (has_parent-top prev c p x h) [
      | inl is_c ↦ (p, (rw (is_c, str_eq_refl c) refl, more prev c p p p_met))
      | inr seen ↦
          let (q, (e, q_met)) = parent_found prev x t seen in
          (q, (rw other e, more prev c p q q_met))
    ]
  ]
    where
      more :
          (prev : List (String × String)) (c p y : String)
          → has_parent prev y ≡ true
          → has_parent ((c, p) ∷ prev) y ≡ true
      more prev c p y k = elim (Bool-cases (str_eq c y)) [
        | inl same ↦ rw same refl
        | inr other ↦ rw other k
      ]

  -- What was put on top later is not looked at.
  parent_below :
      (prev : List (String × String)) (c p x : String)
      → has_parent prev c ≡ false
      → has_parent prev x ≡ true
      → parent_of ((c, p) ∷ prev) x ≡ parent_of prev x
  unfolding parent_of
  parent_below prev c p x new seen = elim (Bool-cases (str_eq c x)) [
    | inl same ↦ absurd (differ (sym new ∙ (ap (has_parent prev) (str_eq→≡ c x same) ∙ seen)))
    | inr other ↦ rw other refl
  ]
    where
      differ : false ≡ true → ⊥
      differ e = cc

  trace_step :
      (fuel : ℕ) (prev : List (String × String)) (cur p : String) (path : List String)
      → parent_of prev cur ≡ some p
      → trace (suc fuel) prev local cur path
        ≡ (if str_eq p local then some path else trace fuel prev local p (p ∷ path))
  unfolding trace
  trace_step fuel prev cur p path e =
      ap (trace_on local path (λ q. trace fuel prev local q (q ∷ path))) e

  trace_below :
      (fuel : ℕ) (prev : List (String × String)) (c p cur : String) (path : List String)
      → Tree links local prev
      → has_parent prev c ≡ false
      → has_parent prev cur ≡ true
      → trace fuel ((c, p) ∷ prev) local cur path ≡ trace fuel prev local cur path
  unfolding trace
  trace_below zero prev c p cur path t new seen = refl
  trace_below (suc fuel) prev c p cur path t new seen =
      let (q, (e, q_met)) = parent_found prev cur t seen in
      trace_step fuel ((c, p) ∷ prev) cur q path (parent_below prev c p cur new seen ∙ e)
      ∙ (ap (λ (rest : Option (List String)). if str_eq q local then some path else rest)
            (trace_below fuel prev c p q (q ∷ path) t new q_met)
          ∙ sym (trace_step fuel prev cur q path e))

  abbrev Traced : String → ℕ → Option (List String) → Type 0
  Traced dst n o =
      (path : List String) × ((o ≡ some path)
        × ((IsWalk links local path × EndsAt dst path) × (length path + 1 ≡ n)))

  -- The walk from `cur` is extended back to the root, by as many hops as the rank of `cur` says.
  pub trace-Traced :
      (fuel : ℕ) (prev : List (String × String)) (dst cur : String) (tail : List String)
      → Tree links local prev
      → length prev ≤ fuel
      → has_parent prev cur ≡ true
      → str_eq cur local ≡ false
      → IsWalk links cur tail
      → EndsAt dst (cur ∷ tail)
      → Traced dst (rank prev cur + length tail) (trace fuel prev local cur (cur ∷ tail))
  unfolding trace
  trace-Traced fuel prev dst cur tail root h seen not_local walk ends =
      elim (has_parent-top [] local local cur seen) [
        | inl is_local ↦ absurd (
            differ
              (sym not_local ∙ (ap (λ (z : String). str_eq z local) is_local ∙ str_eq_refl local)))
        | inr never ↦ cc
      ]
    where
      differ : false ≡ true → ⊥
      differ e = cc
  trace-Traced zero prev' dst cur tail (grow {prev} c p p_met c_new link t) h seen not_local walk
        ends =
      absurd (omega arith)
  trace-Traced (suc fuel) prev' dst cur tail (grow {prev} c p p_met c_new link t) h seen not_local
        walk ends =
      elim (has_parent-top prev c p cur seen) [
        | inr below ↦
            subst
              (λ (n : ℕ).
                Traced dst (n + length tail)
                  (trace (suc fuel) ((c, p) ∷ prev) local cur (cur ∷ tail)))
              (sym (rank-below prev c p cur c_new below))
              (subst (Traced dst (rank prev cur + length tail))
                (sym (trace_below (suc fuel) prev c p cur (cur ∷ tail) t c_new below))
                (trace-Traced (suc fuel) prev dst cur tail t (omega arith) below not_local walk
                  ends))
        | inl is_c ↦
            let is_parent : parent_of ((c, p) ∷ prev) cur ≡ some p = found c p prev cur is_c in
            let at : rank ((c, p) ∷ prev) cur ≡ suc (rank prev p) =
              ap (rank ((c, p) ∷ prev)) is_c ∙ rank-top prev c p in
            let over : IsLink links p cur =
              subst (λ (z : String). IsLink links p z) (sym is_c) link in
            elim (Bool-cases (str_eq p local)) [
              | inl at_root ↦ (
                cur ∷ tail,
                (
                  trace_step fuel ((c, p) ∷ prev) cur p (cur ∷ tail) is_parent ∙ rw at_root refl,
                  (
                    (
                      (
                        subst (λ (z : String). IsLink links z cur) (str_eq→≡ p local at_root) over,
                        walk,
                      ),
                      ends,
                    ),
                    omega (
                      arith,
                      at,
                      ap (rank prev) (str_eq→≡ p local at_root),
                      rank-root links local prev t,
                    ),
                  ),
                ),
              )
              | inr further ↦
                  let (path, (e, (rest, len))) =
                    trace-Traced fuel prev dst p (cur ∷ tail) t (omega arith) p_met further
                      (over, walk) ends in
                  (
                    path,
                    (
                      trace_step fuel ((c, p) ∷ prev) cur p (cur ∷ tail) is_parent
                          ∙ rw further
                              (trace_below fuel prev c p p (p ∷ cur ∷ tail) t c_new p_met ∙ e),
                      (rest, omega (arith, at, len)),
                    ),
                  )
            ]
      ]
    where
      found :
          (c p : String) (prev : List (String × String)) (x : String)
          → x ≡ c
          → parent_of ((c, p) ∷ prev) x ≡ some p
      found c p prev x e = unfold parent_of in rw (e, str_eq_refl c) refl
