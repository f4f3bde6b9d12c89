-- ===== src/Routing/Static/Rank.antt =====
-- How far from the router the search has found an address.
use ipv_8_public_base_statio.Common.{
  ℕ, suc, ◌≡◌, refl, ap, sym, ◌∙◌, true, false, List, [], ◌∷◌, if◌then◌else◌, String, str_eq,
  str_eq_refl, str_eq→≡, Bool-cases, inl, inr,
}
use ipv_8_public_base_statio.Routing.Static.{has_parent}
use ipv_8_public_base_statio.Routing.Static.Visits.{Tree, grow, root}

-- One more than the rank of the parent; the router has rank 1.
abbrev pub rank : List (String × String) → String → ℕ
rank [] x = 0
rank ((c, p) ∷ prev) x =
    let above = rank prev p in let rest = rank prev x in if str_eq c x then suc above else rest

pub rank-top :
    (prev : List (String × String)) (c p : String) → rank ((c, p) ∷ prev) c ≡ suc (rank prev p)
rank-top prev c p = rw (str_eq_refl c) refl

-- What is put on top later is another address.
pub rank-below :
    (prev : List (String × String)) (c p x : String)
    → has_parent prev c ≡ false
    → has_parent prev x ≡ true
    → rank ((c, p) ∷ prev) x ≡ rank prev x
rank-below prev c p x new seen = elim (Bool-cases (str_eq c x)) [
  | inl same ↦ absurd (differ (sym new ∙ (ap (has_parent prev) (str_eq→≡ c x same) ∙ seen)))
  | inr other ↦ rw other refl
]
  where
    differ : false ≡ true → ⊥
    differ e = cc

pub root_met :
    (links : List (String × List String)) (local : String) (prev : List (String × String))
    → Tree links local prev
    → has_parent prev local ≡ true
root_met links local prev root = rw (str_eq_refl local) refl
root_met links local prev' (grow {prev} c p p_met c_new link t) =
    elim (Bool-cases (str_eq c local)) [
      | inl same ↦ rw same refl
      | inr other ↦ rw other (root_met links local prev t)
    ]

pub rank-root :
    (links : List (String × List String)) (local : String) (prev : List (String × String))
    → Tree links local prev
    → rank prev local ≡ 1
rank-root links local prev root = rw (str_eq_refl local) refl
rank-root links local prev' (grow {prev} c p p_met c_new link t) =
    rank-below prev c p local c_new (root_met links local prev t) ∙ rank-root links local prev t
