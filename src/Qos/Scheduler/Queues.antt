-- ===== src/Qos/Scheduler/Queues.antt =====
-- The lengths of a list of queues, as the scheduler counts them
-- (src/core/ipv8-qos/src/scheduler.rs).
use ipv_8_public_base_statio.Common.{
  ℕ, zero, suc, ◌≡◌, ◌⊎◌, inl, inr, refl, ap, List, [], ◌∷◌, length, get_or, set,
}

module _ {T : Type 0} where
  unfoldable pub lengths : List (List T) → List ℕ
  lengths [] = []
  lengths (q ∷ qs) = length q ∷ lengths qs

  pub lengths-set :
      (qs : List (List T)) (c : ℕ) (q : List T)
      → lengths (set qs c q) ≡ set (lengths qs) c (length q)
  unfolding lengths
  lengths-set [] c q = refl
  lengths-set (p ∷ qs) zero q = refl
  lengths-set (p ∷ qs) (suc c) q = ap (◌∷◌ (length p)) (lengths-set qs c q)

  pub get_or-lengths :
      (qs : List (List T)) (c : ℕ) → get_or (lengths qs) c 0 ≡ length (get_or qs c [])
  unfolding lengths
  get_or-lengths [] c = refl
  get_or-lengths (p ∷ qs) zero = refl
  get_or-lengths (p ∷ qs) (suc c) = get_or-lengths qs c

  pub List-cases : (xs : List T) → (xs ≡ []) ⊎ ((x : T) × (rest : List T) × (xs ≡ x ∷ rest))
  List-cases [] = inl refl
  List-cases (x ∷ rest) = inr (x, rest, refl)
