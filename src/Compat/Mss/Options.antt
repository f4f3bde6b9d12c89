-- ===== src/Compat/Mss/Options.antt =====
-- The search of the MSS option.
use ipv_8_public_base_statio.Common.{
  ℕ, zero, suc, ◌+◌, ◌-◌, ◌≤◌, ◌<◌, ◌≡◌, refl, ap, List, get_or, arith, inl, inr, ◌⊎◌, Option, some,
}
use ipv_8_public_base_statio.Compat.Mss.{
  MssStep, after_round, ended, find_mss, found, mss_step, next,
}

mss_step-ended : (p : List ℕ) (end pos : ℕ) → end ≤ pos → mss_step p end pos ≡ ended
unfolding mss_step
mss_step-ended p end pos h = ground arith

mss_step-found : (p : List ℕ) (end pos : ℕ) → mss_step p end pos ≡ found → pos + 4 ≤ end
unfolding mss_step
mss_step-found p end pos h = ground arith

mss_step-next :
    (p : List ℕ) (end pos to : ℕ) → mss_step p end pos ≡ next to → (pos + 1 ≤ to) × (pos < end)
unfolding mss_step
mss_step-next p end pos to h = ground arith

mss_step-same :
    (p q : List ℕ) (end pos : ℕ)
    → get_or q pos 0 ≡ get_or p pos 0
    → get_or q (pos + 1) 0 ≡ get_or p (pos + 1) 0
    → mss_step q end pos ≡ mss_step p end pos
unfolding mss_step
mss_step-same p q end pos e f = rw (e, f) refl

after_round-cong :
    (s : MssStep) (pos : ℕ) (go go' : ℕ → Option ℕ)
    → ((to : ℕ) → s ≡ next to → go to ≡ go' to)
    → after_round s pos go ≡ after_round s pos go'
after_round-cong ended pos go go' h = refl
after_round-cong found pos go go' h = refl
after_round-cong (next to) pos go go' h = h to refl

-- More fuel than there are bytes of options changes nothing: the loop has ended before.
pub find_mss-suc :
    (fuel : ℕ) (p : List ℕ) (end pos : ℕ)
    → end - pos ≤ fuel
    → find_mss (suc fuel) p end pos ≡ find_mss fuel p end pos
unfolding find_mss
find_mss-suc zero p end pos h = rw (mss_step-ended p end pos (omega arith)) refl
find_mss-suc (suc fuel) p end pos h =
    after_round-cong (mss_step p end pos) pos (find_mss (suc fuel) p end) (find_mss fuel p end)
      (λ to e. find_mss-suc fuel p end to (omega (arith, mss_step-next p end pos to e)))

after_round-cases :
    (s : MssStep) (pos r : ℕ) (go : ℕ → Option ℕ)
    → after_round s pos go ≡ some r
    → ((s ≡ found) × (pos ≡ r)) ⊎ ((to : ℕ) × ((s ≡ next to) × (go to ≡ some r)))
after_round-cases ended pos r go h = cc
after_round-cases found pos r go h = inl (refl, ground arith)
after_round-cases (next to) pos r go h = inr (to, (refl, h))

-- The option that is found lies within the options.
pub find_mss-within :
    (fuel : ℕ) (p : List ℕ) (end pos r : ℕ)
    → find_mss fuel p end pos ≡ some r
    → (pos ≤ r) × (r + 4 ≤ end)
unfolding find_mss
find_mss-within zero p end pos r h = cc
find_mss-within (suc fuel) p end pos r h =
    elim (after_round-cases (mss_step p end pos) pos r (find_mss fuel p end) h) [
      | inl (here, e) ↦ (omega (arith, e), omega (arith, e, mss_step-found p end pos here))
      | inr (to, (goes, later)) ↦
          let (behind, inside) = find_mss-within fuel p end to r later in
          (omega (arith, behind, mss_step-next p end pos to goes), inside)
    ]

-- A packet that agrees up to the value of the option has the option at the same place.
pub find_mss-agrees :
    (fuel : ℕ) (p q : List ℕ) (end pos r : ℕ)
    → find_mss fuel p end pos ≡ some r
    → ((i : ℕ) → pos ≤ i → i < r + 2 → get_or q i 0 ≡ get_or p i 0)
    → find_mss fuel q end pos ≡ some r
unfolding find_mss
find_mss-agrees zero p q end pos r h same = cc
find_mss-agrees (suc fuel) p q end pos r h same =
    let within : (pos ≤ r) × (r + 4 ≤ end) = find_mss-within (suc fuel) p end pos r h in
    rw
      (mss_step-same p q end pos (same pos (omega arith) (omega (arith, within)))
        (same (pos + 1) (omega arith) (omega (arith, within))))
      (elim (after_round-cases (mss_step p end pos) pos r (find_mss fuel p end) h) [
        | inl (here, e) ↦ rw here (ap some e)
        | inr (to, (goes, later)) ↦ rw goes (
            find_mss-agrees fuel p q end to r later
              (λ i k. same i (omega (arith, k, mss_step-next p end pos to goes))))
      ])
