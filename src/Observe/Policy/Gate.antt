-- ===== src/Observe/Policy/Gate.antt =====
-- The hysteresis of the gate over whole histories, the newest interval first.
use ipv_8_public_base_statio.Common.{
  ℕ, ◌≤◌, ◌≡◌, ◌≢◌, refl, sym, ◌∙◌, subst, Bool, true, false, not, List, [], ◌∷◌, ◌⊎◌, inl, inr,
  ltb, leb, arith, retain, Bool-cases,
}
use ipv_8_public_base_statio.Common.Bytes.{u32}
use ipv_8_public_base_statio.Observe.Policy.{
  FecGate, GateConfig, new_gate, update_gate, on_loss, loss_permille,
}
use ipv_8_public_base_statio.Observe.Policy.Laws.{leading}

-- The gate after the intervals (expected, seen), of which the head is the last.
abbrev pub gate_after : GateConfig → List (ℕ × ℕ) → FecGate
gate_after cfg [] = new_gate cfg
gate_after cfg ((expected, seen) ∷ ds) = update_gate (gate_after cfg ds) expected seen

-- The intervals with enough frames, and what their loss says.
abbrev pub is_judged : GateConfig → ℕ × ℕ → Bool
is_judged cfg (expected, seen) = not (ltb expected cfg.min_expected)

abbrev pub is_high : GateConfig → ℕ × ℕ → Bool
is_high cfg (expected, seen) = leb cfg.on_loss_permille (u32 (loss_permille expected seen))

abbrev pub is_low : GateConfig → ℕ × ℕ → Bool
is_low cfg (expected, seen) = leb (u32 (loss_permille expected seen)) cfg.off_loss_permille

abbrev pub judged : GateConfig → List (ℕ × ℕ) → List (ℕ × ℕ)
judged cfg ds = retain (is_judged cfg) ds

abbrev GateRuns : GateConfig → List (ℕ × ℕ) → FecGate → Type 0
GateRuns cfg ds g =
    (g.is_on ≡ false → g.high_run ≤ leading (is_high cfg) ds)
    × (g.is_on ≡ true → g.low_run ≤ leading (is_low cfg) ds)

-- What a switch of the gate has behind it.
abbrev pub GateSwitches : GateConfig → FecGate → FecGate → List (ℕ × ℕ) → Type 0
GateSwitches cfg g after ds =
    (g.is_on ≡ false → after.is_on ≡ true → cfg.on_windows ≤ leading (is_high cfg) ds)
    × (g.is_on ≡ true → after.is_on ≡ false → cfg.off_windows ≤ leading (is_low cfg) ds)

on_loss-GateRuns :
    (g : FecGate) (ds : List (ℕ × ℕ)) (expected seen : ℕ)
    → GateRuns g.cfg ds g
    → GateRuns g.cfg ((expected, seen) ∷ ds) (on_loss g (u32 (loss_permille expected seen)))
unfolding on_loss
on_loss-GateRuns g ds expected seen (hh, hl) = ground arith

on_loss-GateSwitches :
    (g : FecGate) (ds : List (ℕ × ℕ)) (expected seen : ℕ)
    → GateRuns g.cfg ds g
    → GateSwitches g.cfg g (on_loss g (u32 (loss_permille expected seen))) ((expected, seen) ∷ ds)
unfolding on_loss
on_loss-GateSwitches g ds expected seen (hh, hl) = ground arith

cfg-on_loss : (g : FecGate) (permille : ℕ) → (on_loss g permille).cfg ≡ g.cfg
unfolding on_loss
cfg-on_loss g permille = ground arith

cfg-update_gate : (g : FecGate) (expected seen : ℕ) → (update_gate g expected seen).cfg ≡ g.cfg
unfolding update_gate
cfg-update_gate g expected seen = ground (arith, cfg-on_loss g (u32 (loss_permille expected seen)))

cfg-gate_after : (cfg : GateConfig) (ds : List (ℕ × ℕ)) → (gate_after cfg ds).cfg ≡ cfg
unfolding new_gate
cfg-gate_after cfg [] = refl
cfg-gate_after cfg ((expected, seen) ∷ ds) =
    cfg-update_gate (gate_after cfg ds) expected seen ∙ cfg-gate_after cfg ds

-- An interval either has too few frames and changes nothing, or is judged.
update_gate-cases :
    (g : FecGate) (ds : List (ℕ × ℕ)) (expected seen : ℕ)
    → ((update_gate g expected seen ≡ g) × (judged g.cfg ((expected, seen) ∷ ds) ≡ judged g.cfg ds))
      ⊎ ((update_gate g expected seen ≡ on_loss g (u32 (loss_permille expected seen)))
          × (judged g.cfg ((expected, seen) ∷ ds) ≡ (expected, seen) ∷ judged g.cfg ds))
unfolding update_gate
update_gate-cases g ds expected seen = elim (Bool-cases (ltb expected g.cfg.min_expected)) [
  | inl few ↦ inl (rw few refl, rw few refl)
  | inr enough ↦ inr (rw enough refl, rw enough refl)
]

update_gate-GateRuns :
    (g : FecGate) (ds : List (ℕ × ℕ)) (expected seen : ℕ)
    → GateRuns g.cfg (judged g.cfg ds) g
    → GateRuns g.cfg (judged g.cfg ((expected, seen) ∷ ds)) (update_gate g expected seen)
update_gate-GateRuns g ds expected seen h = elim (update_gate-cases g ds expected seen) [
  | inl (same, skip) ↦
      subst (λ x. GateRuns g.cfg x (update_gate g expected seen)) (sym skip)
        (subst (GateRuns g.cfg (judged g.cfg ds)) (sym same) h)
  | inr (next, more) ↦
      subst (λ x. GateRuns g.cfg x (update_gate g expected seen)) (sym more)
        (subst (GateRuns g.cfg ((expected, seen) ∷ judged g.cfg ds)) (sym next)
          (on_loss-GateRuns g (judged g.cfg ds) expected seen h))
]

gate_after-GateRuns :
    (cfg : GateConfig) (ds : List (ℕ × ℕ)) → GateRuns cfg (judged cfg ds) (gate_after cfg ds)
unfolding new_gate
gate_after-GateRuns cfg [] = (λ e. omega arith, λ e. cc)
gate_after-GateRuns cfg ((expected, seen) ∷ ds) =
    let g : FecGate = gate_after cfg ds in
    let c = cfg-gate_after cfg ds in
    subst (λ k. GateRuns k (judged k ((expected, seen) ∷ ds)) (update_gate g expected seen)) c
      (update_gate-GateRuns g ds expected seen
        (subst (λ k. GateRuns k (judged k ds) g) (sym c) (gate_after-GateRuns cfg ds)))

update_gate_after-GateSwitches :
    (g : FecGate) (ds : List (ℕ × ℕ)) (expected seen : ℕ)
    → GateRuns g.cfg (judged g.cfg ds) g
    → GateSwitches g.cfg g (update_gate g expected seen) (judged g.cfg ((expected, seen) ∷ ds))
update_gate_after-GateSwitches g ds expected seen h = elim (update_gate-cases g ds expected seen) [
  | inl (same, skip) ↦
      subst (λ a. GateSwitches g.cfg g a (judged g.cfg ((expected, seen) ∷ ds))) (sym same)
        (
          λ off on. absurd (true-ne-false (sym on ∙ off)),
          λ on off. absurd (true-ne-false (sym on ∙ off)),
        )
  | inr (next, more) ↦
      subst (λ x. GateSwitches g.cfg g (update_gate g expected seen) x) (sym more)
        (subst (λ a. GateSwitches g.cfg g a ((expected, seen) ∷ judged g.cfg ds)) (sym next)
          (on_loss-GateSwitches g (judged g.cfg ds) expected seen h))
]
  where
    true-ne-false : true ≢ false
    true-ne-false e = cc

-- Hysteresis of the gate, after any history of intervals and one more, where an interval with fewer
-- than `min_expected` frames does not count: it switches on only when at least the last
-- `on_windows` judged intervals have a loss of at least `on_loss_permille`, and off only when at
-- least the last `off_windows` have one of at most `off_loss_permille`.
pub gate_after-GateSwitches :
    (cfg : GateConfig) (ds : List (ℕ × ℕ)) (expected seen : ℕ)
    → GateSwitches cfg
        (gate_after cfg ds)
        (gate_after cfg ((expected, seen) ∷ ds))
        (judged cfg ((expected, seen) ∷ ds))
gate_after-GateSwitches cfg ds expected seen =
    let g : FecGate = gate_after cfg ds in
    let c = cfg-gate_after cfg ds in
    subst (λ k. GateSwitches k g (update_gate g expected seen) (judged k ((expected, seen) ∷ ds))) c
      (update_gate_after-GateSwitches g ds expected seen
        (subst (λ k. GateRuns k (judged k ds) g) (sym c) (gate_after-GateRuns cfg ds)))
