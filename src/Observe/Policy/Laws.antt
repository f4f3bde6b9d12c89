-- ===== src/Observe/Policy/Laws.antt =====
-- The hysteresis of the breaker over whole histories, the newest report first.
use ipv_8_public_base_statio.Common.{
  ℕ, suc, ◌+◌, ◌≤◌, ◌<◌, ◌≡◌, ◌≢◌, refl, ap, sym, ◌∙◌, Bool, true, false, ◌&&◌, List, [], ◌∷◌, inl,
  inr, ◌⊎◌, ltb, leb, arith, if◌then◌else◌, length, subst,
}
use ipv_8_public_base_statio.Observe.Window.{PathCounters}
use ipv_8_public_base_statio.Observe.Policy.{
  Breaker, BreakerConfig, new_breaker, classify, on_verdict, update_breaker, AltVerdict, dead, good,
  neutral,
}

-- How many entries at the front of a list pass a test.
abbrev pub leading {ℓ} : {A : Type ℓ} → (A → Bool) → List A → ℕ
leading p [] = 0
leading p (x ∷ xs) = let n = leading p xs in if p x then suc n else 0

abbrev pub Reports : Type 0
Reports = List (PathCounters × PathCounters)

-- The breaker after the reports, of which the head is the last.
abbrev pub breaker_after : BreakerConfig → Reports → Breaker
breaker_after cfg [] = new_breaker cfg
breaker_after cfg ((main, alt) ∷ rs) = update_breaker (breaker_after cfg rs) main alt

-- The main path is alive and the alternative is dead.
abbrev pub is_bad : BreakerConfig → PathCounters × PathCounters → Bool
is_bad cfg (main, alt) =
    leb main.last_recv_age_ms cfg.alive_age_ms && ltb cfg.dead_age_ms alt.last_recv_age_ms

abbrev pub is_good : BreakerConfig → PathCounters × PathCounters → Bool
is_good cfg (main, alt) =
    if is_bad cfg (main, alt) then false else leb alt.last_recv_age_ms cfg.alive_age_ms

-- The run counters do not pass the runs in the history.
abbrev Runs : BreakerConfig → Reports → Breaker → Type 0
Runs cfg rs b =
    (b.is_open ≡ false → b.bad_run ≤ leading (is_bad cfg) rs)
    × (b.is_open ≡ true → b.good_run ≤ leading (is_good cfg) rs)

update-Runs :
    (b : Breaker) (rs : Reports) (main alt : PathCounters)
    → Runs b.cfg rs b
    → Runs b.cfg ((main, alt) ∷ rs) (update_breaker b main alt)
unfolding update_breaker on_verdict classify
update-Runs b rs main alt (hb, hg) = ground arith

cfg-update : (b : Breaker) (main alt : PathCounters) → (update_breaker b main alt).cfg ≡ b.cfg
unfolding update_breaker on_verdict
cfg-update b main alt = by_verdict b (classify b main alt)
  where
    by_verdict : (b : Breaker) (v : AltVerdict) → (on_verdict b v).cfg ≡ b.cfg
    by_verdict b dead = ground arith
    by_verdict b good = ground arith
    by_verdict b neutral = ground arith

cfg-breaker_after : (cfg : BreakerConfig) (rs : Reports) → (breaker_after cfg rs).cfg ≡ cfg
unfolding new_breaker
cfg-breaker_after cfg [] = refl
cfg-breaker_after cfg ((main, alt) ∷ rs) =
    cfg-update (breaker_after cfg rs) main alt ∙ cfg-breaker_after cfg rs

breaker_after-Runs : (cfg : BreakerConfig) (rs : Reports) → Runs cfg rs (breaker_after cfg rs)
unfolding new_breaker
breaker_after-Runs cfg [] = (λ e. omega arith, λ e. cc)
breaker_after-Runs cfg ((main, alt) ∷ rs) =
    let b : Breaker = breaker_after cfg rs in
    let c = cfg-breaker_after cfg rs in
    subst (λ k. Runs k ((main, alt) ∷ rs) (update_breaker b main alt)) c
      (update-Runs b rs main alt (subst (λ k. Runs k rs b) (sym c) (breaker_after-Runs cfg rs)))

-- What a switch of the breaker has behind it.
abbrev pub Switches : BreakerConfig → Breaker → Breaker → Reports → Type 0
Switches cfg b after rs =
    (b.is_open ≡ false → after.is_open ≡ true → cfg.trigger_windows ≤ leading (is_bad cfg) rs)
    × (b.is_open ≡ true → after.is_open ≡ false → cfg.recover_windows ≤ leading (is_good cfg) rs)

update-Switches :
    (b : Breaker) (rs : Reports) (main alt : PathCounters)
    → Runs b.cfg rs b
    → Switches b.cfg b (update_breaker b main alt) ((main, alt) ∷ rs)
unfolding update_breaker on_verdict classify
update-Switches b rs main alt (hb, hg) = ground arith

-- Hysteresis of the breaker, after any history of reports `rs` and one more report: it opens only
-- when at least the last `trigger_windows` reports all have the main path alive and the alternative
-- dead, and it closes only when at least the last `recover_windows` reports all are good.
pub breaker_after-Switches :
    (cfg : BreakerConfig) (rs : Reports) (main alt : PathCounters)
    → Switches cfg (breaker_after cfg rs) (breaker_after cfg ((main, alt) ∷ rs)) ((main, alt) ∷ rs)
breaker_after-Switches cfg rs main alt =
    let b : Breaker = breaker_after cfg rs in
    let c = cfg-breaker_after cfg rs in
    subst (λ k. Switches k b (update_breaker b main alt) ((main, alt) ∷ rs)) c
      (update-Switches b rs main alt (subst (λ k. Runs k rs b) (sym c) (breaker_after-Runs cfg rs)))

update_breaker-bad :
    (b : Breaker) (main alt : PathCounters)
    → is_bad b.cfg (main, alt) ≡ true
    → ((update_breaker b main alt).is_open ≡ true)
      ⊎ ((b.is_open ≡ false)
          × ((update_breaker b main alt).is_open ≡ false)
          × ((update_breaker b main alt).bad_run ≡ b.bad_run + 1)
          × (b.bad_run + 1 < b.cfg.trigger_windows))
unfolding update_breaker on_verdict classify
update_breaker-bad b main alt h = ground arith

-- Reports that all are bad.
abbrev pub AllBad : BreakerConfig → Reports → Type 0
AllBad cfg [] = Unit
AllBad cfg (r ∷ rs) = (is_bad cfg r ≡ true) × AllBad cfg rs

bad_run_opens :
    (cfg : BreakerConfig) (rs : Reports)
    → AllBad cfg rs
    → ((breaker_after cfg rs).is_open ≡ true)
      ⊎ (((breaker_after cfg rs).is_open ≡ false)
          × ((breaker_after cfg rs).bad_run ≡ length rs)
          × ((0 < length rs) → length rs < cfg.trigger_windows))
unfolding new_breaker
bad_run_opens cfg [] h = inr (refl, refl, λ pos. absurd (omega arith))
bad_run_opens cfg ((main, alt) ∷ rs) (bad, h) =
    let b : Breaker = breaker_after cfg rs in
    let c = cfg-breaker_after cfg rs in
    let one =
      update_breaker-bad b main alt (subst (λ k. is_bad k (main, alt) ≡ true) (sym c) bad) in
    let trigger = ap (λ k. k.trigger_windows) c in
    elim one [
      | inl opened ↦ inl opened
      | inr (was, still, run, few) ↦ elim (bad_run_opens cfg rs h) [
        | inl opened ↦ absurd (true-ne-false (sym opened ∙ was))
        | inr (closed, runs, fewer) ↦
            inr (still, omega (arith, run, runs), λ pos. omega (arith, few, runs, trigger))
      ]
    ]
  where
    true-ne-false : true ≢ false
    true-ne-false e = cc

-- The breaker does open: a new one, after `trigger_windows` or more bad reports, at least one, is
-- open.
pub breaker_opens :
    (cfg : BreakerConfig) (rs : Reports)
    → AllBad cfg rs
    → 0 < length rs
    → cfg.trigger_windows ≤ length rs
    → (breaker_after cfg rs).is_open ≡ true
breaker_opens cfg rs h pos enough = elim (bad_run_opens cfg rs h) [
  | inl opened ↦ opened
  | inr (closed, run, few) ↦ absurd (omega (arith, few pos))
]
