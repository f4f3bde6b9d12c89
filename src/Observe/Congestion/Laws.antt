-- ===== src/Observe/Congestion/Laws.antt =====
-- The bounds of the rate, over any sequence of reports.
use ipv_8_public_base_statio.Common.{
  ℕ, ◌*◌, ◌/◌, ◌≤◌, ◌<◌, ◌≡◌, refl, sym, ◌∙◌, subst, Bool, true, false, Option, List, [], ◌∷◌,
  arith, inl, inr, ltb, Bool-cases, leb, ◌||◌, ap,
}
use ipv_8_public_base_statio.Observe.Window.{sat64}
use ipv_8_public_base_statio.Observe.Policy.{loss_permille}
use ipv_8_public_base_statio.Observe.Congestion.{
  CongestionController, fold_rtt, judge_rtt, new_config, new_controller, next_rate, update_cc,
}

abbrev pub Samples : Type 0
Samples = List ((ℕ × ℕ) × Option ℕ × ℕ)

-- The controller after the samples, each with its round-trip time and its time, the oldest first.
abbrev pub run_cc : CongestionController → Samples → CongestionController
run_cc c [] = c
run_cc c ((delta, rtt, now) ∷ rest) = run_cc (update_cc c delta rtt now) rest

-- An update keeps the configuration, and the rate is the old one or a next one.
update_cc-rate :
    (c : CongestionController) (delta : ℕ × ℕ) (rtt : Option ℕ) (now : ℕ) (P : ℕ → Type 0)
    → P c.rate_bps
    → ((congested : Bool) → P (next_rate c.cfg c.rate_bps congested))
    → ((update_cc c delta rtt now).cfg ≡ c.cfg) × P (update_cc c delta rtt now).rate_bps
unfolding update_cc
update_cc-rate c delta rtt now P same next =
    elim (Bool-cases (ltb (sat64 c.acc.0 delta.0) c.cfg.min_expected)) [
      | inl few ↦ rw few (refl, same)
      | inr many ↦ rw many (refl, next _)
    ]

next_rate-bounds :
    (ceil rate : ℕ) (congested : Bool)
    → 256000 ≤ ceil
    → ceil * 8 < 18446744073709551616
    → (new_config ceil).floor_bps ≤ rate
    → rate ≤ ceil
    → ((new_config ceil).floor_bps ≤ next_rate (new_config ceil) rate congested)
      × (next_rate (new_config ceil) rate congested ≤ ceil)
unfolding new_config next_rate
next_rate-bounds ceil rate true big small lo hi = (omega arith, omega arith)
next_rate-bounds ceil rate false big small lo hi = (omega arith, omega arith)

-- The two bounds of a rate.
abbrev pub InRange : ℕ → ℕ → Type 0
InRange ceil rate = ((new_config ceil).floor_bps ≤ rate) × (rate ≤ ceil)

run_cc-bounds :
    (ceil : ℕ) (c : CongestionController) (samples : Samples)
    → 256000 ≤ ceil
    → ceil * 8 < 18446744073709551616
    → c.cfg ≡ new_config ceil
    → InRange ceil c.rate_bps
    → InRange ceil (run_cc c samples).rate_bps
run_cc-bounds ceil c [] big small e h = h
run_cc-bounds ceil c ((delta, rtt, now) ∷ rest) big small e h =
    let (lo, hi) = h in
    let (cfg_eq, range) = update_cc-rate c delta rtt now (InRange ceil) h (λ b.
      subst (λ k. InRange ceil (next_rate k c.rate_bps b)) (sym e)
        (next_rate-bounds ceil c.rate_bps b big small lo hi)) in
    run_cc-bounds ceil (update_cc c delta rtt now) rest big small (cfg_eq ∙ e) range

quarter-InRange : (ceil : ℕ) → 256000 ≤ ceil → InRange ceil (ceil / 4)
unfolding new_config
quarter-InRange ceil big = (omega arith, omega arith)

-- With a ceiling from 256000 bit/s to below 2 ^ 61, the rate of a new controller and after any
-- sequence of samples lies between the floor and the ceiling.
pub run_cc-InRange :
    (ceil : ℕ) (samples : Samples)
    → 256000 ≤ ceil
    → ceil * 8 < 18446744073709551616
    → InRange ceil (run_cc (new_controller (new_config ceil)) samples).rate_bps
unfolding new_controller new_config
run_cc-InRange ceil samples big small =
    run_cc-bounds ceil (new_controller (new_config ceil)) samples big small refl
      (quarter-InRange ceil big)

-- The controller of a ceiling after the samples.
abbrev pub controller_after : ℕ → Samples → CongestionController
controller_after ceil samples = run_cc (new_controller (new_config ceil)) samples

next_rate-low :
    (ceil rate : ℕ) (congested : Bool)
    → ceil < 64000
    → rate ≤ 64000
    → next_rate (new_config ceil) rate congested ≤ 64000
unfolding new_config next_rate
next_rate-low ceil rate true small le = omega arith
next_rate-low ceil rate false small le = omega arith

run_cc-low :
    (ceil : ℕ) (c : CongestionController) (samples : Samples)
    → ceil < 64000
    → c.cfg ≡ new_config ceil
    → c.rate_bps ≤ 64000
    → ((run_cc c samples).cfg ≡ new_config ceil) × ((run_cc c samples).rate_bps ≤ 64000)
run_cc-low ceil c [] small e h = (e, h)
run_cc-low ceil c ((delta, rtt, now) ∷ rest) small e h =
    let (cfg_eq, low) =
      update_cc-rate c delta rtt now (λ n. n ≤ 64000) h
        (λ b.
          subst (λ k. next_rate k c.rate_bps b ≤ 64000) (sym e)
            (next_rate-low ceil c.rate_bps b small h)) in
    run_cc-low ceil (update_cc c delta rtt now) rest small (cfg_eq ∙ e) low

after-low :
    (ceil : ℕ) (samples : Samples)
    → ceil < 64000
    → ((controller_after ceil samples).cfg ≡ new_config ceil)
      × ((controller_after ceil samples).rate_bps ≤ 64000)
unfolding new_controller new_config
after-low ceil samples small =
    run_cc-low ceil (new_controller (new_config ceil)) samples small refl (omega arith)

or-true : (a : Bool) → (a || true) ≡ true
or-true true = refl
or-true false = refl

update_cc-congested :
    (c : CongestionController) (delta : ℕ × ℕ) (rtt : Option ℕ) (now : ℕ)
    → c.cfg.min_expected ≤ sat64 c.acc.0 delta.0
    → c.cfg.loss_on_permille ≤ loss_permille (sat64 c.acc.0 delta.0) (sat64 c.acc.1 delta.1)
    → (update_cc c delta rtt now).rate_bps ≡ next_rate c.cfg c.rate_bps true
unfolding update_cc
update_cc-congested c delta rtt now enough lossy =
    rw
      (
        not_few (sat64 c.acc.0 delta.0) c.cfg.min_expected enough,
        le→leb c.cfg.loss_on_permille _ lossy,
        or-true (judge_rtt c.cfg c.min_rtt (fold_rtt c.acc_rtt rtt) now).0,
      )
      refl
  where
    not_few : (n m : ℕ) → m ≤ n → ltb n m ≡ false
    not_few n m h = ground arith

    le→leb : (n m : ℕ) → n ≤ m → leb n m ≡ true
    le→leb n m h = ground arith

-- With a ceiling below 64000 bit/s the rate does not keep to it: after any samples, the sample that
-- completes an interval of 32 expected frames or more with a loss of at least 30 permille sets the
-- rate to 64000 bit/s, above the ceiling, whatever the round-trip times.
pub update_cc_above_ceil :
    (ceil : ℕ) (samples : Samples) (d_expected d_seen : ℕ) (rtt : Option ℕ) (now : ℕ)
    → ceil < 64000
    → 32 ≤ sat64 (controller_after ceil samples).acc.0 d_expected
    → 30
      ≤ loss_permille
          (sat64 (controller_after ceil samples).acc.0 d_expected)
          (sat64 (controller_after ceil samples).acc.1 d_seen)
    → ((update_cc (controller_after ceil samples) (d_expected, d_seen) rtt now).rate_bps ≡ 64000)
      × (ceil < (update_cc (controller_after ceil samples) (d_expected, d_seen) rtt now).rate_bps)
update_cc_above_ceil ceil samples d_expected d_seen rtt now small enough lossy =
    let c : CongestionController = controller_after ceil samples in
    let (cfg_eq, low) = after-low ceil samples small in
    let rate : (update_cc c (d_expected, d_seen) rtt now).rate_bps ≡ 64000 =
      update_cc-congested c (d_expected, d_seen) rtt now
        (subst (λ k. k.min_expected ≤ sat64 c.acc.0 d_expected) (sym cfg_eq) (least ceil enough))
        (subst
          (λ k.
            k.loss_on_permille ≤ loss_permille (sat64 c.acc.0 d_expected) (sat64 c.acc.1 d_seen))
          (sym cfg_eq) (lost ceil lossy))
      ∙ (ap (λ k. next_rate k c.rate_bps true) cfg_eq ∙ floor_rate ceil c.rate_bps small low) in
    (rate, omega (arith, rate, small))
  where
    least : (ceil : ℕ) {n : ℕ} → 32 ≤ n → (new_config ceil).min_expected ≤ n
    least ceil h = unfold new_config in h

    lost : (ceil : ℕ) {n : ℕ} → 30 ≤ n → (new_config ceil).loss_on_permille ≤ n
    lost ceil h = unfold new_config in h

    floor_rate :
        (ceil rate : ℕ)
        → ceil < 64000
        → rate ≤ 64000
        → next_rate (new_config ceil) rate true ≡ 64000
    floor_rate ceil rate small le = unfold next_rate new_config in omega arith
