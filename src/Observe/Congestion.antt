-- ===== src/Observe/Congestion.antt =====
-- The congestion controller (src/core/ipv8-observe/src/cc.rs). Products and sums of u64 are written
-- with their wrap-around; the comparison of round-trip times is in u128 and does not wrap.
pub mod Laws
use ipv_8_public_base_statio.Common.{
  ℕ, ◌+◌, ◌-◌, ◌*◌, ◌/◌, Bool, true, false, ◌&&◌, ◌||◌, Option, none, some, min, max, ltb, leb,
  if◌then◌else◌,
}
use ipv_8_public_base_statio.Common.Bytes.{u64}
use ipv_8_public_base_statio.Observe.Window.{sat64}
use ipv_8_public_base_statio.Observe.Policy.{loss_permille}

pub record CcConfig : Type 0 where
  pub ceil_bps : ℕ
  pub floor_bps : ℕ
  pub rtt_infl_permille : ℕ
  pub loss_on_permille : ℕ
  pub decrease_num : ℕ
  pub decrease_den : ℕ
  pub increase_div : ℕ
  pub min_expected : ℕ
  pub min_rtt_expiry_ms : ℕ

unfoldable pub new_config : ℕ → CcConfig
new_config ceil_bps = record {
  ceil_bps = ceil_bps;
  floor_bps = max (ceil_bps / 16) 64000;
  rtt_infl_permille = 250;
  loss_on_permille = 30;
  decrease_num = 7;
  decrease_den = 10;
  increase_div = 8;
  min_expected = 32;
  min_rtt_expiry_ms = 10000;
}

pub record CongestionController : Type 0 where
  pub cfg : CcConfig
  pub rate_bps : ℕ
  pub min_rtt : Option (ℕ × ℕ)
  pub acc : ℕ × ℕ
  pub acc_rtt : Option ℕ

unfoldable pub new_controller : CcConfig → CongestionController
new_controller cfg = record {
  cfg = cfg;
  rate_bps = cfg.ceil_bps / 4;
  min_rtt = none;
  acc = (0, 0);
  acc_rtt = none;
}

-- The smaller of the round-trip times of the interval.
abbrev pub fold_rtt : Option ℕ → Option ℕ → Option ℕ
fold_rtt old none = old
fold_rtt none (some r) = some r
fold_rtt (some b) (some r) = some (min b r)

-- The baseline that a round-trip time is compared with; a baseline that is too old, or above the
-- sample, is replaced by the sample.
abbrev pub baseline : CcConfig → Option (ℕ × ℕ) → ℕ → ℕ → ℕ × ℕ
baseline cfg none rtt now_ms = (rtt, now_ms)
baseline cfg (some (base, ts)) rtt now_ms =
    if leb base rtt && leb (now_ms - ts) cfg.min_rtt_expiry_ms then (base, ts) else (rtt, now_ms)

abbrev pub judge_rtt : CcConfig → Option (ℕ × ℕ) → Option ℕ → ℕ → Bool × Option (ℕ × ℕ)
judge_rtt cfg min_rtt none now_ms = (false, min_rtt)
judge_rtt cfg min_rtt (some rtt) now_ms =
    let (base, ts) = baseline cfg min_rtt rtt now_ms in
    (leb (base * (1000 + cfg.rtt_infl_permille)) (rtt * 1000), some (base, ts))

-- The rate after an interval that is judged.
unfoldable pub next_rate : CcConfig → ℕ → Bool → ℕ
next_rate cfg rate congested =
    if congested
    then max (u64 (rate * cfg.decrease_num) / cfg.decrease_den) cfg.floor_bps
    else min (u64 (rate + cfg.ceil_bps / cfg.increase_div)) cfg.ceil_bps

unfoldable pub update_cc : CongestionController → ℕ × ℕ → Option ℕ → ℕ → CongestionController
update_cc c (d_expected, d_seen) rtt_us now_ms =
    let expected = sat64 c.acc.0 d_expected in
    let seen = sat64 c.acc.1 d_seen in
    let rtt = fold_rtt c.acc_rtt rtt_us in
    if ltb expected c.cfg.min_expected
    then record c { acc = (expected, seen); acc_rtt = rtt }
    else let (inflated, min_rtt) = judge_rtt c.cfg c.min_rtt rtt now_ms in
      record c {
        acc = (0, 0);
        acc_rtt = none;
        min_rtt = min_rtt;
        rate_bps =
            next_rate c.cfg c.rate_bps
              (inflated || leb c.cfg.loss_on_permille (loss_permille expected seen));
      }
