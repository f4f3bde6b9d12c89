-- ===== src/Observe/Policy.antt =====
-- The breaker of the alternative path and the gate of the forward error correction
-- (src/core/ipv8-observe/src/policy.rs). The run counters are below their thresholds when they are
-- incremented, and a threshold is a u32. The gate divides by `expected`: with `min_expected` 0 the
-- source panics on an interval without frames, where the quotient of the model is a number.
pub mod Laws
pub mod Gate
use ipv_8_public_base_statio.Common.{
  ℕ, ◌+◌, ◌-◌, ◌*◌, ◌/◌, Bool, true, false, not, ◌&&◌, min, ltb, leb, if◌then◌else◌,
}
use ipv_8_public_base_statio.Common.Bytes.{u32}
use ipv_8_public_base_statio.Observe.Window.{PathCounters, u64_max}

pub record BreakerConfig : Type 0 where
  pub dead_age_ms : ℕ
  pub alive_age_ms : ℕ
  pub trigger_windows : ℕ
  pub recover_windows : ℕ

unfoldable pub default_breaker : BreakerConfig
default_breaker = record {
  dead_age_ms = 1000;
  alive_age_ms = 600;
  trigger_windows = 3;
  recover_windows = 5;
}

pub data AltVerdict : Type 0 where
  dead : AltVerdict
  good : AltVerdict
  neutral : AltVerdict

pub record Breaker : Type 0 where
  pub cfg : BreakerConfig
  pub is_open : Bool
  pub bad_run : ℕ
  pub good_run : ℕ

unfoldable pub new_breaker : BreakerConfig → Breaker
new_breaker cfg = record { cfg = cfg; is_open = false; bad_run = 0; good_run = 0 }

unfoldable pub classify : Breaker → PathCounters → PathCounters → AltVerdict
classify b main alt =
    let main_alive = leb main.last_recv_age_ms b.cfg.alive_age_ms in
    let alt_dead = ltb b.cfg.dead_age_ms alt.last_recv_age_ms in
    let alt_alive = leb alt.last_recv_age_ms b.cfg.alive_age_ms in
    if main_alive && alt_dead then dead else if alt_alive then good else neutral

unfoldable pub on_verdict : Breaker → AltVerdict → Breaker
on_verdict b dead = if b.is_open then record b { good_run = 0 } else record b {
  good_run = 0;
  bad_run = b.bad_run + 1;
  is_open = leb b.cfg.trigger_windows (b.bad_run + 1);
}
on_verdict b good =
    if b.is_open
    then record b {
      bad_run = 0;
      good_run = b.good_run + 1;
      is_open = not (leb b.cfg.recover_windows (b.good_run + 1));
    }
    else record b { bad_run = 0 }
on_verdict b neutral =
    if b.is_open then record b { good_run = 0 } else record b { good_run = 0; bad_run = 0 }

unfoldable pub update_breaker : Breaker → PathCounters → PathCounters → Breaker
update_breaker b main alt = on_verdict b (classify b main alt)

pub record GateConfig : Type 0 where
  pub on_loss_permille : ℕ
  pub off_loss_permille : ℕ
  pub on_windows : ℕ
  pub off_windows : ℕ
  pub min_expected : ℕ

unfoldable pub default_gate : GateConfig
default_gate = record {
  on_loss_permille = 30;
  off_loss_permille = 5;
  on_windows = 2;
  off_windows = 5;
  min_expected = 32;
}

pub record FecGate : Type 0 where
  pub cfg : GateConfig
  pub is_on : Bool
  pub high_run : ℕ
  pub low_run : ℕ

unfoldable pub new_gate : GateConfig → FecGate
new_gate cfg = record { cfg = cfg; is_on = false; high_run = 0; low_run = 0 }

-- `expected.saturating_sub(seen).min(expected)`, then the share of it, with a saturating product.
unfoldable pub loss_permille : ℕ → ℕ → ℕ
loss_permille expected seen =
    let lost = min (expected - seen) expected in min (lost * 1000) u64_max / expected

-- The gate on an interval with enough frames and this loss.
unfoldable pub on_loss : FecGate → ℕ → FecGate
on_loss g permille =
    if not g.is_on
    then if leb g.cfg.on_loss_permille permille
      then record g {
        high_run = g.high_run + 1;
        low_run = 0;
        is_on = leb g.cfg.on_windows (g.high_run + 1);
      }
      else record g { high_run = 0 }
    else if leb permille g.cfg.off_loss_permille
    then record g {
      low_run = g.low_run + 1;
      high_run = 0;
      is_on = not (leb g.cfg.off_windows (g.low_run + 1));
    }
    else record g { low_run = 0 }

unfoldable pub update_gate : FecGate → ℕ → ℕ → FecGate
update_gate g expected seen =
    if ltb expected g.cfg.min_expected then g else on_loss g (u32 (loss_permille expected seen))
