-- ===== src/Observe/Window.antt =====
-- Counter windows per key, and the state of one path (src/core/ipv8-observe/src/window.rs). The
-- mask is a 128-bit number; `mask << delta` is a product with a power of two, below 2 ^ 128.
pub mod Laws
use ipv_8_public_base_statio.Common.{
  ℕ, zero, suc, ◌+◌, ◌-◌, ◌*◌, ◌%◌, ◌^◌, min, Bool, true, false, Option, none, some, List, [], ◌∷◌,
  ◌++◌, drop, length, ltb, leb, ◌==◌, if◌then◌else◌,
}
use ipv_8_public_base_statio.Common.Words.{has_bit, set_bit}
use ipv_8_public_base_statio.Observe.Frame.{frame_meta}

abbrev pub window_bits : ℕ
window_bits = 128

abbrev pub jump_guard : ℕ
jump_guard = 4096

abbrev pub max_sas : ℕ
max_sas = 8

abbrev pub u32_max : ℕ
u32_max = 4294967295

abbrev pub u64_max : ℕ
u64_max = 18446744073709551615

-- `saturating_add` of u64 and of u32.
abbrev pub sat64 : ℕ → ℕ → ℕ
sat64 a b = min (a + b) u64_max

abbrev pub sat32 : ℕ → ℕ → ℕ
sat32 a b = min (a + b) u32_max

pub record PathCounters : Type 0 where
  pub expected : ℕ
  pub seen : ℕ
  pub dup : ℕ
  pub resets : ℕ
  pub last_recv_age_ms : ℕ

unfoldable pub default_counters : PathCounters
default_counters = record {
  expected = 0;
  seen = 0;
  dup = 0;
  resets = 0;
  last_recv_age_ms = u32_max;
}

pub record CounterWindow : Type 0 where
  pub top : ℕ
  pub mask : ℕ
  pub expected : ℕ
  pub seen : ℕ
  pub dup : ℕ
  pub resets : ℕ

unfoldable pub first : ℕ → CounterWindow
first c = record { top = c; mask = 1; expected = 1; seen = 1; dup = 0; resets = 0 }

unfoldable pub shift_mask : ℕ → ℕ → ℕ
shift_mask mask delta = if leb window_bits delta then 0 else mask * 2 ^ delta % 2 ^ 128

unfoldable pub observe : CounterWindow → ℕ → CounterWindow
unfolding shift_mask
observe w c =
    if ltb w.top c
    then if ltb jump_guard (c - w.top)
      then record w {
        top = c;
        mask = 1;
        expected = sat64 w.expected 1;
        seen = sat64 w.seen 1;
        resets = sat32 w.resets 1;
      }
      else record w {
        mask = set_bit 1 (shift_mask w.mask (c - w.top));
        expected = sat64 w.expected (c - w.top);
        seen = sat64 w.seen 1;
        top = c;
      }
    else if leb window_bits (w.top - c)
    then record w { dup = sat64 w.dup 1 }
    else if has_bit (2 ^ (w.top - c)) w.mask
    then record w { dup = sat64 w.dup 1 }
    else record w { mask = set_bit (2 ^ (w.top - c)) w.mask; seen = sat64 w.seen 1 }

pub record Totals : Type 0 where
  pub expected : ℕ
  pub seen : ℕ
  pub dup : ℕ
  pub resets : ℕ

-- `SaWindows.entries`, the oldest first.
abbrev pub SaWindows : Type 0
SaWindows = List (ℕ × CounterWindow)

-- The window that `position` finds, moved on; `none` when the key has none.
unfoldable pub observe_known : SaWindows → ℕ → ℕ → Option SaWindows
unfolding observe
observe_known [] key counter = none
observe_known ((k, w) ∷ rest) key counter =
    let tail = observe_known rest key counter in
    if k == key then some ((k, observe w counter) ∷ rest) else keep (k, w) tail
  where
    keep : ℕ × CounterWindow → Option SaWindows → Option SaWindows
    keep e none = none
    keep e (some es) = some (e ∷ es)

-- `Vec::remove(0)` when the list is too long.
abbrev trim : SaWindows → SaWindows
trim es = if ltb max_sas (length es) then drop 1 es else es

abbrev push_or : Option SaWindows → SaWindows → ℕ → ℕ → SaWindows
push_or (some es) old key counter = es
push_or none old key counter = trim (old ++ ((key, first counter) ∷ []))

unfoldable pub observe_sa : SaWindows → ℕ → ℕ → SaWindows
unfolding observe_known first
observe_sa es key counter = push_or (observe_known es key counter) es key counter

abbrev add_window : Totals → CounterWindow → Totals
add_window t w = record {
  expected = sat64 t.expected w.expected;
  seen = sat64 t.seen w.seen;
  dup = sat64 t.dup w.dup;
  resets = sat32 t.resets w.resets;
}

unfoldable pub totals_from : Totals → SaWindows → Totals
totals_from t [] = t
totals_from t ((k, w) ∷ rest) = totals_from (add_window t w) rest

unfoldable pub totals : SaWindows → Totals
unfolding totals_from
totals es = totals_from (record { expected = 0; seen = 0; dup = 0; resets = 0 }) es

pub record PathState : Type 0 where
  pub sas : SaWindows
  pub last_recv_ms : Option ℕ
  pub raw_frames : ℕ

unfoldable pub new_path : PathState
new_path = record { sas = []; last_recv_ms = none; raw_frames = 0 }

unfoldable pub observe_meta : PathState → ℕ → Option (ℕ × ℕ) → PathState × Bool
unfolding observe_sa
observe_meta p now_ms none = (p, false)
observe_meta p now_ms (some (key, counter)) = (
  record p {
    sas = observe_sa p.sas key counter;
    last_recv_ms = some now_ms;
    raw_frames = sat64 p.raw_frames 1;
  },
  true,
)

unfoldable pub observe_data : PathState → ℕ → List ℕ → PathState × Bool
unfolding observe_meta frame_meta
observe_data p now_ms frame = observe_meta p now_ms (frame_meta frame)

abbrev age_of : Option ℕ → ℕ → ℕ
age_of none now_ms = u32_max
age_of (some t) now_ms = if leb t now_ms then min (now_ms - t) u32_max else u32_max

unfoldable pub counters : PathState → ℕ → PathCounters
unfolding totals
counters p now_ms =
    let t = totals p.sas in
    record {
      expected = t.expected;
      seen = t.seen;
      dup = t.dup;
      resets = t.resets;
      last_recv_age_ms = age_of p.last_recv_ms now_ms;
    }
