-- ===== src/Common/Words.antt =====
-- Single bits of a word, as arithmetic: `x & (1 << k) != 0`, `x |= 1 << k`, `x &= !(1 << k)`.
use Prim.Native.Nat.{ℕ, ◌+◌, ◌-◌, ◌/◌, ◌%◌, ◌<◌}
use mathlib.Core.Path.{◌≡◌}
use native.Mathlib.Nat.{add-div_right}
use native.Mathlib.Omega.{arith}
use mathlib.Core.Bool.{Bool, true}
use ipv_8_public_base_statio.Common.Tests.{◌==◌, if◌then◌else◌}

-- `p` is the mask, a power of two that is written as a numeral at each use.
abbrev pub has_bit : ℕ → ℕ → Bool
has_bit p x = x / p % 2 == 1

abbrev pub set_bit : ℕ → ℕ → ℕ
set_bit p x = if has_bit p x then x else x + p

abbrev pub clear_bit : ℕ → ℕ → ℕ
clear_bit p x = if has_bit p x then x - p else x

-- A bit that was just set is set.
pub has_bit-set_bit : (p x : ℕ) → 0 < p → has_bit p (set_bit p x) ≡ true
has_bit-set_bit p x h = ground (arith, add-div_right x h)
