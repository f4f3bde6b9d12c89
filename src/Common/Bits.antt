-- ===== src/Common/Bits.antt =====
-- Bits at a variable index: `x & (1 << k) != 0`, `x |= 1 << k` and `x << s`, on words of any width.
use Prim.Native.Nat.{ℕ, zero, suc, ◌+◌, ◌*◌, ◌/◌, ◌%◌, ◌^◌, ◌<◌}
use mathlib.Core.Path.{◌≡◌, refl, ap, sym, ◌∙◌}
use mathlib.Core.Logic.{◌≢◌}
use mathlib.Core.Bool.{Bool, true, false}
use native.Mathlib.Nat.{pow-suc, div-div-eq-div-mul, div-add-mod, one-le-pow, div-one, zero-div}
use native.Mathlib.Omega.{arith}
use ipv_8_public_base_statio.Common.Tests.{◌==◌, if◌then◌else◌}

unfoldable pub test_bit : ℕ → ℕ → Bool
test_bit k x = x / 2 ^ k % 2 == 1

-- `x |= 1 << k`.
unfoldable pub put_bit : ℕ → ℕ → ℕ
unfolding test_bit
put_bit k x = if test_bit k x then x else x + 2 ^ k

test_bit-zero : (x : ℕ) → test_bit 0 x ≡ (x % 2 == 1)
unfolding test_bit
test_bit-zero x = ap (λ (t : ℕ). t % 2 == 1) (div-one x)

pub test_bit-suc : (k x : ℕ) → test_bit (suc k) x ≡ test_bit k (x / 2)
unfolding test_bit
test_bit-suc k x =
    ap (λ (t : ℕ). t % 2 == 1)
      (ap (λ (t : ℕ). x / t) (omega (arith, pow-suc 2 k)) ∙ sym (div-div-eq-div-mul x 2 (2 ^ k)))

pub test_bit-zero_word : (k : ℕ) → test_bit k 0 ≡ false
unfolding test_bit
test_bit-zero_word k = ap (λ (t : ℕ). t % 2 == 1) (zero-div (2 ^ k))

-- The lowest `n` bits are those of the number.
mod-half : (x p : ℕ) → 0 < p → x % (p * 2) / 2 ≡ x / 2 % p
mod-half x p h =
    let swap : 2 * p ≡ p * 2 = omega arith in
    omega (
      arith,
      div-add-mod (x / 2) p,
      div-add-mod x (p * 2),
      ap (λ (t : ℕ). p * t) (div-div-eq-div-mul x 2 p ∙ ap (λ (t : ℕ). x / t) swap),
    )

pub test_bit-mod : (n k x : ℕ) → k < n → test_bit k (x % 2 ^ n) ≡ test_bit k x
test_bit-mod zero k x h = absurd (omega arith)
test_bit-mod (suc n) zero x h =
    test_bit-zero (x % 2 ^ suc n)
    ∙ ap (λ (t : ℕ). t == 1)
        (omega (arith, ap (λ (t : ℕ). x % t) (pow-suc 2 n), div-add-mod x (2 ^ n * 2)))
    ∙ sym (test_bit-zero x)
test_bit-mod (suc n) (suc k) x h =
    test_bit-suc k (x % 2 ^ suc n)
    ∙ ap (test_bit k) (
        ap (λ (t : ℕ). x % t / 2) (pow-suc 2 n) ∙ mod-half x (2 ^ n) (one-le-pow n 2 (omega arith)))
    ∙ test_bit-mod n k (x / 2) (omega arith)
    ∙ sym (test_bit-suc k x)

half_shift : (s x : ℕ) → x * 2 ^ suc s / 2 ≡ x * 2 ^ s
half_shift s x = omega (arith, ap (λ (t : ℕ). x * t) (pow-suc 2 s))

pub test_bit-shift_below : (s k x : ℕ) → k < s → test_bit k (x * 2 ^ s) ≡ false
test_bit-shift_below zero k x h = absurd (omega arith)
test_bit-shift_below (suc s) zero x h =
    test_bit-zero (x * 2 ^ suc s)
    ∙ ap (λ (t : ℕ). t == 1) {y = 0} (omega (arith, ap (λ (t : ℕ). x * t) (pow-suc 2 s)))
test_bit-shift_below (suc s) (suc k) x h =
    test_bit-suc k (x * 2 ^ suc s)
    ∙ ap (test_bit k) (half_shift s x)
    ∙ test_bit-shift_below s k x (omega arith)

pub test_bit-shift : (s k x : ℕ) → test_bit (s + k) (x * 2 ^ s) ≡ test_bit k x
test_bit-shift zero k x =
    let index : 0 + k ≡ k = omega arith in
    let same : x * 2 ^ 0 ≡ x = omega arith in λ i. test_bit (index i) (same i)
test_bit-shift (suc s) k x =
    ap (λ (t : ℕ). test_bit t (x * 2 ^ suc s)) (omega arith)
    ∙ test_bit-suc (s + k) (x * 2 ^ suc s)
    ∙ ap (test_bit (s + k)) (half_shift s x)
    ∙ test_bit-shift s k x

-- `| 1` on an even number sets the lowest bit and keeps the others.
pub test_bit-odd_zero : (x : ℕ) → x % 2 ≡ 0 → test_bit 0 (x + 1) ≡ true
test_bit-odd_zero x h = test_bit-zero (x + 1) ∙ ap (λ (t : ℕ). t == 1) {y = 1} (omega arith)

pub test_bit-odd_suc : (k x : ℕ) → x % 2 ≡ 0 → test_bit (suc k) (x + 1) ≡ test_bit (suc k) x
test_bit-odd_suc k x h =
    test_bit-suc k (x + 1) ∙ ap (test_bit k) (omega arith) ∙ sym (test_bit-suc k x)

even_of : (x : ℕ) → test_bit 0 x ≡ false → x % 2 ≡ 0
even_of x h = let e : (x % 2 == 1) ≡ false = sym (test_bit-zero x) ∙ h in ground arith

half_add : (k x : ℕ) → (x + 2 ^ suc k) / 2 ≡ x / 2 + 2 ^ k
half_add k x = omega (arith, pow-suc 2 k)

-- A bit that was clear is set, and the others stay.
pub test_bit-add_same : (k x : ℕ) → test_bit k x ≡ false → test_bit k (x + 2 ^ k) ≡ true
test_bit-add_same zero x h = test_bit-odd_zero x (even_of x h)
test_bit-add_same (suc k) x h =
    test_bit-suc k (x + 2 ^ suc k)
    ∙ ap (test_bit k) (half_add k x)
    ∙ test_bit-add_same k (x / 2) (sym (test_bit-suc k x) ∙ h)

pub test_bit-add_other :
    (k j x : ℕ) → k ≢ j → test_bit k x ≡ false → test_bit j (x + 2 ^ k) ≡ test_bit j x
test_bit-add_other zero zero x ne h = absurd (ne refl)
test_bit-add_other zero (suc j) x ne h = test_bit-odd_suc j x (even_of x h)
test_bit-add_other (suc k) zero x ne h =
    test_bit-zero (x + 2 ^ suc k)
    ∙ ap (λ (t : ℕ). t == 1) (omega (arith, pow-suc 2 k))
    ∙ sym (test_bit-zero x)
test_bit-add_other (suc k) (suc j) x ne h =
    test_bit-suc j (x + 2 ^ suc k)
    ∙ ap (test_bit j) (half_add k x)
    ∙ test_bit-add_other k j (x / 2) (λ e. ne (ap suc e)) (sym (test_bit-suc k x) ∙ h)
    ∙ sym (test_bit-suc j x)

pub test_bit-put_same : (k x : ℕ) → test_bit k x ≡ false → test_bit k (put_bit k x) ≡ true
unfolding put_bit
test_bit-put_same k x h = rw h (test_bit-add_same k x h)

pub test_bit-put_other :
    (k j x : ℕ) → k ≢ j → test_bit k x ≡ false → test_bit j (put_bit k x) ≡ test_bit j x
unfolding put_bit
test_bit-put_other k j x ne h = rw h (test_bit-add_other k j x ne h)
