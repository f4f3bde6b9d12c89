-- ===== src/Common/Xor.antt =====
-- `^` on numbers of any width: the laws by strong induction on the binary digits.
use Prim.Native.Nat.{
  bit_xor, bit_xor-bitwise, differ, digits, ◌<◌, ◌≤◌, ◌%◌, ◌/◌, ◌*◌, ◌+◌, suc, zero, ℕ,
}
use mathlib.Core.Path.{◌≡◌, refl}
use native.Mathlib.Omega.{arith}

-- The digits of `x ^ y`, at most `k` of them.
abbrev xor_digits : ℕ → ℕ → ℕ → ℕ
xor_digits k x y = digits (λ rest. rest) differ k x y

-- More digits than the first operand has change nothing.
xor_digits_same : (x y k l : ℕ) → x ≤ l → x ≤ k → xor_digits k x y ≡ xor_digits l x y
xor_digits_same (suc x) y (suc k) (suc l) below_l below_k =
    let halves = xor_digits_same (suc x / 2) (y / 2) k l (omega arith) (omega arith) in omega arith
xor_digits_same (suc x) y zero l below_l below_k = absurd (omega arith)
xor_digits_same (suc x) y (suc k) zero below_l below_k = absurd (omega arith)
xor_digits_same zero y (suc k) (suc l) below_l below_k = refl
xor_digits_same zero y (suc k) zero below_l below_k = refl
xor_digits_same zero y zero (suc l) below_l below_k = refl
xor_digits_same zero y zero zero below_l below_k = refl

zero-bit_xor : (b : ℕ) → bit_xor 0 b ≡ b
zero-bit_xor b = bit_xor-bitwise 0 b

bit_xor_step : (x y : ℕ) → bit_xor x y ≡ bit_xor (x / 2) (y / 2) * 2 + differ (x % 2) (y % 2)
bit_xor_step (suc x) y =
    let fewer = xor_digits_same (suc x / 2) (y / 2) x (suc x / 2) (omega arith) (omega arith) in
    let outer = bit_xor-bitwise (suc x) y in
    let inner = bit_xor-bitwise (suc x / 2) (y / 2) in omega arith
bit_xor_step zero y = omega (arith, zero-bit_xor (y / 2), zero-bit_xor y)

differ_small : (x y : ℕ) → x < 2 → y < 2 → differ x y ≡ (x + y) % 2
differ_small zero y p q = omega arith
differ_small (suc zero) zero p q = refl
differ_small (suc zero) (suc zero) p q = refl
differ_small (suc zero) (suc (suc y)) p q = absurd (omega arith)
differ_small (suc (suc x)) y p q = absurd (omega arith)

bit_xor-half : (a b : ℕ) → bit_xor a b / 2 ≡ bit_xor (a / 2) (b / 2)
bit_xor-half a b =
    omega (arith, bit_xor_step a b, differ_small (a % 2) (b % 2) (omega arith) (omega arith))

bit_xor-parity : (a b : ℕ) → bit_xor a b % 2 ≡ (a + b) % 2
bit_xor-parity a b =
    omega (arith, bit_xor_step a b, differ_small (a % 2) (b % 2) (omega arith) (omega arith))

eq_of_halves : (x y : ℕ) → x / 2 ≡ y / 2 → x % 2 ≡ y % 2 → x ≡ y
eq_of_halves x y p q = omega arith

bit_xor-assoc_below :
    (n a b c : ℕ) → a ≤ n → b ≤ n → c ≤ n → bit_xor (bit_xor a b) c ≡ bit_xor a (bit_xor b c)
bit_xor-assoc_below zero a b c p q r =
    let ea : a ≡ 0 = omega arith in
    let eb : b ≡ 0 = omega arith in let ec : c ≡ 0 = omega arith in rw (ea, eb, ec) refl
bit_xor-assoc_below (suc n) a b c p q r =
    eq_of_halves _ _
      (rw (bit_xor-half (bit_xor a b) c, bit_xor-half a b)
        (rw (bit_xor-half a (bit_xor b c), bit_xor-half b c)
          (bit_xor-assoc_below n (a / 2) (b / 2) (c / 2) (omega arith) (omega arith)
            (omega arith))))
      (omega (
        arith,
        bit_xor-parity (bit_xor a b) c,
        bit_xor-parity a b,
        bit_xor-parity a (bit_xor b c),
        bit_xor-parity b c,
      ))

pub bit_xor_assoc : (a b c : ℕ) → bit_xor (bit_xor a b) c ≡ bit_xor a (bit_xor b c)
bit_xor_assoc a b c =
    bit_xor-assoc_below (a + b + c) a b c (omega arith) (omega arith) (omega arith)

bit_xor-comm_below : (n a b : ℕ) → a ≤ n → b ≤ n → bit_xor a b ≡ bit_xor b a
bit_xor-comm_below zero a b p q =
    let ea : a ≡ 0 = omega arith in let eb : b ≡ 0 = omega arith in rw (ea, eb) refl
bit_xor-comm_below (suc n) a b p q =
    eq_of_halves _ _
      (rw (bit_xor-half a b, bit_xor-half b a)
        (bit_xor-comm_below n (a / 2) (b / 2) (omega arith) (omega arith)))
      (omega (arith, bit_xor-parity a b, bit_xor-parity b a))

pub bit_xor_comm : (a b : ℕ) → bit_xor a b ≡ bit_xor b a
bit_xor_comm a b = bit_xor-comm_below (a + b) a b (omega arith) (omega arith)

bit_xor-self_below : (n a : ℕ) → a ≤ n → bit_xor a a ≡ 0
bit_xor-self_below zero a p = let ea : a ≡ 0 = omega arith in rw ea refl
bit_xor-self_below (suc n) a p =
    omega (arith, bit_xor-half a a, bit_xor-parity a a, bit_xor-self_below n (a / 2) (omega arith))

pub bit_xor_self : (a : ℕ) → bit_xor a a ≡ 0
bit_xor_self a = bit_xor-self_below a a (omega arith)

pub bit_xor-zero : (a : ℕ) → bit_xor a 0 ≡ a
bit_xor-zero a = omega (arith, bit_xor_comm a 0, zero-bit_xor a)

pub bit_xor-zero_left : (a : ℕ) → bit_xor 0 a ≡ a
bit_xor-zero_left a = zero-bit_xor a

bit_xor-low_nibble :
    (a b : ℕ)
    → bit_xor a b ≡ bit_xor (a / 2 / 2 / 2 / 2) (b / 2 / 2 / 2 / 2) * 16 + bit_xor a b % 16
bit_xor-low_nibble a b = omega (
  arith,
  bit_xor-half a b,
  bit_xor-half (a / 2) (b / 2),
  bit_xor-half (a / 2 / 2) (b / 2 / 2),
  bit_xor-half (a / 2 / 2 / 2) (b / 2 / 2 / 2),
)

-- The exclusive or of two bytes is a byte.
pub bit_xor-lt_256 : (a b : ℕ) → a < 256 → b < 256 → bit_xor a b < 256
bit_xor-lt_256 a b p q =
    omega
      (arith, bit_xor-low_nibble a b, bit_xor-low_nibble (a / 16) (b / 16), below_sixteen, top_zero)
  where
    below_sixteen : bit_xor (a / 2 / 2 / 2 / 2) (b / 2 / 2 / 2 / 2) ≡ bit_xor (a / 16) (b / 16)
    below_sixteen =
        let ea : a / 2 / 2 / 2 / 2 ≡ a / 16 = omega arith in
        let eb : b / 2 / 2 / 2 / 2 ≡ b / 16 = omega arith in rw (ea, eb) refl

    top_zero : bit_xor (a / 16 / 2 / 2 / 2 / 2) (b / 16 / 2 / 2 / 2 / 2) ≡ 0
    top_zero =
        let ea : a / 16 / 2 / 2 / 2 / 2 ≡ 0 = omega arith in
        let eb : b / 16 / 2 / 2 / 2 / 2 ≡ 0 = omega arith in rw (ea, eb) refl
