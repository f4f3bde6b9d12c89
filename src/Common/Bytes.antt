-- ===== src/Common/Bytes.antt =====
-- Big-endian byte strings (`to_be_bytes`, `from_be_bytes`). A byte slice is a list of numbers.
use Prim.Native.Nat.{ℕ, ◌<◌, ◌^◌, ◌%◌, ◌/◌, ◌*◌, ◌+◌, suc, zero}
use mathlib.Core.Path.{◌≡◌, refl, ap, ◌∙◌}
use mathlib.Core.List.{List, [], ◌∷◌}
use native.Mathlib.Nat.{pow-suc, div-add-mod, div-div-eq-div-mul, mod-eq_of_lt, one-le-pow}
use native.Mathlib.Omega.{arith}
use ipv_8_public_base_statio.Common.Lists.{length, All}

abbrev pub IsByte : ℕ → Type 0
IsByte b = b < 256

abbrev pub AreBytes : List ℕ → Type 0
AreBytes = All IsByte

-- `x as u8`, `x as u16`, `x as u32`, `x as u64`.
abbrev pub u8 : ℕ → ℕ
u8 x = x % 256

abbrev pub u16 : ℕ → ℕ
u16 x = x % 65536

abbrev pub u32 : ℕ → ℕ
u32 x = x % 4294967296

abbrev pub u64 : ℕ → ℕ
u64 x = x % 18446744073709551616

-- The two bytes of a u16.
abbrev pub be16 : ℕ → List ℕ
be16 x = (x / 256 % 256) ∷ (x % 256) ∷ []

abbrev pub of_be16 : ℕ → ℕ → ℕ
of_be16 hi lo = hi * 256 + lo

-- The `n` bytes of a wider number, and the number that a byte string stands for.
unfoldable pub to_be : ℕ → ℕ → List ℕ
to_be zero x = []
to_be (suc n) x = (x / 256 ^ n % 256) ∷ to_be n x

unfoldable pub of_be_from : ℕ → List ℕ → ℕ
of_be_from acc [] = acc
of_be_from acc (b ∷ bs) = of_be_from (acc * 256 + b) bs

unfoldable pub of_be : List ℕ → ℕ
unfolding of_be_from
of_be bs = of_be_from 0 bs

pub length-to_be : (n x : ℕ) → length (to_be n x) ≡ n
unfolding to_be
length-to_be zero x = refl
length-to_be (suc n) x = ap suc (length-to_be n x)

pub AreBytes-to_be : (n x : ℕ) → AreBytes (to_be n x)
unfolding to_be
AreBytes-to_be zero x = tt
AreBytes-to_be (suc n) x = (omega arith, AreBytes-to_be n x)

-- The last digit of the quotient, and the remainder.
split_digit : (x p : ℕ) → 0 < p → x % (p * 256) ≡ x / p % 256 * p + x % p
split_digit x p h = omega (
  arith,
  div-add-mod x p,
  div-add-mod x (p * 256),
  ap (λ (t : ℕ). p * t) (div-add-mod (x / p) 256),
  ap (λ (t : ℕ). p * t) (div-div-eq-div-mul x p 256),
)

-- The bytes are read on behind the number that is there.
pub of_be_from-to_be : (n x acc : ℕ) → of_be_from acc (to_be n x) ≡ acc * 256 ^ n + x % 256 ^ n
unfolding of_be_from to_be
of_be_from-to_be zero x acc = omega arith
of_be_from-to_be (suc n) x acc =
    of_be_from-to_be n x (acc * 256 + x / 256 ^ n % 256)
    ∙ rw (pow-suc 256 n) (omega (arith, split_digit x (256 ^ n) (one-le-pow n 256 (omega arith))))

-- A number that fits `n` bytes is read back.
pub of_be-to_be : (n x : ℕ) → x < 256 ^ n → of_be (to_be n x) ≡ x
unfolding of_be
of_be-to_be n x h = of_be_from-to_be n x 0 ∙ omega (arith, mod-eq_of_lt h)
