-- ===== src/Common/Results.antt =====
-- The source's `Result`, with one constructor more for a loop of the model that runs out of fuel.
use mathlib.Core.Path.{◌≡◌, refl}
use mathlib.Core.Logic.{◌⊎◌, inl, inr, ◌≢◌}
use mathlib.Core.Bool.{Bool, true, false}

-- `diverged` is no Rust value: each model of a loop has a theorem that it is not reached.
pub data Result {ℓ κ} (E : Type ℓ) (A : Type κ) : Type (ℓ ⊔ κ) where
  ok : A → Result E A
  err : E → Result E A
  diverged : Result E A

infixl 5 ◌>>=◌ ◌>>◌
-- The `?` operator, with what follows it.
abbrev pub ◌>>=◌ {ℓ₀ ℓ₁ ℓ₂} :
    {Error : Type ℓ₀} {A : Type ℓ₁} {B : Type ℓ₂}
    → Result Error A
    → (A → Result Error B)
    → Result Error B
diverged >>= next = diverged
err failure >>= next = err failure
ok value >>= next = next value

abbrev pub ◌>>◌ {ℓ₀ ℓ₁} :
    {Error : Type ℓ₀} {B : Type ℓ₁} → Result Error (Unit {0}) → Result Error B → Result Error B
guard >> next = guard >>= λ passed. next

-- An early `return Err(e)` when the test holds.
abbrev pub reject_if {ℓ} : {E : Type ℓ} → Bool → E → Result E (Unit {0})
reject_if true e = err e
reject_if false e = ok tt

-- `map_err`.
abbrev pub map_err {ℓ κ υ} :
    {E : Type ℓ} {F : Type κ} {A : Type υ} → (E → F) → Result E A → Result F A
map_err f (ok a) = ok a
map_err f (err e) = err (f e)
map_err f diverged = diverged

pub Result-cases {ℓ κ} :
    {E : Type ℓ} {A : Type κ} (r : Result E A) → ((a : A) × (r ≡ ok a)) ⊎ ((a : A) → r ≢ ok a)
Result-cases (ok a) = inl (a, refl)
Result-cases (err e) = inr (λ a h. cc)
Result-cases diverged = inr (λ a h. cc)

-- How a result that is no value fails.
pub Result-fails {ℓ κ} :
    {E : Type ℓ} {A : Type κ} (r : Result E A)
    → ((a : A) → r ≢ ok a)
    → ((e : E) × (r ≡ err e)) ⊎ (r ≡ diverged)
Result-fails (ok a) h = absurd (h a refl)
Result-fails (err e) h = inl (e, refl)
Result-fails diverged h = inr refl
