-- ===== src/Common/Strings.antt =====
-- Strings as lists of bytes, compared and tested for a prefix.
use Prim.Native.Nat.{ℕ}
use mathlib.Core.Path.{◌≡◌, refl}
use mathlib.Core.Bool.{Bool, true, false}
use mathlib.Core.List.{List, [], ◌∷◌}
use native.Mathlib.Omega.{arith}
use ipv_8_public_base_statio.Common.Tests.{if◌then◌else◌, ◌==◌, ==_refl}

abbrev pub String : Type 0
String = List ℕ

abbrev pub str_eq : String → String → Bool
str_eq [] [] = true
str_eq [] (d ∷ t) = false
str_eq (c ∷ s) [] = false
str_eq (c ∷ s) (d ∷ t) = let rest = str_eq s t in if c == d then rest else false

abbrev pub starts_with : String → String → Bool
starts_with s [] = true
starts_with [] (d ∷ t) = false
starts_with (c ∷ s) (d ∷ t) = let rest = starts_with s t in if c == d then rest else false

pub str_eq_refl : (s : String) → str_eq s s ≡ true
str_eq_refl [] = refl
str_eq_refl (c ∷ s) = rw (==_refl c) (str_eq_refl s)

pub str_eq→≡ : (s t : String) → str_eq s t ≡ true → s ≡ t
str_eq→≡ [] [] h = refl
str_eq→≡ [] (d ∷ t) h = absurd (never h)
  where
    never : false ≡ true → ⊥
    never e = cc
str_eq→≡ (c ∷ s) [] h = absurd (never h)
  where
    never : false ≡ true → ⊥
    never e = cc
str_eq→≡ (c ∷ s) (d ∷ t) h = ground (arith, str_eq→≡ s t)
