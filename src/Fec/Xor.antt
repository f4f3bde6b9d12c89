-- ===== src/Fec/Xor.antt =====
-- The XOR of frames, byte by byte, where a missing byte counts as 0.
use ipv_8_public_base_statio.Common.{
  ℕ, zero, suc, ◌-◌, ◌≤◌, ◌<◌, ◌≡◌, refl, ap, sym, ◌∙◌, bit_xor, List, [], ◌∷◌, ◌++◌, max, length,
  get_or, take, replicate, arith, length-append, inl, inr, Bool-cases, ltb,
}
use ipv_8_public_base_statio.Common.Xor.{
  bit_xor_assoc, bit_xor_comm, bit_xor_self, bit_xor-zero, bit_xor-zero_left,
}
use ipv_8_public_base_statio.Fec.{xor_into}
use ipv_8_public_base_statio.Fec.Sender.{grow}

pub length-xor_into : (acc other : List ℕ) → length (xor_into acc other) ≡ length acc
unfolding xor_into
length-xor_into [] other = refl
length-xor_into (a ∷ acc) [] = refl
length-xor_into (a ∷ acc) (o ∷ other) = ap suc (length-xor_into acc other)

pub get_or-xor_into :
    (acc other : List ℕ) (i : ℕ)
    → length other ≤ length acc
    → get_or (xor_into acc other) i 0 ≡ bit_xor (get_or acc i 0) (get_or other i 0)
unfolding xor_into
get_or-xor_into [] [] i h = sym (bit_xor_self 0)
get_or-xor_into [] (o ∷ other) i h = absurd (omega arith)
get_or-xor_into (a ∷ acc) [] i h = sym (bit_xor-zero (get_or (a ∷ acc) i 0))
get_or-xor_into (a ∷ acc) (o ∷ other) zero h = refl
get_or-xor_into (a ∷ acc) (o ∷ other) (suc i) h = get_or-xor_into acc other i (omega arith)

length-replicate : (n : ℕ) → length (replicate {A = ℕ} n 0) ≡ n
length-replicate zero = refl
length-replicate (suc n) = ap suc (length-replicate n)

get_or-zeros : (n i : ℕ) → get_or {A = ℕ} (replicate n 0) i 0 ≡ 0
get_or-zeros zero i = refl
get_or-zeros (suc n) zero = refl
get_or-zeros (suc n) (suc i) = get_or-zeros n i

get_or-append_zeros :
    (xs : List ℕ) (n i : ℕ) → get_or (xs ++ replicate {A = ℕ} n 0) i 0 ≡ get_or xs i 0
get_or-append_zeros [] n i = get_or-zeros n i
get_or-append_zeros (x ∷ xs) n zero = refl
get_or-append_zeros (x ∷ xs) n (suc i) = get_or-append_zeros xs n i

pub length-grow : (n : ℕ) (acc : List ℕ) → length (grow n acc) ≡ max n (length acc)
unfolding grow
length-grow n acc = elim (Bool-cases (ltb (length acc) n)) [
  | inl e ↦ rw e (
      ground (
        arith,
        length-append acc (replicate {A = ℕ} (n - length acc) 0),
        length-replicate (n - length acc),
      ))
  | inr e ↦ rw e (ground arith)
]

pub get_or-grow : (n : ℕ) (acc : List ℕ) (i : ℕ) → get_or (grow n acc) i 0 ≡ get_or acc i 0
unfolding grow
get_or-grow n acc i = elim (Bool-cases (ltb (length acc) n)) [
  | inl e ↦ rw e (get_or-append_zeros acc (n - length acc) i)
  | inr e ↦ rw e refl
]

-- A byte string is cut to another whose bytes it starts with.
pub take-bytes :
    (xs ys : List ℕ)
    → length ys ≤ length xs
    → ((i : ℕ) → i < length ys → get_or xs i 0 ≡ get_or ys i 0)
    → take (length ys) xs ≡ ys
take-bytes xs [] h same = refl
take-bytes [] (y ∷ ys) h same = absurd (omega arith)
take-bytes (x ∷ xs) (y ∷ ys) h same =
    ap (λ z. z ∷ take (length ys) xs) (same 0 (omega arith))
    ∙ ap (◌∷◌ y) (take-bytes xs ys (omega arith) (λ i lt. same (suc i) (omega arith)))

-- The XOR of byte `i` of all the frames, and of all but the one at an index.
abbrev pub xor_at : List (List ℕ) → ℕ → ℕ
xor_at [] i = 0
xor_at (f ∷ fs) i = bit_xor (get_or f i 0) (xor_at fs i)

abbrev pub xor_but : List (List ℕ) → ℕ → ℕ → ℕ
xor_but [] j i = 0
xor_but (f ∷ fs) zero i = xor_at fs i
xor_but (f ∷ fs) (suc j) i = bit_xor (get_or f i 0) (xor_but fs j i)

-- `(a ^ b) ^ (a ^ c) = b ^ c`.
cancel_common : (a b c : ℕ) → bit_xor (bit_xor a b) (bit_xor a c) ≡ bit_xor b c
cancel_common a b c =
    ap (λ x. bit_xor x (bit_xor a c)) (bit_xor_comm a b)
    ∙ bit_xor_assoc b a (bit_xor a c)
    ∙ ap (bit_xor b)
        (sym (bit_xor_assoc a a c) ∙ ap (λ x. bit_xor x c) (bit_xor_self a) ∙ bit_xor-zero_left c)

-- The XOR of all and of all the others is the one that is left out.
pub xor_at-xor_but :
    (fs : List (List ℕ)) (j i : ℕ)
    → j < length fs
    → bit_xor (xor_at fs i) (xor_but fs j i) ≡ get_or (get_or fs j []) i 0
xor_at-xor_but [] j i h = absurd (omega arith)
xor_at-xor_but (f ∷ fs) zero i h =
    bit_xor_assoc (get_or f i 0) (xor_at fs i) (xor_at fs i)
    ∙ ap (bit_xor (get_or f i 0)) (bit_xor_self (xor_at fs i))
    ∙ bit_xor-zero (get_or f i 0)
xor_at-xor_but (f ∷ fs) (suc j) i h =
    cancel_common (get_or f i 0) (xor_at fs i) (xor_but fs j i)
    ∙ xor_at-xor_but fs j i (omega arith)
