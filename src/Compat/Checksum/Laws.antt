-- ===== src/Compat/Checksum/Laws.antt =====
-- A buffer into which its checksum was written verifies.
use ipv_8_public_base_statio.Common.{
  ◌⊎◌, inl, inr, Bool-cases, ◌||◌, ltb, ℕ, zero, suc, ◌+◌, ◌-◌, ◌*◌, ◌/◌, ◌%◌, ◌≤◌, ◌<◌, ◌≡◌, refl,
  ap, subst, ◌∙◌, List, [], ◌∷◌, length, take, set, arith, length-set, drop, ◌++◌, get_or,
}
use ipv_8_public_base_statio.Common.Bytes.{AreBytes, IsByte, of_be16, u32}
use ipv_8_public_base_statio.Compat.Checksum.{
  ip_header_checksum, checksum, fold_carries, ones_complement_sum, sum_words,
}

-- The sum of the 16-bit words without a bound.
abbrev pub word_sum : List ℕ → ℕ
word_sum [] = 0
word_sum (last ∷ []) = last * 256
word_sum (hi ∷ lo ∷ others) = of_be16 hi lo + word_sum others

pub word_sum-le : (p : List ℕ) → AreBytes p → word_sum p ≤ length p * 65535
word_sum-le [] h = omega arith
word_sum-le (last ∷ []) (h, rest) = omega arith
word_sum-le (hi ∷ lo ∷ others) (h, (k, rest)) = omega (arith, word_sum-le others rest)

pub sum_words-word_sum :
    (sum : ℕ) (p : List ℕ) → sum + word_sum p < 4294967296 → sum_words sum p ≡ sum + word_sum p
unfolding sum_words
sum_words-word_sum sum [] h = omega arith
sum_words-word_sum sum (last ∷ []) h = omega arith
sum_words-word_sum sum (hi ∷ lo ∷ others) h =
    sum_words-word_sum (u32 (sum + of_be16 hi lo)) others (omega arith) ∙ omega arith

-- Two passes end the loop: no carry is left.
pub fold_carries-two :
    (s : ℕ)
    → s < 4294967296
    → fold_carries 2 s ≡ (s % 65536 + s / 65536) % 65536 + (s % 65536 + s / 65536) / 65536
unfolding fold_carries
fold_carries-two s h = ground arith

pub fold_carries-lt : (s : ℕ) → s < 4294967296 → fold_carries 2 s < 65536
fold_carries-lt s h = omega (arith, fold_carries-two s h)

-- The sum grows by the complement of its fold to a multiple of 65535.
pub fold_carries-complement :
    (s : ℕ) → s < 4294901760 → fold_carries 2 (s + (65535 - fold_carries 2 s)) ≡ 65535
fold_carries-complement s h = omega (
  arith,
  fold_carries-two s (omega arith),
  fold_carries-two (s + (65535 - fold_carries 2 s)) (omega arith),
)

pub take-set : (n i v : ℕ) (p : List ℕ) → take n (set p i v) ≡ set (take n p) i v
take-set zero i v p = refl
take-set (suc n) i v [] = refl
take-set (suc n) zero v (x ∷ xs) = refl
take-set (suc n) (suc i) v (x ∷ xs) = ap (λ (t : List ℕ). x ∷ t) (take-set n i v xs)

-- Writing a word to an even place.
word_sum-set :
    (k a b : ℕ) (p : List ℕ)
    → k % 2 ≡ 0
    → suc k < length p
    → word_sum (set (set p k a) (suc k) b) ≡ word_sum (set (set p k 0) (suc k) 0) + of_be16 a b
word_sum-set zero a b [] e h = omega arith
word_sum-set zero a b (x ∷ []) e h = omega arith
word_sum-set zero a b (x ∷ y ∷ r) e h = omega arith
word_sum-set (suc zero) a b p e h = omega arith
word_sum-set (suc (suc k)) a b [] e h = omega arith
word_sum-set (suc (suc k)) a b (x ∷ []) e h = omega arith
word_sum-set (suc (suc k)) a b (x ∷ y ∷ r) e h =
    omega (arith, word_sum-set k a b r (omega arith) (omega arith))

pub set-set :
    (p : List ℕ) (k a b c d : ℕ)
    → set (set (set (set p k a) (suc k) b) k c) (suc k) d ≡ set (set p k c) (suc k) d
set-set [] k a b c d = refl
set-set (x ∷ []) zero a b c d = refl
set-set (x ∷ y ∷ r) zero a b c d = refl
set-set (x ∷ r) (suc k) a b c d = ap (λ (t : List ℕ). x ∷ t) (set-set r k a b c d)

pub AreBytes-set : (p : List ℕ) (k v : ℕ) → IsByte v → AreBytes p → AreBytes (set p k v)
AreBytes-set [] k v h all = tt
AreBytes-set (x ∷ r) zero v h (first, others) = (h, others)
AreBytes-set (x ∷ r) (suc k) v h (first, others) = (first, AreBytes-set r k v h others)

abbrev pub put_word : List ℕ → ℕ → ℕ → List ℕ
put_word p k c = set (set p k (c / 256 % 256)) (suc k) (c % 256)

pub AreBytes-put_word : (p : List ℕ) (k c : ℕ) → AreBytes p → AreBytes (put_word p k c)
AreBytes-put_word p k c all =
    AreBytes-set (set p k (c / 256 % 256)) (suc k) (c % 256) (omega arith)
      (AreBytes-set p k (c / 256 % 256) (omega arith) all)

pub AreBytes-take : (n : ℕ) (p : List ℕ) → AreBytes p → AreBytes (take n p)
AreBytes-take zero p all = tt
AreBytes-take (suc n) [] all = tt
AreBytes-take (suc n) (x ∷ r) (first, others) = (first, AreBytes-take n r others)

pub ones_complement_sum-word_sum :
    (p : List ℕ) → word_sum p < 4294967296 → ones_complement_sum p ≡ fold_carries 2 (word_sum p)
unfolding ones_complement_sum
ones_complement_sum-word_sum p h =
    ap (fold_carries 2) {y = word_sum p} (sum_words-word_sum 0 p (omega arith) ∙ omega arith)

pub cleared_sum-lt :
    (k : ℕ) (p : List ℕ)
    → length p ≤ 65535
    → AreBytes p
    → word_sum (set (set p k 0) (suc k) 0) < 4294901760
cleared_sum-lt k p small all =
    let cleared : List ℕ = set (set p k 0) (suc k) 0 in
    let le : word_sum cleared ≤ length p * 65535 =
      subst (λ (n : ℕ). word_sum cleared ≤ n * 65535)
        (length-set (set p k 0) (suc k) 0 ∙ length-set p k 0)
        (word_sum-le cleared (
          AreBytes-set (set p k 0) (suc k) 0 (omega arith)
            (AreBytes-set p k 0 (omega arith) all))) in
    omega (arith, le)

pub put_word-grown :
    (k : ℕ) (p : List ℕ)
    → k % 2 ≡ 0
    → suc k < length p
    → length p ≤ 65535
    → AreBytes p
    → (c : ℕ) → c < 65536
    → ones_complement_sum (put_word p k c)
      ≡ fold_carries 2 (word_sum (set (set p k 0) (suc k) 0) + c)
put_word-grown k p even inside small all c is_word =
    let grown : word_sum (put_word p k c) ≡ word_sum (set (set p k 0) (suc k) 0) + c =
      word_sum-set k (c / 256 % 256) (c % 256) p even inside ∙ omega arith in
    ones_complement_sum-word_sum (put_word p k c)
      (omega (arith, grown, cleared_sum-lt k p small all))
    ∙ ap (fold_carries 2) grown

-- Writing the checksum of a buffer, taken with the field at `k` cleared, into that field.
pub written_verifies :
    (k : ℕ) (p : List ℕ)
    → k % 2 ≡ 0
    → suc k < length p
    → length p ≤ 65535
    → AreBytes p
    → (c : ℕ) → c ≡ checksum (set (set p k 0) (suc k) 0)
    → checksum (put_word p k c) ≡ 0
unfolding checksum
written_verifies k p even inside small all c e =
    let cleared : List ℕ = set (set p k 0) (suc k) 0 in
    let bound : word_sum cleared < 4294901760 = cleared_sum-lt k p small all in
    let sum : c ≡ 65535 - fold_carries 2 (word_sum cleared) =
      e ∙ ap (λ (t : ℕ). 65535 - t) (ones_complement_sum-word_sum cleared (omega (arith, bound))) in
    omega (
      arith,
      put_word-grown k p even inside small all c (omega (arith, sum)),
      ap (λ (t : ℕ). fold_carries 2 (word_sum cleared + t)) sum,
      fold_carries-complement (word_sum cleared) bound,
    )

pub AreBytes-drop : (n : ℕ) (p : List ℕ) → AreBytes p → AreBytes (drop n p)
AreBytes-drop zero p all = all
AreBytes-drop (suc n) [] all = tt
AreBytes-drop (suc n) (x ∷ r) (first, others) = AreBytes-drop n r others

pub AreBytes-append : (p q : List ℕ) → AreBytes p → AreBytes q → AreBytes (p ++ q)
AreBytes-append [] q all all_q = all_q
AreBytes-append (x ∷ r) q (first, others) all_q = (first, AreBytes-append r q others all_q)

pub get_or-IsByte : (p : List ℕ) (i : ℕ) → AreBytes p → get_or p i 0 < 256
get_or-IsByte [] i all = omega arith
get_or-IsByte (x ∷ r) zero (h, others) = h
get_or-IsByte (x ∷ r) (suc i) (h, others) = get_or-IsByte r i others

-- The buffer that `ip_header_checksum` leaves.
pub header_left :
    (header : List ℕ)
    → ((ip_header_checksum header).1 ≡ header)
      ⊎ ((ip_header_checksum header).1 ≡ set (set header 10 0) 11 0)
unfolding ip_header_checksum
header_left header =
    elim (Bool-cases (ltb (length header) 20 || ltb (length header) (get_or header 0 0 % 16 * 4))) [
      | inl short ↦ inl (rw short refl)
      | inr long ↦ inr (rw long refl)
    ]
