-- ===== src/Tunnel/Window/Masks.antt =====
-- What the bits of the mask tell of the counters that were accepted.
use ipv_8_public_base_statio.Common.{
  ℕ, zero, suc, ◌+◌, ◌-◌, ◌*◌, ◌%◌, ◌^◌, ◌≤◌, ◌<◌, ◌≡◌, ◌≢◌, refl, ap, sym, ◌∙◌, Bool, true, false,
  not, ◌&&◌, List, [], ◌∷◌, ltb, leb, ◌==◌, if◌then◌else◌, max, contains, inl, inr, Bool-cases,
  arith, ==_iff, ==_ne, leb→le, ltb→lt,
}
use native.Mathlib.Nat.{pow-suc}
use ipv_8_public_base_statio.Common.Bits.{
  put_bit, test_bit, test_bit-mod, test_bit-odd_suc, test_bit-odd_zero, test_bit-shift,
  test_bit-shift_below, test_bit-zero_word, test_bit-put_same, test_bit-put_other,
}
use ipv_8_public_base_statio.Tunnel.Window.{RxWindow, rx_window, shift_in}

-- The receiver that remembers all counters it accepted. It refuses 0, what it has accepted before,
-- and what lies 127 or more behind the greatest.
abbrev pub greatest : List ℕ → ℕ
greatest [] = 0
greatest (c ∷ cs) = max c (greatest cs)

abbrev pub admissible : List ℕ → ℕ → Bool
admissible seen c = not (c == 0) && (not (contains seen c) && ltb (greatest seen) (c + rx_window))

abbrev pub remember_all : List ℕ → List ℕ → List Bool
remember_all seen [] = []
remember_all seen (c ∷ cs) =
    admissible seen c ∷ remember_all (if admissible seen c then c ∷ seen else seen) cs

pub contains-le : (seen : List ℕ) (c : ℕ) → contains seen c ≡ true → c ≤ greatest seen
contains-le [] c h = absurd (never h)
  where
    never : false ≡ true → ⊥
    never e = cc
contains-le (x ∷ xs) c h = ground (arith, contains-le xs c)

pub contains-above : (seen : List ℕ) (c : ℕ) → greatest seen < c → contains seen c ≡ false
contains-above seen c h = elim (Bool-cases (contains seen c)) [
  | inl there ↦ absurd (omega (arith, contains-le seen c there))
  | inr not_there ↦ not_there
]

-- The window stands for the counters accepted so far.
pub record Represents (w : RxWindow) (seen : List ℕ) : Type 0 where
  pub top_eq : w.top ≡ greatest seen
  pub bits : (k : ℕ) → k < 127 → k < w.top → test_bit k w.mask ≡ contains seen (w.top - k)

even_shift : (m s : ℕ) → 0 < s → m * 2 ^ s % 2 ^ 128 % 2 ≡ 0
even_shift m zero h = absurd (omega arith)
even_shift m (suc s) h = omega (arith, ap (λ (t : ℕ). m * t) (pow-suc 2 s))

-- Bit `k` after the shift by `s`.
shift_in-zero : (m s : ℕ) → 0 < s → test_bit 0 (shift_in m s) ≡ true
unfolding shift_in
shift_in-zero m s h = test_bit-odd_zero (m * 2 ^ s % 2 ^ 128) (even_shift m s h)

shift_in-suc :
    (m s k : ℕ)
    → 0 < s
    → suc k < 128
    → test_bit (suc k) (shift_in m s) ≡ test_bit (suc k) (m * 2 ^ s)
unfolding shift_in
shift_in-suc m s k h lt =
    test_bit-odd_suc k (m * 2 ^ s % 2 ^ 128) (even_shift m s h)
    ∙ test_bit-mod 128 (suc k) (m * 2 ^ s) lt

one_suc : (k : ℕ) → test_bit (suc k) 1 ≡ false
one_suc k = test_bit-odd_suc k 0 refl ∙ test_bit-zero_word (suc k)

contains-here : (seen : List ℕ) (c x : ℕ) → c ≡ x → contains (c ∷ seen) x ≡ true
contains-here seen c x e = ground arith

contains-there : (seen : List ℕ) (c x : ℕ) → c ≢ x → contains (c ∷ seen) x ≡ contains seen x
contains-there seen c x e = rw (==_ne c x e) refl

-- Between the old greatest counter and the new one nothing was accepted.
contains-gap :
    (seen : List ℕ) (c k : ℕ) → greatest seen + suc k < c → contains (c ∷ seen) (c - suc k) ≡ false
contains-gap seen c k h =
    contains-there seen c (c - suc k) (λ e. absurd (omega arith))
    ∙ contains-above seen (c - suc k) (omega arith)

module _ (w : RxWindow) (seen : List ℕ) (c : ℕ) (r : Represents w seen) (new : w.top < c) where
  shifted-bits :
      (k : ℕ)
      → suc k < 127
      → suc k < c
      → c - w.top < 127
      → test_bit (suc k) (shift_in w.mask (c - w.top)) ≡ contains (c ∷ seen) (c - suc k)
  shifted-bits k small inside near =
      shift_in-suc w.mask (c - w.top) k (omega arith) (omega arith)
      ∙ elim (Bool-cases (ltb (suc k) (c - w.top))) [
        | inl gap ↦
            let less : suc k < c - w.top = ltb→lt (suc k) (c - w.top) gap in
            test_bit-shift_below (c - w.top) (suc k) w.mask less
            ∙ sym (contains-gap seen c k (omega (arith, r.top_eq)))
        | inr older ↦
            let more : c - w.top ≤ suc k = ground arith in
            let split : suc k ≡ (c - w.top) + (suc k - (c - w.top)) = omega arith in
            let place : w.top - (suc k - (c - w.top)) ≡ c - suc k = omega arith in
            ap (λ j. test_bit j (w.mask * 2 ^ (c - w.top))) split
            ∙ test_bit-shift (c - w.top) (suc k - (c - w.top)) w.mask
            ∙ r.bits (suc k - (c - w.top)) (omega arith) (omega arith)
            ∙ ap (contains seen) place
            ∙ sym (contains-there seen c (c - suc k) (λ e. absurd (omega arith)))
      ]

  -- The mask after a new greatest counter.
  pub above-bits :
      (k : ℕ)
      → k < 127
      → k < c
      → test_bit k (if leb rx_window (c - w.top) then 1 else shift_in w.mask (c - w.top))
        ≡ contains (c ∷ seen) (c - k)
  above-bits zero small inside = elim (Bool-cases (leb rx_window (c - w.top))) [
    | inl far ↦ rw far (test_bit-odd_zero 0 refl ∙ sym (contains-here seen c (c - 0) (omega arith)))
    | inr near ↦ rw near (
        shift_in-zero w.mask (c - w.top) (omega arith)
        ∙ sym (contains-here seen c (c - 0) (omega arith)))
  ]
  above-bits (suc k) small inside = elim (Bool-cases (leb rx_window (c - w.top))) [
    | inl far ↦
        let big : 127 ≤ c - w.top = leb→le rx_window (c - w.top) far in
        rw far (one_suc k ∙ sym (contains-gap seen c k (omega (arith, r.top_eq))))
    | inr near ↦
        let close : c - w.top < 127 = ground arith in rw near (shifted-bits k small inside close)
  ]

pub ==_false : (a b : ℕ) → (a == b) ≡ false → a ≢ b
==_false a b h e = ground arith

-- The mask after a counter within the window.
pub within-bits :
    (w : RxWindow) (seen : List ℕ) (c k : ℕ)
    → Represents w seen
    → c ≢ 0
    → c ≤ w.top
    → w.top - c < 127
    → contains seen c ≡ false
    → k < 127
    → k < w.top
    → test_bit k (put_bit (w.top - c) w.mask) ≡ contains (c ∷ seen) (w.top - k)
within-bits w seen c k r some_counter old near new small inside =
    let clear : test_bit (w.top - c) w.mask ≡ false =
      r.bits (w.top - c) near (omega arith) ∙ ap (contains seen) (omega arith) ∙ new in
    elim (Bool-cases (w.top - c == k)) [
      | inl here ↦
          let e : w.top - c ≡ k = (==_iff (w.top - c) k).0 here in
          ap (λ j. test_bit j (put_bit (w.top - c) w.mask)) (sym e)
          ∙ test_bit-put_same (w.top - c) w.mask clear
          ∙ sym (contains-here seen c (w.top - k) (omega arith))
      | inr other ↦
          let ne : w.top - c ≢ k = λ e. absurd (==_false (w.top - c) k other e) in
          test_bit-put_other (w.top - c) k w.mask ne clear
          ∙ r.bits k small inside
          ∙ sym (contains-there seen c (w.top - k) (λ e. ne (omega arith)))
    ]
