-- ===== src/Tunnel/Cipher/Laws.antt =====
-- The maps by epoch, and the epoch and the nonces on the wire.
use ipv_8_public_base_statio.Common.{
  ℕ, ◌+◌, ◌*◌, ◌%◌, ◌^◌, ◌≤◌, ◌<◌, ◌≡◌, refl, sym, Bool, true, false, not, none, some, List, [],
  ◌∷◌, leb, ◌==◌, All, inl, inr, Bool-cases, arith, ==_refl, ==_iff, ==_ne, le→leb, subst,
}
use ipv_8_public_base_statio.Common.Bytes.{of_be, to_be, of_be_from, of_be_from-to_be}
use ipv_8_public_base_statio.Tunnel.Frame.{CipherSuite, aes_256_gcm, chacha20_poly1305}
use ipv_8_public_base_statio.Tunnel.Cipher.{
  find_epoch, keep_from, newest_epoch, put_epoch, same_suite, suite_byte, suite_from_byte,
  direction_bit,
}

module _ {ℓ} {A : Type ℓ} where
  pub find_epoch-put_same :
      (k : ℕ) (v : A) (l : List (ℕ × A)) → find_epoch k (put_epoch k v l) ≡ some v
  unfolding find_epoch put_epoch
  find_epoch-put_same k v [] = rw (==_refl k) refl
  find_epoch-put_same k v ((e, a) ∷ l) = elim (Bool-cases (e == k)) [
    | inl same ↦ rw (same, ==_refl k) refl
    | inr other ↦ rw (other, other) (find_epoch-put_same k v l)
  ]

  pub find_epoch-keep_from :
      (k floor : ℕ) (l : List (ℕ × A))
      → floor ≤ k
      → find_epoch k (keep_from floor l) ≡ find_epoch k l
  unfolding find_epoch keep_from
  find_epoch-keep_from k floor [] h = refl
  find_epoch-keep_from k floor ((e, a) ∷ l) h = elim (Bool-cases (e == k)) [
    | inl same ↦
        let kept : leb floor e ≡ true =
          le→leb floor e (subst (λ x. floor ≤ x) (sym ((==_iff e k).0 same)) h) in
        rw (kept, same) refl
    | inr other ↦ elim (Bool-cases (leb floor e)) [
      | inl kept ↦ rw (kept, other) (find_epoch-keep_from k floor l h)
      | inr gone ↦ rw (gone, other) (find_epoch-keep_from k floor l h)
    ]
  ]

  -- No entry has a key that is above all.
  pub find_epoch-above :
      (k : ℕ) (l : List (ℕ × A)) → All (λ entry. entry.0 < k) l → find_epoch k l ≡ none
  unfolding find_epoch
  find_epoch-above k [] h = refl
  find_epoch-above k ((e, a) ∷ l) h =
      rw (==_ne e k (λ same. absurd (omega arith))) (find_epoch-above k l h.1)

  pub newest_epoch-le :
      (n k : ℕ) (l : List (ℕ × A)) → n ≤ k → All (λ entry. entry.0 ≤ k) l → newest_epoch n l ≤ k
  unfolding newest_epoch
  newest_epoch-le n k [] h all = h
  newest_epoch-le n k ((e, a) ∷ l) h all = omega (arith, newest_epoch-le n k l h all.1)

  module _ {κ} (Holds : ℕ × A → Type κ) where
    pub All-put_epoch :
        (k : ℕ) (v : A) (l : List (ℕ × A))
        → Holds (k, v)
        → All Holds l
        → All Holds (put_epoch k v l)
    unfolding put_epoch
    All-put_epoch k v [] here all = (here, tt)
    All-put_epoch k v ((e, a) ∷ l) here all = elim (Bool-cases (e == k)) [
      | inl same ↦ rw same (here, all.1)
      | inr other ↦ rw other (all.0, All-put_epoch k v l here all.1)
    ]

    pub All-keep_from : (floor : ℕ) (l : List (ℕ × A)) → All Holds l → All Holds (keep_from floor l)
    unfolding keep_from
    All-keep_from floor [] all = tt
    All-keep_from floor ((e, a) ∷ l) all = elim (Bool-cases (leb floor e)) [
      | inl kept ↦ rw kept (all.0, All-keep_from floor l all.1)
      | inr gone ↦ rw gone (All-keep_from floor l all.1)
    ]

    pub All-find_epoch :
        (k : ℕ) (v : A) (l : List (ℕ × A)) → find_epoch k l ≡ some v → All Holds l → Holds (k, v)
    unfolding find_epoch
    All-find_epoch k v [] e all = cc
    All-find_epoch k v ((x, a) ∷ l) e all = elim (Bool-cases (x == k)) [
      | inl same ↦
          subst (λ y. Holds (k, y)) (inner (rw same at e))
            (subst (λ y. Holds (y, a)) ((==_iff x k).0 same) all.0)
      | inr other ↦ All-find_epoch k v l (rw other at e) all.1
    ]
      where
        inner : some a ≡ some v → a ≡ v
        inner h = cc

    pub All-weaken_epoch {ι} :
        (Weak : ℕ × A → Type ι) (l : List (ℕ × A))
        → ((x : ℕ × A) → Holds x → Weak x)
        → All Holds l
        → All Weak l
    All-weaken_epoch Weak [] f all = tt
    All-weaken_epoch Weak (x ∷ l) f all = (f x all.0, All-weaken_epoch Weak l f all.1)

pub suite_from_byte-suite_byte : (s : CipherSuite) → suite_from_byte (suite_byte s) ≡ some s
suite_from_byte-suite_byte chacha20_poly1305 = refl
suite_from_byte-suite_byte aes_256_gcm = refl

pub same_suite_refl : (s : CipherSuite) → same_suite s s ≡ true
same_suite_refl chacha20_poly1305 = refl
same_suite_refl aes_256_gcm = refl

-- The two directions of a tunnel have the same bit at both ends.
pub direction_bit-not : (b : Bool) → direction_bit (not b) false ≡ direction_bit b true
direction_bit-not true = refl
direction_bit-not false = refl

-- The epoch of a KeyID, for epochs of seven bytes.
pub epoch_read : (byte epoch : ℕ) → epoch < 2 ^ 56 → of_be (byte ∷ to_be 7 epoch) % 2 ^ 56 ≡ epoch
unfolding of_be of_be_from
epoch_read byte epoch h = omega (arith, of_be_from-to_be 7 epoch (0 * 256 + byte))
