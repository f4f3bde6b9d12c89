-- ===== src/Tunnel/Cipher/Nonces.antt =====
-- The nonces of data frames and of receipts (src/core/ipv8-tunnel/src/crypto.rs).
use ipv_8_public_base_statio.Common.{
  ℕ, ◌+◌, ◌/◌, ◌%◌, ◌++◌, ◌∷◌, refl, replicate, ltb, true, ◌^◌, ◌≤◌, ◌<◌, ◌≡◌, ◌≢◌, ap, sym, ◌∙◌,
  List, get_or, drop, arith,
}
use ipv_8_public_base_statio.Common.Bytes.{of_be, of_be-to_be, to_be}
use ipv_8_public_base_statio.Tunnel.Cipher.{nonce_for, receipt_nonce}

nonce_for-injective : (c e : ℕ) → c < 256 ^ 8 → e < 256 ^ 8 → nonce_for c ≡ nonce_for e → c ≡ e
unfolding nonce_for
nonce_for-injective c e small_c small_e same =
    sym (of_be-to_be 8 c small_c) ∙ ap (λ n. of_be (drop 4 n)) same ∙ of_be-to_be 8 e small_e

nonce_fifth : (c : ℕ) → c < 2 ^ 63 → get_or (nonce_for c) 4 0 < 128
unfolding nonce_for to_be
nonce_fifth c h = omega arith

receipt_fifth : (c : ℕ) → 128 ≤ get_or (receipt_nonce c) 4 0
unfolding receipt_nonce to_be
receipt_fifth c = ground arith

-- The eight bytes of a counter, of which a receipt changes the first.
bytes_of : ℕ → ℕ → List ℕ
bytes_of first c = replicate 4 0 ++ (first ∷ to_be 7 c)

receipt_as : (c : ℕ) → c < 2 ^ 63 → receipt_nonce c ≡ bytes_of (c / 2 ^ 56 % 256 + 128) c
unfolding receipt_nonce bytes_of
receipt_as c h = rw (high (c / 2 ^ 56 % 256) (omega arith)) refl
  where
    high : (n : ℕ) → n < 128 → ltb n 128 ≡ true
    high n h = ground arith

nonce_as : (c : ℕ) → nonce_for c ≡ bytes_of (c / 2 ^ 56 % 256) c
unfolding nonce_for bytes_of to_be
nonce_as c = refl

receipt_nonce-injective :
    (c e : ℕ) → c < 2 ^ 63 → e < 2 ^ 63 → receipt_nonce c ≡ receipt_nonce e → c ≡ e
unfolding bytes_of
receipt_nonce-injective c e small_c small_e same =
    let alike : bytes_of (c / 2 ^ 56 % 256 + 128) c ≡ bytes_of (e / 2 ^ 56 % 256 + 128) e =
      sym (receipt_as c small_c) ∙ same ∙ receipt_as e small_e in
    let first : c / 2 ^ 56 % 256 ≡ e / 2 ^ 56 % 256 =
      omega (arith, ap (λ (n : List ℕ). get_or n 4 0) alike) in
    let others : to_be 7 c ≡ to_be 7 e = ap (drop 5) alike in
    nonce_for-injective c e (omega arith) (omega arith) (
      nonce_as c
      ∙ (ap (λ (n : ℕ). bytes_of n c) first
          ∙ (ap (λ (t : List ℕ). replicate 4 0 ++ (e / 2 ^ 56 % 256 ∷ t)) others
              ∙ sym (nonce_as e))))

-- With counters below 2^63, two data frames with different counters have different nonces, two
-- receipts with different counters have different nonces, and no data frame has the nonce of a
-- receipt.
pub nonces_differ :
    (c e : ℕ)
    → c < 2 ^ 63
    → e < 2 ^ 63
    → (c ≢ e → nonce_for c ≢ nonce_for e)
      × ((c ≢ e → receipt_nonce c ≢ receipt_nonce e) × (nonce_for c ≢ receipt_nonce e))
nonces_differ c e small_c small_e = (
  λ ne same. ne (nonce_for-injective c e (omega arith) (omega arith) same),
  (
    λ ne same. ne (receipt_nonce-injective c e small_c small_e same),
    λ same. absurd (
        omega
          (arith, nonce_fifth c small_c, receipt_fifth e, ap (λ (n : List ℕ). get_or n 4 0) same)),
  ),
)
