-- ===== src/Tunnel/Cipher.antt =====
-- The ciphers of a tunnel and the maps by epoch (src/core/ipv8-tunnel/src/crypto.rs). HMAC-SHA256
-- and the two AEAD ciphers are third-party libraries, parameters of the model.
pub mod Laws
pub mod Nonces
use ipv_8_public_base_statio.Common.{
  ℕ, ◌+◌, ◌/◌, ◌%◌, ◌^◌, max, Bool, true, false, Option, none, some, List, [], ◌∷◌, ◌++◌, ltb, leb,
  ◌==◌, if◌then◌else◌, replicate, retain,
}
use ipv_8_public_base_statio.Common.Bytes.{to_be}
use ipv_8_public_base_statio.Tunnel.Frame.{CipherSuite, aes_256_gcm, chacha20_poly1305}

-- The libraries. `encrypt` and `decrypt` take the suite, the key, the nonce, the message and the
-- associated data.
pub record Primitives : Type 0 where
  pub hmac : List ℕ → List ℕ → List ℕ
  pub encrypt : CipherSuite → List ℕ → List ℕ → List ℕ → List ℕ → List ℕ
  pub decrypt : CipherSuite → List ℕ → List ℕ → List ℕ → List ℕ → Option (List ℕ)

abbrev pub suite_byte : CipherSuite → ℕ
suite_byte chacha20_poly1305 = 0
suite_byte aes_256_gcm = 1

abbrev pub suite_from_byte : ℕ → Option CipherSuite
suite_from_byte b =
    if b == 0 then some chacha20_poly1305 else if b == 1 then some aes_256_gcm else none

abbrev pub same_suite : CipherSuite → CipherSuite → Bool
same_suite a b = suite_byte a == suite_byte b

pub record Cipher : Type 0 where
  pub suite : CipherSuite
  pub key : List ℕ

abbrev pub rotate_bytes : ℕ
rotate_bytes = 1073741824

-- One hour.
abbrev pub rotate_time : ℕ
rotate_time = 3600000000000

abbrev pub grace_epochs : ℕ
grace_epochs = 1

-- The ASCII codes of "ipv8plus-tunnel-v1".
abbrev pub hkdf_salt : List ℕ
hkdf_salt =
    105 ∷ 112 ∷ 118 ∷ 56 ∷ 112 ∷ 108 ∷ 117 ∷ 115 ∷ 45 ∷ 116 ∷ 117 ∷ 110 ∷ 110 ∷ 101 ∷ 108 ∷ 45 ∷ 118
    ∷ 49 ∷ []

unfoldable pub hkdf : Primitives → List ℕ → List ℕ → List ℕ
hkdf lib ikm info = lib.hmac (lib.hmac hkdf_salt ikm) info

abbrev pub direction_bit : Bool → Bool → ℕ
direction_bit true true = 0
direction_bit false false = 0
direction_bit true false = 1
direction_bit false true = 1

unfoldable pub cipher_for : Primitives → List ℕ → CipherSuite → ℕ → Bool → Bool → Cipher
unfolding hkdf
cipher_for lib dh suite epoch is_initiator sending = record {
  suite = suite;
  key =
      hkdf lib dh
        (direction_bit is_initiator sending ∷ (to_be 8 epoch ++ (75 ∷ suite_byte suite ∷ [])));
}

unfoldable pub nonce_for : ℕ → List ℕ
nonce_for counter = replicate 4 0 ++ to_be 8 counter

-- Bit 7 of the fifth byte is set.
unfoldable pub receipt_nonce : ℕ → List ℕ
receipt_nonce counter =
    let high = counter / 2 ^ 56 % 256 in
    replicate 4 0 ++ ((if ltb high 128 then high + 128 else high) ∷ to_be 7 counter)

-- The ordered maps by epoch.
unfoldable pub find_epoch {ℓ} : {A : Type ℓ} → ℕ → List (ℕ × A) → Option A
find_epoch k [] = none
find_epoch k ((e, a) ∷ others) = let rest = find_epoch k others in if e == k then some a else rest

unfoldable pub put_epoch {ℓ} : {A : Type ℓ} → ℕ → A → List (ℕ × A) → List (ℕ × A)
put_epoch k v [] = (k, v) ∷ []
put_epoch k v ((e, a) ∷ others) =
    let rest = put_epoch k v others in if e == k then (k, v) ∷ others else (e, a) ∷ rest

-- `split_off`: the entries from the key on.
unfoldable pub keep_from {ℓ} : {A : Type ℓ} → ℕ → List (ℕ × A) → List (ℕ × A)
keep_from floor entries = retain (λ entry. leb floor entry.0) entries

-- The greatest key, or the number if that is greater.
unfoldable pub newest_epoch {ℓ} : {A : Type ℓ} → ℕ → List (ℕ × A) → ℕ
newest_epoch e [] = e
newest_epoch e ((k, a) ∷ others) = max k (newest_epoch e others)
