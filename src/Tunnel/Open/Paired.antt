-- ===== src/Tunnel/Open/Paired.antt =====
-- What one end of a tunnel seals, the other end opens, frame after frame.
use ipv_8_public_base_statio.Common.{
  ℕ, ◌+◌, ◌-◌, ◌*◌, ◌%◌, ◌^◌, ◌≤◌, ◌<◌, ◌≡◌, refl, ap, sym, ◌∙◌, true, false, not, ◌||◌, some, List,
  [], ◌∷◌, ◌++◌, ltb, leb, ◌==◌, All, inl, inr, Bool-cases, Option-cases, arith, ok, is_empty,
  get_or, le→ltb, ==_iff,
}
use native.Mathlib.Nat.{add-mod_right}
use ipv_8_public_base_statio.Common.Bytes.{of_be, to_be}
use ipv_8_public_base_statio.Tunnel.Window.{RxWindow, accept}
use ipv_8_public_base_statio.Tunnel.Frame.{CipherSuite}
use ipv_8_public_base_statio.Tunnel.Cipher.{
  Cipher, Primitives, cipher_for, find_epoch, grace_epochs, hkdf, newest_epoch, put_epoch,
  suite_byte, same_suite, suite_from_byte,
}
use ipv_8_public_base_statio.Tunnel.Cipher.Laws
use ipv_8_public_base_statio.Tunnel.Keys.{
  TunnelKeys, advance_epoch, cached_cipher, frame_key_id, rotate,
}
use ipv_8_public_base_statio.Tunnel.Open.{open_cipher, open_epoch, window_of}

-- What the AEAD libraries promise: a message decrypts with the key, the nonce and the associated
-- data that it was encrypted with.
abbrev pub Decrypts : Primitives → Type 0
Decrypts lib =
    (suite : _) (key nonce message aad : List ℕ)
    → lib.decrypt suite key nonce (lib.encrypt suite key nonce message aad) aad ≡ some message

-- The keys `a` send what the keys `b` receive.
pub record IsPaired (lib : Primitives) (a b : TunnelKeys) : Type 0 where
  pub dh_eq : b.dh ≡ a.dh
  pub side : b.is_initiator ≡ not a.is_initiator
  pub suite_eq : b.suite ≡ a.suite
  pub shard_eq : b.shard ≡ a.shard
  pub stride_eq : b.stride ≡ a.stride
  pub stride_pos : 0 < a.stride
  pub in_shard : a.send_epoch % a.stride ≡ a.shard
  pub rx_behind : All (λ entry. entry.0 ≤ a.send_epoch) b.rx
  pub receipt_behind : All (λ entry. entry.0 ≤ a.send_epoch) b.rx_receipt
  pub counter_behind : (window_of a.send_epoch b.rx).top ≤ a.tx_counter
  pub tx_cached :
      (held : ℕ × Cipher)
      → a.send_cipher ≡ some held
      → held.1 ≡ cipher_for lib a.dh a.suite held.0 a.is_initiator true
  pub rx_cached :
      All (λ entry. entry.1 ≡ cipher_for lib b.dh b.suite entry.0 b.is_initiator false) b.rx_ciphers

epoch_accepted :
    (k : TunnelKeys) (key_id : List ℕ) (suite : CipherSuite) (e : ℕ)
    → suite_from_byte (get_or key_id 0 0) ≡ some suite
    → same_suite suite k.suite ≡ true
    → of_be key_id % 2 ^ 56 ≡ e
    → e % k.stride ≡ k.shard
    → newest_epoch (newest_epoch e k.rx) k.rx_receipt ≤ e
    → open_epoch k key_id ≡ ok e
unfolding open_epoch
epoch_accepted k key_id suite e known same read in_shard newest =
    let shard : (e % k.stride == k.shard) ≡ true = (==_iff (e % k.stride) k.shard).1 in_shard in
    let fresh : ltb (e + grace_epochs * k.stride) (newest_epoch (newest_epoch e k.rx) k.rx_receipt)
        ≡ false =
      le→ltb (e + grace_epochs * k.stride) _ (omega arith) in
    rw known (rw same (rw read (rw (shard, fresh) refl)))

module _ (lib : Primitives) (a b : TunnelKeys) (p : IsPaired lib a b) where
  advance_epoch-IsPaired : (now : ℕ) → IsPaired lib (advance_epoch now a) b
  unfolding advance_epoch
  advance_epoch-IsPaired now = record {
    dh_eq = p.dh_eq;
    side = p.side;
    suite_eq = p.suite_eq;
    shard_eq = p.shard_eq;
    stride_eq = p.stride_eq;
    stride_pos = p.stride_pos;
    in_shard = add-mod_right a.send_epoch a.stride ∙ p.in_shard;
    rx_behind = later b.rx p.rx_behind;
    receipt_behind = later b.rx_receipt p.receipt_behind;
    counter_behind = omega (arith, unseen);
    tx_cached = λ held e. cc;
    rx_cached = p.rx_cached;
  }
    where
      unseen : (window_of (a.send_epoch + a.stride) b.rx).top ≡ 0
      unseen =
          rw
            (
              Laws.find_epoch-above (a.send_epoch + a.stride) b.rx (
                  Laws.All-weaken_epoch (λ entry. entry.0 ≤ a.send_epoch)
                    (λ entry. entry.0 < a.send_epoch + a.stride) b.rx
                    (λ x h. omega (arith, p.stride_pos)) p.rx_behind),
              window_of,
            )
            refl

      later :
          (l : List (ℕ × RxWindow))
          → All (λ entry. entry.0 ≤ a.send_epoch) l
          → All (λ entry. entry.0 ≤ a.send_epoch + a.stride) l
      later l all =
          Laws.All-weaken_epoch (λ entry. entry.0 ≤ a.send_epoch)
            (λ entry. entry.0 ≤ a.send_epoch + a.stride) l (λ x h. omega arith) all

  pub rotate-IsPaired : (now : ℕ) → IsPaired lib (rotate now a) b
  unfolding rotate
  rotate-IsPaired now =
      elim (Bool-cases
        (leb 1073741824 a.epoch_bytes || leb 3600000000000 (now - a.epoch_created))) [
          | inl due ↦ rw due (advance_epoch-IsPaired now)
          | inr not_due ↦ rw not_due p
        ]

  pub cached_cipher-IsPaired :
      cached_cipher lib a ≡ cipher_for lib a.dh a.suite a.send_epoch a.is_initiator true
  unfolding cached_cipher
  cached_cipher-IsPaired = elim (Option-cases a.send_cipher) [
    | inl empty ↦ ground arith
    | inr (held, e) ↦ elim (Bool-cases (held.0 == a.send_epoch)) [
      | inl same ↦
          let same_epoch : cipher_for lib a.dh a.suite held.0 a.is_initiator true
              ≡ cipher_for lib a.dh a.suite a.send_epoch a.is_initiator true =
            ap (λ k. cipher_for lib a.dh a.suite k a.is_initiator true)
              ((==_iff held.0 a.send_epoch).0 same) in
          let known = p.tx_cached held e in ground arith
      | inr other ↦ ground arith
    ]
  ]

  -- Both ends derive the same cipher.
  pub same_cipher :
      (epoch : ℕ)
      → cipher_for lib b.dh b.suite epoch b.is_initiator false
        ≡ cipher_for lib a.dh a.suite epoch a.is_initiator true
  unfolding cipher_for
  same_cipher epoch =
      (λ i. cipher_for lib (p.dh_eq i) (p.suite_eq i) epoch (p.side i) false) ∙ (λ i. record {
        suite = a.suite;
        key = hkdf lib a.dh (
            Laws.direction_bit-not a.is_initiator i
            ∷ (to_be 8 epoch ++ (75 ∷ suite_byte a.suite ∷ [])));
      })

  pub open_epoch-frame_key_id :
      a.send_epoch < 2 ^ 56 → open_epoch b (frame_key_id a a.send_epoch) ≡ ok a.send_epoch
  unfolding open_epoch frame_key_id
  open_epoch-frame_key_id small =
      let epoch : of_be (suite_byte a.suite ∷ to_be 7 a.send_epoch) % 2 ^ 56 ≡ a.send_epoch =
        Laws.epoch_read (suite_byte a.suite) a.send_epoch small in
      let newest : newest_epoch (newest_epoch a.send_epoch b.rx) b.rx_receipt ≤ a.send_epoch =
        Laws.newest_epoch-le (newest_epoch a.send_epoch b.rx) a.send_epoch b.rx_receipt
          (Laws.newest_epoch-le a.send_epoch a.send_epoch b.rx (omega arith) p.rx_behind)
          p.receipt_behind in
      epoch_accepted b (frame_key_id a a.send_epoch) a.suite a.send_epoch
        (Laws.suite_from_byte-suite_byte a.suite)
        (ap (same_suite a.suite) p.suite_eq ∙ Laws.same_suite_refl a.suite) epoch
        ((λ i. a.send_epoch % p.stride_eq i) ∙ p.in_shard ∙ sym p.shard_eq) newest

  -- The cache holds the right cipher afterwards too.
  pub open_cipher-cached :
      (epoch : ℕ)
      → (l : List (ℕ × Cipher)) × (open_cipher lib b epoch
          ≡ (record b { rx_ciphers = l }, cipher_for lib b.dh b.suite epoch b.is_initiator false))
        × All (λ entry. entry.1 ≡ cipher_for lib b.dh b.suite entry.0 b.is_initiator false) l
  unfolding open_cipher
  open_cipher-cached epoch = elim (Option-cases (find_epoch epoch b.rx_ciphers)) [
    | inl missing ↦ (
      put_epoch epoch (cipher_for lib b.dh b.suite epoch b.is_initiator false) b.rx_ciphers,
      rw (missing, open_cipher) refl,
      Laws.All-put_epoch
          (λ entry. entry.1 ≡ cipher_for lib b.dh b.suite entry.0 b.is_initiator false) epoch
          (cipher_for lib b.dh b.suite epoch b.is_initiator false) b.rx_ciphers refl p.rx_cached,
    )
    | inr (held, found) ↦ (
      b.rx_ciphers,
      rw (found, open_cipher)
          (ap (λ c. (b, c))
            (Laws.All-find_epoch
              (λ entry. entry.1 ≡ cipher_for lib b.dh b.suite entry.0 b.is_initiator false) epoch
              held b.rx_ciphers found p.rx_cached)),
      p.rx_cached,
    )
  ]

pub accept-new :
    (w : RxWindow) (c : ℕ) → w.top < c → ((accept w c).1 ≡ true) × ((accept w c).0.top ≡ c)
unfolding accept
accept-new w c h = ground arith

pub put_epoch-filled :
    (k : ℕ) (v : RxWindow) (l : List (ℕ × RxWindow)) → is_empty (put_epoch k v l) ≡ false
unfolding put_epoch
put_epoch-filled k v [] = refl
put_epoch-filled k v ((e, w) ∷ l) = ground arith
