-- ===== src/Tunnel/Open/Received.antt =====
-- The end of a tunnel that receives, on the frame that the other end has just sealed.
use ipv_8_public_base_statio.Common.{
  ℕ, ◌+◌, ◌-◌, ◌*◌, ◌^◌, ◌≤◌, ◌<◌, ◌≡◌, refl, ap, sym, subst, ◌∙◌, true, false, Option, some, List,
  ◌++◌, length, take, drop, All, arith, ok, take-length_append, drop-length_append, le→ltb,
  is_empty, length-append,
}
use ipv_8_public_base_statio.Common.Bytes.{of_be, of_be-to_be, to_be, length-to_be}
use ipv_8_public_base_statio.Tunnel.Window.{RxWindow, accept}
use ipv_8_public_base_statio.Tunnel.Cipher.{
  Cipher, Primitives, cipher_for, grace_epochs, keep_from, newest_epoch, nonce_for, put_epoch,
}
use ipv_8_public_base_statio.Tunnel.Cipher.Laws
use ipv_8_public_base_statio.Tunnel.Keys.{TunnelKeys, frame_key_id}
use ipv_8_public_base_statio.Tunnel.Open.{
  open_cipher, open_frame, open_in, opened, prune, take_in, window_of,
}
use ipv_8_public_base_statio.Tunnel.Open.Paired.{
  Decrypts, IsPaired, accept-new, open_cipher-cached, open_epoch-frame_key_id, put_epoch-filled,
  same_cipher,
}

prune_filled :
    (k : TunnelKeys)
    → is_empty k.rx ≡ false
    → prune k ≡ (
        let floor = newest_epoch (newest_epoch 0 k.rx) k.rx_receipt - grace_epochs * k.stride in
        record k {
          rx = keep_from floor k.rx;
          rx_receipt = keep_from floor k.rx_receipt;
          rx_ciphers = keep_from floor k.rx_ciphers;
        })
unfolding prune
prune_filled k h = ground arith

counter_read : (c : ℕ) (ct : List ℕ) → c < 256 ^ 8 → of_be (take 8 (to_be 8 c ++ ct)) ≡ c
counter_read c ct h =
    ap of_be
      ((λ i. take (sym (length-to_be 8 c) i) (to_be 8 c ++ ct)) ∙ take-length_append (to_be 8 c) ct)
    ∙ of_be-to_be 8 c h

text_read : (c : ℕ) (ct : List ℕ) → drop 8 (to_be 8 c ++ ct) ≡ ct
text_read c ct =
    (λ i. drop (sym (length-to_be 8 c) i) (to_be 8 c ++ ct)) ∙ drop-length_append (to_be 8 c) ct

open_in_as :
    (lib : Primitives) (k cached : TunnelKeys) (epoch counter : ℕ) (cipher : Cipher)
    (body ct aad text : List ℕ)
    → open_cipher lib k epoch ≡ (cached, cipher)
    → of_be (take 8 body) ≡ counter
    → drop 8 body ≡ ct
    → lib.decrypt cipher.suite cipher.key (nonce_for counter) ct aad ≡ some text
    → (accept (window_of epoch cached.rx) counter).1 ≡ true
    → open_in lib k epoch body aad ≡ (
      prune (record cached {
        rx = put_epoch epoch (accept (window_of epoch cached.rx) counter).0 cached.rx;
      }),
      ok text,
    )
unfolding open_in take_in
open_in_as lib k cached epoch counter cipher body ct aad text e read tail decrypted new =
    (λ i.
      take_in (e i).0 epoch (read i)
        (lib.decrypt (e i).1.suite (e i).1.key (nonce_for (read i)) (tail i) aad))
    ∙ ap (take_in cached epoch counter) decrypted
    ∙ (λ i. (
      prune (record cached {
        rx = put_epoch epoch (accept (window_of epoch cached.rx) counter).0 cached.rx;
      }),
      opened text (new i),
    ))

some_same : (x y : ℕ × Cipher) → ◌≡◌ {A = Option (ℕ × Cipher)} (some x) (some y) → x ≡ y
some_same x y e = cc

-- The end that receives, on the frame that the other end has just sealed with a cipher of its own.
module _ (lib : Primitives) (works : Decrypts lib) (a b : TunnelKeys) (p : IsPaired lib a b)
    (aad text : List ℕ) (small : a.tx_counter + 1 < 256 ^ 8) where
  abbrev pub epoch : ℕ
  epoch = a.send_epoch

  abbrev pub counter : ℕ
  counter = a.tx_counter + 1

  abbrev pub cipher : Cipher
  cipher = cipher_for lib a.dh a.suite epoch a.is_initiator true

  abbrev pub body : List ℕ
  body = to_be 8 counter ++ lib.encrypt cipher.suite cipher.key (nonce_for counter) text aad

  abbrev pub window : RxWindow
  window = (accept (window_of epoch b.rx) counter).0

  abbrev pub caches : List (ℕ × Cipher)
  caches = (open_cipher-cached lib a b p epoch).0

  abbrev pub received : TunnelKeys
  received = record b { rx_ciphers = caches; rx = put_epoch epoch window b.rx }

  open_in-received : open_in lib b epoch body aad ≡ (prune received, ok text)
  open_in-received =
      let cached = open_cipher-cached lib a b p epoch in
      let ct : List ℕ = lib.encrypt cipher.suite cipher.key (nonce_for counter) text aad in
      open_in_as lib b (record b { rx_ciphers = caches }) epoch counter cipher body ct aad text
        (cached.1 ∙ ap (λ c. (record b { rx_ciphers = caches }, c)) (same_cipher lib a b p epoch))
        (counter_read counter ct small) (text_read counter ct)
        (works cipher.suite cipher.key (nonce_for counter) text aad)
        (accept-new (window_of epoch b.rx) counter (omega (arith, p.counter_behind))).0

  pub open_frame-received :
      epoch < 2 ^ 56 → open_frame lib b (frame_key_id a epoch) body aad ≡ (prune received, ok text)
  unfolding open_frame
  open_frame-received fits =
      rw
        (
          le→ltb (length body) 8 (
              omega (
                arith,
                length-append (to_be 8 counter)
                    (lib.encrypt cipher.suite cipher.key (nonce_for counter) text aad),
                length-to_be 8 counter,
              )),
          open_frame,
          open_epoch-frame_key_id lib a b p fits,
        )
        open_in-received

  abbrev floor : ℕ
  floor = newest_epoch (newest_epoch 0 received.rx) b.rx_receipt - grace_epochs * b.stride

  rx_after : All (λ entry. entry.0 ≤ epoch) received.rx
  rx_after =
      Laws.All-put_epoch (λ entry. entry.0 ≤ epoch) epoch window b.rx (omega arith) p.rx_behind

  floor-le : floor ≤ epoch
  floor-le = omega (
    arith,
    Laws.newest_epoch-le (newest_epoch 0 received.rx) epoch b.rx_receipt
        (Laws.newest_epoch-le 0 epoch received.rx (omega arith) rx_after) p.receipt_behind,
  )

  kept_window : window_of epoch (keep_from floor received.rx) ≡ window
  kept_window =
      rw
        (
          Laws.find_epoch-keep_from epoch floor received.rx floor-le
              ∙ Laws.find_epoch-put_same epoch window b.rx,
          window_of,
        )
        refl

  -- The keys that sent the frame go on as a pair with those that took it in.
  pub received-IsPaired :
      (bytes : ℕ)
      → IsPaired lib
          (record a {
            send_cipher = some (epoch, cipher);
            tx_counter = counter;
            epoch_bytes = bytes;
          })
          (prune received)
  received-IsPaired bytes =
      subst (IsPaired lib _) (sym (prune_filled received (put_epoch-filled epoch window b.rx)))
        (record {
          dh_eq = p.dh_eq;
          side = p.side;
          suite_eq = p.suite_eq;
          shard_eq = p.shard_eq;
          stride_eq = p.stride_eq;
          stride_pos = p.stride_pos;
          in_shard = p.in_shard;
          rx_behind = Laws.All-keep_from (λ entry. entry.0 ≤ epoch) floor received.rx rx_after;
          receipt_behind =
              Laws.All-keep_from (λ entry. entry.0 ≤ epoch) floor b.rx_receipt p.receipt_behind;
          counter_behind = omega (
            arith,
            ap (λ (w : RxWindow). w.top) kept_window,
            (accept-new (window_of epoch b.rx) counter (omega (arith, p.counter_behind))).1,
          );
          tx_cached = λ held e.
              subst (λ (x : ℕ × Cipher). x.1 ≡ cipher_for lib a.dh a.suite x.0 a.is_initiator true)
                (some_same (epoch, cipher) held e) refl;
          rx_cached =
              Laws.All-keep_from
                (λ entry. entry.1 ≡ cipher_for lib b.dh b.suite entry.0 b.is_initiator false) floor
                caches (open_cipher-cached lib a b p epoch).2;
        })
