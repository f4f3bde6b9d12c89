-- ===== src/Tunnel/Open/Exchange.antt =====
-- A sequence of frames from one end of a tunnel to the other.
use ipv_8_public_base_statio.Common.{
  ℕ, suc, ◌+◌, ◌-◌, ◌*◌, ◌^◌, ◌<◌, ◌≡◌, refl, ap, sym, subst, ◌∙◌, ◌||◌, some, List, [], ◌∷◌, ◌++◌,
  leb, length, map, inl, inr, Bool-cases, arith, ok, Result,
}
use ipv_8_public_base_statio.Common.Bytes.{to_be}
use ipv_8_public_base_statio.Tunnel.Frame.{FrameError}
use ipv_8_public_base_statio.Tunnel.Cipher.{Cipher, Primitives, nonce_for}
use ipv_8_public_base_statio.Tunnel.Keys.{
  TunnelKeys, cached_cipher, frame_key_id, rotate, seal, send_epoch_ready, advance_epoch,
}
use ipv_8_public_base_statio.Tunnel.Open.{open_frame, prune}
use ipv_8_public_base_statio.Tunnel.Open.Paired.{
  Decrypts, IsPaired, cached_cipher-IsPaired, rotate-IsPaired,
}
use ipv_8_public_base_statio.Tunnel.Open.Received.{
  body, open_frame-received, received, received-IsPaired,
}

-- A message with the time at which it is sealed and the header that it is bound to.
pub record Message : Type 0 where
  pub now : ℕ
  pub aad : List ℕ
  pub text : List ℕ

-- The answers of the end `b` to the frames that the end `a` seals.
unfoldable pub exchange :
    Primitives → TunnelKeys → TunnelKeys → List Message → List (Result FrameError (List ℕ))
exchange lib a b [] = []
exchange lib a b (m ∷ ms) =
    let (a', key_id, body) = seal lib m.now a m.aad m.text in
    let (b', answer) = open_frame lib b key_id body m.aad in answer ∷ exchange lib a' b' ms

-- There are epochs and counters left for `n` messages.
abbrev pub HasRoom : ℕ → TunnelKeys → Type 0
HasRoom n a = (a.send_epoch + a.stride * n < 2 ^ 56) × (a.tx_counter + n < 256 ^ 8)

module _ (lib : Primitives) (works : Decrypts lib) where
  rotate-HasRoom :
      (n now : ℕ) (a : TunnelKeys)
      → HasRoom (suc n) a
      → ((rotate now a).send_epoch + (rotate now a).stride * n < 2 ^ 56)
        × ((rotate now a).tx_counter + suc n < 256 ^ 8)
  unfolding rotate advance_epoch
  rotate-HasRoom n now a (epochs, counters) =
      elim (Bool-cases
        (leb 1073741824 a.epoch_bytes || leb 3600000000000 (now - a.epoch_created))) [
          | inl due ↦ rw due (omega arith, omega arith)
          | inr not_due ↦ rw not_due (omega arith, omega arith)
        ]

  -- What `seal` gives, with the cipher of its epoch.
  abbrev sealed : TunnelKeys → Message → Cipher → TunnelKeys × List ℕ × List ℕ
  sealed due m c =
      let body =
        to_be 8 (due.tx_counter + 1)
        ++ lib.encrypt c.suite c.key (nonce_for (due.tx_counter + 1)) m.text m.aad in
      (
        record due {
          send_cipher = some (due.send_epoch, c);
          tx_counter = due.tx_counter + 1;
          epoch_bytes = due.epoch_bytes + length body;
        },
        frame_key_id due due.send_epoch,
        body,
      )

  seal-sealed :
      (a : TunnelKeys) (m : Message)
      → seal lib m.now a m.aad m.text
        ≡ sealed (rotate m.now a) m (cached_cipher lib (rotate m.now a))
  unfolding seal send_epoch_ready frame_key_id
  seal-sealed a m = refl

  -- One message.
  pub exchange-step :
      (a b : TunnelKeys) (m : Message) (n : ℕ)
      → IsPaired lib a b
      → HasRoom (suc n) a
      → (b' : TunnelKeys) × (open_frame lib b
            (seal lib m.now a m.aad m.text).1
            (seal lib m.now a m.aad m.text).2
            m.aad
          ≡ (b', ok m.text))
        × IsPaired lib (seal lib m.now a m.aad m.text).0 b'
        × HasRoom n (seal lib m.now a m.aad m.text).0
  exchange-step a b m n p room =
      let due : TunnelKeys = rotate m.now a in
      let q : IsPaired lib due b = rotate-IsPaired lib a b p m.now in
      let left = rotate-HasRoom n m.now a room in
      let small : due.tx_counter + 1 < 256 ^ 8 = omega (arith, left.1) in
      let fits : due.send_epoch < 2 ^ 56 = omega (arith, left.0) in
      let result = seal-sealed a m ∙ ap (sealed due m) (cached_cipher-IsPaired lib due b q) in
      subst
        (λ (s : TunnelKeys × List ℕ × List ℕ).
          (b' : TunnelKeys) × (open_frame lib b s.1 s.2 m.aad ≡ (b', ok m.text))
          × IsPaired lib s.0 b'
          × HasRoom n s.0)
        (sym result)
        (
          prune (received lib works due b q m.aad m.text small),
          open_frame-received lib works due b q m.aad m.text small fits,
          received-IsPaired lib works due b q m.aad m.text small _,
          (left.0, omega (arith, left.1)),
        )

-- Let two ends of a tunnel hold keys that fit each other, with epochs and counters left for the
-- messages. Then each of a sequence of messages that one end seals, rotations of its key included,
-- opens at the other end as what was sealed, if the AEAD cipher decrypts what it encrypted.
pub exchange-map :
    (lib : Primitives) (a b : TunnelKeys) (ms : List Message)
    → Decrypts lib
    → IsPaired lib a b
    → HasRoom (length ms) a
    → exchange lib a b ms ≡ map (λ m. ok m.text) ms
unfolding exchange
exchange-map lib a b [] works p room = refl
exchange-map lib a b (m ∷ ms) works p room =
    let (b', answered, q, left) = exchange-step lib works a b m (length ms) p room in
    (λ i. (answered i).1 ∷ exchange lib (seal lib m.now a m.aad m.text).0 (answered i).0 ms)
    ∙ ap (◌∷◌ (ok m.text)) (exchange-map lib (seal lib m.now a m.aad m.text).0 b' ms works q left)
