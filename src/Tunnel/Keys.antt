-- ===== src/Tunnel/Keys.antt =====
-- The keys of a tunnel and the sending side of them, TunnelKeys
-- (src/core/ipv8-tunnel/src/crypto.rs). The clock is an argument, in nanoseconds.
use ipv_8_public_base_statio.Common.{
  ℕ, ◌+◌, ◌-◌, Bool, true, false, not, ◌||◌, ◌&&◌, Option, none, some, List, [], ◌∷◌, ◌++◌, ltb,
  leb, ◌==◌, if◌then◌else◌, length, is_empty,
}
use ipv_8_public_base_statio.Common.Bytes.{to_be}
use ipv_8_public_base_statio.Tunnel.Frame.{CipherSuite, chacha20_poly1305}
use ipv_8_public_base_statio.Tunnel.Window.{RxWindow}
use ipv_8_public_base_statio.Tunnel.Cipher.{
  Primitives, suite_byte, Cipher, rotate_bytes, rotate_time, cipher_for, nonce_for, receipt_nonce,
}

pub record TunnelKeys : Type 0 where
  pub dh : List ℕ
  pub is_initiator : Bool
  pub suite : CipherSuite
  pub send_epoch : ℕ
  pub epoch_created : ℕ
  pub epoch_bytes : ℕ
  pub tx_counter : ℕ
  pub tx_receipt_counter : ℕ
  pub shard : ℕ
  pub stride : ℕ
  pub rx : List (ℕ × RxWindow)
  pub rx_receipt : List (ℕ × RxWindow)
  pub send_cipher : Option (ℕ × Cipher)
  pub rx_ciphers : List (ℕ × Cipher)

unfoldable pub new_keys : ℕ → List ℕ → Bool → TunnelKeys
new_keys now dh is_initiator = record {
  dh = dh;
  is_initiator = is_initiator;
  suite = chacha20_poly1305;
  send_epoch = 0;
  epoch_created = now;
  epoch_bytes = 0;
  tx_counter = 0;
  tx_receipt_counter = 0;
  shard = 0;
  stride = 1;
  rx = [];
  rx_receipt = [];
  send_cipher = none;
  rx_ciphers = [];
}

unfoldable pub with_suite : ℕ → List ℕ → Bool → CipherSuite → TunnelKeys
unfolding new_keys
with_suite now dh is_initiator suite = record (new_keys now dh is_initiator) { suite = suite }

-- `none` is the failed assertion.
unfoldable pub with_shard : ℕ → List ℕ → Bool → CipherSuite → ℕ → ℕ → Option TunnelKeys
unfolding with_suite
with_shard now dh is_initiator suite shard stride =
    if ltb 0 stride && ltb shard stride
    then some (record (with_suite now dh is_initiator suite) {
      shard = shard;
      stride = stride;
      send_epoch = shard;
    })
    else none

unfoldable pub derive_shard : ℕ → TunnelKeys → ℕ → ℕ → Option TunnelKeys
derive_shard now k shard stride =
    if ltb 0 stride && ltb shard stride
    then some (record k {
      shard = shard;
      stride = stride;
      send_epoch = shard;
      epoch_created = now;
      epoch_bytes = 0;
      tx_counter = 0;
      tx_receipt_counter = 0;
      rx = [];
      rx_receipt = [];
      send_cipher = none;
      rx_ciphers = [];
    })
    else none

unfoldable pub set_suite : TunnelKeys → CipherSuite → TunnelKeys × Bool
set_suite k suite =
    if not (k.send_epoch == k.shard) || (not (k.tx_counter == 0) || not (is_empty k.rx))
    then (k, false)
    else (record k { suite = suite; send_cipher = none; rx_ciphers = [] }, true)

unfoldable pub frame_key_id : TunnelKeys → ℕ → List ℕ
frame_key_id k epoch = suite_byte k.suite ∷ to_be 7 epoch

unfoldable pub advance_epoch : ℕ → TunnelKeys → TunnelKeys
advance_epoch now k = record k {
  send_epoch = k.send_epoch + k.stride;
  epoch_created = now;
  epoch_bytes = 0;
  tx_counter = 0;
  tx_receipt_counter = 0;
  send_cipher = none;
}

-- The rotation that is due, if any.
unfoldable pub rotate : ℕ → TunnelKeys → TunnelKeys
unfolding advance_epoch
rotate now k =
    if leb rotate_bytes k.epoch_bytes || leb rotate_time (now - k.epoch_created)
    then advance_epoch now k
    else k

-- The cached cipher of the epoch, or a new one.
unfoldable pub cached_cipher : Primitives → TunnelKeys → Cipher
cached_cipher lib k =
    let fresh = cipher_for lib k.dh k.suite k.send_epoch k.is_initiator true in
    elim k.send_cipher [
      | none ↦ fresh
      | some held ↦ if held.0 == k.send_epoch then held.1 else fresh
    ]

-- `send_epoch_ready`, with the cipher that the callers take from the cache.
unfoldable pub send_epoch_ready : Primitives → ℕ → TunnelKeys → TunnelKeys × Cipher
unfolding rotate cached_cipher
send_epoch_ready lib now k =
    let due = rotate now k in
    let cipher = cached_cipher lib due in
    (record due { send_cipher = some (due.send_epoch, cipher) }, cipher)

-- The keys after the call, the KeyID and the frame body.
unfoldable pub seal : Primitives → ℕ → TunnelKeys → List ℕ → List ℕ → TunnelKeys × List ℕ × List ℕ
seal lib now k aad plaintext =
    let (ready, cipher) = send_epoch_ready lib now k in
    let counter = ready.tx_counter + 1 in
    let ct = lib.encrypt cipher.suite cipher.key (nonce_for counter) plaintext aad in
    let body = to_be 8 counter ++ ct in
    (
      record ready { tx_counter = counter; epoch_bytes = ready.epoch_bytes + length body },
      frame_key_id ready ready.send_epoch,
      body,
    )

unfoldable pub seal_receipt : Primitives → ℕ → TunnelKeys → List ℕ → TunnelKeys × List ℕ × List ℕ
seal_receipt lib now k plaintext =
    let (ready, cipher) = send_epoch_ready lib now k in
    let counter = ready.tx_receipt_counter + 1 in
    let ct = lib.encrypt cipher.suite cipher.key (receipt_nonce counter) plaintext [] in
    let body = to_be 8 counter ++ ct in
    (
      record ready { tx_receipt_counter = counter; epoch_bytes = ready.epoch_bytes + length body },
      frame_key_id ready ready.send_epoch,
      body,
    )
