-- ===== src/Tunnel/Open.antt =====
-- The receiving side of the keys (src/core/ipv8-tunnel/src/crypto.rs).
pub mod Paired
pub mod Received
pub mod Exchange
use ipv_8_public_base_statio.Common.{
  ℕ, ◌+◌, ◌-◌, ◌*◌, ◌%◌, ◌^◌, Bool, false, not, ◌&&◌, Option, none, some, List, [], ltb, ◌==◌,
  if◌then◌else◌, length, is_empty, get_or, take, drop, Result, ok, err, diverged, ◌>>=◌, ◌>>◌,
  reject_if,
}
use ipv_8_public_base_statio.Common.Bytes.{of_be}
use ipv_8_public_base_statio.Tunnel.Frame.{
  FrameError, body_too_short, decrypt_failed, ok_or, replay, shard_mismatch, stale_epoch,
  suite_mismatch, unknown_key_id,
}
use ipv_8_public_base_statio.Tunnel.Window.{RxWindow, accept, new_window}
use ipv_8_public_base_statio.Tunnel.Cipher.{
  Primitives, suite_from_byte, same_suite, Cipher, grace_epochs, cipher_for, nonce_for,
  receipt_nonce, find_epoch, put_epoch, keep_from, newest_epoch,
}
use ipv_8_public_base_statio.Tunnel.Keys.{TunnelKeys, advance_epoch}

-- The guards of `open_cipher`, up to the cache: the epoch of an acceptable KeyID.
unfoldable pub open_epoch : TunnelKeys → List ℕ → Result FrameError ℕ
open_epoch k key_id = do
  remote ← ok_or (suite_from_byte (get_or key_id 0 0)) unknown_key_id
  reject_if (not (same_suite remote k.suite)) (suite_mismatch k.suite remote)
  let epoch = of_be key_id % 2 ^ 56
  reject_if (not (epoch % k.stride == k.shard)) (shard_mismatch epoch k.shard k.stride)
  let newest = newest_epoch (newest_epoch epoch k.rx) k.rx_receipt
  reject_if (ltb (epoch + grace_epochs * k.stride) newest) (stale_epoch epoch newest)
  ok epoch

-- The keys after the call, with the cipher of the epoch in the cache.
unfoldable pub open_cipher : Primitives → TunnelKeys → ℕ → TunnelKeys × Cipher
open_cipher lib k epoch =
    let fresh = cipher_for lib k.dh k.suite epoch k.is_initiator false in
    elim (find_epoch epoch k.rx_ciphers) [
      | some held ↦ (k, held)
      | none ↦ (record k { rx_ciphers = put_epoch epoch fresh k.rx_ciphers }, fresh)
    ]

unfoldable pub prune : TunnelKeys → TunnelKeys
prune k =
    let newest = newest_epoch (newest_epoch 0 k.rx) k.rx_receipt in
    let floor = newest - grace_epochs * k.stride in
    if is_empty k.rx && is_empty k.rx_receipt then k else record k {
      rx = keep_from floor k.rx;
      rx_receipt = keep_from floor k.rx_receipt;
      rx_ciphers = keep_from floor k.rx_ciphers;
    }

-- `entry(epoch).or_default()`.
abbrev pub window_of : ℕ → List (ℕ × RxWindow) → RxWindow
window_of epoch windows = elim (find_epoch epoch windows) [ none ↦ new_window | some w ↦ w ]

abbrev pub opened : List ℕ → Bool → Result FrameError (List ℕ)
opened plaintext accepted = if accepted then ok plaintext else err replay

-- What follows on the decryption of a data frame: only an authentic frame takes a place in the
-- window.
unfoldable pub take_in :
    TunnelKeys → ℕ → ℕ → Option (List ℕ) → TunnelKeys × Result FrameError (List ℕ)
take_in cached epoch counter none = (cached, err decrypt_failed)
take_in cached epoch counter (some plaintext) =
    let (window, accepted) = accept (window_of epoch cached.rx) counter in
    (prune (record cached { rx = put_epoch epoch window cached.rx }), opened plaintext accepted)

unfoldable pub open_in :
    Primitives → TunnelKeys → ℕ → List ℕ → List ℕ → TunnelKeys × Result FrameError (List ℕ)
unfolding take_in
open_in lib k epoch body aad =
    let (cached, cipher) = open_cipher lib k epoch in
    let counter = of_be (take 8 body) in
    take_in cached epoch counter
      (lib.decrypt cipher.suite cipher.key (nonce_for counter) (drop 8 body) aad)

unfoldable pub open_frame :
    Primitives → TunnelKeys → List ℕ → List ℕ → List ℕ → TunnelKeys × Result FrameError (List ℕ)
unfolding open_in
open_frame lib k key_id body aad =
    if ltb (length body) 8 then (k, err body_too_short) else elim (open_epoch k key_id) [
      | err e ↦ (k, err e)
      | diverged ↦ (k, diverged)
      | ok epoch ↦ open_in lib k epoch body aad
    ]

unfoldable pub take_in_receipt :
    TunnelKeys → ℕ → ℕ → Option (List ℕ) → TunnelKeys × Result FrameError (List ℕ)
take_in_receipt cached epoch counter none = (cached, err decrypt_failed)
take_in_receipt cached epoch counter (some plaintext) =
    let (window, accepted) = accept (window_of epoch cached.rx_receipt) counter in
    (
      prune (record cached { rx_receipt = put_epoch epoch window cached.rx_receipt }),
      opened plaintext accepted,
    )

unfoldable pub open_receipt_in :
    Primitives → TunnelKeys → ℕ → List ℕ → TunnelKeys × Result FrameError (List ℕ)
unfolding take_in_receipt
open_receipt_in lib k epoch body =
    let (cached, cipher) = open_cipher lib k epoch in
    let counter = of_be (take 8 body) in
    take_in_receipt cached epoch counter
      (lib.decrypt cipher.suite cipher.key (receipt_nonce counter) (drop 8 body) [])

unfoldable pub open_receipt :
    Primitives → TunnelKeys → List ℕ → List ℕ → TunnelKeys × Result FrameError (List ℕ)
unfolding open_receipt_in
open_receipt lib k key_id body =
    if ltb (length body) 8 then (k, err body_too_short) else elim (open_epoch k key_id) [
      | err e ↦ (k, err e)
      | diverged ↦ (k, diverged)
      | ok epoch ↦ open_receipt_in lib k epoch body
    ]

unfoldable pub rekey : ℕ → TunnelKeys → List ℕ → TunnelKeys
unfolding advance_epoch
rekey now k new_dh = record (advance_epoch now (record k { dh = new_dh })) {
  rx = [];
  rx_receipt = [];
  rx_ciphers = [];
}
