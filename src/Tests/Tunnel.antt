-- ===== src/Tests/Tunnel.antt =====
-- The tunnel at concrete keys, with a cipher that only adds a tag.
use ipv_8_public_base_statio.Common.{
  ℕ, ◌-◌, ◌≡◌, ◌≢◌, ◌++◌, refl, ap, ◌∙◌, List, [], ◌∷◌, ok, arith, replicate, length, some, true,
  false, map, take, drop, length-append, take-length_append,
}
use ipv_8_public_base_statio.Codec.Encode.{encode_base, encode_chain}
use ipv_8_public_base_statio.Tunnel.Window.{accept_all, new_window}
use ipv_8_public_base_statio.Tunnel.Window.Masks.{remember_all}
use ipv_8_public_base_statio.Tunnel.Window.Refines.{accept_all-remember_all}
use ipv_8_public_base_statio.Tunnel.Frame.{data_frame, write_head}
use ipv_8_public_base_statio.Tunnel.Cipher.{Primitives, nonce_for, receipt_nonce, find_epoch}
use ipv_8_public_base_statio.Tunnel.Cipher.Nonces.{nonces_differ}
use ipv_8_public_base_statio.Tunnel.Keys.{TunnelKeys, new_keys, seal}
use ipv_8_public_base_statio.Tunnel.Open.Paired.{Decrypts, IsPaired}
use ipv_8_public_base_statio.Tunnel.Open.Exchange.{HasRoom, Message, exchange, exchange-map}
use ipv_8_public_base_statio.Tunnel.Encapsulate.{decapsulate, encapsulate}
use ipv_8_public_base_statio.Tunnel.Encapsulate.RoundTrip.{
  AddsTag, decapsulate-encapsulate, encapsulate_trailing,
}
use ipv_8_public_base_statio.Tests.Codec.{plain}
use ipv_8_public_base_statio.Tests.Reassembly.{header, header-IsHeader, payload, plain_written}

-- The message with 16 zeros for a tag, and the key in front of a message for a hash.
abbrev lib : Primitives
lib = record {
  hmac = λ key message. key ++ message;
  encrypt = λ suite key nonce message aad. message ++ replicate 16 0;
  decrypt = λ suite key nonce ct aad. some (take (length ct - 16) ct);
}

lib-Decrypts : Decrypts lib
lib-Decrypts suite key nonce message aad =
    ap some (
      ap (λ n. take n (message ++ replicate 16 0)) cut
      ∙ take-length_append message (replicate 16 0))
  where
    cut : length (message ++ replicate 16 0) - 16 ≡ length message
    cut = omega (arith, length-append message (replicate 16 0))

lib-AddsTag : AddsTag lib
lib-AddsTag suite key nonce message aad = length-append message (replicate 16 0)

abbrev dh : List ℕ
dh = replicate 32 7

keys-IsPaired : IsPaired lib (new_keys 0 dh true) (new_keys 0 dh false)
unfolding new_keys find_epoch
keys-IsPaired = record {
  dh_eq = refl;
  side = refl;
  suite_eq = refl;
  shard_eq = refl;
  stride_eq = refl;
  stride_pos = omega arith;
  in_shard = refl;
  rx_behind = tt;
  receipt_behind = tt;
  counter_behind = omega arith;
  tx_cached = λ held e. cc;
  rx_cached = tt;
}

-- The second message comes an hour later, so that the key is rotated in between.
abbrev messages : List Message
messages =
    record { now = 0; aad = 1 ∷ 2 ∷ []; text = 3 ∷ [] }
    ∷ record { now = 3600000000000; aad = []; text = 4 ∷ 5 ∷ [] }
    ∷ []

room : HasRoom 2 (new_keys 0 dh true)
unfolding new_keys
room = (omega arith, omega arith)

exchange-map_example :
    exchange lib (new_keys 0 dh true) (new_keys 0 dh false) messages ≡ map (λ m. ok m.text) messages
exchange-map_example =
    exchange-map lib (new_keys 0 dh true) (new_keys 0 dh false) messages lib-Decrypts keys-IsPaired
      room

room_for_one : HasRoom 1 (new_keys 0 dh true)
unfolding new_keys
room_for_one = (omega arith, omega arith)

decapsulate-encapsulate_example :
    (a' : TunnelKeys) × (frame : List ℕ) × (b' : TunnelKeys) × (encapsulate lib 5
        (new_keys 0 dh true)
        plain
      ≡ (a', ok frame))
    × (decapsulate lib (new_keys 0 dh false) frame ≡ (b', ok plain))
    × IsPaired lib a' b'
decapsulate-encapsulate_example =
    decapsulate-encapsulate lib (new_keys 0 dh true) (new_keys 0 dh false) 5 header payload plain
      lib-Decrypts lib-AddsTag keys-IsPaired room_for_one header-IsHeader tt plain_written

encapsulate_trailing_example :
    (shown : List ℕ) × (shown ≡ (encode_base header ++ encode_chain []) ++ take 2 payload)
    × (encapsulate lib 5 (new_keys 0 dh true) (plain ++ (8 ∷ 9 ∷ [])) ≡ (
        let s = seal lib 5 (new_keys 0 dh true) shown (drop 2 payload ++ (8 ∷ 9 ∷ [])) in
        (s.0, ok ((write_head [] data_frame s.1 ++ shown) ++ s.2))))
encapsulate_trailing_example =
    encapsulate_trailing lib (new_keys 0 dh true) 5 header payload plain (8 ∷ 9 ∷ [])
      header-IsHeader tt plain_written (omega arith)

nonces_differ_example :
    (◌≢◌ {A = ℕ} 3 4 → nonce_for 3 ≢ nonce_for 4)
    × ((◌≢◌ {A = ℕ} 3 4 → receipt_nonce 3 ≢ receipt_nonce 4) × (nonce_for 3 ≢ receipt_nonce 4))
nonces_differ_example = nonces_differ 3 4 (omega arith) (omega arith)

abbrev counters : List ℕ
counters = 3 ∷ 1 ∷ 3 ∷ 130 ∷ 2 ∷ 4 ∷ 4 ∷ 0 ∷ []

accept_all-remember_all_example : accept_all new_window counters ≡ remember_all [] counters
accept_all-remember_all_example = accept_all-remember_all counters
