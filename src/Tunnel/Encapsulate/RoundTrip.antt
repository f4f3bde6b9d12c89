-- ===== src/Tunnel/Encapsulate/RoundTrip.antt =====
-- A packet that one end of a tunnel wraps in a frame comes out at the other end.
use ipv_8_public_base_statio.Common.{
  ℕ, ◌+◌, ◌-◌, ◌≤◌, ◌≡◌, refl, ap, sym, ◌∙◌, List, [], ◌++◌, length, take, drop, ok, arith,
  append_assoc, length-append, take-length_append, drop-length_append, take-append-drop, le→ltb,
  drop_at, Result, length-take, length-drop,
}
use ipv_8_public_base_statio.Codec.Header.{IPv8Header, Fresh, ext_total}
use ipv_8_public_base_statio.Codec.Encode.{encode, encode_base, encode_chain}
use ipv_8_public_base_statio.Codec.Decode.{Decoded, decode}
use ipv_8_public_base_statio.Codec.RoundTrip.{
  Accepted, IsHeader, decode-encode, decode-head, encode-eq-ok, length-encode_base,
  length-encode_chain,
}
use ipv_8_public_base_statio.Tunnel.Frame.{
  FrameError, data_frame, parse_head, type_byte, write_head,
}
use ipv_8_public_base_statio.Tunnel.Frame.RoundTrip.{parse_head-write_head}
use ipv_8_public_base_statio.Tunnel.Cipher.{Primitives, nonce_for}
use ipv_8_public_base_statio.Tunnel.Keys.{TunnelKeys, seal, send_epoch_ready, frame_key_id}
use ipv_8_public_base_statio.Tunnel.Open.{open_frame}
use ipv_8_public_base_statio.Tunnel.Open.Paired.{Decrypts, IsPaired}
use ipv_8_public_base_statio.Tunnel.Open.Exchange.{HasRoom, Message, exchange-step}
use ipv_8_public_base_statio.Common.Bytes.{length-to_be, to_be}
use ipv_8_public_base_statio.Tunnel.Encapsulate.{decapsulate, encapsulate, prepend, split_frame}

-- The AEAD libraries add a tag of 16 bytes.
abbrev pub AddsTag : Primitives → Type 0
AddsTag lib =
    (suite : _) (key nonce message aad : List ℕ)
    → length (lib.encrypt suite key nonce message aad) ≡ length message + 16

seal-sizes :
    (lib : Primitives) (now : ℕ) (k : TunnelKeys) (aad text : List ℕ)
    → AddsTag lib
    → (length (seal lib now k aad text).1 ≡ 8)
      × (length (seal lib now k aad text).2 ≡ length text + 24)
unfolding seal frame_key_id
seal-sizes lib now k aad text tags =
    let ready = send_epoch_ready lib now k in
    let counter : ℕ = ready.0.tx_counter + 1 in
    let ct : List ℕ = lib.encrypt ready.1.suite ready.1.key (nonce_for counter) text aad in
    (
      omega (arith, length-to_be 7 ready.0.send_epoch),
      omega (
        arith,
        length-append (to_be 8 counter) ct,
        length-to_be 8 counter,
        tags ready.1.suite ready.1.key (nonce_for counter) text aad,
      ),
    )

split_as :
    (frame key_id body : List ℕ) (d : Decoded)
    → parse_head frame ≡ ok (record { frame_type = data_frame; key_id = key_id })
    → drop 10 frame ≡ body
    → 64 ≤ length body
    → decode body ≡ ok d
    → 8 ≤ length body - (40 + ext_total d.header.ext_headers)
    → split_frame frame ≡ ok (key_id, body, 40 + ext_total d.header.ext_headers)
unfolding split_frame type_byte
split_as frame key_id body d parsed rest long read room =
    rw (parsed, rest, le→ltb (length body) 64 long, read)
      (rw (le→ltb (length body - (40 + ext_total d.header.ext_headers)) 8 room) (ground arith))

length-write_head :
    (key_id : List ℕ) → length key_id ≡ 8 → 10 ≡ length (write_head [] data_frame key_id)
unfolding write_head
length-write_head key_id e = omega arith

-- A frame whose readable part is a header and chain that the encoder wrote.
split_frame-head :
    (h : IPv8Header) (key_id rest : List ℕ)
    → IsHeader h
    → Fresh [] h.ext_headers
    → Accepted h
    → length key_id ≡ 8
    → h.payload_len + 24 ≤ length rest
    → split_frame
        ((write_head [] data_frame key_id ++ (encode_base h ++ encode_chain h.ext_headers)) ++ rest)
      ≡ ok (
        key_id,
        (encode_base h ++ encode_chain h.ext_headers) ++ rest,
        40 + ext_total h.ext_headers,
      )
split_frame-head h key_id rest v fresh a key long =
    let plain : List ℕ = encode_base h ++ encode_chain h.ext_headers in
    let start : List ℕ = write_head [] data_frame key_id in
    let len : length (plain ++ rest) ≡ 40 + ext_total h.ext_headers + length rest = omega (
      arith,
      length-append plain rest,
      length-append (encode_base h) (encode_chain h.ext_headers),
      length-encode_base h,
      length-encode_chain h.ext_headers,
    ) in
    split_as ((start ++ plain) ++ rest) key_id (plain ++ rest)
      (record { header = h; payload = take h.payload_len rest })
      (ap parse_head (append_assoc start plain rest)
        ∙ parse_head-write_head data_frame key_id (plain ++ rest) key)
      (ap (drop 10) (append_assoc start plain rest)
        ∙ drop_at (start ++ (plain ++ rest)) (length-write_head key_id key)
        ∙ drop-length_append start (plain ++ rest))
      (omega arith) (decode-head h rest v fresh a (omega arith)) (omega arith)

-- The frame that `encapsulate` writes around a packet of two parts, the second as long as the
-- payload.
abbrev frame_with : List ℕ → TunnelKeys × List ℕ × List ℕ → TunnelKeys × Result FrameError (List ℕ)
frame_with plain sealed = (sealed.0, ok ((write_head [] data_frame sealed.1 ++ plain) ++ sealed.2))

encapsulate-frame_with :
    (lib : Primitives) (now : ℕ) (k : TunnelKeys) (plain secret : List ℕ) (d : Decoded)
    → decode (plain ++ secret) ≡ ok d
    → length d.payload ≡ length secret
    → encapsulate lib now k (plain ++ secret) ≡ frame_with plain (seal lib now k plain secret)
unfolding encapsulate
encapsulate-frame_with lib now k plain secret d e size =
    let at : length (plain ++ secret) - length d.payload ≡ length plain =
      omega (arith, length-append plain secret) in
    let front : take (length (plain ++ secret) - length d.payload) (plain ++ secret) ≡ plain =
      ap (λ n. take n (plain ++ secret)) at ∙ take-length_append plain secret in
    let back : drop (length (plain ++ secret) - length d.payload) (plain ++ secret) ≡ secret =
      drop_at (plain ++ secret) at ∙ drop-length_append plain secret in
    rw (e, encapsulate) (λ i. frame_with (front i) (seal lib now k (front i) (back i)))

decapsulate-head :
    (lib : Primitives) (k : TunnelKeys) (h : IPv8Header) (key_id rest : List ℕ)
    → IsHeader h
    → Fresh [] h.ext_headers
    → Accepted h
    → length key_id ≡ 8
    → h.payload_len + 24 ≤ length rest
    → decapsulate lib k
        ((write_head [] data_frame key_id ++ (encode_base h ++ encode_chain h.ext_headers)) ++ rest)
      ≡ prepend
          (encode_base h ++ encode_chain h.ext_headers)
          (open_frame lib k key_id rest (encode_base h ++ encode_chain h.ext_headers))
unfolding decapsulate
decapsulate-head lib k h key_id rest v fresh a key long =
    let plain : List ℕ = encode_base h ++ encode_chain h.ext_headers in
    let at : 40 + ext_total h.ext_headers ≡ length plain = omega (
      arith,
      length-append (encode_base h) (encode_chain h.ext_headers),
      length-encode_base h,
      length-encode_chain h.ext_headers,
    ) in
    let front : take (40 + ext_total h.ext_headers) (plain ++ rest) ≡ plain =
      ap (λ n. take n (plain ++ rest)) at ∙ take-length_append plain rest in
    let back : drop (40 + ext_total h.ext_headers) (plain ++ rest) ≡ rest =
      drop_at (plain ++ rest) at ∙ drop-length_append plain rest in
    rw (split_frame-head h key_id rest v fresh a key long, decapsulate)
      (λ i. prepend (front i) (open_frame lib k key_id (back i) (front i)))

-- Let two ends of a tunnel hold keys that fit each other, with an epoch and a counter left. Then a
-- packet that the encoder wrote and that one end wraps in a frame comes out of the frame at the
-- other end as the same bytes, and the keys fit each other again. The AEAD cipher is taken to
-- decrypt what it encrypted and to add 16 bytes.
pub decapsulate-encapsulate :
    (lib : Primitives) (a b : TunnelKeys) (now : ℕ) (h : IPv8Header) (payload packet : List ℕ)
    → Decrypts lib
    → AddsTag lib
    → IsPaired lib a b
    → HasRoom 1 a
    → IsHeader h
    → Fresh [] h.ext_headers
    → encode h payload ≡ ok packet
    → (a' : TunnelKeys) × (frame : List ℕ) × (b' : TunnelKeys) × (encapsulate lib now a packet
        ≡ (a', ok frame))
      × (decapsulate lib b frame ≡ (b', ok packet))
      × IsPaired lib a' b'
decapsulate-encapsulate lib a b now h payload packet works tags p room v fresh e =
    let (accepted, size, written) = encode-eq-ok h payload e in
    let plain : List ℕ = encode_base h ++ encode_chain h.ext_headers in
    let m : Message = record { now = now; aad = plain; text = payload } in
    let (b', answered, q, left) = exchange-step lib works a b m 0 p room in
    let sealed : TunnelKeys × List ℕ × List ℕ = seal lib now a plain payload in
    let (key, long) = seal-sizes lib now a plain payload tags in
    (
      sealed.0,
      (write_head [] data_frame sealed.1 ++ plain) ++ sealed.2,
      b',
      ap (encapsulate lib now a) written
          ∙ encapsulate-frame_with lib now a plain payload
              (record { header = h; payload = payload })
              (ap decode (sym written) ∙ decode-encode h payload packet v fresh e) refl,
      decapsulate-head lib b h sealed.1 sealed.2 v fresh accepted key (omega (arith, size))
          ∙ ap (prepend plain) answered
          ∙ ap (λ bytes. (b', ok bytes)) (sym written),
      q,
    )

regroup : (a b c e : List ℕ) → a ++ ((b ++ c) ++ e) ≡ (a ++ b) ++ (c ++ e)
regroup a b c e = simp append_assoc

-- Where bytes trail a packet that the encoder wrote, the decoder ignores them, and the frame shows
-- as many bytes of the payload as trail: its readable part goes on behind the header and the chain.
pub encapsulate_trailing :
    (lib : Primitives) (k : TunnelKeys) (now : ℕ) (h : IPv8Header) (payload packet extra : List ℕ)
    → IsHeader h
    → Fresh [] h.ext_headers
    → encode h payload ≡ ok packet
    → length extra ≤ length payload
    → (shown : List ℕ) × (shown
        ≡ (encode_base h ++ encode_chain h.ext_headers) ++ take (length extra) payload)
      × (encapsulate lib now k (packet ++ extra) ≡ (
          let s = seal lib now k shown (drop (length extra) payload ++ extra) in
          (s.0, ok ((write_head [] data_frame s.1 ++ shown) ++ s.2))))
encapsulate_trailing lib k now h payload packet extra v fresh e few =
    let (accepted, size, written) = encode-eq-ok h payload e in
    let plain : List ℕ = encode_base h ++ encode_chain h.ext_headers in
    let shown : List ℕ = plain ++ take (length extra) payload in
    let secret : List ℕ = drop (length extra) payload ++ extra in
    let whole : packet ++ extra ≡ plain ++ (payload ++ extra) =
      ap (λ xs. xs ++ extra) written ∙ append_assoc plain payload extra in
    let parts : packet ++ extra ≡ shown ++ secret =
      whole
      ∙ ap (λ xs. plain ++ (xs ++ extra)) (sym (take-append-drop (length extra) payload))
      ∙ regroup plain (take (length extra) payload) (drop (length extra) payload) extra in
    (
      shown,
      refl,
      ap (encapsulate lib now k) parts
          ∙ encapsulate-frame_with lib now k shown secret
              (record { header = h; payload = take h.payload_len (payload ++ extra) })
              (ap decode (sym parts ∙ whole)
                ∙ decode-head h (payload ++ extra) v fresh accepted
                    (omega (arith, size, length-append payload extra)))
              (omega (
                arith,
                size,
                length-take h.payload_len (payload ++ extra),
                length-append payload extra,
                length-append (drop (length extra) payload) extra,
                length-drop (length extra) payload,
              )),
    )
