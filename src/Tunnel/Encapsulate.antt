-- ===== src/Tunnel/Encapsulate.antt =====
-- Data frames around IPv8 packets (src/core/ipv8-tunnel/src/encapsulate.rs).
pub mod RoundTrip
use ipv_8_public_base_statio.Common.{
  ℕ, ◌+◌, ◌-◌, Bool, ◌||◌, not, List, ◌++◌, [], ltb, if◌then◌else◌, length, take, drop, Result, ok,
  err, diverged, ◌>>=◌, ◌>>◌, reject_if, map_err, ◌==◌,
}
use ipv_8_public_base_statio.Codec.Header.{base_header_size, ext_total}
use ipv_8_public_base_statio.Codec.Decode.{DecodeError, Decoded, decode}
use ipv_8_public_base_statio.Tunnel.Frame.{
  FrameError, FrameHead, FrameType, body_too_short, data_frame, frame_header_size, header_error,
  min_data_body, not_data, parse_head, type_byte, write_head,
}
use ipv_8_public_base_statio.Tunnel.Cipher.{Primitives}
use ipv_8_public_base_statio.Tunnel.Keys.{TunnelKeys, seal}
use ipv_8_public_base_statio.Tunnel.Open.{open_frame}

-- The frame around a packet that decodes: what stands in front of as many bytes as the payload has
-- stays readable.
unfoldable pub frame_of : Primitives → ℕ → TunnelKeys → List ℕ → Decoded → TunnelKeys × List ℕ
frame_of lib now k packet d =
    let plain_len = length packet - length d.payload in
    let plain = take plain_len packet in
    let (sealed, key_id, cipher_body) = seal lib now k plain (drop plain_len packet) in
    (sealed, (write_head [] data_frame key_id ++ plain) ++ cipher_body)

unfoldable pub encapsulate :
    Primitives → ℕ → TunnelKeys → List ℕ → TunnelKeys × Result FrameError (List ℕ)
unfolding frame_of
encapsulate lib now k packet = elim (decode packet) [
  | err e ↦ (k, err (header_error e))
  | diverged ↦ (k, diverged)
  | ok d ↦ let (sealed, frame) = frame_of lib now k packet d in (sealed, ok frame)
]

-- The guards in front of the first use of the keys: the KeyID, the body and the length of its
-- readable part, which is where the decoder found the payload.
unfoldable pub split_frame : List ℕ → Result FrameError (List ℕ × List ℕ × ℕ)
split_frame frame = do
  head ← parse_head frame
  reject_if (not (type_byte head.frame_type == type_byte data_frame)) (not_data head.frame_type)
  let body = drop frame_header_size frame
  reject_if (ltb (length body) min_data_body) body_too_short
  d ← map_err header_error (decode body)
  let plain_len = base_header_size + ext_total d.header.ext_headers
  reject_if (ltb plain_len base_header_size || ltb (length body - plain_len) 8) body_too_short
  ok (head.key_id, body, plain_len)

-- The packet in front of which its readable part stands again.
abbrev pub prepend :
    List ℕ → TunnelKeys × Result FrameError (List ℕ) → TunnelKeys × Result FrameError (List ℕ)
prepend plain (k, answer) = (k, answer >>= λ secret. ok (plain ++ secret))

unfoldable pub decapsulate :
    Primitives → TunnelKeys → List ℕ → TunnelKeys × Result FrameError (List ℕ)
unfolding split_frame
decapsulate lib k frame = elim (split_frame frame) [
  | err e ↦ (k, err e)
  | diverged ↦ (k, diverged)
  | ok (key_id, body, plain_len) ↦
      prepend (take plain_len body)
        (open_frame lib k key_id (drop plain_len body) (take plain_len body))
]
