-- ===== src/Tunnel/Frame.antt =====
-- The frame header of the tunnel (src/core/ipv8-tunnel/src/frame.rs).
pub mod RoundTrip
use ipv_8_public_base_statio.Common.{
  ℕ, ◌-◌, Bool, true, false, not, Option, none, some, List, [], ◌∷◌, ◌++◌, ltb, ◌==◌, if◌then◌else◌,
  length, get_or, take, drop, Result, ok, err, ◌>>=◌, ◌>>◌, reject_if,
}
use ipv_8_public_base_statio.Codec.Decode.{DecodeError}

abbrev pub tunnel_version : ℕ
tunnel_version = 1

abbrev pub frame_header_size : ℕ
frame_header_size = 10

abbrev pub tag_size : ℕ
tag_size = 16

-- The smallest data body: the base header, the counter and the tag.
abbrev pub min_data_body : ℕ
min_data_body = 64

pub data FrameType : Type 0 where
  handshake_init handshake_resp data_frame rekey_frame auth_init auth_resp : FrameType
  fec_recovery receipt : FrameType

-- `frame_type as u8`.
unfoldable pub type_byte : FrameType → ℕ
type_byte handshake_init = 0
type_byte handshake_resp = 1
type_byte data_frame = 2
type_byte rekey_frame = 3
type_byte auth_init = 4
type_byte auth_resp = 5
type_byte fec_recovery = 6
type_byte receipt = 7

unfoldable pub type_from_u8 : ℕ → Option FrameType
type_from_u8 v =
    if v == 0
    then some handshake_init
    else if v == 1
    then some handshake_resp
    else if v == 2
    then some data_frame
    else if v == 3
    then some rekey_frame
    else if v == 4
    then some auth_init
    else if v == 5
    then some auth_resp
    else if v == 6
    then some fec_recovery
    else if v == 7
    then some receipt
    else none

pub data CipherSuite : Type 0 where
  chacha20_poly1305 aes_256_gcm : CipherSuite

pub record FrameHead : Type 0 where
  pub frame_type : FrameType
  pub key_id : List ℕ

pub data FrameError : Type 0 where
  too_short : ℕ → FrameError
  bad_version : ℕ → FrameError
  bad_type : ℕ → FrameError
  not_data : FrameType → FrameError
  body_too_short decrypt_failed payload_len_mismatch replay : FrameError
  stale_epoch : ℕ → ℕ → FrameError
  unknown_key_id bad_handshake_len : FrameError
  suite_mismatch : CipherSuite → CipherSuite → FrameError
  shard_mismatch : ℕ → ℕ → ℕ → FrameError
  auth_failed : FrameError
  header_error : DecodeError → FrameError

abbrev pub ok_or {ℓ} : {A : Type ℓ} → Option A → FrameError → Result FrameError A
ok_or none e = err e
ok_or (some a) e = ok a

unfoldable pub parse_head : List ℕ → Result FrameError FrameHead
unfolding type_from_u8
parse_head frame = do
  reject_if (ltb (length frame) frame_header_size) (too_short (length frame))
  let version = get_or frame 0 0
  reject_if (not (version == tunnel_version)) (bad_version version)
  let byte = get_or frame 1 0
  frame_type ← ok_or (type_from_u8 byte) (bad_type byte)
  ok (record { frame_type = frame_type; key_id = take 8 (drop 2 frame) })

-- The vector after the call.
unfoldable pub write_head : List ℕ → FrameType → List ℕ → List ℕ
unfolding type_byte
write_head frame frame_type key_id = frame ++ (tunnel_version ∷ type_byte frame_type ∷ key_id)

unfoldable pub is_handshake : FrameType → Bool
is_handshake handshake_init = true
is_handshake handshake_resp = true
is_handshake auth_init = true
is_handshake auth_resp = true
is_handshake _ = false
