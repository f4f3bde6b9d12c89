-- ===== src/Tunnel/Frame/RoundTrip.antt =====
-- A frame header is read back.
use ipv_8_public_base_statio.Common.{
  ℕ, suc, ◌≤◌, ◌≡◌, refl, ap, sym, ◌∙◌, List, [], ◌++◌, length, take, ok, arith, some, le→ltb,
  length-append, take-length_append,
}
use ipv_8_public_base_statio.Tunnel.Frame.{
  FrameType, auth_init, auth_resp, data_frame, fec_recovery, handshake_init, handshake_resp,
  parse_head, receipt, rekey_frame, type_byte, type_from_u8, write_head,
}

type_from_u8-type_byte : (t : FrameType) → type_from_u8 (type_byte t) ≡ some t
unfolding type_from_u8 type_byte
type_from_u8-type_byte handshake_init = refl
type_from_u8-type_byte handshake_resp = refl
type_from_u8-type_byte data_frame = refl
type_from_u8-type_byte rekey_frame = refl
type_from_u8-type_byte auth_init = refl
type_from_u8-type_byte auth_resp = refl
type_from_u8-type_byte fec_recovery = refl
type_from_u8-type_byte receipt = refl

-- The header of a frame that `write_head` began is read back, whatever body follows it.
pub parse_head-write_head :
    (t : FrameType) (key_id body : List ℕ)
    → length key_id ≡ 8
    → parse_head (write_head [] t key_id ++ body) ≡ ok (record { frame_type = t; key_id = key_id })
unfolding parse_head write_head
parse_head-write_head t key_id body e =
    let long : 10 ≤ suc (suc (length (key_id ++ body))) =
      omega (arith, length-append key_id body, e) in
    rw (le→ltb (suc (suc (length (key_id ++ body)))) 10 long, type_from_u8-type_byte t)
      (ap (λ k. ok (record { frame_type = t; key_id = k }))
        (ap (λ n. take n (key_id ++ body)) (sym e) ∙ take-length_append key_id body))
