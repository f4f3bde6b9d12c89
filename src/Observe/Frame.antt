-- ===== src/Observe/Frame.antt =====
-- The key and the counter of a data frame (src/core/ipv8-observe/src/window.rs): `None` is
-- `err tt` in the loop over the extension chain.
pub mod Agrees
use ipv_8_public_base_statio.Common.{
  ℕ, zero, suc, ◌+◌, ◌*◌, Bool, not, ◌||◌, Option, none, some, List, [], ◌∷◌, ltb, ◌==◌,
  if◌then◌else◌, length, get_or, take, drop, contains, Result, ok, err, diverged, ◌>>=◌, ◌>>◌,
  reject_if,
}
use ipv_8_public_base_statio.Common.Bytes.{of_be}
use ipv_8_public_base_statio.Codec.Header.{base_header_size}

abbrev pub data_min_frame : ℕ
data_min_frame = 74

abbrev pub frame_header_len : ℕ
frame_header_len = 10

abbrev pub tunnel_version : ℕ
tunnel_version = 1

abbrev pub data_frame_type : ℕ
data_frame_type = 2

-- The loop; its state is `cursor`, `cur_type` and `seen`, here the types met so far.
unfoldable pub plain_loop : ℕ → List ℕ → ℕ → ℕ → List ℕ → Result (Unit {0}) ℕ
plain_loop zero body cursor cur_type seen = diverged
plain_loop (suc fuel) body cursor cur_type seen = do
  reject_if (ltb (length body) (cursor + 2) || contains seen cur_type) tt
  let ptr_next = get_or body cursor 0
  let ext_len = get_or body (cursor + 1) 0
  reject_if (ext_len == 0) tt
  let plen = ext_len * 8
  reject_if (ltb (length body) (cursor + (2 + plen))) tt
  let rest = plain_loop fuel body (cursor + (2 + plen)) ptr_next (cur_type ∷ seen)
  if ptr_next == 0 then ok (cursor + (2 + plen)) else rest

-- Every round passes at least ten bytes of the body.
unfoldable pub plain_segment_len : List ℕ → Result (Unit {0}) ℕ
plain_segment_len body = do
  reject_if (ltb (length body) base_header_size) tt
  let next_header = get_or body 6 0
  if next_header == 0
      then ok base_header_size
      else plain_loop (suc (length body)) body base_header_size next_header []

meta_at : List ℕ → Result (Unit {0}) ℕ → Option (ℕ × ℕ)
unfolding of_be
meta_at frame (err e) = none
meta_at frame diverged = none
meta_at frame (ok plain_len) =
    let off = frame_header_len + plain_len in
    if ltb (length frame) (off + 8)
    then none
    else some (of_be (take 8 (drop 2 frame)), of_be (take 8 (drop off frame)))

unfoldable pub frame_meta : List ℕ → Option (ℕ × ℕ)
unfolding meta_at
frame_meta frame =
    if ltb (length frame) data_min_frame
      || not (get_or frame 0 0 == tunnel_version)
      || not (get_or frame 1 0 == data_frame_type)
    then none
    else meta_at frame (plain_segment_len (drop frame_header_len frame))
