-- ===== src/Fec.antt =====
-- Forward error correction of the tunnel's data frames (src/core/ipv8-fec/src/lib.rs): the shared
-- constants, the errors, the counter of a frame and the XOR of two frames.
pub mod Xor
pub mod Sender
pub mod Receiver
pub mod Counter
pub mod Table
pub mod Missing
pub mod Recovery
pub mod Dedup
use ipv_8_public_base_statio.Common.{
  ℕ, ◌+◌, ◌-◌, bit_xor, List, [], ◌∷◌, ltb, if◌then◌else◌, length, take, drop, Result, ok, err,
}
use ipv_8_public_base_statio.Common.Bytes.{of_be}

abbrev pub fec_min_k : ℕ
fec_min_k = 2

abbrev pub fec_max_k : ℕ
fec_max_k = 16

abbrev pub default_rx_cache : ℕ
default_rx_cache = 256

abbrev pub max_seen_groups : ℕ
max_seen_groups = 128

abbrev pub counter_from_end : ℕ
counter_from_end = 24

abbrev pub recovery_fixed_body : ℕ
recovery_fixed_body = 12

abbrev pub frame_header_size : ℕ
frame_header_size = 10

abbrev pub data_min_frame : ℕ
data_min_frame = 74

pub data FecError : Type 0 where
  too_short : ℕ → FecError
  bad_k : ℕ → FecError
  body_too_short : ℕ → ℕ → FecError
  xor_len_mismatch : ℕ → ℕ → FecError
  bad_member_len : ℕ → FecError
  sanity_check : FecError

unfoldable pub data_counter : List ℕ → Result FecError ℕ
unfolding of_be
data_counter frame =
    if ltb (length frame) data_min_frame
    then err (too_short (length frame))
    else ok (of_be (take 8 (drop (length frame - counter_from_end) frame)))

-- The shorter of the two bounds the loop; what `acc` has beyond it is kept.
unfoldable pub xor_into : List ℕ → List ℕ → List ℕ
xor_into [] other = []
xor_into (a ∷ acc) [] = a ∷ acc
xor_into (a ∷ acc) (o ∷ other) = bit_xor a o ∷ xor_into acc other
