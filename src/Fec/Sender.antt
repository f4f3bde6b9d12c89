-- ===== src/Fec/Sender.antt =====
-- The sender's group of frames (src/core/ipv8-fec/src/tx.rs).
pub mod Group
use ipv_8_public_base_statio.Common.{
  ℕ, ◌+◌, ◌-◌, List, [], ◌∷◌, ◌++◌, Option, none, some, not, ◌&&◌, ltb, leb, if◌then◌else◌, length,
  replicate, Result, ok, err, diverged, ◌>>=◌, ◌>>◌, reject_if,
}
use ipv_8_public_base_statio.Common.Bytes.{u8, u64, be16, to_be}
use ipv_8_public_base_statio.Fec.{
  FecError, bad_k, too_short, fec_min_k, fec_max_k, data_min_frame, data_counter, xor_into,
}

abbrev pub tunnel_version : ℕ
tunnel_version = 1

abbrev pub fec_frame_type : ℕ
fec_frame_type = 6

pub record FecTx : Type 0 where
  pub k : ℕ
  pub group_seq : ℕ
  pub acc : List ℕ
  pub counters : List ℕ
  pub lens : List ℕ

unfoldable pub new_tx : ℕ → Result FecError FecTx
new_tx k = do
  reject_if (not (leb fec_min_k k && leb k fec_max_k)) (bad_k k)
  ok (record { k = k; group_seq = 0; acc = []; counters = []; lens = [] })

unfoldable pub pending : FecTx → ℕ
pending t = length t.counters

-- `Vec::resize(n, 0)` where it grows.
unfoldable pub grow : ℕ → List ℕ → List ℕ
grow n acc = if ltb (length acc) n then acc ++ replicate (n - length acc) 0 else acc

-- `u16::try_from(n).unwrap_or(u16::MAX)`.
abbrev pub as_u16 : ℕ → ℕ
as_u16 n = if leb n 65535 then n else 65535

abbrev pub counter_bytes : List ℕ → List ℕ
counter_bytes [] = []
counter_bytes (c ∷ cs) = to_be 8 c ++ counter_bytes cs

abbrev pub len_bytes : List ℕ → List ℕ
len_bytes [] = []
len_bytes (l ∷ ls) = be16 l ++ len_bytes ls

unfoldable pub encode_recovery : FecTx → List ℕ → List ℕ
encode_recovery t key_id =
    (tunnel_version ∷ fec_frame_type ∷ key_id)
    ++ (to_be 8 t.group_seq
        ++ ((u8 (length t.counters) ∷ 0 ∷ 0 ∷ 0 ∷ [])
            ++ (counter_bytes t.counters ++ (len_bytes t.lens ++ t.acc))))

-- The group with one frame more.
unfoldable pub add_frame : FecTx → List ℕ → ℕ → FecTx
add_frame t frame counter = record t {
  acc = xor_into (grow (length frame) t.acc) frame;
  counters = t.counters ++ (counter ∷ []);
  lens = t.lens ++ (as_u16 (length frame) ∷ []);
}

unfoldable pub push : FecTx → List ℕ → List ℕ → Result FecError (FecTx × Option (List ℕ))
push t frame key_id = do
  reject_if (ltb (length frame) data_min_frame) (too_short (length frame))
  counter ← data_counter frame
  let t = add_frame t frame counter
  if ltb (length t.counters) t.k
      then ok (t, none)
      else ok (
        record t { group_seq = u64 (t.group_seq + 1); acc = []; counters = []; lens = [] },
        some (encode_recovery t key_id),
      )
