-- ===== src/Tests/Fec.antt =====
-- Forward error correction of a group of two frames.
use ipv_8_public_base_statio.Common.{ℕ, ◌≡◌, refl, List, [], ◌∷◌, ◌++◌, some, ok, arith, replicate}
use ipv_8_public_base_statio.Common.Bytes.{of_be, of_be_from}
use ipv_8_public_base_statio.Fec.Sender.{FecTx, encode_recovery}
use ipv_8_public_base_statio.Fec.Sender.Group.{
  add_all, counter_of, next_group, push_all, push_all-group,
}
use ipv_8_public_base_statio.Fec.Receiver.{FecRx, accept_recovery}
use ipv_8_public_base_statio.Fec.Receiver.Cache.{IsObserved, IsRx, observe_data-IsObserved}
use ipv_8_public_base_statio.Fec.Missing.{AllBut}
use ipv_8_public_base_statio.Fec.Recovery.{
  accept_recovery-encode_recovery, after_rebuilt, IsData, IsSent,
}

-- A frame of 74 bytes and one of 75, with the counters 4 and 5 in front of the tag.
abbrev data_head : List ℕ
data_head = 1 ∷ 2 ∷ []

abbrev frame_a : List ℕ
frame_a = data_head ++ (replicate 48 3 ++ ((replicate 7 0 ++ (4 ∷ [])) ++ replicate 16 119))

abbrev frame_b : List ℕ
frame_b = data_head ++ (replicate 49 8 ++ ((replicate 7 0 ++ (5 ∷ [])) ++ replicate 16 119))

counter_a : counter_of frame_a ≡ 4
unfolding of_be of_be_from
counter_a = refl

counter_b : counter_of frame_b ≡ 5
unfolding of_be of_be_from
counter_b = refl

abbrev idle : FecTx
idle = record { k = 2; group_seq = 9; acc = []; counters = []; lens = [] }

abbrev key : List ℕ
key = replicate 8 170

frame_a-IsData : IsData frame_a
frame_a-IsData = record {
  fits = (omega arith, omega arith);
  version_byte = refl;
  type_byte = refl;
  counter_fits = omega (arith, counter_a);
}

frame_b-IsData : IsData frame_b
frame_b-IsData = record {
  fits = (omega arith, omega arith);
  version_byte = refl;
  type_byte = refl;
  counter_fits = omega (arith, counter_b);
}

group-IsSent : IsSent idle (frame_a ∷ frame_b ∷ []) key
group-IsSent = record {
  idle = record { no_acc = refl; no_counters = refl; no_lens = refl };
  are_data = (frame_a-IsData, (frame_b-IsData, tt));
  key_size = refl;
  size_ge = omega arith;
  size_le = omega arith;
  seq_fits = omega arith;
}

-- The receiver has the first frame only.
abbrev receiver : FecRx
receiver = record {
  cache = (4, frame_a) ∷ [];
  order = 4 ∷ [];
  limit = 2;
  seen_groups = [];
  recovered = 0;
  abandoned = 0;
  dup_recovery = 0;
}

second_missing : AllBut receiver.cache (frame_a ∷ frame_b ∷ []) 1
unfolding of_be of_be_from
second_missing = (refl, (refl, tt))

accept_recovery-encode_recovery_example :
    accept_recovery receiver (encode_recovery (add_all idle (frame_a ∷ frame_b ∷ [])) key)
    ≡ (after_rebuilt receiver 9, ok (some frame_b))
accept_recovery-encode_recovery_example =
    accept_recovery-encode_recovery idle (frame_a ∷ frame_b ∷ []) key receiver 1 group-IsSent refl
      second_missing

push_all-group_example :
    push_all idle (frame_a ∷ frame_b ∷ []) key
    ≡ ok (
      next_group (add_all idle (frame_a ∷ frame_b ∷ [])),
      encode_recovery (add_all idle (frame_a ∷ frame_b ∷ [])) key ∷ [],
    )
push_all-group_example =
    push_all-group idle frame_a (frame_b ∷ []) key
      ((omega arith, omega arith), ((omega arith, omega arith), tt)) refl

receiver-IsRx : IsRx receiver
receiver-IsRx = record { keys_eq = refl; within = omega arith; limit_pos = omega arith }

observe_data-IsObserved_example : IsObserved receiver frame_b
observe_data-IsObserved_example =
    observe_data-IsObserved receiver frame_b receiver-IsRx (omega arith)
