-- ===== src/Observe/Report.antt =====
-- The wire format of a report (src/core/ipv8-observe/src/report.rs). `slots` is the array of three
-- counters, by the names of its indices.
pub mod RoundTrip
use ipv_8_public_base_statio.Common.{
  ℕ, zero, suc, ◌+◌, not, List, [], ◌∷◌, ◌++◌, min, max, length, get_or, set, take, drop, replicate,
  ◌==◌, Result, ok, err, diverged, ◌>>=◌, ◌>>◌, reject_if,
}
use ipv_8_public_base_statio.Common.Bytes.{to_be, of_be}
use ipv_8_public_base_statio.Observe.Window.{PathCounters}

abbrev pub report_version : ℕ
report_version = 1

abbrev pub report_len : ℕ
report_len = 124

pub record Slots : Type 0 where
  pub slot_main : PathCounters
  pub slot_alt : PathCounters
  pub slot_union : PathCounters

pub record Report : Type 0 where
  pub seq : ℕ
  pub send_ts_us : ℕ
  pub lsr_us : ℕ
  pub dlsr_us : ℕ
  pub slots_valid : ℕ
  pub slots : Slots

pub data ReportError : Type 0 where
  bad_len : ℕ → ReportError
  bad_version : ℕ → ReportError

-- `b[off..off + n].copy_from_slice(bytes)`.
abbrev pub put : List ℕ → ℕ → List ℕ → List ℕ
put b off bytes = take off b ++ (bytes ++ drop (off + length bytes) b)

abbrev pub put_u64 : List ℕ → ℕ → ℕ → List ℕ
put_u64 b off v = put b off (to_be 8 v)

abbrev pub put_u32 : List ℕ → ℕ → ℕ → List ℕ
put_u32 b off v = put b off (to_be 4 v)

abbrev pub get_u64 : List ℕ → ℕ → ℕ
get_u64 b off = of_be (take 8 (drop off b))

abbrev pub get_u32 : List ℕ → ℕ → ℕ
get_u32 b off = of_be (take 4 (drop off b))

abbrev pub clamp_valid : ℕ → ℕ
clamp_valid n = min (max n 1) 2

unfoldable pub put_slot : List ℕ → ℕ → PathCounters → List ℕ
put_slot b base s =
    put_u32
      (put_u32 (put_u64 (put_u64 (put_u64 b base s.expected) (base + 8) s.seen) (base + 16) s.dup)
        (base + 24) s.resets)
      (base + 28) s.last_recv_age_ms

unfoldable pub get_slot : List ℕ → ℕ → PathCounters
unfolding of_be
get_slot b base = record {
  expected = get_u64 b base;
  seen = get_u64 b (base + 8);
  dup = get_u64 b (base + 16);
  resets = get_u32 b (base + 24);
  last_recv_age_ms = get_u32 b (base + 28);
}

unfoldable pub encode_report : Report → List ℕ
unfolding put_slot
encode_report r =
    let b = set (set (replicate report_len 0) 0 report_version) 1 (clamp_valid r.slots_valid) in
    let b = put_u32 b 4 r.seq in
    let b = put_u64 b 8 r.send_ts_us in
    let b = put_u64 b 16 r.lsr_us in
    let b = put_u32 b 24 r.dlsr_us in
    let b = put_slot b 28 r.slots.slot_main in
    let b = put_slot b 60 r.slots.slot_alt in put_slot b 92 r.slots.slot_union

unfoldable pub decode_report : List ℕ → Result ReportError Report
unfolding get_slot of_be
decode_report b = do
  reject_if (not (length b == report_len)) (bad_len (length b))
  reject_if (not (get_or b 0 0 == report_version)) (bad_version (get_or b 0 0))
  ok (record {
    seq = get_u32 b 4;
    send_ts_us = get_u64 b 8;
    lsr_us = get_u64 b 16;
    dlsr_us = get_u32 b 24;
    slots_valid = clamp_valid (get_or b 1 0);
    slots = record {
      slot_main = get_slot b 28;
      slot_alt = get_slot b 60;
      slot_union = get_slot b 92;
    };
  })
