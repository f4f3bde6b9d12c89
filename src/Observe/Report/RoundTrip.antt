-- ===== src/Observe/Report/RoundTrip.antt =====
-- A report is read back from its 124 bytes.
use ipv_8_public_base_statio.Common.{ℕ, ◌^◌, ◌<◌, ◌≤◌, ◌≡◌, refl, ap, ◌∙◌, length, ok, arith}
use ipv_8_public_base_statio.Common.Bytes.{to_be, of_be, of_be-to_be}
use ipv_8_public_base_statio.Observe.Window.{PathCounters}
use ipv_8_public_base_statio.Observe.Report.{
  Report, encode_report, decode_report, put_slot, get_slot, clamp_valid,
}

-- The fields fit their widths.
pub record AreCounters (c : PathCounters) : Type 0 where
  pub expected_fits : c.expected < 256 ^ 8
  pub seen_fits : c.seen < 256 ^ 8
  pub dup_fits : c.dup < 256 ^ 8
  pub resets_fits : c.resets < 256 ^ 4
  pub age_fits : c.last_recv_age_ms < 256 ^ 4

pub record IsReport (r : Report) : Type 0 where
  pub seq_fits : r.seq < 256 ^ 4
  pub send_fits : r.send_ts_us < 256 ^ 8
  pub lsr_fits : r.lsr_us < 256 ^ 8
  pub dlsr_fits : r.dlsr_us < 256 ^ 4
  pub valid : (1 ≤ r.slots_valid) × (r.slots_valid ≤ 2)
  pub main_fits : AreCounters r.slots.slot_main
  pub alt_fits : AreCounters r.slots.slot_alt
  pub union_fits : AreCounters r.slots.slot_union

length-encode_report : (r : Report) → length (encode_report r) ≡ 124
unfolding encode_report put_slot to_be
length-encode_report r = refl

-- What decoding the encoding gives, before the bytes of each number are put together.
raw_counters : PathCounters → PathCounters
raw_counters c = record {
  expected = of_be (to_be 8 c.expected);
  seen = of_be (to_be 8 c.seen);
  dup = of_be (to_be 8 c.dup);
  resets = of_be (to_be 4 c.resets);
  last_recv_age_ms = of_be (to_be 4 c.last_recv_age_ms);
}

raw_counters-eq : (c : PathCounters) → AreCounters c → raw_counters c ≡ c
unfolding raw_counters
raw_counters-eq c h =
    rw
      (
        of_be-to_be 8 c.expected h.expected_fits,
        of_be-to_be 8 c.seen h.seen_fits,
        of_be-to_be 8 c.dup h.dup_fits,
        of_be-to_be 4 c.resets h.resets_fits,
        of_be-to_be 4 c.last_recv_age_ms h.age_fits,
      )
      refl

raw_report : Report → Report
raw_report r = record {
  seq = of_be (to_be 4 r.seq);
  send_ts_us = of_be (to_be 8 r.send_ts_us);
  lsr_us = of_be (to_be 8 r.lsr_us);
  dlsr_us = of_be (to_be 4 r.dlsr_us);
  slots_valid = clamp_valid (clamp_valid r.slots_valid);
  slots = record {
    slot_main = raw_counters r.slots.slot_main;
    slot_alt = raw_counters r.slots.slot_alt;
    slot_union = raw_counters r.slots.slot_union;
  };
}

decode-raw : (r : Report) → decode_report (encode_report r) ≡ ok (raw_report r)
unfolding encode_report decode_report put_slot get_slot to_be of_be raw_report raw_counters
decode-raw r = refl

clamp_once : (n : ℕ) → 1 ≤ n → n ≤ 2 → clamp_valid (clamp_valid n) ≡ n
clamp_once n lo hi = omega arith

raw_report-eq : (r : Report) → IsReport r → raw_report r ≡ r
unfolding raw_report
raw_report-eq r h =
    rw
      (
        of_be-to_be 4 r.seq h.seq_fits,
        of_be-to_be 8 r.send_ts_us h.send_fits,
        of_be-to_be 8 r.lsr_us h.lsr_fits,
        of_be-to_be 4 r.dlsr_us h.dlsr_fits,
        clamp_once r.slots_valid (h.valid.0) (h.valid.1),
        raw_counters-eq r.slots.slot_main h.main_fits,
        raw_counters-eq r.slots.slot_alt h.alt_fits,
        raw_counters-eq r.slots.slot_union h.union_fits,
      )
      refl

-- A report whose fields fit their widths, with one or two valid slots, is read back from its 124
-- bytes.
pub decode_report-encode_report :
    (r : Report)
    → IsReport r
    → (length (encode_report r) ≡ 124) × (decode_report (encode_report r) ≡ ok r)
decode_report-encode_report r h = (length-encode_report r, decode-raw r ∙ ap ok (raw_report-eq r h))
