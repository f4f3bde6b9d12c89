-- ===== src/Tests/Observe.antt =====
-- The observation crate at concrete frames, reports and histories.
use ipv_8_public_base_statio.Common.{
  ℕ, ◌+◌, ◌-◌, ◌<◌, ◌≤◌, ◌≡◌, refl, List, [], ◌∷◌, ◌++◌, some, none, ok, arith, length, replicate,
}
use ipv_8_public_base_statio.Codec.Header.{ExtensionHeader, ExtType, from_u8}
use ipv_8_public_base_statio.Codec.Decode.{decode_chain, ext_loop}
use ipv_8_public_base_statio.Observe.Frame.{plain_segment_len}
use ipv_8_public_base_statio.Observe.Frame.Agrees.{plain_segment_len-decode_chain}
use ipv_8_public_base_statio.Observe.Window.{
  sat64, CounterWindow, PathCounters, SaWindows, first, observe_known,
}
use ipv_8_public_base_statio.Observe.Window.Laws.{
  window_accounts, losses_counted, last_of, observe_all,
}
use ipv_8_public_base_statio.Observe.Report.{Report, encode_report, decode_report}
use ipv_8_public_base_statio.Observe.Report.RoundTrip.{
  AreCounters, IsReport, decode_report-encode_report,
}
use ipv_8_public_base_statio.Observe.Rtt.{RttTracker, on_peer_report, echo}
use ipv_8_public_base_statio.Observe.Policy.{BreakerConfig, GateConfig, loss_permille}
use ipv_8_public_base_statio.Observe.Policy.Laws.{Switches, breaker_after, breaker_after-Switches}
use ipv_8_public_base_statio.Observe.Policy.Gate.{
  GateSwitches, gate_after, gate_after-GateSwitches, judged,
}
use ipv_8_public_base_statio.Observe.Congestion.{
  CongestionController, new_config, new_controller, update_cc,
}
use ipv_8_public_base_statio.Observe.Congestion.Laws.{
  InRange, controller_after, run_cc, run_cc-InRange, update_cc_above_ceil,
}

abbrev counters_of_age : ℕ → PathCounters
counters_of_age age = record {
  expected = 10;
  seen = 9;
  dup = 1;
  resets = 0;
  last_recv_age_ms = age;
}

-- The breaker with a threshold of two bad reports.
abbrev breaker_config : BreakerConfig
breaker_config = record {
  dead_age_ms = 1000;
  alive_age_ms = 600;
  trigger_windows = 2;
  recover_windows = 5;
}

abbrev bad : PathCounters × PathCounters
bad = (counters_of_age 100, counters_of_age 2000)

breaker_after-Switches_example :
    Switches breaker_config
      (breaker_after breaker_config (bad ∷ []))
      (breaker_after breaker_config (bad ∷ bad ∷ []))
      (bad ∷ bad ∷ [])
breaker_after-Switches_example =
    breaker_after-Switches breaker_config (bad ∷ []) (counters_of_age 100) (counters_of_age 2000)

abbrev gate_config : GateConfig
gate_config = record {
  on_loss_permille = 30;
  off_loss_permille = 5;
  on_windows = 2;
  off_windows = 5;
  min_expected = 32;
}

gate_after-GateSwitches_example :
    GateSwitches gate_config
      (gate_after gate_config ((100, 70) ∷ []))
      (gate_after gate_config ((100, 60) ∷ (100, 70) ∷ []))
      (judged gate_config ((100, 60) ∷ (100, 70) ∷ []))
gate_after-GateSwitches_example = gate_after-GateSwitches gate_config ((100, 70) ∷ []) 100 60

-- The counters 5, 6, 9: two are missing.
losses_counted_example :
    ((observe_all (first 5) (6 ∷ 9 ∷ [])).expected ≡ 1 + (last_of 5 (6 ∷ 9 ∷ []) - 5))
    × ((observe_all (first 5) (6 ∷ 9 ∷ [])).seen ≡ 1 + length {A = ℕ} (6 ∷ 9 ∷ []))
losses_counted_example =
    losses_counted 5 (6 ∷ 9 ∷ []) (omega arith, omega arith, (omega arith, omega arith, tt))
      (omega arith) (omega arith)

abbrev window_of : ℕ → CounterWindow
window_of n = record { top = n; mask = 1; expected = n; seen = n; dup = 0; resets = 0 }

abbrev seven_windows : SaWindows
seven_windows =
    (2, window_of 9)
    ∷ (3, window_of 9)
    ∷ (4, window_of 9)
    ∷ (5, window_of 9)
    ∷ (6, window_of 9)
    ∷ (7, window_of 9)
    ∷ (8, window_of 9)
    ∷ []

ninth_is_new : observe_known ((1, window_of 9) ∷ seven_windows) 99 1 ≡ none
unfolding observe_known
ninth_is_new = refl

-- A body with one extension header of type 5.
abbrev body : List ℕ
body = replicate 6 0 ++ (5 ∷ (replicate 33 0 ++ (0 ∷ 1 ∷ replicate 8 9)))

abbrev body_exts : List ExtensionHeader
body_exts = record { ext_type = ExtType.route_trace; payload = replicate 8 9 } ∷ []

body_chain : decode_chain body 5 ≡ ok (body_exts, 50)
unfolding decode_chain ext_loop from_u8
body_chain = refl

plain_segment_len-decode_chain_example : plain_segment_len body ≡ ok 50
plain_segment_len-decode_chain_example =
    plain_segment_len-decode_chain body body_exts 50 (omega arith) body_chain

counters-AreCounters : AreCounters (counters_of_age 100)
counters-AreCounters = record {
  expected_fits = omega arith;
  seen_fits = omega arith;
  dup_fits = omega arith;
  resets_fits = omega arith;
  age_fits = omega arith;
}

abbrev report : Report
report = record {
  seq = 3;
  send_ts_us = 1000;
  lsr_us = 500;
  dlsr_us = 20;
  slots_valid = 2;
  slots = record {
    slot_main = counters_of_age 100;
    slot_alt = counters_of_age 100;
    slot_union = counters_of_age 100;
  };
}

sample_fits : IsReport report
sample_fits = record {
  seq_fits = omega arith;
  send_fits = omega arith;
  lsr_fits = omega arith;
  dlsr_fits = omega arith;
  valid = (omega arith, omega arith);
  main_fits = counters-AreCounters;
  alt_fits = counters-AreCounters;
  union_fits = counters-AreCounters;
}

decode_report-encode_report_example :
    (length (encode_report report) ≡ 124) × (decode_report (encode_report report) ≡ ok report)
decode_report-encode_report_example = decode_report-encode_report report sample_fits

abbrev tracker : RttTracker
tracker = record { peer_send_ts = 0; peer_recv_us = none; rtt_us = none }

-- The answer to `report`, which was sent at 1000, received at 70 and answered at 90.
abbrev answer : Report
answer = record report { send_ts_us = 90; lsr_us = 1000; dlsr_us = 20 }

answer_echoes : (answer.lsr_us, answer.dlsr_us) ≡ echo (on_peer_report tracker 70 report) 90
unfolding echo on_peer_report
answer_echoes = refl

run_cc-InRange_example :
    InRange 8000000
      (run_cc (new_controller (new_config 8000000)) (((100, 90), some 200000, 7) ∷ [])).rate_bps
run_cc-InRange_example =
    run_cc-InRange 8000000 (((100, 90), some 200000, 7) ∷ []) (omega arith) (omega arith)

-- Of 100 expected frames 90 were seen.
abbrev below_ceil : CongestionController
below_ceil = controller_after 32000 []

update_cc_above_ceil_example :
    ((update_cc below_ceil (100, 90) none 7).rate_bps ≡ 64000)
    × (32000 < (update_cc below_ceil (100, 90) none 7).rate_bps)
update_cc_above_ceil_example =
    update_cc_above_ceil 32000 [] 100 90 none 7 (omega arith) enough lossy
  where
    enough : 32 ≤ sat64 below_ceil.acc.0 100
    enough = unfold new_controller in omega arith

    lossy : 30 ≤ loss_permille (sat64 below_ceil.acc.0 100) (sat64 below_ceil.acc.1 90)
    lossy = unfold new_controller loss_permille in omega arith

window_accounts_example :
    (observe_all (first 3) (5 ∷ 4 ∷ 5 ∷ [])).seen + (observe_all (first 3) (5 ∷ 4 ∷ 5 ∷ [])).dup ≡ 4
window_accounts_example = window_accounts 3 (5 ∷ 4 ∷ 5 ∷ []) (omega arith)
