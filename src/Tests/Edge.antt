-- ===== src/Tests/Edge.antt =====
-- The observation node, the failover and the firewall at concrete states.
use ipv_8_public_base_statio.Common.{
  ℕ, ◌≤◌, ◌≡◌, refl, true, false, [], ◌∷◌, some, none, arith, String,
}
use ipv_8_public_base_statio.Codec.Address.{IPv8Address, protocol_magic}
use ipv_8_public_base_statio.Observe.Window.{
  CounterWindow, PathState, counters, totals, totals_from, u32_max,
}
use ipv_8_public_base_statio.Common.{List, replicate}
use ipv_8_public_base_statio.Observe.Rtt.{echo}
use ipv_8_public_base_statio.Observe.Report.RoundTrip.{AreCounters, IsReport}
use ipv_8_public_base_statio.Observe.Node.{ObserveNode, report_of}
use ipv_8_public_base_statio.Observe.Node.Laws.{
  AreJudged, expected_of, ingest_report-maybe_build_report, seen_of,
}
use ipv_8_public_base_statio.Failover.{
  RelayFailover, RelayNode, push_event, record_check, switch_to_best,
}
use ipv_8_public_base_statio.Failover.Best.{SwitchedToBest, switch_to_best_lem}
use ipv_8_public_base_statio.Failover.Laws.{IsFailover, record_check-IsFailover}
use ipv_8_public_base_statio.Firewall.{Rule, outbound, tcp}
use ipv_8_public_base_statio.Firewall.Laws.{Matched, match_rule_lem}

abbrev path : PathState
path = record { sas = []; last_recv_ms = none; raw_frames = 0 }

abbrev node : ObserveNode
node = record {
  cfg = record {
    report_interval_ms = 200;
    dual_path = false;
    breaker = record {
      dead_age_ms = 1000;
      alive_age_ms = 600;
      trigger_windows = 3;
      recover_windows = 5;
    };
    gate = record {
      on_loss_permille = 30;
      off_loss_permille = 5;
      on_windows = 2;
      off_windows = 5;
      min_expected = 32;
    };
    cc_config = none;
  };
  rx_main = path;
  rx_alt = path;
  rx_union = [];
  rtt = record { peer_send_ts = 0; peer_recv_us = none; rtt_us = none };
  seq = 0;
  last_report_ms = none;
  peer_prev = none;
  last_dunion = (0, 0);
  breaker = record {
    cfg = record {
      dead_age_ms = 1000;
      alive_age_ms = 600;
      trigger_windows = 3;
      recover_windows = 5;
    };
    is_open = false;
    bad_run = 0;
    good_run = 0;
  };
  gate = record {
    cfg = record {
      on_loss_permille = 30;
      off_loss_permille = 5;
      on_windows = 2;
      off_windows = 5;
      min_expected = 32;
    };
    is_on = false;
    high_run = 0;
    low_run = 0;
  };
  controller = none;
}

built_fits : IsReport (report_of node 10 10000)
unfolding report_of counters totals echo totals_from
built_fits = record {
  seq_fits = omega arith;
  send_fits = omega arith;
  lsr_fits = omega arith;
  dlsr_fits = omega arith;
  valid = (omega arith, omega arith);
  main_fits = fits;
  alt_fits = fits;
  union_fits = fits;
}
  where
    fits :
        AreCounters
          (record { expected = 0; seen = 0; dup = 0; resets = 0; last_recv_age_ms = u32_max })
    fits = record {
      expected_fits = omega arith;
      seen_fits = omega arith;
      dup_fits = omega arith;
      resets_fits = omega arith;
      age_fits = omega arith;
    }

-- A data frame, of which all behind the version and the type is zero.
abbrev data_frame : List ℕ
data_frame = 1 ∷ 2 ∷ replicate 98 0

-- The node later, with five frames expected and four seen.
abbrev window : CounterWindow
window = record { top = 5; mask = 27; expected = 5; seen = 4; dup = 0; resets = 0 }

abbrev later_node : ObserveNode
later_node = record node { rx_union = (7, window) ∷ []; seq = 1; last_report_ms = some 10 }

later_fits : IsReport (report_of later_node 300 300000)
unfolding report_of counters totals echo totals_from
later_fits = record {
  seq_fits = omega arith;
  send_fits = omega arith;
  lsr_fits = omega arith;
  dlsr_fits = omega arith;
  valid = (omega arith, omega arith);
  main_fits = silent;
  alt_fits = silent;
  union_fits = record {
    expected_fits = omega arith;
    seen_fits = omega arith;
    dup_fits = omega arith;
    resets_fits = omega arith;
    age_fits = omega arith;
  };
}
  where
    silent :
        AreCounters
          (record { expected = 0; seen = 0; dup = 0; resets = 0; last_recv_age_ms = u32_max })
    silent = record {
      expected_fits = omega arith;
      seen_fits = omega arith;
      dup_fits = omega arith;
      resets_fits = omega arith;
      age_fits = omega arith;
    }

expected_more : expected_of node ≤ expected_of later_node
unfolding totals totals_from
expected_more = omega arith

seen_more : seen_of node ≤ seen_of later_node
unfolding totals totals_from
seen_more = omega arith

ingest_report-maybe_build_report_example :
    AreJudged node later_node node 10 10000 300 300000 30 30000 320 320000
ingest_report-maybe_build_report_example =
    ingest_report-maybe_build_report node later_node node 10 10000 300 300000 30 30000 320 320000
      refl refl built_fits later_fits expected_more seen_more

-- Two relays, "a" and "b", that are both down; "a" is active.
abbrev relay : ℕ → RelayNode
relay name = record {
  addr = name ∷ [];
  priority = 0;
  last_latency = none;
  last_check = none;
  fail_count = 3;
  success_streak = 0;
  healthy = false;
}

abbrev failover : RelayFailover
failover = record {
  config = record {
    check_interval = 10;
    check_timeout = 3;
    fail_threshold = 3;
    recover_threshold = 1;
    recover_debounce = 30;
  };
  relays = relay 97 ∷ relay 98 ∷ [];
  active_idx = 0;
  primary_recovered_at = none;
  events = [];
}

abbrev name_b : String
name_b = 98 ∷ []

-- With "b" up and "c" up and faster, the switch goes to "c".
abbrev relay_up : ℕ → ℕ → RelayNode
relay_up name latency = record (relay name) {
  last_latency = some latency;
  fail_count = 0;
  healthy = true;
}

abbrev two_up : RelayFailover
two_up = record failover { relays = relay 97 ∷ relay_up 98 40000000 ∷ relay_up 99 20000000 ∷ [] }

fastest_chosen : ((switch_to_best two_up).0.active_idx ≡ 2) × ((switch_to_best two_up).1 ≡ true)
unfolding switch_to_best push_event
fastest_chosen = (refl, refl)

switch_to_best_lem_example : SwitchedToBest two_up
switch_to_best_lem_example = switch_to_best_lem two_up

failover-IsFailover : IsFailover failover
failover-IsFailover = record { in_bounds = omega arith; few_events = omega arith }

record_check-IsFailover_example : IsFailover (record_check failover name_b (some 5) 7).0
record_check-IsFailover_example =
    record_check-IsFailover failover name_b (some 5) 7 failover-IsFailover

abbrev rule : Rule
rule = record {
  id = 114 ∷ [];
  name = [];
  protocol = tcp;
  port_start = 80;
  port_end = 90;
  source_pattern = [];
  target_addr = [];
  target_port = 0;
  enabled = true;
  direction = outbound;
  comment = [];
}

abbrev source : IPv8Address
source = record {
  protocol = protocol_magic;
  region_hi = 1;
  region_mid = 2;
  region_lo = 3;
  subnet1 = 4;
  subnet2 = 5;
  node_hash = 6;
  session_id = 7;
}

match_rule_lem_example : Matched (rule ∷ []) 6 85 source
match_rule_lem_example = match_rule_lem (rule ∷ []) 6 85 source
