-- ===== src/Observe/Node.antt =====
-- The node: both paths, their union, the reports and the policies
-- (src/core/ipv8-observe/src/lib.rs). `rx` is the array of the two paths, by the names of its
-- indices.
pub mod Laws
use ipv_8_public_base_statio.Common.{
  ℕ, ◌+◌, ◌-◌, Bool, true, false, ◌&&◌, Option, none, some, List, [], min, ltb, if◌then◌else◌,
  Result, ok, err, diverged,
}
use ipv_8_public_base_statio.Common.Bytes.{u32, u64}
use ipv_8_public_base_statio.Observe.Frame.{frame_meta}
use ipv_8_public_base_statio.Observe.Window.{
  SaWindows, PathState, PathCounters, new_path, observe_sa, observe_data, totals, counters,
}
use ipv_8_public_base_statio.Observe.Report.{
  Report, ReportError, Slots, encode_report, decode_report,
}
use ipv_8_public_base_statio.Observe.Rtt.{RttTracker, new_tracker, on_peer_report, echo}
use ipv_8_public_base_statio.Observe.Policy.{
  Breaker, BreakerConfig, FecGate, GateConfig, new_breaker, new_gate, update_breaker, update_gate,
}
use ipv_8_public_base_statio.Observe.Congestion.{
  CcConfig, CongestionController, new_controller, update_cc,
}

pub data PathId : Type 0 where
  main : PathId
  alt : PathId

pub record ObserveConfig : Type 0 where
  pub report_interval_ms : ℕ
  pub dual_path : Bool
  pub breaker : BreakerConfig
  pub gate : GateConfig
  pub cc_config : Option CcConfig

pub record ObserveNode : Type 0 where
  pub cfg : ObserveConfig
  pub rx_main : PathState
  pub rx_alt : PathState
  pub rx_union : SaWindows
  pub rtt : RttTracker
  pub seq : ℕ
  pub last_report_ms : Option ℕ
  pub peer_prev : Option Slots
  pub last_dunion : ℕ × ℕ
  pub breaker : Breaker
  pub gate : FecGate
  pub controller : Option CongestionController

abbrev map_config : Option CcConfig → Option CongestionController
map_config none = none
map_config (some c) = some (new_controller c)

unfoldable pub new_node : ObserveConfig → ObserveNode
new_node cfg = record {
  cfg = cfg;
  rx_main = new_path;
  rx_alt = new_path;
  rx_union = [];
  rtt = new_tracker;
  seq = 0;
  last_report_ms = none;
  peer_prev = none;
  last_dunion = (0, 0);
  breaker = new_breaker cfg.breaker;
  gate = new_gate cfg.gate;
  controller = map_config cfg.cc_config;
}

abbrev pub union_sees : SaWindows → Option (ℕ × ℕ) → SaWindows
union_sees es none = es
union_sees es (some (key, counter)) = observe_sa es key counter

abbrev pub path_of : ObserveNode → PathId → PathState
path_of n main = n.rx_main
path_of n alt = n.rx_alt

abbrev set_path : ObserveNode → PathId → PathState → ObserveNode
set_path n main p = record n { rx_main = p }
set_path n alt p = record n { rx_alt = p }

unfoldable pub observe_inbound : ObserveNode → ℕ → PathId → List ℕ → ObserveNode × Bool
observe_inbound n now_ms path frame =
    let (p, accepted) = observe_data (path_of n path) now_ms frame in
    let n = set_path n path p in
    if accepted
    then (record n { rx_union = union_sees n.rx_union (frame_meta frame) }, true)
    else (n, false)

-- Is the interval since the last report still running?
abbrev pub too_early : ObserveNode → ℕ → Bool
too_early n now_ms = not_over n.last_report_ms
  where
    not_over : Option ℕ → Bool
    not_over none = false
    not_over (some last) = ltb (now_ms - last) n.cfg.report_interval_ms

unfoldable pub report_of : ObserveNode → ℕ → ℕ → Report
report_of n now_ms now_us =
    let m = counters n.rx_main now_ms in
    let a = counters n.rx_alt now_ms in
    let t = totals n.rx_union in
    let (lsr_us, dlsr_us) = echo n.rtt now_us in
    record {
      seq = n.seq;
      send_ts_us = now_us;
      lsr_us = lsr_us;
      dlsr_us = dlsr_us;
      slots_valid = if n.cfg.dual_path then 2 else 1;
      slots = record {
        slot_main = m;
        slot_alt = a;
        slot_union = record {
          expected = t.expected;
          seen = t.seen;
          dup = t.dup;
          resets = t.resets;
          last_recv_age_ms = min m.last_recv_age_ms a.last_recv_age_ms;
        };
      };
    }

unfoldable pub maybe_build_report : ObserveNode → ℕ → ℕ → ObserveNode × Option (List ℕ)
maybe_build_report n now_ms now_us = if too_early n now_ms then (n, none) else (
  record n { seq = u32 (n.seq + 1); last_report_ms = some now_ms },
  some (encode_report (report_of n now_ms now_us)),
)

-- `wrapping_sub` of u64.
abbrev pub wrapping_sub : ℕ → ℕ → ℕ
wrapping_sub a b = u64 (a + 18446744073709551616 - b)

abbrev pub delta_of : PathCounters → PathCounters → ℕ × ℕ
delta_of cur old = (wrapping_sub cur.expected old.expected, wrapping_sub cur.seen old.seen)

abbrev update_controller :
    Option CongestionController → ℕ × ℕ → Option ℕ → ℕ → Option CongestionController
update_controller none delta rtt now_ms = none
update_controller (some c) delta rtt now_ms = some (update_cc c delta rtt now_ms)

-- The policies move on when there is a report before this one.
unfoldable pub advance : ObserveNode → ℕ → Report → Option Slots → ObserveNode
advance n now_ms r none = n
advance n now_ms r (some prev) =
    let (d_expected, d_seen) = delta_of r.slots.slot_union prev.slot_union in
    record n {
      breaker =
          if n.cfg.dual_path
          then update_breaker n.breaker r.slots.slot_main r.slots.slot_alt
          else n.breaker;
      gate = update_gate n.gate d_expected d_seen;
      last_dunion = (d_expected, d_seen);
      controller = update_controller n.controller (d_expected, d_seen) n.rtt.rtt_us now_ms;
    }

unfoldable pub ingest : ObserveNode → ℕ → ℕ → Report → ObserveNode
ingest n now_ms now_us r =
    let n = record n { rtt = on_peer_report n.rtt now_us r } in
    let n = advance n now_ms r n.peer_prev in record n { peer_prev = some r.slots }

-- The node, and the error that the source returns.
unfoldable pub ingest_result :
    ObserveNode → ℕ → ℕ → Result ReportError Report → ObserveNode × Option ReportError
ingest_result n now_ms now_us (ok r) = (ingest n now_ms now_us r, none)
ingest_result n now_ms now_us (err e) = (n, some e)
ingest_result n now_ms now_us diverged = (n, none)

unfoldable pub ingest_report : ObserveNode → ℕ → ℕ → List ℕ → ObserveNode × Option ReportError
ingest_report n now_ms now_us bytes = ingest_result n now_ms now_us (decode_report bytes)

unfoldable pub alt_disabled : ObserveNode → Bool
alt_disabled n = n.cfg.dual_path && n.breaker.is_open

unfoldable pub fec_enabled : ObserveNode → Bool
fec_enabled n = n.gate.is_on
