-- ===== src/Observe/Rtt.antt =====
-- Round-trip times from echoed time stamps (src/core/ipv8-observe/src/rtt.rs).
pub mod Laws
use ipv_8_public_base_statio.Common.{
  ℕ, ◌+◌, ◌-◌, not, Option, none, some, min, leb, ◌==◌, if◌then◌else◌,
}
use ipv_8_public_base_statio.Observe.Window.{u32_max, sat64}
use ipv_8_public_base_statio.Observe.Report.{Report}

pub record RttTracker : Type 0 where
  pub peer_send_ts : ℕ
  pub peer_recv_us : Option ℕ
  pub rtt_us : Option ℕ

unfoldable pub new_tracker : RttTracker
new_tracker = record { peer_send_ts = 0; peer_recv_us = none; rtt_us = none }

unfoldable pub on_peer_report : RttTracker → ℕ → Report → RttTracker
on_peer_report t now_us r =
    let t = record t { peer_send_ts = r.send_ts_us; peer_recv_us = some now_us } in
    let dlsr = if r.dlsr_us == u32_max then 0 else r.dlsr_us in
    let total = sat64 r.lsr_us dlsr in
    if not (r.lsr_us == 0)
    then if leb total now_us then record t { rtt_us = some (now_us - total) } else t
    else t

abbrev pub delay_since : Option ℕ → ℕ → ℕ
delay_since none now_us = u32_max
delay_since (some t) now_us = if leb t now_us then min (now_us - t) (u32_max - 1) else u32_max

unfoldable pub echo : RttTracker → ℕ → ℕ × ℕ
echo t now_us = (t.peer_send_ts, delay_since t.peer_recv_us now_us)
