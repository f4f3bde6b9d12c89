-- ===== src/Observe/Rtt/Laws.antt =====
-- The round trip that two trackers measure over one exchange of reports.
use ipv_8_public_base_statio.Common.{ℕ, ◌+◌, ◌-◌, ◌≤◌, ◌<◌, ◌≡◌, some, arith, ap, ◌∙◌}
use ipv_8_public_base_statio.Observe.Window.{u64_max, u32_max}
use ipv_8_public_base_statio.Observe.Report.{Report}
use ipv_8_public_base_statio.Observe.Rtt.{RttTracker, on_peer_report, echo}

echo_after :
    (b : RttTracker) (first : Report) (u1 u2 : ℕ)
    → u1 ≤ u2
    → u2 - u1 < u32_max - 1
    → echo (on_peer_report b u1 first) u2 ≡ (first.send_ts_us, u2 - u1)
unfolding on_peer_report echo
echo_after b first u1 u2 le short = ground arith

rtt_at :
    (a : RttTracker) (reply : Report) (t3 : ℕ)
    → 0 < reply.lsr_us
    → reply.dlsr_us < u32_max
    → reply.lsr_us + reply.dlsr_us ≤ t3
    → t3 ≤ u64_max
    → (on_peer_report a t3 reply).rtt_us ≡ some (t3 - (reply.lsr_us + reply.dlsr_us))
unfolding on_peer_report
rtt_at a reply t3 pos short waited small = ground arith

-- A sends its report `first` at `t0` of its clock. B receives it at `u1` of its own clock and
-- answers at `u2` with `reply`, which carries what `echo` returns. A receives the answer at `t3`.
-- When the answer was held for less than 2 ^ 32 - 2 microseconds and A's clock has advanced by at
-- least that, A's round-trip time is the time A waited less the time B held the report: B's clock
-- enters by a difference only.
pub rtt_of_exchange :
    (a b : RttTracker) (first reply : Report) (t0 u1 u2 t3 : ℕ)
    → first.send_ts_us ≡ t0
    → 0 < t0
    → u1 ≤ u2
    → u2 - u1 < u32_max - 1
    → (reply.lsr_us, reply.dlsr_us) ≡ echo (on_peer_report b u1 first) u2
    → t0 + (u2 - u1) ≤ t3
    → t3 ≤ u64_max
    → (on_peer_report a t3 reply).rtt_us ≡ some (t3 - t0 - (u2 - u1))
rtt_of_exchange a b first reply t0 u1 u2 t3 sent pos le short echoed waited small =
    let e = echoed ∙ echo_after b first u1 u2 le short in
    let lsr : reply.lsr_us ≡ first.send_ts_us = ap (λ p. p.0) e in
    let dlsr : reply.dlsr_us ≡ u2 - u1 = ap (λ p. p.1) e in
    rtt_at a reply t3 (omega arith) (omega arith) (omega arith) small ∙ ap some difference
  where
    difference : t3 - (reply.lsr_us + reply.dlsr_us) ≡ t3 - t0 - (u2 - u1)
    difference =
        let e = echoed ∙ echo_after b first u1 u2 le short in
        let lsr : reply.lsr_us ≡ first.send_ts_us = ap (λ p. p.0) e in
        let dlsr : reply.dlsr_us ≡ u2 - u1 = ap (λ p. p.1) e in omega arith
