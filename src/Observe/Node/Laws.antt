-- ===== src/Observe/Node/Laws.antt =====
-- What the node's operations keep together.
use ipv_8_public_base_statio.Common.{
  ℕ, ◌-◌, ◌≤◌, ◌<◌, arith, if◌then◌else◌, ◌≡◌, refl, ap, ◌∙◌, true, false, Option, none, some, List,
  ok, err, diverged, ◌⊎◌, Result,
}
use ipv_8_public_base_statio.Observe.Frame.{frame_meta}
use ipv_8_public_base_statio.Observe.Window.{counters, totals, observe_sa}
use ipv_8_public_base_statio.Observe.Report.{
  Report, ReportError, Slots, encode_report, decode_report,
}
use ipv_8_public_base_statio.Observe.Report.RoundTrip.{IsReport, decode_report-encode_report}
use ipv_8_public_base_statio.Observe.Rtt.{on_peer_report}
use ipv_8_public_base_statio.Observe.Policy.{update_breaker, update_gate}
use ipv_8_public_base_statio.Observe.Node.{
  ObserveNode, PathId, observe_inbound, report_of, maybe_build_report, too_early, ingest,
  ingest_report, ingest_result, advance, alt_disabled, path_of, wrapping_sub,
}

abbrev pub Observed : ObserveNode → ℕ → PathId → List ℕ → Type 0
Observed n now path frame =
    ((frame_meta frame ≡ none)
      × ((observe_inbound n now path frame).1 ≡ false)
      × ((observe_inbound n now path frame).0 ≡ n))
    ⊎ ((key : ℕ) × (counter : ℕ) × (frame_meta frame ≡ some (key, counter))
        × ((observe_inbound n now path frame).1 ≡ true)
        × ((path_of (observe_inbound n now path frame).0 path).sas
            ≡ observe_sa (path_of n path).sas key counter)
        × ((observe_inbound n now path frame).0.rx_union ≡ observe_sa n.rx_union key counter))

-- A report that is built and sent reaches `ingest` as it was.
report_arrives :
    (sender receiver : ObserveNode) (now_ms now_us at_ms at_us : ℕ)
    → IsReport (report_of sender now_ms now_us)
    → ingest_report receiver at_ms at_us (encode_report (report_of sender now_ms now_us))
      ≡ (ingest receiver at_ms at_us (report_of sender now_ms now_us), none)
unfolding ingest_report ingest_result
report_arrives sender receiver now_ms now_us at_ms at_us fits =
    rw (decode_report-encode_report (report_of sender now_ms now_us) fits).1 refl

wrapping_sub-le : (a b : ℕ) → a < 18446744073709551616 → b ≤ a → wrapping_sub a b ≡ a - b
wrapping_sub-le a b small le = omega arith

-- The report of a node says what its windows have counted.
abbrev pub expected_of : ObserveNode → ℕ
expected_of n = (totals n.rx_union).expected

abbrev pub seen_of : ObserveNode → ℕ
seen_of n = (totals n.rx_union).seen

-- What the policies of a receiver make of the second of two reports of a sender: the interval is
-- what the sender's union has counted in between, the gate judges it, and the breaker, if there are
-- two paths, judges what the sender has counted on them.
pub record IsJudged (s1 s2 r1 r2 : ObserveNode) (now_ms : ℕ) : Type 0 where
  pub interval : r2.last_dunion ≡ (expected_of s2 - expected_of s1, seen_of s2 - seen_of s1)
  pub gate_eq :
      r2.gate ≡ update_gate r1.gate (expected_of s2 - expected_of s1) (seen_of s2 - seen_of s1)
  pub breaker_eq : r2.breaker ≡ (
      if r1.cfg.dual_path
      then update_breaker r1.breaker (counters s2.rx_main now_ms) (counters s2.rx_alt now_ms)
      else r1.breaker)

module _ (s1 s2 r : ObserveNode) (ms1 us1 ms2 us2 at1 atus1 at2 atus2 : ℕ) where
  abbrev first_taken : ObserveNode
  first_taken = ingest r at1 atus1 (report_of s1 ms1 us1)

  abbrev second_taken : ObserveNode
  second_taken = ingest first_taken at2 atus2 (report_of s2 ms2 us2)

  second_taken-IsJudged :
      expected_of s2 < 18446744073709551616
      → seen_of s2 < 18446744073709551616
      → expected_of s1 ≤ expected_of s2
      → seen_of s1 ≤ seen_of s2
      → IsJudged s1 s2 first_taken second_taken ms2
  unfolding ingest advance report_of
  second_taken-IsJudged e_fits s_fits e_le s_le =
      let e : wrapping_sub (expected_of s2) (expected_of s1) ≡ expected_of s2 - expected_of s1 =
        wrapping_sub-le (expected_of s2) (expected_of s1) e_fits e_le in
      let f : wrapping_sub (seen_of s2) (seen_of s1) ≡ seen_of s2 - seen_of s1 =
        wrapping_sub-le (seen_of s2) (seen_of s1) s_fits s_le in
      record { interval = rw (e, f) refl; gate_eq = rw (e, f) refl; breaker_eq = refl }

-- The bytes that two nodes build, what a receiver becomes by them, and what it judges.
abbrev pub AreJudged :
    ObserveNode → ObserveNode → ObserveNode → ℕ → ℕ → ℕ → ℕ → ℕ → ℕ → ℕ → ℕ → Type 0
AreJudged s1 s2 r ms1 us1 ms2 us2 at1 atus1 at2 atus2 =
    (b1 : List ℕ) × ((b2 : List ℕ) × (((maybe_build_report s1 ms1 us1).1 ≡ some b1)
        × (((maybe_build_report s2 ms2 us2).1 ≡ some b2)
            × ((r1 : ObserveNode) × ((r2 : ObserveNode) × ((ingest_report r at1 atus1 b1
                      ≡ (r1, none))
                    × ((ingest_report r1 at2 atus2 b2 ≡ (r2, none))
                        × IsJudged s1 s2 r1 r2 ms2)))))))

-- Two states of a node, of which the second has expected and seen as many frames as the first or
-- more, each send a report that is due and whose fields fit their widths. A receiver that takes in
-- the bytes of the first and then those of the second returns no error, and its policies have judged
-- the frames that the sender's union has counted between the two reports, and with two paths what
-- the sender has counted on each.
pub ingest_report-maybe_build_report :
    (s1 s2 r : ObserveNode) (ms1 us1 ms2 us2 at1 atus1 at2 atus2 : ℕ)
    → too_early s1 ms1 ≡ false
    → too_early s2 ms2 ≡ false
    → IsReport (report_of s1 ms1 us1)
    → IsReport (report_of s2 ms2 us2)
    → expected_of s1 ≤ expected_of s2
    → seen_of s1 ≤ seen_of s2
    → AreJudged s1 s2 r ms1 us1 ms2 us2 at1 atus1 at2 atus2
unfolding maybe_build_report
ingest_report-maybe_build_report s1 s2 r ms1 us1 ms2 us2 at1 atus1 at2 atus2 due1 due2 fits1 fits2
      e_le s_le =
    let r1 : ObserveNode = first_taken s1 s2 r ms1 us1 ms2 us2 at1 atus1 at2 atus2 in
    (
      encode_report (report_of s1 ms1 us1),
      (
        encode_report (report_of s2 ms2 us2),
        (
          rw due1 refl,
          (
            rw due2 refl,
            (
              r1,
              (
                second_taken s1 s2 r ms1 us1 ms2 us2 at1 atus1 at2 atus2,
                (
                  report_arrives s1 r ms1 us1 at1 atus1 fits1,
                  (
                    report_arrives s2 r1 ms2 us2 at2 atus2 fits2,
                    second_taken-IsJudged s1 s2 r ms1 us1 ms2 us2 at1 atus1 at2 atus2
                        (small_expected fits2) (small_seen fits2) e_le s_le,
                  ),
                ),
              ),
            ),
          ),
        ),
      ),
    )
  where
    small_expected : IsReport (report_of s2 ms2 us2) → expected_of s2 < 18446744073709551616
    small_expected fits = unfold report_of in fits.union_fits.expected_fits

    small_seen : IsReport (report_of s2 ms2 us2) → seen_of s2 < 18446744073709551616
    small_seen fits = unfold report_of in fits.union_fits.seen_fits

advance-single :
    (n : ObserveNode) (now_ms : ℕ) (r : Report) (prev : Option Slots)
    → n.cfg.dual_path ≡ false
    → ((advance n now_ms r prev).breaker ≡ n.breaker) × ((advance n now_ms r prev).cfg ≡ n.cfg)
unfolding advance
advance-single n now_ms r none single = (refl, refl)
advance-single n now_ms r (some prev) single = (rw single refl, refl)

ingest_result-single :
    (n : ObserveNode) (now_ms now_us : ℕ) (res : Result ReportError Report)
    → n.cfg.dual_path ≡ false
    → ((ingest_result n now_ms now_us res).0.breaker ≡ n.breaker)
      × ((ingest_result n now_ms now_us res).0.cfg ≡ n.cfg)
unfolding ingest_result ingest
ingest_result-single n now_ms now_us (ok r) single =
    advance-single (record n { rtt = on_peer_report n.rtt now_us r }) now_ms r n.peer_prev single
ingest_result-single n now_ms now_us (err e) single = (refl, refl)
ingest_result-single n now_ms now_us diverged single = (refl, refl)

-- Without two paths the breaker keeps its state whatever is reported, and the alternative path is
-- never disabled.
pub alt_disabled-single :
    (n : ObserveNode) (now_ms now_us : ℕ) (bytes : List ℕ)
    → n.cfg.dual_path ≡ false
    → ((ingest_report n now_ms now_us bytes).0.breaker ≡ n.breaker)
      × (alt_disabled (ingest_report n now_ms now_us bytes).0 ≡ false)
unfolding ingest_report alt_disabled
alt_disabled-single n now_ms now_us bytes single =
    let (kept, cfg_eq) = ingest_result-single n now_ms now_us (decode_report bytes) single in
    let off = ap (λ c. c.dual_path) cfg_eq ∙ single in (kept, rw off refl)
