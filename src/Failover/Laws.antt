-- ===== src/Failover/Laws.antt =====
-- The failover through health checks (src/core/ipv8-tunnel/src/relay_failover.rs).
use ipv_8_public_base_statio.Common.{
  ℕ, ◌+◌, ◌≤◌, ◌<◌, ◌≡◌, inl, inr, refl, ◌∙◌, true, false, not, ◌&&◌, [], ◌∷◌, Option, none, some,
  leb, ◌==◌, if◌then◌else◌, arith, length, set, drop, length-append, length-drop, length-set,
  get_elem?-lt, Bool-cases, String, min,
}
use ipv_8_public_base_statio.Common.Bytes.{u32}
use ipv_8_public_base_statio.Failover.{
  RelayFailover, RelayNode, FailoverEvent, push_event, position_from, best_from, switch_to_best,
  do_switch_to_primary, on_success, on_failure, record_check, debounced, relay_down, relay_up,
  switched, active_failed, checks_failed, none_healthy, to_best, primary_stable, addr_at, check_at,
}
use ipv_8_public_base_statio.Failover.Best.{best_from-IsBest, found_at}

-- The index is in bounds and at most 100 events are kept.
pub record IsFailover (f : RelayFailover) : Type 0 where
  pub in_bounds : f.active_idx < length f.relays
  pub few_events : length f.events ≤ 100

push_event-IsFailover :
    (f : RelayFailover) (e : FailoverEvent) → IsFailover f → IsFailover (push_event f e)
unfolding push_event
push_event-IsFailover f e h = record {
  in_bounds = h.in_bounds;
  few_events = elim (Bool-cases (leb 100 (length f.events))) [
    | inl full ↦ rw full (
        omega
          (arith, length-append (drop 1 f.events) (e ∷ []), length-drop 1 f.events, h.few_events))
    | inr room ↦
        rw room (omega (arith, length-append f.events (e ∷ []), leb→gt 100 (length f.events) room))
  ];
}
  where
    leb→gt : (a b : ℕ) → leb a b ≡ false → b < a
    leb→gt a b h = ground arith

set-IsFailover :
    (f : RelayFailover) (i : ℕ) (r : RelayNode) (t : Option ℕ)
    → IsFailover f
    → IsFailover (record f { relays = set f.relays i r; primary_recovered_at = t })
set-IsFailover f i r t h = record {
  in_bounds = omega (arith, length-set f.relays i r, h.in_bounds);
  few_events = h.few_events;
}

-- A relay that comes back is not switched to, even when the active one is down: whatever relay was
-- unhealthy, the index stays after any check that succeeds for it.
recovery_keeps_active :
    (f : RelayFailover) (addr : String) (idx lat now : ℕ) (relay : RelayNode)
    → position_from 0 f.relays addr ≡ some (idx, relay)
    → relay.healthy ≡ false
    → ((record_check f addr (some lat) now).0.active_idx ≡ f.active_idx)
      × ((record_check f addr (some lat) now).1 ≡ false)
unfolding record_check on_success push_event
recovery_keeps_active f addr idx lat now relay found down =
    let streak : ℕ = min (relay.success_streak + 1) 4294967295 in
    elim (Bool-cases (leb f.config.recover_threshold streak)) [
      | inl enough ↦ (rw (found, down, enough) refl, rw (found, down, enough) refl)
      | inr few ↦ (rw (found, down, few) refl, rw (found, down, few) refl)
    ]

switch_to_best-IsFailover : (f : RelayFailover) → IsFailover f → IsFailover (switch_to_best f).0
unfolding switch_to_best
switch_to_best-IsFailover f h = elim (best_from-IsBest 0 f.relays) [
  | inl (none_up, down) ↦
      rw none_up (push_event-IsFailover f (switched (addr_at f f.active_idx) none none_healthy) h)
  | inr (n, k, e, b) ↦
      let found : best_from 0 f.relays ≡ some (n, k) = e ∙ found_at k (omega arith) in
      let g : RelayFailover = record f { active_idx = n } in
      elim (Bool-cases (n == f.active_idx)) [
        | inl same ↦ rw (found, same) h
        | inr other ↦
            rw (found, other)
              (push_event-IsFailover g
                (switched (addr_at f f.active_idx) (some (addr_at f n)) to_best)
                (record {
                  in_bounds = get_elem?-lt f.relays n b.relay b.at_index;
                  few_events = h.few_events;
                }))
      ]
]

on_success-IsFailover :
    (f : RelayFailover) (idx : ℕ) (relay : RelayNode) (lat now : ℕ)
    → IsFailover f
    → IsFailover (on_success f idx relay lat now).0
unfolding on_success do_switch_to_primary
on_success-IsFailover f idx relay lat now h =
    let streak : ℕ = min (relay.success_streak + 1) 4294967295 in
    let relay' : RelayNode = record relay {
      last_check = some now;
      last_latency = some lat;
      fail_count = 0;
      success_streak = streak;
    } in
    let up : RelayNode = record relay' { healthy = true } in
    let back : Option ℕ = if idx == 0 then some now else f.primary_recovered_at in
    let g : RelayFailover = record f { relays = set f.relays idx up } in
    let hg : IsFailover g = set-IsFailover f idx up f.primary_recovered_at h in
    elim (Bool-cases relay.healthy) [
      | inr down ↦ elim (Bool-cases (leb f.config.recover_threshold streak)) [
        | inl enough ↦
            rw (down, enough)
              (push_event-IsFailover
                (record f { relays = set f.relays idx up; primary_recovered_at = back })
                (relay_up relay.addr lat) (set-IsFailover f idx up back h))
        | inr few ↦
            rw (down, few)
              (set-IsFailover f idx (record relay' { healthy = false }) f.primary_recovered_at h)
      ]
      | inl healthy ↦ elim (Bool-cases ((idx == 0) && not (f.active_idx == 0) && debounced f now)) [
        | inl due ↦
            rw (healthy, due)
              (push_event-IsFailover (record g { active_idx = 0 })
                (switched (addr_at g f.active_idx) (some relay.addr) primary_stable)
                (record { in_bounds = omega (arith, hg.in_bounds); few_events = h.few_events }))
        | inr wait ↦ rw (healthy, wait) hg
      ]
    ]

on_failure-IsFailover :
    (f : RelayFailover) (idx : ℕ) (relay : RelayNode) (now : ℕ)
    → IsFailover f
    → IsFailover (on_failure f idx relay now).0
unfolding on_failure
on_failure-IsFailover f idx relay now h =
    let relay' : RelayNode = record relay {
      last_check = some now;
      fail_count = u32 (relay.fail_count + 1);
      success_streak = 0;
    } in
    let down : RelayNode = record relay' { healthy = false } in
    let g : RelayFailover = record f { relays = set f.relays idx down } in
    let hg : IsFailover g = set-IsFailover f idx down f.primary_recovered_at h in
    elim (Bool-cases (relay.healthy && leb f.config.fail_threshold (u32 (relay.fail_count + 1)))) [
      | inl fails ↦ elim (Bool-cases (idx == f.active_idx)) [
        | inl active ↦
            rw (fails, active)
              (switch_to_best-IsFailover (push_event g (relay_down relay.addr active_failed))
                (push_event-IsFailover g (relay_down relay.addr active_failed) hg))
        | inr other ↦
            rw (fails, other)
              (push_event-IsFailover g
                (relay_down relay.addr (checks_failed (u32 (relay.fail_count + 1)))) hg)
      ]
      | inr kept ↦ rw kept (set-IsFailover f idx relay' f.primary_recovered_at h)
    ]

-- Every check keeps the index of the active relay in bounds and the log at 100 events or fewer.
pub record_check-IsFailover :
    (f : RelayFailover) (addr : String) (latency : Option ℕ) (now : ℕ)
    → IsFailover f
    → IsFailover (record_check f addr latency now).0
unfolding record_check
record_check-IsFailover f addr latency now h = by_position latency (position_from 0 f.relays addr)
  where
    by_position :
        (latency : Option ℕ) (p : Option (ℕ × RelayNode)) → IsFailover (check_at f latency now p).0
    by_position latency none = h
    by_position (some lat) (some (idx, relay)) = on_success-IsFailover f idx relay lat now h
    by_position none (some (idx, relay)) = on_failure-IsFailover f idx relay now h
