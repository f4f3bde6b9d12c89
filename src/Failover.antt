-- ===== src/Failover.antt =====
-- The failover between relays (src/core/ipv8-tunnel/src/relay_failover.rs). A Duration and an
-- Instant are numbers of nanoseconds, and `duration_since` stops at 0. The texts of the events are
-- constructors. The averages of `stats` (f64) are not modelled.
pub mod Best
pub mod Laws
use ipv_8_public_base_statio.Common.{
  ℕ, zero, suc, ◌+◌, ◌-◌, ◌/◌, Bool, true, false, not, ◌&&◌, List, [], ◌∷◌, ◌++◌, Option, none,
  some, min, ltb, leb, ◌==◌, if◌then◌else◌, length, get_elem?, set, drop, String, str_eq,
}
use ipv_8_public_base_statio.Common.Bytes.{u32, u64}

pub record RelayNode : Type 0 where
  pub addr : String
  pub priority : ℕ
  pub last_latency : Option ℕ
  pub last_check : Option ℕ
  pub fail_count : ℕ
  pub success_streak : ℕ
  pub healthy : Bool

pub record FailoverConfig : Type 0 where
  pub check_interval : ℕ
  pub check_timeout : ℕ
  pub fail_threshold : ℕ
  pub recover_threshold : ℕ
  pub recover_debounce : ℕ

pub data Health : Type 0 where
  is_healthy : Health
  is_unhealthy : Health
  is_unknown : Health

pub data Reason : Type 0 where
  checks_failed : ℕ → Reason
  active_failed : Reason
  primary_stable : Reason
  to_best : Reason
  none_healthy : Reason

-- The target of a switch is `none` for the text "no relay available".
pub data FailoverEvent : Type 0 where
  relay_down : String → Reason → FailoverEvent
  relay_up : String → ℕ → FailoverEvent
  switched : String → Option String → Reason → FailoverEvent

pub record RelayFailover : Type 0 where
  pub config : FailoverConfig
  pub relays : List RelayNode
  pub active_idx : ℕ
  pub primary_recovered_at : Option ℕ
  pub events : List FailoverEvent

abbrev pub node_of : String × ℕ → RelayNode
node_of (addr, priority) = record {
  addr = addr;
  priority = priority;
  last_latency = none;
  last_check = none;
  fail_count = 0;
  success_streak = 0;
  healthy = true;
}

-- `sort_by_key` is stable: a new entry goes behind those of the same priority.
abbrev pub insert_by_priority : RelayNode → List RelayNode → List RelayNode
insert_by_priority r [] = r ∷ []
insert_by_priority r (x ∷ xs) =
    let rest = insert_by_priority r xs in if ltb r.priority x.priority then r ∷ x ∷ xs else x ∷ rest

abbrev pub sorted_onto : List RelayNode → List (String × ℕ) → List RelayNode
sorted_onto done [] = done
sorted_onto done (r ∷ rs) = sorted_onto (insert_by_priority (node_of r) done) rs

unfoldable pub new_failover : FailoverConfig → List (String × ℕ) → RelayFailover
new_failover config relays = record {
  config = config;
  relays = sorted_onto [] relays;
  active_idx = 0;
  primary_recovered_at = none;
  events = [];
}

-- The index of the first relay with this address, and the relay.
abbrev pub position_from : ℕ → List RelayNode → String → Option (ℕ × RelayNode)
position_from i [] addr = none
position_from i (r ∷ rs) addr =
    let later = position_from (i + 1) rs addr in if str_eq r.addr addr then some (i, r) else later

abbrev health_at : Option (ℕ × RelayNode) → Health
health_at none = is_unknown
health_at (some (i, r)) = if r.healthy then is_healthy else is_unhealthy

unfoldable pub health_of : RelayFailover → String → Health
health_of f addr = health_at (position_from 0 f.relays addr)

unfoldable pub push_event : RelayFailover → FailoverEvent → RelayFailover
push_event f e =
    let kept = if leb 100 (length f.events) then drop 1 f.events else f.events in
    record f { events = kept ++ (e ∷ []) }

abbrev addr_in : Option RelayNode → String
addr_in none = []
addr_in (some r) = r.addr

-- `self.relays[i].addr`; the source panics out of bounds, where the index never is.
abbrev pub addr_at : RelayFailover → ℕ → String
addr_at f i = addr_in (get_elem? f.relays i)

-- The key of `min_by_key`: milliseconds, the largest u64 for an unknown latency.
abbrev pub latency_key : Option ℕ → ℕ
latency_key none = 18446744073709551615
latency_key (some d) = u64 (d / 1000000)

-- The first of the two when the keys are equal.
abbrev pub better : ℕ × ℕ → Option (ℕ × ℕ) → Option (ℕ × ℕ)
better c none = some c
better (i, k) (some (j, m)) = if leb k m then some (i, k) else some (j, m)

-- The index and the key of the first healthy relay of least latency.
abbrev pub best_from : ℕ → List RelayNode → Option (ℕ × ℕ)
best_from i [] = none
best_from i (r ∷ rs) =
    let rest = best_from (i + 1) rs in
    if r.healthy then better (i, latency_key r.last_latency) rest else rest

abbrev pub switch_to : RelayFailover → Option (ℕ × ℕ) → RelayFailover × Bool
switch_to f none = (push_event f (switched (addr_at f f.active_idx) none none_healthy), false)
switch_to f (some (i, k)) = if i == f.active_idx then (f, false) else (
  push_event (record f { active_idx = i })
      (switched (addr_at f f.active_idx) (some (addr_at f i)) to_best),
  true,
)

unfoldable pub switch_to_best : RelayFailover → RelayFailover × Bool
unfolding push_event
switch_to_best f = switch_to f (best_from 0 f.relays)

unfoldable pub do_switch_to_primary : RelayFailover → String → RelayFailover × Bool
unfolding push_event
do_switch_to_primary f addr = (
  push_event (record f { active_idx = 0 })
      (switched (addr_at f f.active_idx) (some addr) primary_stable),
  true,
)

-- Has the primary been back for long enough?
abbrev pub debounced : RelayFailover → ℕ → Bool
debounced f now = since f.primary_recovered_at
  where
    since : Option ℕ → Bool
    since none = false
    since (some t) = leb f.config.recover_debounce (now - t)

-- A check that succeeds, at relay `idx`.
unfoldable pub on_success : RelayFailover → ℕ → RelayNode → ℕ → ℕ → RelayFailover × Bool
unfolding push_event do_switch_to_primary
on_success f idx relay lat now =
    let streak = min (relay.success_streak + 1) 4294967295 in
    let relay' = record relay {
      last_check = some now;
      last_latency = some lat;
      fail_count = 0;
      success_streak = streak;
    } in
    if not relay.healthy
    then if leb f.config.recover_threshold streak
      then (
        push_event
            (record f {
              relays = set f.relays idx (record relay' { healthy = true });
              primary_recovered_at = if idx == 0 then some now else f.primary_recovered_at;
            })
            (relay_up relay.addr lat),
        false,
      )
      else (record f { relays = set f.relays idx relay' }, false)
    else if (idx == 0) && not (f.active_idx == 0) && debounced f now
    then do_switch_to_primary (record f { relays = set f.relays idx relay' }) relay.addr
    else (record f { relays = set f.relays idx relay' }, false)

-- A check that fails, at relay `idx`.
unfoldable pub on_failure : RelayFailover → ℕ → RelayNode → ℕ → RelayFailover × Bool
unfolding push_event switch_to_best
on_failure f idx relay now =
    let fails = u32 (relay.fail_count + 1) in
    let relay' = record relay { last_check = some now; fail_count = fails; success_streak = 0 } in
    let g = record f { relays = set f.relays idx (record relay' { healthy = false }) } in
    if relay.healthy && leb f.config.fail_threshold fails
    then if idx == f.active_idx
      then switch_to_best (push_event g (relay_down relay.addr active_failed))
      else (push_event g (relay_down relay.addr (checks_failed fails)), false)
    else (record f { relays = set f.relays idx relay' }, false)

abbrev pub check_at : RelayFailover → Option ℕ → ℕ → Option (ℕ × RelayNode) → RelayFailover × Bool
check_at f latency now none = (f, false)
check_at f (some lat) now (some (idx, relay)) = on_success f idx relay lat now
check_at f none now (some (idx, relay)) = on_failure f idx relay now

unfoldable pub record_check : RelayFailover → String → Option ℕ → ℕ → RelayFailover × Bool
record_check f addr latency now = check_at f latency now (position_from 0 f.relays addr)

abbrev due : RelayFailover → ℕ → Option (ℕ × RelayNode) → Bool
due f now none = false
due f now (some (i, r)) = since r.last_check
  where
    since : Option ℕ → Bool
    since none = true
    since (some last) = leb f.config.check_interval (now - last)

unfoldable pub needs_check : RelayFailover → String → ℕ → Bool
needs_check f addr now = due f now (position_from 0 f.relays addr)
