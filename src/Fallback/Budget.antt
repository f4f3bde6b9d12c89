-- ===== src/Fallback/Budget.antt =====
-- How many failures a peer has left before it goes down to plain TCP.
use ipv_8_public_base_statio.Common.{
  ℕ, suc, ◌+◌, ◌-◌, ◌*◌, ◌≤◌, ◌<◌, ◌≡◌, ◌⊎◌, refl, ap, sym, subst, ◌∙◌, true, false, List, [], ◌∷◌,
  some, ltb, leb, length, String, All, arith, Bool-cases, inl, inr,
}
use ipv_8_public_base_statio.Common.Bytes.{u32}
use native.Mathlib.Nat.{suc-mul}
use ipv_8_public_base_statio.Fallback.{
  Failure, FallbackManager, Level, PeerState, alt_tunnel, fail_at, fail_entry, is_plain,
  leave_entry, main_tunnel, peer_mut, plain_tcp, plain_udp, record_failure, skips_retry,
}
use ipv_8_public_base_statio.Fallback.Peer.{IsPeer, fail_at-IsPeer, peer_mut-with_peer}
use ipv_8_public_base_statio.Fallback.Laws.{IsManager, peer_mut-IsPeer, with_peer-IsManager}

-- The failures that are left with `left` entries behind the one in use.
abbrev failures_left : PeerState → ℕ → ℕ
failures_left s left = (s.max_retries + 1 - s.failures_at_level) + left * (s.max_retries + 1)

abbrev pub budget_at : Level → PeerState → ℕ
budget_at main_tunnel s = failures_left s (length s.resolved.alt_entries)
budget_at alt_tunnel s = failures_left s (length s.resolved.alt_entries - (s.alt_idx + 1))
budget_at plain_tcp s = 0
budget_at plain_udp s = 0

abbrev pub budget : PeerState → ℕ
budget s = budget_at s.level s

-- A failure takes one off, and at none left the peer is at plain TCP with its window begun.
abbrev IsSpent : PeerState → ℕ → ℕ → Type 0
IsSpent t before now =
    (suc (budget t) ≡ before)
    × (((is_plain t.level ≡ false) × (0 < budget t))
        ⊎ ((t.level ≡ plain_tcp) × (t.degraded_at ≡ some now)))

leave_entry-IsSpent :
    (s : PeerState) (next_alt now left : ℕ)
    → IsPeer s
    → left ≡ length s.resolved.alt_entries - next_alt
    → IsSpent (leave_entry s next_alt now) (1 + left * (s.max_retries + 1)) now
unfolding leave_entry
leave_entry-IsSpent s next_alt now left h e =
    elim (Bool-cases (ltb next_alt (length s.resolved.alt_entries))) [
      | inl more ↦
          let below : next_alt < length s.resolved.alt_entries = there next_alt _ more in
          let later : ℕ = length s.resolved.alt_entries - (next_alt + 1) in
          let one_less : left ≡ suc later = omega (arith, below, e) in
          rw more (
            omega (
              arith,
              ap (λ (n : ℕ). n * (s.max_retries + 1)) one_less,
              suc-mul later (s.max_retries + 1),
            ),
            inl (refl, omega arith),
          )
      | inr no_more ↦
          let none_left : left ≡ 0 = omega (arith, beyond next_alt _ no_more, e) in
          rw no_more
            (omega (arith, ap (λ (n : ℕ). n * (s.max_retries + 1)) none_left), inr (refl, refl))
    ]
  where
    there : (i n : ℕ) → ltb i n ≡ true → i < n
    there i n e = ground arith

    beyond : (i n : ℕ) → ltb i n ≡ false → n ≤ i
    beyond i n e = ground arith

fail_entry-IsSpent :
    (s : PeerState) (f : Failure) (next_alt now left : ℕ)
    → IsPeer s
    → skips_retry f ≡ false
    → left ≡ length s.resolved.alt_entries - next_alt
    → ((t : PeerState)
        → t ≡ record s { failures_at_level = u32 (s.failures_at_level + 1) }
        → (is_plain t.level ≡ false) × (budget t ≡ failures_left t left))
    → IsSpent (fail_entry s f next_alt now) (failures_left s left) now
unfolding fail_entry
fail_entry-IsSpent s f next_alt now left h retries e same =
    elim (Bool-cases (leb (u32 (s.failures_at_level + 1)) s.max_retries)) [
      | inl again ↦
          let t : PeerState = record s { failures_at_level = u32 (s.failures_at_level + 1) } in
          let (tunnels, left_now) = same t refl in
          let within : u32 (s.failures_at_level + 1) ≤ s.max_retries = inside _ _ again in
          rw (retries, again)
            (
              omega (arith, left_now, within, h.in_budget, h.retries_u32),
              inl (tunnels, omega (arith, left_now, within)),
            )
      | inr over ↦
          rw (retries, over)
            (subst (λ (n : ℕ). IsSpent (leave_entry s next_alt now) n now)
              (omega (arith, outside _ _ over, h.in_budget, h.retries_u32))
              (leave_entry-IsSpent s next_alt now left h e))
    ]
  where
    inside : (n m : ℕ) → leb n m ≡ true → n ≤ m
    inside n m e = ground arith

    outside : (n m : ℕ) → leb n m ≡ false → m < n
    outside n m e = ground arith

fail_at-IsSpent :
    (s : PeerState) (f : Failure) (now : ℕ) (l : Level)
    → IsPeer s
    → skips_retry f ≡ false
    → s.level ≡ l
    → is_plain l ≡ false
    → IsSpent (fail_at l s f now) (budget_at l s) now
unfolding fail_at
fail_at-IsSpent s f now main_tunnel h retries e tunnels =
    fail_entry-IsSpent s f 0 now (length s.resolved.alt_entries) h retries (omega arith) (λ t same.
      (
        ap is_plain (ap (λ (u : PeerState). u.level) same ∙ e),
        ap (λ (x : Level). budget_at x t) (ap (λ (u : PeerState). u.level) same ∙ e)
            ∙ ap (λ (n : ℕ). failures_left t n)
                (ap (λ (u : PeerState). length u.resolved.alt_entries) same),
      ))
fail_at-IsSpent s f now alt_tunnel h retries e tunnels =
    fail_entry-IsSpent s f (s.alt_idx + 1) now (length s.resolved.alt_entries - (s.alt_idx + 1)) h
      retries refl
      (λ t same. (
        ap is_plain (ap (λ (u : PeerState). u.level) same ∙ e),
        ap (λ (x : Level). budget_at x t) (ap (λ (u : PeerState). u.level) same ∙ e)
            ∙ ap (λ (n : ℕ). failures_left t n)
                (ap (λ (u : PeerState). length u.resolved.alt_entries - (u.alt_idx + 1)) same),
      ))
fail_at-IsSpent s f now plain_tcp h retries e tunnels = cc
fail_at-IsSpent s f now plain_udp h retries e tunnels = cc

-- The failures of a peer, one after the other, each with its time.
abbrev pub all_fail : FallbackManager → String → List (Failure × ℕ) → FallbackManager
all_fail m name [] = m
all_fail m name ((f, now) ∷ later) = all_fail (record_failure m name f now) name later

-- No first-packet timeout is among them.
abbrev pub AreRetried : List (Failure × ℕ) → Type 0
AreRetried = All (λ (x : Failure × ℕ). skips_retry x.0 ≡ false)

record_failure-peer :
    (m : FallbackManager) (name : String) (f : Failure) (now : ℕ)
    → peer_mut (record_failure m name f now) name
      ≡ fail_at (peer_mut m name).level (peer_mut m name) f now
unfolding record_failure
record_failure-peer m name f now =
    peer_mut-with_peer m name (fail_at (peer_mut m name).level (peer_mut m name) f now)

record_failure-IsManager :
    (m : FallbackManager) (name : String) (f : Failure) (now : ℕ)
    → IsManager m
    → IsManager (record_failure m name f now)
unfolding record_failure
record_failure-IsManager m name f now h =
    let s : PeerState = peer_mut m name in
    with_peer-IsManager m name (fail_at s.level s f now) h
      (fail_at-IsPeer s.level s f now (peer_mut-IsPeer m name h))

-- Failures that are handshake timeouts or failed levels, and so not first-packet timeouts, which skip
-- the budget: a peer that uses a tunnel keeps using one for fewer of them than its budget, and is at
-- plain TCP after as many, whatever their times. The budget of a fresh peer is one more than the
-- retries, for the main entry and for each reserve entry.
pub failures_degrade :
    (m : FallbackManager) (name : String) (fs : List (Failure × ℕ))
    → IsManager m
    → AreRetried fs
    → is_plain (peer_mut m name).level ≡ false
    → (length fs < budget (peer_mut m name)
        → is_plain (peer_mut (all_fail m name fs) name).level ≡ false)
      × (length fs ≡ budget (peer_mut m name)
          → (peer_mut (all_fail m name fs) name).level ≡ plain_tcp)
failures_degrade m name [] h retried tunnels =
    (λ lt. tunnels, λ e. absurd (positive (peer_mut m name).level tunnels (sym e)))
  where
    positive : (l : Level) → is_plain l ≡ false → budget_at l (peer_mut m name) ≡ 0 → ⊥
    positive main_tunnel t e = omega (arith, e, (peer_mut-IsPeer m name h).in_budget)
    positive alt_tunnel t e = omega (arith, e, (peer_mut-IsPeer m name h).in_budget)
    positive plain_tcp t e = cc
    positive plain_udp t e = cc
failures_degrade m name ((f, now) ∷ later) h (retried, others) tunnels =
    let s : PeerState = peer_mut m name in
    let m' : FallbackManager = record_failure m name f now in
    let (spent, goes) =
      subst (λ (t : PeerState). IsSpent t (budget s) now) (sym (record_failure-peer m name f now))
        (fail_at-IsSpent s f now s.level (peer_mut-IsPeer m name h) retried refl tunnels) in
    elim goes [
      | inl (still, _) ↦
          let (fewer, as_many) =
            failures_degrade m' name later (record_failure-IsManager m name f now h) others still in
          (λ lt. fewer (omega (arith, lt, spent)), λ e. as_many (omega (arith, e, spent)))
      | inr (down, _) ↦
          let last : budget (peer_mut m' name) ≡ 0 =
            ap (λ (l : Level). budget_at l (peer_mut m' name)) down in
          (
            λ lt. absurd (omega (arith, lt, spent, last)),
            λ e. ended later (omega (arith, e, spent, last)) down,
          )
    ]
  where
    ended :
        (rest : List (Failure × ℕ))
        → length rest ≡ 0
        → (peer_mut (record_failure m name f now) name).level ≡ plain_tcp
        → (peer_mut (all_fail (record_failure m name f now) name rest) name).level ≡ plain_tcp
    ended [] e down = down
    ended (x ∷ xs) e down = absurd (omega arith)
