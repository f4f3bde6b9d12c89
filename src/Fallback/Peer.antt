-- ===== src/Fallback/Peer.antt =====
-- The state of one peer (src/core/ipv8-tunnel/src/fallback.rs).
use ipv_8_public_base_statio.Common.{
  ℕ, ◌+◌, ◌-◌, ◌≤◌, ◌<◌, ◌≡◌, refl, ap, Bool, true, List, [], ◌∷◌, Option, none, some, ltb, leb,
  length, String, str_eq, arith, Bool-cases, inl, inr, str_eq_refl, not, ◌&&◌,
}
use ipv_8_public_base_statio.Common.Bytes.{u32}
use ipv_8_public_base_statio.Fallback.{
  Failure, FallbackManager, FallbackOptions, Level, PeerState, Resolved, Route, alt_tunnel, fail_at,
  fail_entry, skips_retry, find_peer, is_plain, leave_entry, main_tunnel, new_peer, next_of,
  next_plain, or_new, peer_mut, plain_tcp, plain_udp, put_peer, resolve_peer, succeed_at, tcp_route,
  tunnel, udp_route, with_peer,
}

pub find-put_peer :
    (name : String) (t : PeerState) (ps : List (String × PeerState))
    → find_peer name (put_peer name t ps) ≡ some t
unfolding find_peer put_peer
find-put_peer name t [] = rw (str_eq_refl name) refl
find-put_peer name t ((n, s) ∷ others) = elim (Bool-cases (str_eq n name)) [
  | inl same ↦ rw (same, same) refl
  | inr other ↦ rw (other, other) (find-put_peer name t others)
]

pub peer_mut-with_peer :
    (m : FallbackManager) (name : String) (s : PeerState) → peer_mut (with_peer m name s) name ≡ s
unfolding peer_mut with_peer
peer_mut-with_peer m name s = ap (or_new m.opts) (find-put_peer name s m.peers)

-- The count of failures stays within the retries, and the reserve entry in use exists.
pub record IsPeer (s : PeerState) : Type 0 where
  pub retries_u32 : s.max_retries < 4294967295
  pub in_budget : s.failures_at_level ≤ s.max_retries
  pub entry_exists : s.level ≡ alt_tunnel → s.alt_idx < length s.resolved.alt_entries

pub new_peer-IsPeer :
    (opts : FallbackOptions) → opts.max_retries < 4294967295 → IsPeer (new_peer opts)
unfolding new_peer
new_peer-IsPeer opts h = record { retries_u32 = h; in_budget = omega arith; entry_exists = λ e. cc }

pub resolve_peer-IsPeer : (s : PeerState) (r : Resolved) → IsPeer s → IsPeer (resolve_peer s r)
unfolding resolve_peer
resolve_peer-IsPeer s r h = elim (Bool-cases r.ipv8_capable) [
  | inl capable ↦
      rw capable
        (record { retries_u32 = h.retries_u32; in_budget = omega arith; entry_exists = λ e. cc })
  | inr not_capable ↦
      rw not_capable
        (record { retries_u32 = h.retries_u32; in_budget = h.in_budget; entry_exists = λ e. cc })
]

next_plain-IsPeer :
    (s : PeerState) (now : ℕ) (o : Option ℕ) → IsPeer s → IsPeer (next_plain s now o).1
unfolding next_plain
next_plain-IsPeer s now none h = record {
  retries_u32 = h.retries_u32;
  in_budget = h.in_budget;
  entry_exists = h.entry_exists;
}
next_plain-IsPeer s now (some at) h = elim (Bool-cases (ltb (now - at) s.ttl_secs)) [
  | inl running ↦ rw running h
  | inr passed ↦
      rw passed
        (record { retries_u32 = h.retries_u32; in_budget = omega arith; entry_exists = λ e. cc })
]

pub next_of-IsPeer : (s : PeerState) (now : ℕ) → IsPeer s → IsPeer (next_of s now).1
unfolding next_of
next_of-IsPeer s now h = elim (Bool-cases (is_plain s.level)) [
  | inl plain ↦ rw plain (next_plain-IsPeer s now s.degraded_at h)
  | inr tunnels ↦ rw tunnels h
]

leave_entry-IsPeer :
    (s : PeerState) (next_alt now : ℕ) → IsPeer s → IsPeer (leave_entry s next_alt now)
unfolding leave_entry
leave_entry-IsPeer s next_alt now h =
    elim (Bool-cases (ltb next_alt (length s.resolved.alt_entries))) [
      | inl more ↦ rw more (record {
        retries_u32 = h.retries_u32;
        in_budget = omega arith;
        entry_exists = λ e. there next_alt (length s.resolved.alt_entries) more;
      })
      | inr no_more ↦
          rw no_more (record {
            retries_u32 = h.retries_u32;
            in_budget = omega arith;
            entry_exists = λ e. cc;
          })
    ]
  where
    there : (i n : ℕ) → ltb i n ≡ true → i < n
    there i n e = ground arith

fail_entry-IsPeer :
    (s : PeerState) (f : Failure) (next_alt now : ℕ)
    → IsPeer s
    → IsPeer (fail_entry s f next_alt now)
unfolding fail_entry
fail_entry-IsPeer s f next_alt now h =
    elim (Bool-cases (not (skips_retry f) && leb (u32 (s.failures_at_level + 1)) s.max_retries)) [
      | inl again ↦ rw again (record {
        retries_u32 = h.retries_u32;
        in_budget =
            within (not (skips_retry f)) (u32 (s.failures_at_level + 1)) s.max_retries again;
        entry_exists = h.entry_exists;
      })
      | inr over ↦ rw over (leave_entry-IsPeer s next_alt now h)
    ]
  where
    within : (b : Bool) (n m : ℕ) → (b && leb n m) ≡ true → n ≤ m
    within b n m e = ground arith

pub fail_at-IsPeer :
    (l : Level) (s : PeerState) (f : Failure) (now : ℕ) → IsPeer s → IsPeer (fail_at l s f now)
unfolding fail_at
fail_at-IsPeer main_tunnel s f now h = fail_entry-IsPeer s f 0 now h
fail_at-IsPeer alt_tunnel s f now h = fail_entry-IsPeer s f (s.alt_idx + 1) now h
fail_at-IsPeer plain_tcp s f now h = record {
  retries_u32 = h.retries_u32;
  in_budget = h.in_budget;
  entry_exists = λ e. cc;
}
fail_at-IsPeer plain_udp s f now h = h

pub succeed_at-IsPeer : (s : PeerState) (path : Route) → IsPeer s → IsPeer (succeed_at s path)
unfolding succeed_at
succeed_at-IsPeer s (tunnel entry) h = record {
  retries_u32 = h.retries_u32;
  in_budget = omega arith;
  entry_exists = λ e. cc;
}
succeed_at-IsPeer s tcp_route h = h
succeed_at-IsPeer s udp_route h = h
