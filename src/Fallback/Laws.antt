-- ===== src/Fallback/Laws.antt =====
-- The state of every peer, over all calls.
use ipv_8_public_base_statio.Common.{
  ℕ, zero, suc, ◌-◌, ◌<◌, ◌≡◌, refl, List, [], ◌∷◌, some, min, length, get_elem?, String, str_eq,
  All, arith, Bool-cases, inl, inr,
}
use ipv_8_public_base_statio.Fallback.{
  Failure, FallbackManager, FallbackOptions, PeerState, Resolved, Route, alt_tunnel, fail_at,
  find_peer, next_of, next_path, no_peers, note_resolved, or_new, path_of, peer_mut, put_peer,
  record_failure, record_success, resolve_peer, succeed_at, tunnel, with_peer,
}
use ipv_8_public_base_statio.Fallback.Peer.{
  IsPeer, fail_at-IsPeer, new_peer-IsPeer, next_of-IsPeer, resolve_peer-IsPeer, succeed_at-IsPeer,
}

abbrev AllPeers : List (String × PeerState) → Type 0
AllPeers = All (λ (x : String × PeerState). IsPeer x.1)

pub record IsManager (m : FallbackManager) : Type 0 where
  pub retries_fit : m.opts.max_retries < 4294967295
  pub each_peer : AllPeers m.peers

put_peer-AllPeers :
    (name : String) (t : PeerState) (ps : List (String × PeerState))
    → IsPeer t
    → AllPeers ps
    → AllPeers (put_peer name t ps)
unfolding put_peer
put_peer-AllPeers name t [] h all = (h, tt)
put_peer-AllPeers name t ((n, s) ∷ others) h (first, rest) = elim (Bool-cases (str_eq n name)) [
  | inl same ↦ rw same (h, rest)
  | inr other ↦ rw other (first, put_peer-AllPeers name t others h rest)
]

find_peer-IsPeer :
    (name : String) (opts : FallbackOptions) (ps : List (String × PeerState))
    → opts.max_retries < 4294967295
    → AllPeers ps
    → IsPeer (or_new opts (find_peer name ps))
unfolding find_peer
find_peer-IsPeer name opts [] fit all = new_peer-IsPeer opts fit
find_peer-IsPeer name opts ((n, s) ∷ others) fit (first, rest) = elim (Bool-cases (str_eq n name)) [
  | inl same ↦ rw same first
  | inr other ↦ rw other (find_peer-IsPeer name opts others fit rest)
]

pub peer_mut-IsPeer : (m : FallbackManager) (name : String) → IsManager m → IsPeer (peer_mut m name)
unfolding peer_mut
peer_mut-IsPeer m name h = find_peer-IsPeer name m.opts m.peers h.retries_fit h.each_peer

pub with_peer-IsManager :
    (m : FallbackManager) (name : String) (s : PeerState)
    → IsManager m
    → IsPeer s
    → IsManager (with_peer m name s)
unfolding with_peer
with_peer-IsManager m name s h k = record {
  retries_fit = h.retries_fit;
  each_peer = put_peer-AllPeers name s m.peers k h.each_peer;
}

-- The managers that calls lead to.
pub data Reaches (opts : FallbackOptions) : FallbackManager → Type 0 where
  at_start : Reaches opts (no_peers opts)
  resolved :
      {m : FallbackManager} (name : String) (r : Resolved)
      → Reaches opts m
      → Reaches opts (note_resolved m name r)
  asked :
      {m : FallbackManager} (name : String) (now : ℕ)
      → Reaches opts m
      → Reaches opts (next_path m name now).1
  failed :
      {m : FallbackManager} (name : String) (f : Failure) (now : ℕ)
      → Reaches opts m
      → Reaches opts (record_failure m name f now)
  succeeded :
      {m : FallbackManager} (name : String) (path : Route)
      → Reaches opts m
      → Reaches opts (record_success m name path)

pub Reaches-IsManager :
    (opts : FallbackOptions) (m : FallbackManager)
    → opts.max_retries < 4294967295
    → Reaches opts m
    → IsManager m
unfolding no_peers note_resolved next_path record_failure record_success
Reaches-IsManager opts m fit at_start = record { retries_fit = fit; each_peer = tt }
Reaches-IsManager opts m' fit (resolved {m} name r before) =
    let h : IsManager m = Reaches-IsManager opts m fit before in
    with_peer-IsManager m name (resolve_peer (peer_mut m name) r) h
      (resolve_peer-IsPeer (peer_mut m name) r (peer_mut-IsPeer m name h))
Reaches-IsManager opts m' fit (asked {m} name now before) =
    let h : IsManager m = Reaches-IsManager opts m fit before in
    with_peer-IsManager m name (next_of (peer_mut m name) now).1 h
      (next_of-IsPeer (peer_mut m name) now (peer_mut-IsPeer m name h))
Reaches-IsManager opts m' fit (failed {m} name f now before) =
    let h : IsManager m = Reaches-IsManager opts m fit before in
    let s : PeerState = peer_mut m name in
    with_peer-IsManager m name (fail_at s.level s f now) h
      (fail_at-IsPeer s.level s f now (peer_mut-IsPeer m name h))
Reaches-IsManager opts m' fit (succeeded {m} name path before) =
    let h : IsManager m = Reaches-IsManager opts m fit before in
    with_peer-IsManager m name (succeed_at (peer_mut m name) path) h
      (succeed_at-IsPeer (peer_mut m name) path (peer_mut-IsPeer m name h))

-- After any calls, a peer at its reserve entries is given an entry that its list holds: the index
-- that the source clamps is in bounds.
pub next_path-alt_entry :
    (opts : FallbackOptions) (m : FallbackManager) (name : String) (now : ℕ)
    → opts.max_retries < 4294967295
    → Reaches opts m
    → (peer_mut m name).level ≡ alt_tunnel
    → (entry : String) × ((get_elem?
            (peer_mut m name).resolved.alt_entries
            (peer_mut m name).alt_idx
          ≡ some entry)
        × ((next_path m name now).0 ≡ tunnel entry))
unfolding next_path next_of path_of
next_path-alt_entry opts m name now fit reach alt =
    let s : PeerState = peer_mut m name in
    let h : IsPeer s = peer_mut-IsPeer m name (Reaches-IsManager opts m fit reach) in
    let (entry, e) = held s.resolved.alt_entries s.alt_idx (h.entry_exists alt) in
    (
      entry,
      (e, rw (alt, clamp s.alt_idx (length s.resolved.alt_entries) (h.entry_exists alt), e) refl),
    )
  where
    held : (xs : List String) (i : ℕ) → i < length xs → (x : String) × (get_elem? xs i ≡ some x)
    held [] i lt = absurd (omega arith)
    held (x ∷ xs) zero lt = (x, refl)
    held (x ∷ xs) (suc i) lt = held xs i (omega arith)

    clamp : (i n : ℕ) → i < n → min i (n - 1) ≡ i
    clamp i n lt = omega arith
