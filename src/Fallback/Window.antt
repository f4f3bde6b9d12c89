-- ===== src/Fallback/Window.antt =====
-- The window of the plain levels.
use ipv_8_public_base_statio.Common.{
  ℕ, ◌-◌, ◌≤◌, ◌≡◌, refl, ap, ◌∙◌, false, Option, none, some, String, le→ltb,
}
use ipv_8_public_base_statio.Fallback.{
  FallbackManager, PeerState, Resolved, next_of, next_path, next_plain, note_resolved, or_empty,
  path_of, peer_mut, plain_tcp, resolve_peer, tcp_route, tunnel,
}
use ipv_8_public_base_statio.Fallback.Peer.{peer_mut-with_peer}

next_path-of :
    (m : FallbackManager) (name : String) (now : ℕ)
    → ((next_path m name now).0 ≡ (next_of (peer_mut m name) now).0)
      × (peer_mut (next_path m name now).1 name ≡ (next_of (peer_mut m name) now).1)
unfolding next_path
next_path-of m name now = (refl, peer_mut-with_peer m name (next_of (peer_mut m name) now).1)

-- A peer at plain TCP.
abbrev at_plain : PeerState → Resolved → Option ℕ → PeerState
at_plain s r at = record s { resolved = r; level = plain_tcp; degraded_at = at }

resolve_peer-not_capable :
    (s : PeerState) (r : Resolved) → r.ipv8_capable ≡ false → resolve_peer s r ≡ at_plain s r none
unfolding resolve_peer
resolve_peer-not_capable s r e = rw e refl

next_of-began :
    (s : PeerState) (r : Resolved) (t : ℕ)
    → ((next_of (at_plain s r none) t).0 ≡ tcp_route)
      × ((next_of (at_plain s r none) t).1 ≡ at_plain s r (some t))
unfolding next_of next_plain path_of
next_of-began s r t = (refl, refl)

next_of-passed :
    (s : PeerState) (r : Resolved) (t later : ℕ)
    → s.ttl_secs ≤ later - t
    → (next_of (at_plain s r (some t)) later).0 ≡ tunnel (or_empty r.tunnel_entry)
unfolding next_of next_plain path_of
next_of-passed s r t later h = rw (le→ltb (later - t) s.ttl_secs h) refl

-- A peer of which the resolver says that it has no IPv8 goes to plain TCP, but the first packet
-- starts the window there, and once that has passed the peer is sent a tunnel frame.
pub not_capable_tunnels :
    (m : FallbackManager) (name : String) (r : Resolved) (t later : ℕ)
    → r.ipv8_capable ≡ false
    → (peer_mut m name).ttl_secs ≤ later - t
    → let first = next_path (note_resolved m name r) name t in
      (first.0 ≡ tcp_route) × ((next_path first.1 name later).0 ≡ tunnel (or_empty r.tunnel_entry))
unfolding note_resolved
not_capable_tunnels m name r t later not_capable passed =
    let s : PeerState = at_plain (peer_mut m name) r none in
    let m1 : FallbackManager = note_resolved m name r in
    let at_tcp : peer_mut m1 name ≡ s =
      peer_mut-with_peer m name (resolve_peer (peer_mut m name) r)
      ∙ resolve_peer-not_capable (peer_mut m name) r not_capable in
    let m2 : FallbackManager = (next_path m1 name t).1 in
    let began : peer_mut m2 name ≡ at_plain (peer_mut m name) r (some t) =
      (next_path-of m1 name t).1
      ∙ (ap (λ (x : PeerState). (next_of x t).1) at_tcp
          ∙ (next_of-began (peer_mut m name) r t).1) in
    (
      (next_path-of m1 name t).0
          ∙ (ap (λ (x : PeerState). (next_of x t).0) at_tcp
              ∙ (next_of-began (peer_mut m name) r t).0),
      (next_path-of m2 name later).0
          ∙ (ap (λ (x : PeerState). (next_of x later).0) began
              ∙ next_of-passed (peer_mut m name) r t later passed),
    )
