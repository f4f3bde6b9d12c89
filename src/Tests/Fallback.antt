-- ===== src/Tests/Fallback.antt =====
-- A peer with a main entry and two reserve entries.
use ipv_8_public_base_statio.Common.{
  ℕ, ◌≡◌, ◌≤◌, ◌<◌, ◌-◌, List, [], ◌∷◌, true, false, arith, refl, length, some, none, String,
  get_elem?, replicate,
}
use ipv_8_public_base_statio.Fallback.{
  Failure, FallbackManager, Resolved, alt_tunnel, default_options, fail_at, fail_entry, find_peer,
  handshake_timeout, is_plain, leave_entry, new_peer, next_path, no_peers, note_resolved, or_empty,
  peer_mut, plain_tcp, put_peer, record_failure, resolve_peer, tcp_route, tunnel, with_peer,
}
use ipv_8_public_base_statio.Fallback.Budget.{all_fail, budget, failures_degrade}
use ipv_8_public_base_statio.Fallback.Laws.{
  Reaches, Reaches-IsManager, at_start, failed, next_path-alt_entry, resolved,
}
use ipv_8_public_base_statio.Fallback.Window.{not_capable_tunnels}

abbrev peer : String
peer = 112 ∷ []

abbrev entries : Resolved
entries = record {
  tunnel_entry = some (77 ∷ []);
  alt_entries = (65 ∷ []) ∷ (66 ∷ []) ∷ [];
  ipv8_capable = true;
  last_good_entry = none;
}

abbrev manager : FallbackManager
manager = note_resolved (no_peers default_options) peer entries

manager-Reaches : Reaches default_options manager
manager-Reaches = resolved peer entries at_start

retries_fit : default_options.max_retries < 4294967295
unfolding default_options
retries_fit = omega arith

-- Nine timeouts: three for each entry.
abbrev timeouts : ℕ → List (Failure × ℕ)
timeouts n = replicate n (handshake_timeout, 5)

abbrev at_alt : FallbackManager
at_alt = all_fail manager peer (timeouts 3)

at_alt_level : (peer_mut at_alt peer).level ≡ alt_tunnel
unfolding peer_mut find_peer put_peer with_peer note_resolved resolve_peer new_peer no_peers
    default_options record_failure fail_at fail_entry leave_entry
at_alt_level = refl

manager-budget : budget (peer_mut manager peer) ≡ 9
unfolding peer_mut find_peer put_peer with_peer note_resolved resolve_peer new_peer no_peers
    default_options
manager-budget = refl

manager_tunnels : is_plain (peer_mut manager peer).level ≡ false
unfolding peer_mut find_peer put_peer with_peer note_resolved resolve_peer new_peer no_peers
    default_options
manager_tunnels = refl

failures_degrade_example :
    (length (timeouts 9) < budget (peer_mut manager peer)
      → is_plain (peer_mut (all_fail manager peer (timeouts 9)) peer).level ≡ false)
    × (length (timeouts 9) ≡ budget (peer_mut manager peer)
        → (peer_mut (all_fail manager peer (timeouts 9)) peer).level ≡ plain_tcp)
failures_degrade_example =
    failures_degrade manager peer (timeouts 9)
      (Reaches-IsManager default_options manager retries_fit manager-Reaches)
      (refl, (refl, (refl, (refl, (refl, (refl, (refl, (refl, (refl, tt))))))))) manager_tunnels

at_alt-Reaches : Reaches default_options at_alt
at_alt-Reaches =
    failed peer handshake_timeout 5
      (failed peer handshake_timeout 5 (failed peer handshake_timeout 5 manager-Reaches))

next_path-alt_entry_example :
    (entry : String) × ((get_elem?
          (peer_mut at_alt peer).resolved.alt_entries
          (peer_mut at_alt peer).alt_idx
        ≡ some entry)
      × ((next_path at_alt peer 6).0 ≡ tunnel entry))
next_path-alt_entry_example =
    next_path-alt_entry default_options at_alt peer 6 retries_fit at_alt-Reaches at_alt_level

abbrev plain_entries : Resolved
plain_entries = record entries { ipv8_capable = false }

manager_ttl : (peer_mut manager peer).ttl_secs ≤ 400 - 50
unfolding peer_mut find_peer put_peer with_peer note_resolved resolve_peer new_peer no_peers
    default_options
manager_ttl = omega arith

not_capable_tunnels_example :
    let first = next_path (note_resolved manager peer plain_entries) peer 50 in
    (first.0 ≡ tcp_route)
    × ((next_path first.1 peer 400).0 ≡ tunnel (or_empty plain_entries.tunnel_entry))
not_capable_tunnels_example = not_capable_tunnels manager peer plain_entries 50 400 refl manager_ttl
