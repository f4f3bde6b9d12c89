-- ===== src/Fallback.antt =====
-- The steps from the tunnel down to plain TCP and UDP (src/core/ipv8-tunnel/src/fallback.rs). A
-- Duration is a number of seconds, and the clock is an argument. The map of the peers is an
-- association list.
pub mod Peer
pub mod Laws
pub mod Budget
pub mod Window
use ipv_8_public_base_statio.Common.{
  ℕ, zero, suc, ◌+◌, ◌-◌, Bool, true, false, not, ◌&&◌, List, [], ◌∷◌, Option, none, some, min, ltb,
  leb, if◌then◌else◌, length, get_elem?, String, str_eq, is_some,
}
use ipv_8_public_base_statio.Common.Bytes.{u32}

pub record FallbackOptions : Type 0 where
  pub resolver_timeout : ℕ
  pub first_handshake_timeout : ℕ
  pub cached_handshake_timeout : ℕ
  pub first_packet_timeout : ℕ
  pub max_retries : ℕ
  pub degradation_cache_ttl : ℕ

unfoldable pub default_options : FallbackOptions
default_options = record {
  resolver_timeout = 2;
  first_handshake_timeout = 8;
  cached_handshake_timeout = 5;
  first_packet_timeout = 3;
  max_retries = 2;
  degradation_cache_ttl = 300;
}

pub data Route : Type 0 where
  tunnel : String → Route
  tcp_route : Route
  udp_route : Route

pub data Level : Type 0 where
  main_tunnel alt_tunnel plain_tcp plain_udp : Level

pub record Resolved : Type 0 where
  pub tunnel_entry : Option String
  pub alt_entries : List String
  pub ipv8_capable : Bool
  pub last_good_entry : Option String

pub data Failure : Type 0 where
  handshake_timeout first_packet_timeout level_failed : Failure

pub record PeerState : Type 0 where
  pub resolved : Resolved
  pub level : Level
  pub failures_at_level : ℕ
  pub alt_idx : ℕ
  pub degraded_at : Option ℕ
  pub ttl_secs : ℕ
  pub max_retries : ℕ

pub record FallbackManager : Type 0 where
  pub opts : FallbackOptions
  pub peers : List (String × PeerState)

unfoldable pub no_peers : FallbackOptions → FallbackManager
no_peers opts = record { opts = opts; peers = [] }

unfoldable pub find_peer : String → List (String × PeerState) → Option PeerState
find_peer name [] = none
find_peer name ((n, s) ∷ others) =
    let rest = find_peer name others in if str_eq n name then some s else rest

unfoldable pub put_peer : String → PeerState → List (String × PeerState) → List (String × PeerState)
put_peer name t [] = (name, t) ∷ []
put_peer name t ((n, s) ∷ others) =
    let rest = put_peer name t others in if str_eq n name then (n, t) ∷ others else (n, s) ∷ rest

unfoldable pub new_peer : FallbackOptions → PeerState
new_peer opts = record {
  resolved = record {
    tunnel_entry = none;
    alt_entries = [];
    ipv8_capable = false;
    last_good_entry = none;
  };
  level = main_tunnel;
  failures_at_level = 0;
  alt_idx = 0;
  degraded_at = none;
  ttl_secs = opts.degradation_cache_ttl;
  max_retries = opts.max_retries;
}

abbrev pub or_new : FallbackOptions → Option PeerState → PeerState
or_new opts none = new_peer opts
or_new opts (some s) = s

unfoldable pub peer_mut : FallbackManager → String → PeerState
peer_mut m name = or_new m.opts (find_peer name m.peers)

unfoldable pub with_peer : FallbackManager → String → PeerState → FallbackManager
with_peer m name s = record m { peers = put_peer name s m.peers }

unfoldable pub resolve_peer : PeerState → Resolved → PeerState
resolve_peer s r =
    if r.ipv8_capable
    then record s {
      resolved = r;
      level = main_tunnel;
      failures_at_level = 0;
      alt_idx = 0;
      degraded_at = none;
    }
    else record s { resolved = r; level = plain_tcp; degraded_at = none }

unfoldable pub note_resolved : FallbackManager → String → Resolved → FallbackManager
note_resolved m name r = with_peer m name (resolve_peer (peer_mut m name) r)

unfoldable pub handshake_timeout_of : FallbackManager → String → ℕ
handshake_timeout_of m name = wait (find_peer name m.peers)
  where
    wait : Option PeerState → ℕ
    wait none = m.opts.first_handshake_timeout
    wait (some p) =
        if is_some p.resolved.last_good_entry
        then m.opts.cached_handshake_timeout
        else m.opts.first_handshake_timeout

abbrev pub or_empty : Option String → String
or_empty none = []
or_empty (some entry) = entry

-- The path of a level that is not left.
unfoldable pub path_of : Level → PeerState → Route
path_of main_tunnel s = tunnel (or_empty s.resolved.tunnel_entry)
path_of alt_tunnel s = tunnel (
    or_empty (get_elem? s.resolved.alt_entries (min s.alt_idx (length s.resolved.alt_entries - 1))))
path_of plain_tcp s = tcp_route
path_of plain_udp s = udp_route

-- At a plain level: the window runs, has passed, or begins.
unfoldable pub next_plain : PeerState → ℕ → Option ℕ → Route × PeerState
next_plain s now none = (path_of s.level s, record s { degraded_at = some now })
next_plain s now (some at) = if ltb (now - at) s.ttl_secs then (path_of s.level s, s) else (
  path_of main_tunnel s,
  record s { degraded_at = none; level = main_tunnel; failures_at_level = 0; alt_idx = 0 },
)

abbrev pub is_plain : Level → Bool
is_plain main_tunnel = false
is_plain alt_tunnel = false
is_plain plain_tcp = true
is_plain plain_udp = true

unfoldable pub next_of : PeerState → ℕ → Route × PeerState
next_of s now = if is_plain s.level then next_plain s now s.degraded_at else (path_of s.level s, s)

unfoldable pub next_path : FallbackManager → String → ℕ → Route × FallbackManager
next_path m name now = let next = next_of (peer_mut m name) now in (next.0, with_peer m name next.1)

-- The next entry, or plain TCP when there is none.
unfoldable pub leave_entry : PeerState → ℕ → ℕ → PeerState
leave_entry s next_alt now =
    if ltb next_alt (length s.resolved.alt_entries)
    then record s { failures_at_level = 0; alt_idx = next_alt; level = alt_tunnel }
    else record s { failures_at_level = 0; alt_idx = 0; level = plain_tcp; degraded_at = some now }

abbrev pub skips_retry : Failure → Bool
skips_retry handshake_timeout = false
skips_retry first_packet_timeout = true
skips_retry level_failed = false

-- A failure of the entry in use, which is followed by the entry `next_alt`.
unfoldable pub fail_entry : PeerState → Failure → ℕ → ℕ → PeerState
fail_entry s f next_alt now =
    if not (skips_retry f) && leb (u32 (s.failures_at_level + 1)) s.max_retries
    then record s { failures_at_level = u32 (s.failures_at_level + 1) }
    else leave_entry s next_alt now

unfoldable pub fail_at : Level → PeerState → Failure → ℕ → PeerState
fail_at main_tunnel s f now = fail_entry s f 0 now
fail_at alt_tunnel s f now = fail_entry s f (s.alt_idx + 1) now
fail_at plain_tcp s f now = record s { level = plain_udp }
fail_at plain_udp s f now = s

unfoldable pub record_failure : FallbackManager → String → Failure → ℕ → FallbackManager
record_failure m name f now =
    with_peer m name (fail_at (peer_mut m name).level (peer_mut m name) f now)

abbrev is_entry : Option String → String → Bool
is_entry none entry = false
is_entry (some e) entry = str_eq e entry

abbrev pub has_entry : List String → String → Bool
has_entry [] entry = false
has_entry (a ∷ others) entry =
    let rest = has_entry others entry in if str_eq a entry then true else rest

-- `remove` at the first position.
abbrev pub remove_entry : List String → String → List String
remove_entry [] entry = []
remove_entry (a ∷ others) entry =
    let rest = remove_entry others entry in if str_eq a entry then others else a ∷ rest

-- A reserve entry that works becomes the first.
unfoldable pub promote : Resolved → String → Resolved
promote r entry =
    if not (is_entry r.tunnel_entry entry) && has_entry r.alt_entries entry
    then record r {
      last_good_entry = some entry;
      tunnel_entry = some entry;
      alt_entries = remove_entry r.alt_entries entry;
    }
    else record r { last_good_entry = some entry }

unfoldable pub succeed_at : PeerState → Route → PeerState
succeed_at s (tunnel entry) = record s {
  level = main_tunnel;
  failures_at_level = 0;
  degraded_at = none;
  resolved = promote s.resolved entry;
}
succeed_at s tcp_route = s
succeed_at s udp_route = s

unfoldable pub record_success : FallbackManager → String → Route → FallbackManager
record_success m name path = with_peer m name (succeed_at (peer_mut m name) path)

unfoldable pub level_of : FallbackManager → String → Option Level
level_of m name = level (find_peer name m.peers)
  where
    level : Option PeerState → Option Level
    level none = none
    level (some s) = some s.level
