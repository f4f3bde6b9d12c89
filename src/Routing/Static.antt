-- ===== src/Routing/Static.antt =====
-- Source routes over a configured graph (src/core/ipv8-routing/src/static_route.rs). An address is
-- its 16 bytes, a map an association list, and the loops run on fuel.
pub mod Visits
pub mod Rank
pub mod Shortest
pub mod Search
pub mod Trace
pub mod Laws
use ipv_8_public_base_statio.Common.{
  ℕ, zero, suc, ◌+◌, ◌≤◌, Bool, true, false, List, [], ◌∷◌, ◌++◌, Option, none, some, ltb, max,
  if◌then◌else◌, length, String, str_eq,
}

pub record StaticRouter : Type 0 where
  pub local : String
  pub links : List (String × List String)
  pub max_hops : ℕ

unfoldable pub new_router : String → StaticRouter
new_router local = record { local = local; links = []; max_hops = 8 }

unfoldable pub with_max_hops : StaticRouter → ℕ → StaticRouter
with_max_hops r n = record r { max_hops = max n 1 }

-- `links.entry(a).or_default().push(b)`
unfoldable pub push_link :
    String → String → List (String × List String) → List (String × List String)
push_link a b [] = (a, b ∷ []) ∷ []
push_link a b ((x, ns) ∷ others) =
    let rest = push_link a b others in
    if str_eq x a then (x, ns ++ (b ∷ [])) ∷ others else (x, ns) ∷ rest

unfoldable pub add_link : StaticRouter → String → String → StaticRouter
add_link r a b = record r { links = push_link b a (push_link a b r.links) }

unfoldable pub neighbors : List (String × List String) → String → List String
neighbors [] a = []
neighbors ((x, ns) ∷ others) a = let rest = neighbors others a in if str_eq x a then ns else rest

abbrev pub holds : List String → String → Bool
holds [] a = false
holds (x ∷ others) a = let rest = holds others a in if str_eq x a then true else rest

unfoldable pub is_neighbor : StaticRouter → String → Bool
is_neighbor r addr = holds (neighbors r.links r.local) addr

-- The parents, the latest first: an address is inserted once, so that no entry hides another.
abbrev pub has_parent : List (String × String) → String → Bool
has_parent [] a = false
has_parent ((c, p) ∷ others) a = let rest = has_parent others a in if str_eq c a then true else rest

unfoldable pub parent_of : List (String × String) → String → Option String
parent_of [] a = none
parent_of ((c, p) ∷ others) a = let rest = parent_of others a in if str_eq c a then some p else rest

pub record Frontier : Type 0 where
  pub queue : List String
  pub prev : List (String × String)

-- The loop over the neighbours of `cur`.
unfoldable pub visit : String → List String → Frontier → Frontier
visit cur [] f = f
visit cur (nb ∷ others) f =
    let next =
      if has_parent f.prev nb
      then f
      else record { queue = f.queue ++ (nb ∷ []); prev = (nb, cur) ∷ f.prev } in
    visit cur others next

-- `while let Some(cur) = queue.pop_front()`, which leaves the parents.
unfoldable pub search :
    ℕ
    → List (String × List String)
    → String
    → List String
    → List (String × String)
    → List (String × String)
search zero links dst queue prev = prev
search (suc fuel) links dst [] prev = prev
search (suc fuel) links dst (cur ∷ queue) prev =
    let f = visit cur (neighbors links cur) (record { queue = queue; prev = prev }) in
    let next = search fuel links dst f.queue f.prev in if str_eq cur dst then prev else next

-- An address enters the queue once, when it is first met as a neighbour.
abbrev pub search_fuel : List (String × List String) → ℕ
search_fuel [] = 1
search_fuel ((x, ns) ∷ others) = length ns + search_fuel others

-- A round of the way back: the parent that was found, if any.
abbrev pub trace_on :
    String → List String → (String → Option (List String)) → Option String → Option (List String)
trace_on local path go none = none
trace_on local path go (some p) = let longer = go p in if str_eq p local then some path else longer

-- The loop back from `cur`. The list is kept in forward order, where the source reverses it.
unfoldable pub trace :
    ℕ → List (String × String) → String → String → List String → Option (List String)
trace zero prev local cur path = none
trace (suc fuel) prev local cur path =
    trace_on local path (λ p. trace fuel prev local p (p ∷ path)) (parent_of prev cur)

abbrev pub within_hops : ℕ → Option (List String) → Option (List String)
within_hops max_hops none = none
within_hops max_hops (some path) = if ltb max_hops (length path) then none else some path

unfoldable pub path_to : StaticRouter → String → Option (List String)
path_to r dst =
    let found = search (search_fuel r.links) r.links dst (r.local ∷ []) ((r.local, r.local) ∷ []) in
    if str_eq dst r.local
    then none
    else if has_parent found dst
    then within_hops r.max_hops (trace (length found) found r.local dst (dst ∷ []))
    else none
