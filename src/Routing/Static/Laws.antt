-- ===== src/Routing/Static/Laws.antt =====
-- The answers of `path_to`.
use ipv_8_public_base_statio.Common.{
  ℕ, ◌≤◌, ◌<◌, ◌≡◌, ◌⊎◌, refl, ap, sym, ◌∙◌, true, false, List, [], ◌∷◌, Option, none, some, ltb,
  length, String, str_eq, str_eq→≡, arith, Bool-cases, inl, inr, ltb→lt,
}
use ipv_8_public_base_statio.Routing.Static.{
  StaticRouter, has_parent, path_to, search, search_fuel, within_hops,
}
use ipv_8_public_base_statio.Routing.Static.Search.{Searching, all_unmet-le, search-Tree}
use ipv_8_public_base_statio.Routing.Static.Rank.{rank, rank-root}
use ipv_8_public_base_statio.Routing.Static.Shortest.{Ranking, Shortest, search-Shortest}
use ipv_8_public_base_statio.Routing.Static.Trace.{EndsAt, IsWalk, trace-Traced}
use ipv_8_public_base_statio.Routing.Static.Visits.{Tree, has_parent-top, holds-top, root}

-- A list of addresses that leads over links from the router to `dst`.
abbrev pub IsRoute : StaticRouter → String → List String → Type 0
IsRoute r dst path = IsWalk r.links r.local path × EndsAt dst path

-- What `path_to` promises: a path is a route of at most `max_hops` hops, and no route is shorter.
-- There is none to the router itself, and else only if every route has more than `max_hops` hops.
abbrev pub IsAnswer : StaticRouter → String → Option (List String) → Type 0
IsAnswer r dst none =
    (dst ≡ r.local) ⊎ ((path : List String) → IsRoute r dst path → r.max_hops < length path)
IsAnswer r dst (some path) =
    IsRoute r dst path
    × ((length path ≤ r.max_hops)
        × ((other : List String) → IsRoute r dst other → length path ≤ length other))

at_start : (r : StaticRouter) → Searching r.links r.local (r.local ∷ []) ((r.local, r.local) ∷ [])
at_start r = record { tree = root; queued = λ x h. h }

at_start-Ranking :
    (r : StaticRouter) → Ranking r.links r.local (r.local ∷ []) ((r.local, r.local) ∷ [])
at_start-Ranking r = record {
  sorted = ((λ y h. cc), tt);
  top = λ x q met waits. elim (has_parent-top [] r.local r.local x met) [
    | inr never ↦ cc
    | inl is_x ↦ elim (holds-top [] r.local q waits) [
      | inr never ↦ cc
      | inl is_q ↦ omega (arith, ap (rank ((r.local, r.local) ∷ [])) (is_x ∙ sym is_q))
    ]
  ];
  near = λ x h. inl h;
}

within_hops-IsAnswer :
    (r : StaticRouter) (dst : String) (path : List String)
    → IsRoute r dst path
    → ((other : List String) → IsRoute r dst other → length path ≤ length other)
    → IsAnswer r dst (within_hops r.max_hops (some path))
within_hops-IsAnswer r dst path route least = elim (Bool-cases (ltb r.max_hops (length path))) [
  | inl long ↦
      rw long
        (inr (λ other is. omega (arith, ltb→lt r.max_hops (length path) long, least other is)))
  | inr short ↦ rw short (route, (fits r.max_hops (length path) short, least))
]
  where
    fits : (n m : ℕ) → ltb n m ≡ false → m ≤ n
    fits n m e = ground arith

-- For every router and destination, `path_to` gives a walk over links from the router to the
-- destination of at most `max_hops` hops, and no such walk is shorter; or nothing, and then the
-- destination is the router, or every walk to it, if there is one, has more than `max_hops` hops.
pub path_to-IsAnswer : (r : StaticRouter) (dst : String) → IsAnswer r dst (path_to r dst)
unfolding path_to
path_to-IsAnswer r dst =
    let start : List (String × String) = (r.local, r.local) ∷ [] in
    let found : List (String × String) =
      search (search_fuel r.links) r.links dst (r.local ∷ []) start in
    let tree : Tree r.links r.local found =
      search-Tree r.links r.local (search_fuel r.links) dst (r.local ∷ []) start
        (all_unmet-le start r.links) (at_start r) in
    let shortest : Shortest r.links r.local dst found =
      search-Shortest r.links r.local (search_fuel r.links) dst (r.local ∷ []) start
        (all_unmet-le start r.links) (at_start r) (at_start-Ranking r) in
    elim (Bool-cases (str_eq dst r.local)) [
      | inl home ↦ rw home (inl (str_eq→≡ dst r.local home))
      | inr away ↦ elim (Bool-cases (has_parent found dst)) [
        | inl met ↦
            let (path, (e, (route, len))) =
              trace-Traced r.links r.local (length found) found dst dst [] tree (omega arith) met
                away tt refl in
            rw (away, met, e)
              (within_hops-IsAnswer r dst path route (λ other is.
                let (_, far) = shortest other is.0 is.1 in
                omega (arith, len, far, rank-root r.links r.local found tree)))
        | inr not_met ↦
            rw (away, not_met)
              (inr (λ path route.
                let (there, _) = shortest path route.0 route.1 in
                absurd (differ (sym not_met ∙ there))))
      ]
    ]
  where
    differ : false ≡ true → ⊥
    differ e = cc
