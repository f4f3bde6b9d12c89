-- ===== src/Tests/Routing.antt =====
-- A small graph.
use ipv_8_public_base_statio.Common.{◌≡◌, [], ◌∷◌, some, none, String, refl}
use ipv_8_public_base_statio.Routing.Static.{
  StaticRouter, add_link, neighbors, new_router, parent_of, path_to, push_link, search, trace,
  visit,
}
use ipv_8_public_base_statio.Routing.Static.Laws.{IsAnswer, path_to-IsAnswer}

abbrev a : String
a = 1 ∷ []

abbrev b : String
b = 2 ∷ []

abbrev c : String
c = 3 ∷ []

-- a - b - c, a - c
abbrev triangle : StaticRouter
triangle = add_link (add_link (add_link (new_router a) a b) b c) a c

abbrev line : StaticRouter
line = add_link (add_link (new_router a) a b) b c

line_route : path_to line c ≡ some (b ∷ c ∷ [])
unfolding path_to search visit neighbors trace parent_of add_link push_link new_router
line_route = refl

triangle_route : path_to triangle c ≡ some (c ∷ [])
unfolding path_to search visit neighbors trace parent_of add_link push_link new_router
triangle_route = refl

no_route : path_to line (4 ∷ []) ≡ none
unfolding path_to search visit neighbors trace parent_of add_link push_link new_router
no_route = refl

path_to-IsAnswer_example : IsAnswer line c (path_to line c)
path_to-IsAnswer_example = path_to-IsAnswer line c
