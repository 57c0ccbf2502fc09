-- ===== src/Router/Tests.antt =====
-- router.rs: the theorems at a small table of routes.
use flatbed.Base.{
  ℕ, ◌≡◌, ◌↔◌, refl, true, none, some, List, [], ◌∷◌, Text, to_uppercase, Any, is_some, inl, inr,
}
use flatbed.Router.{
  Params, no_params, insert_param, add_route, add_at, at_child, at_param, match_route, descend,
  next_node, get_child, bind_param, get_allowed_methods, segments,
}
use flatbed.Router.Table.{lookup, literals, parametric, router_of, table_of}
use flatbed.Router.Trie.{match_route-lookup}
use flatbed.Router.Matching.{Serves, match_route_sound}
use flatbed.Router.Complete.{match_route_complete}
use flatbed.Router.Allowed.{get_allowed_methods_iff}

-- `/u/{i}`, `/u/{i}/p`, `/u/m` and the method `GET`.
abbrev one_user : Text
one_user = 47 ∷ 117 ∷ 47 ∷ 123 ∷ 105 ∷ 125 ∷ []

abbrev posts : Text
posts = 47 ∷ 117 ∷ 47 ∷ 123 ∷ 105 ∷ 125 ∷ 47 ∷ 112 ∷ []

abbrev me : Text
me = 47 ∷ 117 ∷ 47 ∷ 109 ∷ []

abbrev get : Text
get = 71 ∷ 69 ∷ 84 ∷ []

abbrev routes : List (Text × Text × ℕ)
routes = (me, get, 3) ∷ (posts, get, 2) ∷ (one_user, get, 1) ∷ []

-- `/u/7` and `/u/7/p`.
abbrev seven : Text
seven = 47 ∷ 117 ∷ 47 ∷ 55 ∷ []

abbrev seven_posts : Text
seven_posts = 47 ∷ 117 ∷ 47 ∷ 55 ∷ 47 ∷ 112 ∷ []

-- `/u/m/p`: the literal child is taken, and has no posts.
abbrev my_posts : Text
my_posts = 47 ∷ 117 ∷ 47 ∷ 109 ∷ 47 ∷ 112 ∷ []

shadowed : match_route my_posts get (router_of routes) ≡ none
unfolding match_route descend next_node get_child bind_param router_of add_route add_at at_child
    at_param
shadowed = refl

match_route-lookup_example :
    match_route seven get (router_of routes) ≡ lookup seven get (table_of routes)
match_route-lookup_example = match_route-lookup seven get routes

abbrev found_params : Params
found_params = insert_param (105 ∷ []) (55 ∷ []) no_params

found : match_route seven get (router_of routes) ≡ some (1, found_params)
unfolding match_route descend next_node get_child bind_param router_of add_route add_at at_child
    at_param
found = refl

match_route_sound_example : Any (Serves (segments seven) (to_uppercase get) 1) (table_of routes)
match_route_sound_example = match_route_sound seven get routes 1 found_params found

match_route_complete_example : is_some (match_route seven_posts get (router_of routes)) ≡ true
unfolding literals parametric
match_route_complete_example =
    match_route_complete seven_posts get routes
      (inr (inl ((inr (refl, refl), (inl refl, (inr (refl, refl), tt))), refl, (refl, tt))))

get_allowed_methods_iff_example :
    (is_some (match_route seven get (router_of routes)) ≡ true)
    ↔ Any (λ k. k ≡ to_uppercase get) (get_allowed_methods seven (router_of routes))
get_allowed_methods_iff_example = get_allowed_methods_iff seven get (router_of routes)
