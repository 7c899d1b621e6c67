-- ===== src/Routes/Witnesses.antt =====
-- core/Node.go: the theorems on routes at a node with one neighbour, and at one that knows two nodes
-- it cannot reach.
use majula.Prelude.{◌≡◌, refl, String, none, some, [], ◌∷◌, inl, inr, ℕ, ◌+◌}
use majula.Prelude.Dict.{lookup, insert, get_or}
use majula.Prelude.Int.{pos}
use majula.Links.{Link, LinkSet}
use majula.Mesh.{RoutingTable}
use majula.Routes.{
  Search, search_loop, start_search, links_in, route_targets, build_routing_table, turn, turn_on,
  visit, pop_min, relax_all, relax, improve, add_cost, wrap64, init_dist, init_links,
}
use majula.Node.{mem}
use majula.Routes.Fuel.{search_loop-returns}
use majula.Routes.Table.{AllReached, AreDirect, build_routing_table-AreDirect}
use majula.Routes.Stuck.{build_routing_table-lost}

abbrev link_to : String → String → Link
link_to a b = record {
  source = a;
  target = b;
  cost = pos 3;
  version = pos 0;
  channel = "n-1";
  last_update_time = 0;
}

abbrev near : LinkSet
near = ("n", ("m", link_to "n" "m") ∷ []) ∷ ("m", ("k", link_to "m" "k") ∷ []) ∷ []

abbrev far : LinkSet
far = ("m", ("k", link_to "m" "k") ∷ []) ∷ []

abbrev near_found : Search
near_found = record {
  dist = ("n", pos 0) ∷ ("m", pos 3) ∷ ("k", pos 6) ∷ [];
  prev = ("m", "n") ∷ ("k", "m") ∷ [];
  visited = "k" ∷ "m" ∷ "n" ∷ [];
  queue = [];
}

abbrev far_found : Search
far_found = record {
  dist = ("m", pos 9223372036854775807) ∷ ("k", pos 9223372036854775807) ∷ ("n", pos 0) ∷ [];
  prev = [];
  visited = "n" ∷ [];
  queue = [];
}

near_search : search_loop (1 + links_in near) near (start_search "n" near) ≡ some near_found
unfolding search_loop links_in turn turn_on visit pop_min relax_all relax improve add_cost wrap64
    init_dist init_links mem get_or lookup insert
near_search = refl

far_search : search_loop (1 + links_in far) far (start_search "n" far) ≡ some far_found
unfolding search_loop links_in turn turn_on visit pop_min relax_all relax improve add_cost wrap64
    init_dist init_links mem get_or lookup insert
far_search = refl

near_reached : AllReached "n" near_found.prev near_found.dist
unfolding AllReached lookup
near_reached = (inl refl, (inr ("n", refl), (inr ("m", refl), tt)))

search_loop-returns_example :
    (found : Search) × (search_loop (1 + links_in near) near (start_search "n" near) ≡ some found)
search_loop-returns_example = search_loop-returns "n" near

build_routing_table-AreDirect_example :
    (new : RoutingTable) × (build_routing_table "n" near [] ≡ some new) × AreDirect near "n" new
build_routing_table-AreDirect_example =
    build_routing_table-AreDirect "n" near [] near_found near_search near_reached

no_empty : lookup "" far_found.prev ≡ none
unfolding lookup
no_empty = refl

no_prev : lookup "k" far_found.prev ≡ none
unfolding lookup
no_prev = refl

known : lookup "k" far_found.dist ≡ some (pos 9223372036854775807)
unfolding lookup
known = refl

build_routing_table-lost_example :
    ((fuel : ℕ) → route_targets fuel far_found.prev "n" far far_found.dist [] ≡ none)
    × (build_routing_table "n" far [] ≡ none)
build_routing_table-lost_example =
    build_routing_table-lost "n" "k" (pos 9223372036854775807) far [] far_found refl far_search
      no_empty refl no_prev known
