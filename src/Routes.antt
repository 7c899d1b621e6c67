-- ===== src/Routes.antt =====
-- core/Node.go: the routing table, by the priority queue of core/Tools.go. container/heap returns an
-- item of least cost; of several, here the first in the list. A map is walked in the order of its
-- dictionary. Costs are int64 numbers, whose sums wrap.
pub mod Fuel
pub mod Chain
pub mod Walk
pub mod Table
pub mod Stuck
pub mod Relax
mod Witnesses
use majula.Prelude.{
  ℕ, zero, suc, ◌+◌, ◌-◌, ◌^◌, String, Option, none, some, List, [], ◌∷◌, Bool, true, false, not,
  if◌then◌else◌, str_eq, ltb, leb, length, ◌==◌, ◌&&◌,
}
use majula.Prelude.Dict.{Dict, lookup, insert, get_or}
use majula.Prelude.Int.{ℤ, pos, negsuc, ltb_ℤ, leb_ℤ, ◌+ℤ◌}
use majula.Links.{Link, LinkSet}
use majula.Node.{mem}
use majula.Mesh.{RouteEntry, RoutingTable}

-- The index into the heap is left out.
pub record Item : Type 0 where
  pub node_id : String
  pub cost : ℤ

abbrev pub max_int64 : ℤ
max_int64 = pos (2 ^ 63 - 1)

-- The int64 that a sum of two of them wraps to.
unfoldable pub wrap64 : ℤ → ℤ
wrap64 (pos n) = if ltb n (2 ^ 63) then pos n else negsuc (2 ^ 64 - 1 - n)
wrap64 (negsuc n) = if ltb n (2 ^ 63) then negsuc n else pos (2 ^ 64 - 1 - n)

unfoldable pub add_cost : ℤ → ℤ → ℤ
add_cost a c = wrap64 (a +ℤ c)

-- The local variables of the search. The visited nodes are a list, the newest first.
pub record Search : Type 0 where
  pub dist : Dict ℤ
  pub prev : Dict String
  pub visited : List String
  pub queue : List Item

unfoldable pub init_links : Dict Link → Dict ℤ → Dict ℤ
init_links [] dist = dist
init_links ((target, link) ∷ links) dist =
    init_links links (insert link.target max_int64 (insert link.source max_int64 dist))

unfoldable pub init_dist : LinkSet → Dict ℤ → Dict ℤ
init_dist [] dist = dist
init_dist ((source, links) ∷ set) dist = init_dist set (init_links links dist)

unfoldable pub pop_min : Item → List Item → Item × List Item
pop_min item [] = (item, [])
pop_min item (other ∷ items) =
    let least = pop_min other items in
    if leb_ℤ item.cost least.0.cost then (item, other ∷ items) else (least.0, item ∷ least.1)

unfoldable pub improve : String → String → ℤ → Search → Search
improve current neighbor new_cost s =
    if ltb_ℤ new_cost (get_or (pos 0) neighbor s.dist)
    then record {
      dist = insert neighbor new_cost s.dist;
      prev = insert neighbor current s.prev;
      visited = s.visited;
      queue = record { node_id = neighbor; cost = new_cost } ∷ s.queue;
    }
    else s

unfoldable pub relax : String → String → Link → Search → Search
relax current neighbor link s =
    if mem neighbor s.visited
    then s
    else improve current neighbor (add_cost (get_or (pos 0) current s.dist) link.cost) s

unfoldable pub relax_all : String → Dict Link → Search → Search
relax_all current [] s = s
relax_all current ((neighbor, link) ∷ links) s =
    relax_all current links (relax current neighbor link s)

-- One round of the loop, for the item that was taken and those that stay.
unfoldable pub visit : LinkSet → Item → List Item → Search → Search
visit set item rest s =
    if mem item.node_id s.visited
    then record s { queue = rest }
    else relax_all item.node_id (get_or [] item.node_id set)
        (record s { visited = item.node_id ∷ s.visited; queue = rest })

unfoldable pub turn_on : LinkSet → List Item → Search → Search
turn_on set [] s = s
turn_on set (item ∷ items) s = let least = pop_min item items in visit set least.0 least.1 s

unfoldable pub turn : LinkSet → Search → Search
turn set s = turn_on set s.queue s

abbrev if_empty : List Item → Option Search → Option Search → Option Search
if_empty [] over rest = over
if_empty (item ∷ items) over rest = rest

unfoldable pub search_loop : ℕ → LinkSet → Search → Option Search
search_loop zero set s = if_empty s.queue (some s) none
search_loop (suc fuel) set s =
    let rest = search_loop fuel set (turn set s) in if_empty s.queue (some s) rest

abbrev pub start_search : String → LinkSet → Search
start_search id set = record {
  dist = insert id (pos 0) (init_dist set []);
  prev = [];
  visited = [];
  queue = record { node_id = id; cost = pos 0 } ∷ [];
}

-- for prev[path[0]] != node.ID; the head of the path is all that is used of it
unfoldable pub walk : ℕ → Dict String → String → String → Option String
walk zero prev id head = none
walk (suc fuel) prev id head =
    let before = get_or "" head prev in
    let rest = walk fuel prev id before in if str_eq before id then some head else rest

unfoldable pub entry_for : String → LinkSet → String → RouteEntry
entry_for id set next_hop = elim (lookup next_hop (get_or [] id set)) [
  | none ↦ record { local_channel_id = ""; next_hop_node_id = next_hop }
  | some link ↦ record { local_channel_id = link.channel; next_hop_node_id = next_hop }
]

-- for target := range dist; `none` is a walk without an end
unfoldable pub route_targets :
    ℕ → Dict String → String → LinkSet → Dict ℤ → RoutingTable → Option RoutingTable
route_targets fuel prev id set [] table = some table
route_targets fuel prev id set ((target, cost) ∷ dist) table =
    if str_eq target id
    then route_targets fuel prev id set dist table
    else elim (walk fuel prev id target) [
      | none ↦ none
      | some next_hop ↦
          route_targets fuel prev id set dist (insert target (entry_for id set next_hop ∷ []) table)
    ]

unfoldable pub same_entry : RouteEntry → RouteEntry → Bool
same_entry a b =
    str_eq a.local_channel_id b.local_channel_id && str_eq a.next_hop_node_id b.next_hop_node_id

unfoldable pub same_routes : List RouteEntry → List RouteEntry → Bool
same_routes [] [] = true
same_routes (a ∷ more) (b ∷ others) = same_entry a b && same_routes more others
same_routes _ _ = false

unfoldable pub all_in : RoutingTable → RoutingTable → Bool
all_in [] temp = true
all_in ((target, routes) ∷ table) temp =
    let rest = all_in table temp in
    elim (lookup target temp) [ none ↦ false | some others ↦ same_routes routes others && rest ]

unfoldable pub compare_routing_tables : RoutingTable → RoutingTable → Bool
compare_routing_tables table temp = (length table == length temp) && all_in table temp

unfoldable pub links_in : LinkSet → ℕ
links_in [] = 0
links_in ((source, links) ∷ set) = length links + links_in set

-- The new table; `none` where the method does not return.
unfoldable pub build_routing_table : String → LinkSet → RoutingTable → Option RoutingTable
build_routing_table id set table = elim (search_loop (1 + links_in set) set (start_search id set)) [
  | none ↦ none
  | some found ↦ elim (route_targets (suc (length found.visited)) found.prev id set found.dist []) [
    | none ↦ none
    | some temp ↦ some (if compare_routing_tables table temp then table else temp)
  ]
]
