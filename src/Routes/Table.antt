-- ===== src/Routes/Table.antt =====
-- core/Node.go: the table that buildRoutingTable makes of what the search has found.
use majula.Prelude.{
  suc, ◌+◌, ◌≡◌, refl, ◌⊎◌, inl, inr, String, some, List, [], ◌∷◌, Bool, true, if◌then◌else◌, ◌&&◌,
  ◌==◌, str_eq, eq_iff, arith, Bool-cases, Option-cases, length,
}
use majula.Prelude.Dict.{Dict, lookup, insert, get_or, lookup-insert}
use majula.Prelude.Int.{ℤ}
use majula.Links.{Link, LinkSet}
use majula.Mesh.{RouteEntry, RoutingTable}
use majula.Routes.{
  Search, search_loop, start_search, links_in, entry_for, route_targets, build_routing_table,
  compare_routing_tables, same_entry, same_routes, all_in,
}
use majula.Routes.Walk.{EndsBy-target}
use majula.Routes.Chain.{search_loop-IsTree}
use majula.Routes.Relax.{HasPrev, IsTree}

-- All the nodes of the links but the one that builds the table were reached.
unfoldable pub AllReached : String → Dict String → Dict ℤ → Type 0
AllReached id prev [] = Unit
AllReached id prev ((target, cost) ∷ dist) =
    ((str_eq target id ≡ true) ⊎ HasPrev prev target) × AllReached id prev dist

-- Each route of a table is by a link of the node to the next hop, on the link's channel.
abbrev pub AreDirect : LinkSet → String → RoutingTable → Type 0
AreDirect set id table =
    (target : String) (routes : List RouteEntry)
    → lookup target table ≡ some routes
    → (link : Link) × (h : String) × (lookup h (get_or [] id set) ≡ some link)
      × (routes ≡ record { local_channel_id = link.channel; next_hop_node_id = h } ∷ [])

module _ (set : LinkSet) (id : String) (s : Search) (tree : IsTree set id s) where
  entry_for-link :
      (h : String) (link : Link)
      → lookup h (get_or [] id set) ≡ some link
      → entry_for id set h ≡ record { local_channel_id = link.channel; next_hop_node_id = h }
  unfolding entry_for
  entry_for-link h link e = ground arith

  AreDirect-insert :
      (target h : String) (link : Link) (table : RoutingTable)
      → lookup h (get_or [] id set) ≡ some link
      → AreDirect set id table
      → AreDirect set id (insert target (entry_for id set h ∷ []) table)
  AreDirect-insert target h link table e d t routes f = elim (Bool-cases (str_eq target t)) [
    | inl own ↦ (
      link,
      h,
      e,
      ground
          (arith, entry_for-link h link e, lookup-insert target t (entry_for id set h ∷ []) table),
    )
    | inr other ↦
        d t routes (ground (arith, lookup-insert target t (entry_for id set h ∷ []) table))
  ]

  route_targets-returns :
      (dist : Dict ℤ) (table : RoutingTable)
      → AllReached id s.prev dist
      → AreDirect set id table
      → (temp : RoutingTable) × (route_targets (suc (length s.visited)) s.prev id set dist table
          ≡ some temp)
        × AreDirect set id temp
  unfolding route_targets AllReached
  route_targets-returns [] table r d = (table, refl, d)
  route_targets-returns ((target, cost) ∷ dist) table (r, more) d =
      elim (Bool-cases (str_eq target id)) [
        | inl own ↦
            let (temp, e, good) = route_targets-returns dist table more d in (temp, rw own e, good)
        | inr other ↦ elim r [
          | inl own ↦ absurd (ground arith)
          | inr prev ↦
              let (h, w, l) = EndsBy-target set id s tree target prev in
              let (link, f) = tree.linked h id l in
              let (temp, e, good) =
                route_targets-returns dist (insert target (entry_for id set h ∷ []) table) more
                  (AreDirect-insert target h link table f d) in
              (temp, rw (other, w) e, good)
        ]
      ]

  no_route : AreDirect set id []
  unfolding lookup
  no_route target routes e = absurd (ground arith)

  new_routes-returns :
      AllReached id s.prev s.dist
      → (temp : RoutingTable) × (route_targets (suc (length s.visited)) s.prev id set s.dist []
          ≡ some temp)
        × AreDirect set id temp
  new_routes-returns r = route_targets-returns s.dist [] r no_route

same_entry-eq : (a b : RouteEntry) → same_entry a b ≡ true → a ≡ b
unfolding same_entry
same_entry-eq a b h = ground (
  arith,
  eq_iff a.local_channel_id b.local_channel_id,
  eq_iff a.next_hop_node_id b.next_hop_node_id,
)

same_routes-eq : (xs ys : List RouteEntry) → same_routes xs ys ≡ true → xs ≡ ys
unfolding same_routes
same_routes-eq [] [] h = refl
same_routes-eq [] (b ∷ bs) h = absurd (ground arith)
same_routes-eq (a ∷ xs) [] h = absurd (ground arith)
same_routes-eq (a ∷ xs) (b ∷ ys) h = ground (arith, same_entry-eq a b, same_routes-eq xs ys)

all_in-lookup :
    (table temp : RoutingTable) (target : String) (routes : List RouteEntry)
    → all_in table temp ≡ true
    → lookup target table ≡ some routes
    → lookup target temp ≡ some routes
unfolding all_in lookup
all_in-lookup [] temp target routes h e = absurd (ground arith)
all_in-lookup ((t, old) ∷ table) temp target routes h e = elim (Option-cases (lookup t temp)) [
  | inl missing ↦ absurd (ground arith)
  | inr (others, f) ↦
      ground
        (arith, eq_iff t target, same_routes-eq old others, all_in-lookup table temp target routes)
]

both_true : (a b : Bool) → (a && b) ≡ true → b ≡ true
both_true a b h = ground arith

compare_routing_tables-AreDirect :
    (set : LinkSet) (id : String) (table temp : RoutingTable)
    → AreDirect set id temp
    → AreDirect set id (if compare_routing_tables table temp then table else temp)
unfolding compare_routing_tables
compare_routing_tables-AreDirect set id table temp d =
    elim (Bool-cases (compare_routing_tables table temp)) [
      | inl e ↦ rw e (λ target routes f. d target routes (
          all_in-lookup table temp target routes
            (both_true (length table == length temp) (all_in table temp) e) f))
      | inr e ↦ rw e d
    ]

build_routing_table-made :
    (id : String) (set : LinkSet) (table temp : RoutingTable) (found : Search)
    → search_loop (1 + links_in set) set (start_search id set) ≡ some found
    → route_targets (suc (length found.visited)) found.prev id set found.dist [] ≡ some temp
    → build_routing_table id set table
      ≡ some (if compare_routing_tables table temp then table else temp)
unfolding build_routing_table
build_routing_table-made id set table temp found e made = ground arith

-- If the search reaches every node of the links that are known, the method returns, and each route
-- of the table is then by a link of the node to the next hop, on the channel of that link.
pub build_routing_table-AreDirect :
    (id : String) (set : LinkSet) (table : RoutingTable) (found : Search)
    → search_loop (1 + links_in set) set (start_search id set) ≡ some found
    → AllReached id found.prev found.dist
    → (new : RoutingTable) × (build_routing_table id set table ≡ some new) × AreDirect set id new
build_routing_table-AreDirect id set table found e r =
    let (tree, over) = search_loop-IsTree (1 + links_in set) id set found e in
    let (temp, made, direct) = new_routes-returns set id found tree r in
    (
      if compare_routing_tables table temp then table else temp,
      build_routing_table-made id set table temp found e made,
      compare_routing_tables-AreDirect set id table temp direct,
    )
