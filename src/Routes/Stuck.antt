-- ===== src/Routes/Stuck.antt =====
-- core/Node.go: the walk of buildRoutingTable has no bound of its own.
use majula.Prelude.{
  ℕ, zero, suc, ◌+◌, ◌≡◌, refl, String, none, some, [], ◌∷◌, false, str_eq, eq_iff, arith, length,
  Bool-cases, Option-cases, inl, inr,
}
use majula.Prelude.Dict.{Dict, lookup, insert, get_or}
use majula.Prelude.Int.{ℤ}
use majula.Links.{LinkSet}
use majula.Mesh.{RoutingTable}
use majula.Routes.{
  Search, search_loop, start_search, links_in, walk, entry_for, route_targets, build_routing_table,
}

walk-empty :
    (fuel : ℕ) (prev : Dict String) (id : String)
    → str_eq "" id ≡ false
    → lookup "" prev ≡ none
    → walk fuel prev id "" ≡ none
unfolding walk get_or
walk-empty zero prev id n e = refl
walk-empty (suc fuel) prev id n e = ground (arith, walk-empty fuel prev id n e)

-- From a node without a predecessor the walk never ends, whatever the rounds allowed, in a node
-- whose name is not empty and where the empty name has no predecessor either.
walk-lost :
    (fuel : ℕ) (prev : Dict String) (id head : String)
    → str_eq "" id ≡ false
    → lookup "" prev ≡ none
    → lookup head prev ≡ none
    → walk fuel prev id head ≡ none
unfolding walk get_or
walk-lost zero prev id head n e f = refl
walk-lost (suc fuel) prev id head n e f = ground (arith, walk-empty fuel prev id n e)

route_targets-lost :
    (fuel : ℕ) (prev : Dict String) (id target : String) (cost : ℤ) (set : LinkSet) (dist : Dict ℤ)
    (table : RoutingTable)
    → str_eq "" id ≡ false
    → lookup "" prev ≡ none
    → str_eq target id ≡ false
    → lookup target prev ≡ none
    → lookup target dist ≡ some cost
    → route_targets fuel prev id set dist table ≡ none
unfolding route_targets lookup
route_targets-lost fuel prev id target cost set [] table n e other f g = absurd (ground arith)
route_targets-lost fuel prev id target cost set ((t, c) ∷ dist) table n e other f g =
    elim (Bool-cases (str_eq t target)) [
      | inl same ↦ ground (arith, eq_iff t target, walk-lost fuel prev id target n e f)
      | inr differs ↦
          let later : (more : RoutingTable) → route_targets fuel prev id set dist more ≡ none =
            λ more.
              route_targets-lost fuel prev id target cost set dist more n e other f
                (ground arith) in
          elim (Bool-cases (str_eq t id)) [
            | inl own ↦ rw own (later table)
            | inr foreign ↦ elim (Option-cases (walk fuel prev id t)) [
              | inl ends ↦ rw (foreign, ends) refl
              | inr (h, w) ↦ rw (foreign, w) (later (insert t (entry_for id set h ∷ []) table))
            ]
          ]
    ]

-- If the search leaves a node of the links without a predecessor, other than the one that builds
-- the table, the walks never come to an end, whatever the rounds allowed, and the method does not
-- return; its own name is not empty, and the search has no predecessor for the empty name.
pub build_routing_table-lost :
    (id target : String) (cost : ℤ) (set : LinkSet) (table : RoutingTable) (found : Search)
    → str_eq "" id ≡ false
    → search_loop (1 + links_in set) set (start_search id set) ≡ some found
    → lookup "" found.prev ≡ none
    → str_eq target id ≡ false
    → lookup target found.prev ≡ none
    → lookup target found.dist ≡ some cost
    → ((fuel : ℕ) → route_targets fuel found.prev id set found.dist [] ≡ none)
      × (build_routing_table id set table ≡ none)
unfolding build_routing_table
build_routing_table-lost id target cost set table found n s e other f g = (
  λ fuel. route_targets-lost fuel found.prev id target cost set found.dist [] n e other f g,
  ground (
    arith,
    route_targets-lost (suc (length found.visited)) found.prev id target cost set found.dist [] n e
        other f g,
  ),
)
