-- ===== src/Routes/Chain.antt =====
-- core/Node.go: the predecessors that the search of buildRoutingTable leaves lead back to the node.
use majula.Prelude.{
  ℕ, zero, suc, ◌≡◌, refl, sym, ◌∙◌, inl, inr, String, some, List, [], ◌∷◌, arith, Bool-cases,
  subst, str_eq_self,
}
use majula.Prelude.Dict.{Dict, lookup, get_or}
use majula.Prelude.Int.{leb_ℤ}
use majula.Links.{LinkSet}
use majula.Node.{mem}
use majula.Routes.{Item, Search, pop_min, visit, turn_on, search_loop, start_search}
use majula.Routes.Fuel.{search_loop-empty, search_loop-turn}
use majula.Routes.Relax.{Chained, AreReached, IsTree, AreKeys-self, relax_all-IsTree}

-- The item that is taken and those that stay are the items there were.
AreReached-pop_min :
    (prev : Dict String) (id : String) (item : Item) (items : List Item)
    → AreReached prev id (item ∷ items)
    → AreReached prev id ((pop_min item items).0 ∷ (pop_min item items).1)
unfolding pop_min AreReached
AreReached-pop_min prev id item [] r = r
AreReached-pop_min prev id item (other ∷ items) (r, more) =
    let least = pop_min other items in
    let (l, rest) = AreReached-pop_min prev id other items more in
    elim (Bool-cases (leb_ℤ item.cost least.0.cost)) [
      | inl e ↦ rw e (r, more)
      | inr e ↦ rw e (l, (r, rest))
    ]

visit-IsTree :
    (set : LinkSet) (id : String) (item : Item) (rest : List Item) (s : Search)
    → AreReached s.prev id (item ∷ rest)
    → IsTree set id s
    → IsTree set id (visit set item rest s)
unfolding visit Chained AreReached mem
visit-IsTree set id item rest s (r, more) t = elim (Bool-cases (mem item.node_id s.visited)) [
  | inl e ↦ rw e (record { chain = t.chain; before = t.before; linked = t.linked; reached = more })
  | inr e ↦ rw e (
      relax_all-IsTree set id item.node_id (get_or [] item.node_id set)
        (record s { visited = item.node_id ∷ s.visited; queue = rest })
        (AreKeys-self (get_or [] item.node_id set)) (ground (arith, str_eq_self item.node_id))
        (record {
          chain = (
            elim r [ inl e ↦ inl e | inr (v, f) ↦ inr (v, f, t.before item.node_id v f) ],
            t.chain,
          );
          before = λ w v f. ground (arith, t.before w v f);
          linked = t.linked;
          reached = more;
        }))
]

turn_from :
    (set : LinkSet) (id : String) (items : List Item) (s : Search)
    → AreReached s.prev id items
    → IsTree set id s
    → IsTree set id (turn_on set items s)
unfolding turn_on
turn_from set id [] s r t = t
turn_from set id (item ∷ items) s r t =
    visit-IsTree set id (pop_min item items).0 (pop_min item items).1 s
      (AreReached-pop_min s.prev id item items r) t

no_prev : (w v : String) → lookup w [] ≡ some v → ⊥
unfolding lookup
no_prev w v e = ground arith

out_of_fuel :
    (set : LinkSet) (item : Item) (items : List Item) (s found : Search)
    → s.queue ≡ item ∷ items
    → search_loop 0 set s ≡ some found
    → ⊥
unfolding search_loop
out_of_fuel set item items s found e f = ground arith

same_search : {s found : Search} → some s ≡ some found → s ≡ found
same_search e = cc

loop_from :
    (set : LinkSet) (id : String) (fuel : ℕ) (items : List Item) (s found : Search)
    → s.queue ≡ items
    → IsTree set id s
    → search_loop fuel set s ≡ some found
    → IsTree set id found × (found.queue ≡ [])
loop_from set id fuel [] s found e t f =
    let same = same_search (sym (search_loop-empty fuel set s e) ∙ f) in
    (subst (IsTree set id) same t, subst (λ q. q.queue ≡ []) same e)
loop_from set id zero (item ∷ items) s found e t f = absurd (out_of_fuel set item items s found e f)
loop_from set id (suc fuel) (item ∷ items) s found e t f =
    let next = turn_on set (item ∷ items) s in
    loop_from set id fuel next.queue next found refl
      (turn_from set id (item ∷ items) s (subst (AreReached s.prev id) e t.reached) t)
      (sym (search_loop-turn fuel set item items s e) ∙ f)

-- The predecessors that the search finds form a tree over links of the set that leads back to the
-- node.
pub search_loop-IsTree :
    (fuel : ℕ) (id : String) (set : LinkSet) (found : Search)
    → search_loop fuel set (start_search id set) ≡ some found
    → IsTree set id found × (found.queue ≡ [])
unfolding Chained AreReached
search_loop-IsTree fuel id set found f =
    let s = start_search id set in
    loop_from set id fuel s.queue s found refl
      (record {
        chain = tt;
        before = λ w v e. absurd (no_prev w v e);
        linked = λ w v e. absurd (no_prev w v e);
        reached = (inl refl, tt);
      })
      f
