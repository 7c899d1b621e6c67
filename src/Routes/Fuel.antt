-- ===== src/Routes/Fuel.antt =====
-- core/Node.go: the search of buildRoutingTable ends.
use majula.Prelude.{
  ℕ, zero, suc, ◌+◌, ◌≤◌, ◌≡◌, refl, ◌∙◌, String, some, List, [], ◌∷◌, false, if◌then◌else◌, eq_iff,
  arith, length, Bool-cases, inl, inr,
}
use majula.Prelude.Dict.{Dict, lookup, get_or}
use majula.Links.{Link, LinkSet}
use majula.Node.{mem}
use majula.Routes.{
  Item, Search, pop_min, improve, relax, relax_all, visit, turn_on, turn, search_loop, links_in,
  start_search,
}

-- The links that lead away from nodes not yet visited.
unfoldable pub pending : LinkSet → List String → ℕ
pending [] visited = 0
pending ((source, links) ∷ set) visited =
    let rest = pending set visited in if mem source visited then rest else length links + rest

pending-le :
    (set : LinkSet) (current : String) (visited : List String)
    → pending set (current ∷ visited) ≤ pending set visited
unfolding pending mem
pending-le [] current visited = omega arith
pending-le ((source, links) ∷ set) current visited = ground (arith, pending-le set current visited)

pending-visit :
    (set : LinkSet) (current : String) (visited : List String)
    → mem current visited ≡ false
    → pending set (current ∷ visited) + length (get_or [] current set) ≤ pending set visited
unfolding pending mem get_or lookup
pending-visit [] current visited h = omega arith
pending-visit ((source, links) ∷ set) current visited h = ground (
  arith,
  pending-visit set current visited h,
  pending-le set current visited,
  eq_iff current source,
  eq_iff source current,
)

length-pop_min : (item : Item) (items : List Item) → length (pop_min item items).1 ≡ length items
unfolding pop_min
length-pop_min item [] = refl
length-pop_min item (other ∷ items) = ground (arith, length-pop_min other items)

abbrev left : LinkSet → Search → ℕ
left set s = length s.queue + pending set s.visited

relax-visited :
    (current neighbor : String) (link : Link) (s : Search)
    → ((relax current neighbor link s).visited ≡ s.visited)
      × (length (relax current neighbor link s).queue ≤ 1 + length s.queue)
unfolding relax improve
relax-visited current neighbor link s = ground arith

relax_all-visited :
    (current : String) (links : Dict Link) (s : Search)
    → ((relax_all current links s).visited ≡ s.visited)
      × (length (relax_all current links s).queue ≤ length links + length s.queue)
unfolding relax_all
relax_all-visited current [] s = (refl, omega arith)
relax_all-visited current ((neighbor, link) ∷ links) s = ground (
  arith,
  relax_all-visited current links (relax current neighbor link s),
  relax-visited current neighbor link s,
)

visit-left :
    (set : LinkSet) (item : Item) (rest : List Item) (s : Search)
    → left set (visit set item rest s) ≤ length rest + pending set s.visited
unfolding visit
visit-left set item rest s = elim (Bool-cases (mem item.node_id s.visited)) [
  | inl e ↦ ground arith
  | inr e ↦
      let start = record s { visited = item.node_id ∷ s.visited; queue = rest } in
      ground (
        arith,
        relax_all-visited item.node_id (get_or [] item.node_id set) start,
        pending-visit set item.node_id s.visited e,
      )
]

turn_on-left :
    (set : LinkSet) (item : Item) (items : List Item) (s : Search)
    → left set (turn_on set (item ∷ items) s) + 1 ≤ length (item ∷ items) + pending set s.visited
unfolding turn_on
turn_on-left set item items s = omega (
  arith,
  length-pop_min item items,
  visit-left set (pop_min item items).0 (pop_min item items).1 s,
)

pub search_loop-empty :
    (fuel : ℕ) (set : LinkSet) (s : Search) → s.queue ≡ [] → search_loop fuel set s ≡ some s
unfolding search_loop
search_loop-empty zero set s e = rw e refl
search_loop-empty (suc fuel) set s e = rw e refl

pub search_loop-turn :
    (fuel : ℕ) (set : LinkSet) (item : Item) (items : List Item) (s : Search)
    → s.queue ≡ item ∷ items
    → search_loop (suc fuel) set s ≡ search_loop fuel set (turn_on set (item ∷ items) s)
unfolding search_loop turn
search_loop-turn fuel set item items s e = rw e refl

returns_from :
    (fuel : ℕ) (set : LinkSet) (items : List Item) (s : Search)
    → s.queue ≡ items
    → length items + pending set s.visited ≤ fuel
    → (found : Search) × (search_loop fuel set s ≡ some found)
returns_from fuel set [] s e h = (s, search_loop-empty fuel set s e)
returns_from zero set (item ∷ items) s e h = absurd (omega arith)
returns_from (suc fuel) set (item ∷ items) s e h =
    let next = turn_on set (item ∷ items) s in
    let (found, f) =
      returns_from fuel set next.queue next refl (omega (arith, turn_on-left set item items s)) in
    (found, search_loop-turn fuel set item items s e ∙ f)

pending-new : (set : LinkSet) → pending set [] ≡ links_in set
unfolding pending links_in mem
pending-new [] = refl
pending-new ((source, links) ∷ set) = omega (arith, pending-new set)

-- From a node the search returns with fuel for one item and for every link that is known.
pub search_loop-returns :
    (id : String) (set : LinkSet)
    → (found : Search) × (search_loop (1 + links_in set) set (start_search id set) ≡ some found)
search_loop-returns id set =
    let s = start_search id set in
    returns_from (1 + links_in set) set s.queue s refl (omega (arith, pending-new set))
