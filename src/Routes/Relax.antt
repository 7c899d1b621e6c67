-- ===== src/Routes/Relax.antt =====
-- core/Node.go: the predecessors that one round of the search leaves lead back to the node.
use majula.Prelude.{
  ◌≡◌, refl, ◌⊎◌, inl, inr, String, some, List, [], ◌∷◌, true, false, str_eq, eq_iff, arith,
  Bool-cases, str_eq_self,
}
use majula.Prelude.Dict.{Dict, lookup, insert, get_or, lookup-insert, lookup-insert_self}
use majula.Prelude.Int.{ℤ, pos, ltb_ℤ}
use majula.Links.{Link, LinkSet}
use majula.Node.{mem}
use majula.Routes.{Item, Search, improve, relax, relax_all, add_cost}

abbrev pub HasPrev : Dict String → String → Type 0
HasPrev prev w = (v : String) × (lookup w prev ≡ some v)

-- Each visited node but the first was reached from one that was visited earlier.
unfoldable pub Chained : Dict String → String → List String → Type 0
Chained prev id [] = Unit
Chained prev id (v ∷ vs) =
    ((v ≡ id) ⊎ ((u : String) × (lookup v prev ≡ some u) × (mem u vs ≡ true))) × Chained prev id vs

unfoldable pub AreReached : Dict String → String → List Item → Type 0
AreReached prev id [] = Unit
AreReached prev id (item ∷ items) =
    ((item.node_id ≡ id) ⊎ HasPrev prev item.node_id) × AreReached prev id items

pub record IsTree (set : LinkSet) (id : String) (s : Search) : Type 0 where
  pub chain : Chained s.prev id s.visited
  pub before : (w v : String) → lookup w s.prev ≡ some v → mem v s.visited ≡ true
  pub linked :
      (w v : String)
      → lookup w s.prev ≡ some v
      → (link : Link) × (lookup w (get_or [] v set) ≡ some link)
  pub reached : AreReached s.prev id s.queue

-- A new predecessor of a node that is not visited leaves the chain.
Chained-insert :
    (prev : Dict String) (id w current : String) (visited : List String)
    → mem w visited ≡ false
    → Chained prev id visited
    → Chained (insert w current prev) id visited
unfolding Chained mem
Chained-insert prev id w current [] h c = tt
Chained-insert prev id w current (v ∷ vs) h c = (
  elim c.0 [
    | inl e ↦ inl e
    | inr (u, f, m) ↦
        inr (u, ground (arith, lookup-insert w v current prev, eq_iff w v, eq_iff v w), m)
  ],
  Chained-insert prev id w current vs (ground arith) c.1,
)

HasPrev-insert :
    (prev : Dict String) (w current n v : String)
    → lookup n prev ≡ some v
    → HasPrev (insert w current prev) n
HasPrev-insert prev w current n v f = elim (Bool-cases (str_eq w n)) [
  | inl e ↦ (current, ground (arith, lookup-insert w n current prev))
  | inr e ↦ (v, ground (arith, lookup-insert w n current prev))
]

AreReached-insert :
    (prev : Dict String) (id w current : String) (items : List Item)
    → AreReached prev id items
    → AreReached (insert w current prev) id items
unfolding AreReached
AreReached-insert prev id w current [] r = tt
AreReached-insert prev id w current (item ∷ items) r = (
  elim r.0 [ inl e ↦ inl e | inr (v, f) ↦ inr (HasPrev-insert prev w current item.node_id v f) ],
  AreReached-insert prev id w current items r.1,
)

linked_insert :
    (set : LinkSet) (neighbor current w v : String) (link : Link) (prev : Dict String)
    → lookup neighbor (get_or [] current set) ≡ some link
    → lookup w (insert neighbor current prev) ≡ some v
    → (lookup w prev ≡ some v → (old : Link) × (lookup w (get_or [] v set) ≡ some old))
    → (new : Link) × (lookup w (get_or [] v set) ≡ some new)
linked_insert set neighbor current w v link prev l f old = elim (Bool-cases (str_eq neighbor w)) [
  | inl e ↦ (link, ground (arith, lookup-insert neighbor w current prev, eq_iff neighbor w))
  | inr e ↦ old (ground (arith, lookup-insert neighbor w current prev))
]

improve-IsTree :
    (set : LinkSet) (id current neighbor : String) (cost : ℤ) (link : Link) (s : Search)
    → mem current s.visited ≡ true
    → mem neighbor s.visited ≡ false
    → lookup neighbor (get_or [] current set) ≡ some link
    → IsTree set id s
    → IsTree set id (improve current neighbor cost s)
unfolding improve AreReached
improve-IsTree set id current neighbor cost link s c n l t =
    elim (Bool-cases (ltb_ℤ cost (get_or (pos 0) neighbor s.dist))) [
      | inr e ↦ rw e t
      | inl e ↦ rw e (record {
        chain = Chained-insert s.prev id neighbor current s.visited n t.chain;
        before = λ w v f.
            ground
              (arith, lookup-insert neighbor w current s.prev, eq_iff neighbor w, t.before w v);
        linked = λ w v f. linked_insert set neighbor current w v link s.prev l f (t.linked w v);
        reached = (
          inr (current, lookup-insert_self neighbor current s.prev),
          AreReached-insert s.prev id neighbor current s.queue t.reached,
        );
      })
    ]

relax-IsTree :
    (set : LinkSet) (id current neighbor : String) (used link : Link) (s : Search)
    → mem current s.visited ≡ true
    → lookup neighbor (get_or [] current set) ≡ some link
    → IsTree set id s
    → IsTree set id (relax current neighbor used s)
unfolding relax
relax-IsTree set id current neighbor used link s c l t =
    elim (Bool-cases (mem neighbor s.visited)) [
      | inl e ↦ rw e t
      | inr e ↦ rw e (
          improve-IsTree set id current neighbor
            (add_cost (get_or (pos 0) current s.dist) used.cost) link s c e l t)
    ]

-- The keys of some links are among those of others.
unfoldable pub AreKeys : Dict Link → Dict Link → Type 0
AreKeys [] all = Unit
AreKeys ((n, link) ∷ links) all = ((found : Link) × (lookup n all ≡ some found)) × AreKeys links all

AreKeys-cons :
    (k : String) (new : Link) (links all : Dict Link)
    → AreKeys links all
    → AreKeys links ((k, new) ∷ all)
unfolding AreKeys lookup
AreKeys-cons k new [] all h = tt
AreKeys-cons k new ((n, link) ∷ links) all ((found, f), h) = (
  elim (Bool-cases (str_eq k n)) [ inl e ↦ (new, rw e refl) | inr e ↦ (found, rw e f) ],
  AreKeys-cons k new links all h,
)

pub AreKeys-self : (links : Dict Link) → AreKeys links links
unfolding AreKeys lookup
AreKeys-self [] = tt
AreKeys-self ((n, link) ∷ links) =
    ((link, rw (str_eq_self n) refl), AreKeys-cons n link links links (AreKeys-self links))

visited-relax :
    (current neighbor : String) (link : Link) (s : Search)
    → (relax current neighbor link s).visited ≡ s.visited
unfolding relax improve
visited-relax current neighbor link s = ground arith

pub relax_all-IsTree :
    (set : LinkSet) (id current : String) (links : Dict Link) (s : Search)
    → AreKeys links (get_or [] current set)
    → mem current s.visited ≡ true
    → IsTree set id s
    → IsTree set id (relax_all current links s)
unfolding relax_all AreKeys
relax_all-IsTree set id current [] s k c t = t
relax_all-IsTree set id current ((neighbor, used) ∷ links) s ((link, l), k) c t =
    relax_all-IsTree set id current links (relax current neighbor used s) k
      (rw (visited-relax current neighbor used s) c)
      (relax-IsTree set id current neighbor used link s c l t)
