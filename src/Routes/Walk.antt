-- ===== src/Routes/Walk.antt =====
-- core/Node.go: the walk of buildRoutingTable from a target back to the node's neighbour.
use majula.Prelude.{
  ℕ, zero, suc, ◌≡◌, refl, ◌∙◌, inl, inr, String, some, List, [], ◌∷◌, true, false, if◌then◌else◌,
  str_eq, eq_iff, arith, Bool-cases, length,
}
use majula.Prelude.Dict.{Dict, lookup, get_or}
use majula.Links.{LinkSet}
use majula.Node.{mem}
use majula.Routes.{Search, walk}
use majula.Routes.Relax.{HasPrev, Chained, IsTree}

walk-more :
    (fuel : ℕ) (prev : Dict String) (id head h : String)
    → walk fuel prev id head ≡ some h
    → walk (suc fuel) prev id head ≡ some h
unfolding walk
walk-more zero prev id head h e = absurd (ground arith)
walk-more (suc fuel) prev id head h e =
    ground (arith, walk-more fuel prev id (get_or "" head prev) h)

walk-step :
    (fuel : ℕ) (prev : Dict String) (id head before : String)
    → lookup head prev ≡ some before
    → walk (suc fuel) prev id head
      ≡ (if str_eq before id then some head else walk fuel prev id before)
unfolding walk get_or
walk-step fuel prev id head before e = ground arith

-- The node before the first of the path found is the one that builds the table.
abbrev EndsBy : ℕ → Dict String → String → String → Type 0
EndsBy fuel prev id v = (h : String) × (walk fuel prev id v ≡ some h) × (lookup h prev ≡ some id)

EndsBy-step :
    (fuel : ℕ) (prev : Dict String) (id v u : String)
    → lookup v prev ≡ some u
    → (str_eq u id ≡ false → EndsBy fuel prev id u)
    → EndsBy (suc fuel) prev id v
EndsBy-step fuel prev id v u e k = elim (Bool-cases (str_eq u id)) [
  | inl own ↦ (v, walk-step fuel prev id v u e ∙ rw own refl, ground (arith, eq_iff u id))
  | inr other ↦ let (h, w, l) = k other in (h, walk-step fuel prev id v u e ∙ rw other w, l)
]

EndsBy-visited :
    (prev : Dict String) (id : String) (visited : List String) (v : String)
    → Chained prev id visited
    → mem v visited ≡ true
    → str_eq v id ≡ false
    → EndsBy (length visited) prev id v
unfolding Chained mem
EndsBy-visited prev id [] v c m n = absurd (ground arith)
EndsBy-visited prev id (x ∷ xs) v (c, cs) m n = elim (Bool-cases (str_eq x v)) [
  | inr e ↦
      let (h, w, l) = EndsBy-visited prev id xs v cs (ground arith) n in
      (h, walk-more (length xs) prev id v h w, l)
  | inl e ↦ elim c [
    | inl same ↦ absurd (ground (arith, eq_iff x v, eq_iff v id))
    | inr (u, f, k) ↦
        EndsBy-step (length xs) prev id v u (ground (arith, eq_iff x v))
          (EndsBy-visited prev id xs u cs k)
  ]
]

module _ (set : LinkSet) (id : String) (s : Search) (tree : IsTree set id s) where
  pub EndsBy-target : (w : String) → HasPrev s.prev w → EndsBy (suc (length s.visited)) s.prev id w
  EndsBy-target w (v, e) =
      EndsBy-step (length s.visited) s.prev id w v e
        (EndsBy-visited s.prev id s.visited v tree.chain (tree.before w v e))
