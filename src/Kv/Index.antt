-- ===== src/Kv/Index.antt =====
-- core/KVGroup.go: positions in the entry list, and what the loops over it do to them.
use majula.Prelude.{
  ℕ, zero, suc, ◌+◌, ◌≡◌, refl, String, Option, none, some, List, [], ◌∷◌, ◌++◌, drop, length,
  arith, if◌then◌else◌, str_eq, eq_iff,
}
use majula.Prelude.Dict.{Dict, lookup, insert, lookup-insert}
use majula.Prelude.Outcome.{ok}
use majula.Kv.{KvEntry, set_value, remove_at, reindex}

abbrev shift : Option ℕ → Option ℕ
shift none = none
shift (some i) = some (suc i)

module _ {ℓ} {V : Type ℓ} where
  -- Where a key stands in the entry list.
  unfoldable pub position : String → List (KvEntry V) → Option ℕ
  position k [] = none
  position k (e ∷ es) = if str_eq e.key k then some 0 else shift (position k es)

  -- The value under a key.
  unfoldable pub find : String → List (KvEntry V) → Option (Option V)
  find k [] = none
  find k (e ∷ es) = if str_eq e.key k then some e.value else find k es

  -- No key stands twice.
  abbrev pub Distinct : List (KvEntry V) → Type 0
  Distinct [] = Unit {0}
  Distinct (e ∷ es) = (position e.key es ≡ none) × Distinct es

  unfoldable pub update : String → Option V → List (KvEntry V) → List (KvEntry V)
  update k v [] = []
  update k v (e ∷ es) = if str_eq e.key k then record e { value = v } ∷ es else e ∷ update k v es

  unfoldable pub remove : String → List (KvEntry V) → List (KvEntry V)
  remove k [] = []
  remove k (e ∷ es) = if str_eq e.key k then es else e ∷ remove k es

  pub set_value-update :
      (k : String) (v : Option V) (l : List (KvEntry V)) (i : ℕ)
      → position k l ≡ some i
      → set_value i v l ≡ ok (update k v l)
  unfolding position set_value update
  set_value-update k v [] i h = ground arith
  set_value-update k v (e ∷ es) zero h = ground arith
  set_value-update k v (e ∷ es) (suc i) h = ground (arith, set_value-update k v es i)

  pub remove_at-remove :
      (k : String) (l : List (KvEntry V)) (i : ℕ)
      → position k l ≡ some i
      → remove_at i l ≡ ok (remove k l)
  unfolding position remove_at remove
  remove_at-remove k [] i h = ground arith
  remove_at-remove k (e ∷ es) zero h = ground arith
  remove_at-remove k (e ∷ es) (suc i) h = ground (arith, remove_at-remove k es i)

  pub position-update :
      (k j : String) (v : Option V) (l : List (KvEntry V))
      → position j (update k v l) ≡ position j l
  unfolding position update
  position-update k j v [] = refl
  position-update k j v (e ∷ es) = ground (arith, position-update k j v es)

  pub update-Distinct :
      (k : String) (v : Option V) (l : List (KvEntry V)) → Distinct l → Distinct (update k v l)
  unfolding update
  update-Distinct k v [] d = tt
  update-Distinct k v (e ∷ es) d =
      ground (arith, position-update k e.key v es, update-Distinct k v es)

  pub find-update :
      (k j : String) (v : Option V) (l : List (KvEntry V)) (i : ℕ)
      → position k l ≡ some i
      → find j (update k v l) ≡ (if str_eq k j then some v else find j l)
  unfolding position find update
  find-update k j v [] i h = ground arith
  find-update k j v (e ∷ es) zero h = ground (arith, eq_iff e.key k, eq_iff k j, eq_iff e.key j)
  find-update k j v (e ∷ es) (suc i) h =
      ground (arith, eq_iff e.key k, eq_iff k j, eq_iff e.key j, find-update k j v es i)

  pub find-append :
      (j : String) (l : List (KvEntry V)) (e : KvEntry V)
      → position e.key l ≡ none
      → find j (l ++ e ∷ []) ≡ (if str_eq e.key j then some e.value else find j l)
  unfolding position find
  find-append j [] e h = refl
  find-append j (x ∷ xs) e h =
      ground (arith, eq_iff x.key e.key, eq_iff x.key j, eq_iff e.key j, find-append j xs e)

  pub position-append :
      (j : String) (l : List (KvEntry V)) (e : KvEntry V)
      → position e.key l ≡ none
      → position j (l ++ e ∷ []) ≡ (if str_eq e.key j then some (length l) else position j l)
  unfolding position
  position-append j [] e h = ground arith
  position-append j (x ∷ xs) e h =
      ground (arith, eq_iff x.key e.key, eq_iff x.key j, eq_iff e.key j, position-append j xs e)

  pub append-Distinct :
      (l : List (KvEntry V)) (e : KvEntry V)
      → position e.key l ≡ none
      → Distinct l
      → Distinct (l ++ e ∷ [])
  unfolding position
  append-Distinct [] e h d = (refl, tt)
  append-Distinct (x ∷ xs) e h d = ground (
    arith,
    eq_iff x.key e.key,
    eq_iff e.key x.key,
    position-append x.key xs e,
    append-Distinct xs e,
  )

  position-drop :
      (j : String) (n : ℕ) (l : List (KvEntry V))
      → position j l ≡ none
      → position j (drop n l) ≡ none
  unfolding position
  position-drop j zero l h = h
  position-drop j (suc n) [] h = refl
  position-drop j (suc n) (e ∷ es) h = position-drop j n es (ground arith)

  position-drop-remove :
      (k j : String) (n : ℕ) (l : List (KvEntry V))
      → position j l ≡ none
      → position j (drop n (remove k l)) ≡ none
  unfolding position remove
  position-drop-remove k j zero [] h = refl
  position-drop-remove k j (suc n) [] h = refl
  position-drop-remove k j zero (e ∷ es) h = ground (arith, position-drop-remove k j 0 es)
  position-drop-remove k j (suc n) (e ∷ es) h =
      ground (arith, position-drop-remove k j n es, position-drop j (suc n) es)

  -- Where a key stands after a removal at i: found from i on, or where it was.
  pub position-remove :
      (k j : String) (l : List (KvEntry V)) (i : ℕ)
      → position k l ≡ some i
      → Distinct l
      → position j (remove k l) ≡ (elim (position j (drop i (remove k l))) [
        | some p ↦ some (i + p)
        | none ↦ if str_eq k j then none else position j l
      ])
  unfolding position remove
  position-remove k j [] i h d = ground arith
  position-remove k j (e ∷ es) zero h d = ground (arith, eq_iff e.key k, eq_iff e.key j, eq_iff k j)
  position-remove k j (e ∷ es) (suc i) h d = ground (
    arith,
    eq_iff e.key k,
    eq_iff e.key j,
    eq_iff k j,
    position-remove k j es i,
    position-drop-remove k e.key i es d.0,
  )

  pub remove-Distinct : (k : String) (l : List (KvEntry V)) → Distinct l → Distinct (remove k l)
  unfolding position remove
  remove-Distinct k [] d = tt
  remove-Distinct k (e ∷ es) d =
      ground (arith, remove-Distinct k es, position-drop-remove k e.key 0 es)

  pub find_absent : (j : String) (l : List (KvEntry V)) → position j l ≡ none → find j l ≡ none
  unfolding position find
  find_absent j [] h = refl
  find_absent j (e ∷ es) h = ground (arith, find_absent j es)

  pub find-remove :
      (k j : String) (l : List (KvEntry V))
      → Distinct l
      → find j (remove k l) ≡ (if str_eq k j then none else find j l)
  unfolding position find remove
  find-remove k j [] d = ground arith
  find-remove k j (e ∷ es) d =
      ground
        (arith, eq_iff e.key k, eq_iff e.key j, eq_iff k j, find-remove k j es, find_absent j es)

  pub lookup-reindex :
      (j : String) (i : ℕ) (es : List (KvEntry V)) (m : Dict ℕ)
      → Distinct es
      → lookup j (reindex i es m)
        ≡ (elim (position j es) [ some p ↦ some (i + p) | none ↦ lookup j m ])
  unfolding position reindex
  lookup-reindex j i [] m d = refl
  lookup-reindex j i (e ∷ es) m d = ground (
    arith,
    eq_iff e.key j,
    lookup-reindex j (suc i) es (insert e.key i m),
    lookup-insert e.key j i m,
  )

  pub drop-Distinct : (n : ℕ) (l : List (KvEntry V)) → Distinct l → Distinct (drop n l)
  drop-Distinct zero l d = d
  drop-Distinct (suc n) [] d = tt
  drop-Distinct (suc n) (e ∷ es) d = drop-Distinct n es d.1
