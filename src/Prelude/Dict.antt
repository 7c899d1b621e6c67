-- ===== src/Prelude/Dict.antt =====
-- Go's map[string]V as an association list. The order in which Go ranges over a map is not
-- specified; the list fixes one order.
use Prim.Native.String.{String}
use mathlib.Core.Path.{◌≡◌, refl}
use mathlib.Core.Option.{Option, none, some}
use mathlib.Core.List.{List, [], ◌∷◌}
use native.Mathlib.Omega.{arith}
use text.Mathlib.Text.{◌==◌ as str_eq}
use text.Mathlib.TextEquality.{eq_iff}
use majula.Prelude.Tests.{if◌then◌else◌, str_eq_self}

abbrev pub Dict {ℓ} : Type ℓ → Type ℓ
Dict V = List (String × V)

module _ {ℓ} {V : Type ℓ} where
  unfoldable pub lookup : String → Dict V → Option V
  lookup k [] = none
  lookup k ((j, v) ∷ m) = if str_eq j k then some v else lookup k m

  -- m[k] = v
  unfoldable pub insert : String → V → Dict V → Dict V
  insert k v [] = (k, v) ∷ []
  insert k v ((j, w) ∷ m) = if str_eq j k then (k, v) ∷ m else (j, w) ∷ insert k v m

  -- delete(m, k)
  unfoldable pub delete : String → Dict V → Dict V
  delete k [] = []
  delete k ((j, w) ∷ m) = let rest = delete k m in if str_eq j k then rest else (j, w) ∷ rest

  -- m[k], with the zero value for a missing key
  unfoldable pub get_or : V → String → Dict V → V
  unfolding lookup
  get_or d k m = elim (lookup k m) [ none ↦ d | some v ↦ v ]

  pub lookup-insert :
      (a b : String) (new : V) (m : Dict V)
      → lookup b (insert a new m) ≡ (if str_eq a b then some new else lookup b m)
  unfolding lookup insert
  lookup-insert a b new [] = refl
  lookup-insert a b new ((c, old) ∷ m) =
      ground (arith, lookup-insert a b new m, eq_iff c a, eq_iff c b, eq_iff a b)

  pub lookup-delete :
      (a b : String) (m : Dict V)
      → lookup b (delete a m) ≡ (if str_eq a b then none else lookup b m)
  unfolding lookup delete
  lookup-delete a b [] = ground arith
  lookup-delete a b ((c, old) ∷ m) =
      ground (arith, lookup-delete a b m, eq_iff c a, eq_iff c b, eq_iff a b)

  pub lookup-insert_self :
      (a : String) (new : V) (m : Dict V) → lookup a (insert a new m) ≡ some new
  lookup-insert_self a new m = simp (lookup-insert, str_eq_self)
