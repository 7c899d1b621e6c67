-- ===== src/Prelude/Outcome.antt =====
-- What a Go statement does: it goes on with a value, or it panics (an index out of range).
use mathlib.Core.Path.{◌≡◌, refl}
use mathlib.Core.Option.{Option, none, some}
use mathlib.Core.List.{List, [], ◌∷◌}
use Prim.Native.Nat.{ℕ, zero, suc, ◌<◌}
use native.Mathlib.Omega.{arith}
use majula.Prelude.Lists.{length, get_elem?, get_elem?_lt}

pub data Outcome {ℓ} (A : Type ℓ) : Type ℓ where
  ok : A → Outcome A
  panic : Outcome A

infixl 5 ◌>>=◌
abbrev pub ◌>>=◌ {ℓ κ} : {A : Type ℓ} {B : Type κ} → Outcome A → (A → Outcome B) → Outcome B
ok a >>= f = f a
panic >>= f = panic

abbrev pub or_panic {ℓ} : {A : Type ℓ} → Option A → Outcome A
or_panic none = panic
or_panic (some a) = ok a

-- xs[i]
abbrev pub index {ℓ} : {A : Type ℓ} → List A → ℕ → Outcome A
index xs i = or_panic (get_elem? xs i)

pub index_lt {ℓ} :
    {A : Type ℓ} (xs : List A) (i : ℕ) → i < length xs → (a : A) × (index xs i ≡ ok a)
index_lt xs i h = let (a, e) = get_elem?_lt xs i h in (a, rw e)

-- Inversion of a successful bind.
pub >>=-eq-ok {ℓ κ} :
    {A : Type ℓ} {B : Type κ} (first : Outcome A) (next : A → Outcome B) {result : B}
    → (first >>= next) ≡ ok result
    → (mid : A) × (first ≡ ok mid) × (next mid ≡ ok result)
>>=-eq-ok panic next e = cc
>>=-eq-ok (ok mid) next e = (mid, refl, e)

pub ok_injective {ℓ} : {A : Type ℓ} {a b : A} → ok a ≡ ok b → a ≡ b
ok_injective h = cc

pub get_elem?_of_index {ℓ} :
    {A : Type ℓ} (xs : List A) (i : ℕ) (a : A) → index xs i ≡ ok a → get_elem? xs i ≡ some a
get_elem?_of_index [] i a h = absurd (ground arith)
get_elem?_of_index (x ∷ xs) zero a h = ground arith
get_elem?_of_index (x ∷ xs) (suc i) a h = get_elem?_of_index xs i a h
