-- ===== src/Raft/Log/Dense.antt =====
-- core/Raft.go: a log whose entries are numbered from 1 keeps each entry at its index less one.
use native.Mathlib.Nat.{add-zero}
use majula.Prelude.{
  ℕ, zero, suc, ◌+◌, ◌≡◌, ◌≤◌, refl, subst, List, [], ◌∷◌, ◌++◌, length, take, drop, arith, some,
  get_elem?,
}
use majula.Raft.Types.{RaftLogEntry}
use majula.Raft.Log.{get_last_log_index}
use majula.Raft.Log.Merge.{IsNumbered}

suc-add-swap : (i n : ℕ) → suc i + n ≡ i + suc n
suc-add-swap i n = omega arith

module _ {ℓ} {V : Type ℓ} where
  abbrev pub IsDense : List (RaftLogEntry V) → Type 0
  IsDense log = IsNumbered 0 log

  pub IsNumbered-take :
      (i n : ℕ) (log : List (RaftLogEntry V)) → IsNumbered i log → IsNumbered i (take n log)
  IsNumbered-take i zero log h = tt
  IsNumbered-take i (suc n) [] h = tt
  IsNumbered-take i (suc n) (e ∷ log) h = (h.0, IsNumbered-take (suc i) n log h.1)

  pub IsNumbered-drop :
      (i n : ℕ) (log : List (RaftLogEntry V))
      → n ≤ length log
      → IsNumbered i log
      → IsNumbered (i + n) (drop n log)
  IsNumbered-drop i zero log k h = rw add-zero h
  IsNumbered-drop i (suc n) [] k h = absurd (omega arith)
  IsNumbered-drop i (suc n) (e ∷ log) k h =
      rw (← suc-add-swap i n) (IsNumbered-drop (suc i) n log (omega arith) h.1)

  pub IsNumbered-append :
      (i : ℕ) (p r : List (RaftLogEntry V))
      → IsNumbered i p
      → IsNumbered (i + length p) r
      → IsNumbered i (p ++ r)
  IsNumbered-append i [] r hp hr = subst (λ n. IsNumbered n r) (add-zero i) hr
  IsNumbered-append i (e ∷ p) r hp hr =
      (hp.0, IsNumbered-append (suc i) p r hp.1 (rw (suc-add-swap i (length p)) hr))

  index_of_IsNumbered :
      (i k : ℕ) (log : List (RaftLogEntry V)) {e : RaftLogEntry V}
      → IsNumbered i log
      → get_elem? log k ≡ some e
      → e.index ≡ suc (i + k)
  index_of_IsNumbered i k [] h g = absurd (ground arith)
  index_of_IsNumbered i zero (x ∷ log) h g = ground arith
  index_of_IsNumbered i (suc k) (x ∷ log) h g =
      omega (arith, index_of_IsNumbered (suc i) k log h.1 g)

  get_last_log_index-numbered :
      (i : ℕ) (e : RaftLogEntry V) (log : List (RaftLogEntry V))
      → IsNumbered i (e ∷ log)
      → (get_last_log_index (e ∷ log)).0 ≡ i + length (e ∷ log)
  unfolding get_last_log_index
  get_last_log_index-numbered i e [] h = omega arith
  get_last_log_index-numbered i e (f ∷ log) h =
      omega (arith, get_last_log_index-numbered (suc i) f log h.1)

  -- The last index of a dense log is its length.
  pub get_last_log_index-length :
      (log : List (RaftLogEntry V)) → IsDense log → (get_last_log_index log).0 ≡ length log
  unfolding get_last_log_index
  get_last_log_index-length [] h = refl
  get_last_log_index-length (e ∷ log) h = omega (arith, get_last_log_index-numbered 0 e log h)
