-- ===== src/Raft/Core/Effects.antt =====
-- core/Raft.go: what the storage operations of a trace leave of a group's key-value state.
use native.Mathlib.Numerals.{add-one}
use majula.Prelude.{
  ℕ, zero, suc, ◌+◌, ◌≡◌, refl, Option, some, List, [], ◌∷◌, ◌++◌, arith, take, drop, get_elem?,
  if◌then◌else◌, String, str_eq,
}
use majula.Prelude.Dict.{Dict, insert, delete}
use majula.Raft.Types.{RaftLogEntry, RaftCommand, RaftOpType, put, del_op}
use majula.Raft.Core.{Effect, put_state, delete_state, apply_callback}

module _ {ℓ} {V : Type ℓ} where
  -- The state that the storage operations of a trace leave, the oldest first.
  unfoldable pub machine : List (Effect V) → Dict (Option V)
  machine [] = []
  machine (put_state g k v ∷ es) = insert k v (machine es)
  machine (delete_state g k ∷ es) = delete k (machine es)
  machine (e ∷ es) = machine es

  -- The entries that the callback was given, the oldest first.
  unfoldable pub callbacks : List (Effect V) → List (RaftLogEntry V)
  callbacks [] = []
  callbacks (apply_callback e ∷ es) = callbacks es ++ e ∷ []
  callbacks (e ∷ es) = callbacks es

  -- What a command does to the key-value state.
  unfoldable pub execute : RaftOpType → RaftCommand V → Dict (Option V) → Dict (Option V)
  execute put cmd m = insert cmd.key cmd.value m
  execute del_op cmd m = delete cmd.key m
  execute _ cmd m = m

  unfoldable pub execute_all : List (RaftLogEntry V) → Dict (Option V) → Dict (Option V)
  execute_all [] m = m
  execute_all (e ∷ es) m = execute_all es (execute e.command.op e.command m)

  -- The writes to the key-value states of other groups.
  unfoldable pub stray : String → List (Effect V) → List (Effect V)
  stray group [] = []
  stray group (put_state g k v ∷ es) =
      let rest = stray group es in if str_eq g group then rest else put_state g k v ∷ rest
  stray group (delete_state g k ∷ es) =
      let rest = stray group es in if str_eq g group then rest else delete_state g k ∷ rest
  stray group (e ∷ es) = stray group es

  pub execute_all-append :
      (es fs : List (RaftLogEntry V)) (m : Dict (Option V))
      → execute_all (es ++ fs) m ≡ execute_all fs (execute_all es m)
  unfolding execute_all
  execute_all-append [] fs m = refl
  execute_all-append (e ∷ es) fs m = execute_all-append es fs (execute e.command.op e.command m)

  slice_cons :
      (n i : ℕ) (log : List (RaftLogEntry V)) (e : RaftLogEntry V)
      → get_elem? log i ≡ some e
      → e ∷ take n (drop (suc i) log) ≡ take (suc n) (drop i log)
  slice_cons n i [] e at = absurd (ground arith)
  slice_cons n zero (x ∷ log) e at = ground arith
  slice_cons n (suc i) (x ∷ log) e at = slice_cons n i log e at

  pub slice_step :
      (n i : ℕ) (log : List (RaftLogEntry V)) (i' : ℕ) (log' : List (RaftLogEntry V))
      (e : RaftLogEntry V)
      → get_elem? log i ≡ some e
      → i' ≡ i + 1
      → log' ≡ log
      → (e ∷ []) ++ take n (drop i' log') ≡ take (suc n) (drop i log)
  slice_step n i log i' log' e at p q = rw (p, q) (rw (add-one i) (slice_cons n i log e at))
