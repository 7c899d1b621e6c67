-- ===== src/Raft/Core/Tracking.antt =====
-- core/Raft.go: applyLogToStateMachine, what entries do to the learners that a member keeps.
use majula.Prelude.{ℕ, ◌+◌, ◌≡◌, refl, String, List, [], ◌∷◌, ◌++◌}
use majula.Prelude.Int.{ℤ, pos}
use majula.Prelude.Dict.{Dict, insert, delete}
use majula.Raft.Types.{
  RaftLogEntry, RaftCommand, RaftOpType, add_learner, add_learner_with_snapshot, remove_learner,
}
use majula.Raft.Core.{RaftCore, store_name, delete_name}

-- What a member keeps of its learners: names, next and match indices.
abbrev pub Tracking : Type 0
Tracking = List String × (Dict ℕ × Dict ℤ)

abbrev track_from : String → ℕ → ℕ → Tracking → Tracking
track_from name next matched (names, (nexts, matches)) =
    (store_name name names, (insert name next nexts, insert name (pos matched) matches))

module _ {ℓ} {V : Type ℓ} where
  abbrev pub tracking : RaftCore V → Tracking
  tracking rc = (rc.learners, (rc.next_index, rc.match_index))

  -- What a command does to the learners where c is committed.
  unfoldable pub enlist : ℕ → RaftOpType → RaftCommand V → Tracking → Tracking
  enlist c add_learner cmd t = track_from cmd.key (c + 1) 0 t
  enlist c add_learner_with_snapshot cmd t =
      track_from cmd.key (cmd.snapshot_index + 1) cmd.snapshot_index t
  enlist c remove_learner cmd (names, (nexts, matches)) =
      (delete_name cmd.key names, (delete cmd.key nexts, delete cmd.key matches))
  enlist c _ cmd t = t

  unfoldable pub enlist_all : ℕ → List (RaftLogEntry V) → Tracking → Tracking
  enlist_all c [] t = t
  enlist_all c (e ∷ es) t = enlist_all c es (enlist c e.command.op e.command t)

  pub enlist_all-append :
      (c : ℕ) (es fs : List (RaftLogEntry V)) (t : Tracking)
      → enlist_all c (es ++ fs) t ≡ enlist_all c fs (enlist_all c es t)
  unfolding enlist_all
  enlist_all-append c [] fs t = refl
  enlist_all-append c (e ∷ es) fs t = enlist_all-append c es fs (enlist c e.command.op e.command t)
