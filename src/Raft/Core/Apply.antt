-- ===== src/Raft/Core/Apply.antt =====
-- core/Raft.go: applyLogToStateMachine.
use majula.Prelude.{ℕ, zero, suc, ◌+◌, ◌-◌, if◌then◌else◌}
use majula.Prelude.Int.{pos}
use majula.Prelude.Dict.{insert, delete}
use majula.Prelude.Outcome.{Outcome, ok, ◌>>=◌, index as elem}
use majula.Raft.Types.{
  RaftLogEntry, RaftCommand, RaftOpType, put, del_op, add_learner, remove_learner,
  add_learner_with_snapshot, other_op,
}
use majula.Raft.Core.{
  RaftCore, emit, put_state, delete_state, apply_callback, save_meta, store_name, delete_name,
}

module _ {ℓ} {V : Type ℓ} where
  -- The switch on the command's operation.
  unfoldable pub apply_command : RaftOpType → RaftCommand V → RaftCore V → RaftCore V
  apply_command put cmd rc = emit (put_state rc.group cmd.key cmd.value) rc
  apply_command del_op cmd rc = emit (delete_state rc.group cmd.key) rc
  apply_command add_learner cmd rc = record rc {
    learners = store_name cmd.key rc.learners;
    next_index = insert cmd.key (rc.commit_index + 1) rc.next_index;
    match_index = insert cmd.key (pos 0) rc.match_index;
  }
  apply_command add_learner_with_snapshot cmd rc = record rc {
    learners = store_name cmd.key rc.learners;
    next_index = insert cmd.key (cmd.snapshot_index + 1) rc.next_index;
    match_index = insert cmd.key (pos cmd.snapshot_index) rc.match_index;
  }
  apply_command remove_learner cmd rc = record rc {
    learners = delete_name cmd.key rc.learners;
    next_index = delete cmd.key rc.next_index;
    match_index = delete cmd.key rc.match_index;
  }
  apply_command (other_op n) cmd rc = rc

  unfoldable pub notify : RaftLogEntry V → RaftCore V → RaftCore V
  notify entry rc = if rc.has_apply_callback then emit (apply_callback entry) rc else rc

  unfoldable pub save_progress : RaftCore V → RaftCore V
  save_progress rc =
      emit (save_meta rc.group rc.current_term rc.voted_for rc.commit_index rc.last_applied) rc

  -- One round of the loop, on the entry after the last applied one.
  unfoldable pub apply_next : RaftCore V → Outcome (RaftCore V)
  apply_next rc = elem rc.log rc.last_applied >>= λ entry.
      let moved = record rc { last_applied = rc.last_applied + 1 } in
      ok (save_progress (notify entry (apply_command entry.command.op entry.command moved)))

  -- The loop runs while last_applied < commit_index, which no round changes: that many rounds.
  unfoldable pub apply_rounds : ℕ → RaftCore V → Outcome (RaftCore V)
  apply_rounds zero rc = ok rc
  apply_rounds (suc n) rc = apply_next rc >>= apply_rounds n

  unfoldable pub apply_log_to_state_machine : RaftCore V → Outcome (RaftCore V)
  apply_log_to_state_machine rc = apply_rounds (rc.commit_index - rc.last_applied) rc
