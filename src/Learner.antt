-- ===== src/Learner.antt =====
-- core/Learner.go: a member that only receives the log. Its effects are those of a Raft member. A
-- method runs under the mutex that handleAppendEntries holds to its end.
pub mod Apply
pub mod Ran
pub mod Agree
pub mod Stored
pub mod Snapshot
pub mod Again
mod Witnesses
use majula.Prelude.{
  ℕ, zero, suc, ◌+◌, ◌-◌, String, Option, none, some, List, [], ◌∷◌, ◌++◌, Bool, true, false,
  length, take, if◌then◌else◌, ltb, leb, ◌==◌, min,
}
use majula.Prelude.Int.{ℤ, pos, pos_part, ltb_ℤ}
use majula.Prelude.Outcome.{Outcome, ok, panic, ◌>>=◌, index as elem}
use majula.Raft.Types.{
  RaftLogEntry, RaftCommand, RaftOpType, RaftPayload, RaftMsgType, blank, put, del_op,
  append_entries, append_entries_response,
}
use majula.Raft.Log.{conflict_start}
use majula.Raft.Core.{
  Effect, save_meta, save_log, delete_logs_from, put_state, delete_state, apply_callback, send,
}
use majula.Raft.Append.{prev_conflict}

pub record RaftLearner {ℓ} (V : Type ℓ) : Type ℓ where
  pub id : String
  pub group : String
  pub current_term : ℕ
  pub log : List (RaftLogEntry V)
  pub commit_index : ℕ
  pub last_applied : ℕ
  pub leader_hint : String
  pub has_apply_callback : Bool
  pub is_snapshot_learner : Bool
  pub snapshot_index : ℕ
  pub snapshot_term : ℕ
  pub max_applied_index : ℕ
  pub trace : List (Effect V)  -- the newest first

module _ {ℓ} {V : Type ℓ} where
  abbrev pub emit : Effect V → RaftLearner V → RaftLearner V
  emit e lc = record lc { trace = e ∷ lc.trace }

  unfoldable pub save_progress : RaftLearner V → RaftLearner V
  save_progress lc = emit (save_meta lc.group lc.current_term "" lc.commit_index lc.last_applied) lc

  abbrev pub append_response : String → Bool → ℕ → ℕ → ℕ → RaftLearner V → RaftPayload V
  append_response leader_id success conflict_term conflict_index invoke_id lc =
      record (blank append_entries_response) {
        term = lc.current_term;
        success = success;
        leader_id = leader_id;
        conflict_term = conflict_term;
        conflict_index = conflict_index;
        commit_index = length lc.log;
        invoke_id = invoke_id;
      }

  unfoldable pub reply_append_entries : String → Bool → ℕ → ℕ → ℕ → RaftLearner V → RaftLearner V
  reply_append_entries leader_id success conflict_term conflict_index invoke_id lc =
      emit
        (send leader_id
          (append_response leader_id success conflict_term conflict_index invoke_id lc))
        lc

  unfoldable pub apply_command : RaftOpType → RaftCommand V → RaftLearner V → RaftLearner V
  apply_command put cmd lc = emit (put_state lc.group cmd.key cmd.value) lc
  apply_command del_op cmd lc = emit (delete_state lc.group cmd.key) lc
  apply_command _ cmd lc = lc

  unfoldable pub notify : RaftLogEntry V → RaftLearner V → RaftLearner V
  notify entry lc = if lc.has_apply_callback then emit (apply_callback entry) lc else lc

  -- One round of the loop, on the entry after the last applied one.
  unfoldable pub apply_next : RaftLearner V → Outcome (RaftLearner V)
  apply_next lc = elem lc.log lc.last_applied >>= λ entry.
      let moved = record lc { last_applied = lc.last_applied + 1 } in
      ok (notify entry (apply_command entry.command.op entry.command moved))

  unfoldable pub apply_rounds : ℕ → RaftLearner V → Outcome (RaftLearner V)
  apply_rounds zero lc = ok lc
  apply_rounds (suc n) lc = apply_next lc >>= apply_rounds n

  unfoldable pub apply_log_to_state_machine : RaftLearner V → Outcome (RaftLearner V)
  apply_log_to_state_machine lc =
      apply_rounds (lc.commit_index - lc.last_applied) lc >>= λ done. ok (save_progress done)

  -- The first half of a round of the append loop, for an entry of index i + 1.
  unfoldable pub cut_entry : RaftLogEntry V → ℕ → RaftLearner V → Outcome (RaftLearner V)
  cut_entry e i lc =
      if ltb i (length lc.log)
      then (elem lc.log i >>= λ x. ok (
          if x.term == e.term
          then lc
          else emit (delete_logs_from lc.group e.index) (record lc { log = take i lc.log })))
      else ok lc

  unfoldable pub save_entry : RaftLogEntry V → RaftLearner V → RaftLearner V
  save_entry e lc =
      if ltb (length lc.log) e.index
      then emit (save_log lc.group e) (record lc { log = lc.log ++ e ∷ [] })
      else lc

  -- A round for an entry of the given index; index 0 reads position -1.
  unfoldable pub store_at : ℕ → RaftLogEntry V → RaftLearner V → Outcome (RaftLearner V)
  store_at zero e lc = panic
  store_at (suc i) e lc = cut_entry e i lc >>= λ cut. ok (save_entry e cut)

  unfoldable pub store_entry : RaftLogEntry V → RaftLearner V → Outcome (RaftLearner V)
  store_entry e lc = store_at e.index e lc

  unfoldable pub store_entries : List (RaftLogEntry V) → RaftLearner V → Outcome (RaftLearner V)
  store_entries [] lc = ok lc
  store_entries (e ∷ es) lc = store_entry e lc >>= store_entries es

  unfoldable pub follow_commit : ℕ → RaftLearner V → Outcome (RaftLearner V)
  follow_commit leader_commit lc =
      if ltb lc.commit_index leader_commit
      then (apply_log_to_state_machine
            (record lc { commit_index = min leader_commit (length lc.log) })
          >>= λ applied. ok (save_progress applied))
      else ok lc

  unfoldable pub accept_entries : RaftPayload V → RaftLearner V → Outcome (RaftLearner V)
  accept_entries p lc = store_entries p.entries lc >>= λ stored.
      follow_commit p.leader_commit stored >>= λ done.
      ok (reply_append_entries p.leader_id true 0 (length done.log) p.invoke_id done)

  unfoldable pub resolve_conflict : RaftPayload V → ℕ → RaftLearner V → Outcome (RaftLearner V)
  resolve_conflict p conflict_term lc =
      conflict_start lc.log conflict_term (pos_part p.prev_log_index) >>= λ c. ok (
        reply_append_entries p.leader_id false conflict_term c p.invoke_id
          (emit (delete_logs_from lc.group c) (record lc { log = take (c - 1) lc.log })))

  -- What a traditional learner does with a request.
  unfoldable pub check_entries : RaftPayload V → RaftLearner V → Outcome (RaftLearner V)
  check_entries p lc =
      if ltb_ℤ (pos (length lc.log)) p.prev_log_index
      then ok (reply_append_entries p.leader_id false 0 (length lc.log + 1) p.invoke_id lc)
      else (prev_conflict p.prev_log_index p.prev_log_term lc.log >>= λ conflict. elim conflict [
        | none ↦ accept_entries p lc
        | some t ↦ resolve_conflict p t lc
      ])

  -- A round of the loop over the new entries of a snapshot learner.
  unfoldable pub store_snapshot_entry : RaftLogEntry V → RaftLearner V → Outcome (RaftLearner V)
  store_snapshot_entry e lc =
      if ltb lc.snapshot_index e.index
      then (store_entry e lc >>= λ stored. ok (
          if ltb stored.max_applied_index e.index
          then record stored { max_applied_index = e.index }
          else stored))
      else ok lc

  unfoldable pub store_snapshot_entries :
      List (RaftLogEntry V) → RaftLearner V → Outcome (RaftLearner V)
  store_snapshot_entries [] lc = ok lc
  store_snapshot_entries (e ∷ es) lc = store_snapshot_entry e lc >>= store_snapshot_entries es

  unfoldable pub note_commit : ℕ → RaftLearner V → RaftLearner V
  note_commit leader_commit lc =
      if ltb lc.commit_index leader_commit
      then save_progress (record lc { commit_index = leader_commit })
      else lc

  abbrev pub reply_index : RaftLearner V → ℕ
  reply_index lc = if lc.max_applied_index == 0 then lc.snapshot_index else lc.max_applied_index

  unfoldable pub handle_append_entries_for_snapshot :
      RaftPayload V → RaftLearner V → Outcome (RaftLearner V)
  handle_append_entries_for_snapshot p lc = store_snapshot_entries p.entries lc >>= λ stored.
      let done = note_commit p.leader_commit stored in
      ok (reply_append_entries p.leader_id true 0 (reply_index done) p.invoke_id done)

  unfoldable pub hear_leader : RaftPayload V → RaftLearner V → RaftLearner V
  hear_leader p lc =
      if leb lc.current_term p.term
      then record lc { current_term = p.term; leader_hint = p.leader_id }
      else lc

  unfoldable pub handle_append_entries : RaftPayload V → RaftLearner V → Outcome (RaftLearner V)
  handle_append_entries p lc0 =
      let lc = hear_leader p lc0 in
      if lc.is_snapshot_learner then handle_append_entries_for_snapshot p lc else check_entries p lc

  -- `none` is a message that cannot be decoded.
  unfoldable pub on_raft_message : Option (RaftPayload V) → RaftLearner V → Outcome (RaftLearner V)
  on_raft_message none lc = ok lc
  on_raft_message (some p) lc = elim (p.kind) [
    | append_entries ↦ handle_append_entries p lc
    | _ ↦ ok lc
  ]
