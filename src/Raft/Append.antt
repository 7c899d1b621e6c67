-- ===== src/Raft/Append.antt =====
-- core/Raft.go: the follower's side of replication. handleAppendEntries.
pub mod Progress
pub mod Agree
pub mod Refuse
pub mod Unchecked
use majula.Prelude.{
  ℕ, zero, suc, ◌+◌, ◌-◌, String, Option, none, some, List, [], ◌∷◌, ◌++◌, Bool, true, false,
  length, take, if◌then◌else◌, ltb, ◌==◌, min,
}
use majula.Prelude.Int.{ℤ, pos, negsuc, pos_part, ltb_ℤ}
use majula.Prelude.Outcome.{Outcome, ok, panic, ◌>>=◌, index as elem}
use majula.Raft.Types.{RaftLogEntry, RaftPayload}
use majula.Raft.Log.{get_last_log_index, conflict_start, cut_conflict}
use majula.Raft.Core.{
  RaftCore, emit, save_log, delete_logs_from, switch_to_follower, reset_election_timer,
  reply_append_entries,
}
use majula.Raft.Core.Apply.{apply_log_to_state_machine, save_progress}

module _ {ℓ} {V : Type ℓ} where
  -- The second half of a round of the append loop, on the log that the first half left.
  unfoldable pub save_entry : RaftLogEntry V → List (RaftLogEntry V) → RaftCore V → RaftCore V
  save_entry e cut rc =
      if ltb (length cut) e.index
      then emit (save_log rc.group e) (record rc { log = cut ++ e ∷ [] })
      else record rc { log = cut }

  -- A round of the loop over the new entries.
  unfoldable pub store_entry : RaftLogEntry V → RaftCore V → Outcome (RaftCore V)
  store_entry e rc = cut_conflict e rc.log >>= λ cut. ok (save_entry e cut rc)

  unfoldable pub store_entries : List (RaftLogEntry V) → RaftCore V → Outcome (RaftCore V)
  store_entries [] rc = ok rc
  store_entries (e ∷ es) rc = store_entry e rc >>= store_entries es

  -- The leader's commit index, as far as this log reaches.
  unfoldable pub follow_commit : ℕ → RaftCore V → Outcome (RaftCore V)
  follow_commit leader_commit rc =
      if ltb rc.commit_index leader_commit
      then (apply_log_to_state_machine
            (record rc { commit_index = min leader_commit (length rc.log) })
          >>= λ applied. ok (save_progress applied))
      else ok rc

  unfoldable pub accept_entries : ℕ → RaftPayload V → RaftCore V → Outcome (RaftCore V)
  accept_entries now p rc = store_entries p.entries rc >>= λ stored.
      follow_commit p.leader_commit stored >>= λ done. ok (
        reset_election_timer now (
          reply_append_entries p.leader_id true 0 (get_last_log_index done.log).0 p.invoke_id done))

  -- The term of the entry at PrevLogIndex, where it is not the leader's.
  unfoldable pub prev_conflict : ℤ → ℕ → List (RaftLogEntry V) → Outcome (Option ℕ)
  prev_conflict (negsuc n) t log = ok none
  prev_conflict (pos zero) t log = ok none
  prev_conflict (pos (suc n)) t log =
      elem log n >>= λ e. ok (if e.term == t then none else some e.term)

  -- Drop the whole conflicting term, and say where it began.
  unfoldable pub resolve_conflict : ℕ → RaftPayload V → ℕ → RaftCore V → Outcome (RaftCore V)
  resolve_conflict now p conflict_term rc =
      conflict_start rc.log conflict_term (pos_part p.prev_log_index) >>= λ c.
      let cut = emit (delete_logs_from rc.group c) (record rc { log = take (c - 1) rc.log }) in
      ok (
        reset_election_timer now
          (reply_append_entries p.leader_id false conflict_term c p.invoke_id cut))

  unfoldable pub check_entries : ℕ → RaftPayload V → RaftCore V → Outcome (RaftCore V)
  check_entries now p rc =
      let last = (get_last_log_index rc.log).0 in
      if ltb_ℤ (pos last) p.prev_log_index
      then ok (
          reset_election_timer now
            (reply_append_entries p.leader_id false 0 (last + 1) p.invoke_id rc))
      else (prev_conflict p.prev_log_index p.prev_log_term rc.log >>= λ conflict. elim conflict [
        | none ↦ accept_entries now p rc
        | some t ↦ resolve_conflict now p t rc
      ])

  -- The leader is known, and a newer term is entered.
  unfoldable pub hear_leader : ℕ → RaftPayload V → RaftCore V → RaftCore V
  hear_leader now p rc =
      record (if ltb rc.current_term p.term then switch_to_follower now p.term rc else rc) {
        leader_hint = p.leader_id;
      }

  unfoldable pub handle_append_entries : ℕ → RaftPayload V → RaftCore V → Outcome (RaftCore V)
  handle_append_entries now p rc =
      if ltb p.term rc.current_term
      then ok (reply_append_entries p.leader_id false 0 0 p.invoke_id rc)
      else check_entries now p (hear_leader now p rc)
