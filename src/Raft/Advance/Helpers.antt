-- ===== src/Raft/Advance/Helpers.antt =====
-- core/Raft.go: the shared operations keep term and vote.
use majula.Prelude.{ℕ, zero, suc, ◌+◌, ◌≡◌, ◌<◌, refl, subst, String, List, [], ◌∷◌, Bool, arith}
use majula.Prelude.Outcome.{ok, >>=-eq-ok, ok_injective, index as elem}
use majula.Raft.Types.{RaftLogEntry, RaftPayload, RaftCommand, RaftOpType, leader, put}
use majula.Raft.Log.{get_last_log_index}
use majula.Raft.Core.{
  max_int64, RaftCore, switch_to_follower, switch_to_candidate, track_all, switch_to_leader,
  complete_pending, reply_append_entries, disable_election_timer, reset_heartbeat_timer,
}
use majula.Raft.Core.Apply.{
  apply_command, notify, save_progress, apply_next, apply_rounds, apply_log_to_state_machine,
}
use majula.Raft.Advance.{saved_vote, Advances, Advances-refl, Advances-trans}

module _ {ℓ} {V : Type ℓ} where
  pub switch_to_follower-Advances :
      (now term : ℕ) (rc : RaftCore V)
      → rc.current_term < term
      → Advances rc (switch_to_follower now term rc)
  unfolding switch_to_follower saved_vote
  switch_to_follower-Advances now term rc h = record {
    term_grows = omega arith;
    vote_kept = λ t v. absurd (omega arith);
    durable = λ d. refl;
  }

  pub switch_to_candidate-Advances :
      (now : ℕ) (rc : RaftCore V)
      → rc.current_term < max_int64
      → Advances rc (switch_to_candidate now rc)
  unfolding switch_to_candidate saved_vote
  switch_to_candidate-Advances now rc room = record {
    term_grows = omega arith;
    vote_kept = λ t v. absurd (omega arith);
    durable = λ d. refl;
  }

  pub track_all-Advances :
      (last : ℕ) (ns : List String) (rc : RaftCore V) → Advances rc (track_all last ns rc)
  unfolding track_all
  track_all-Advances last [] rc = Advances-refl rc
  track_all-Advances last (n ∷ ns) rc = Advances-trans (ground arith) (track_all-Advances last ns _)

  pub switch_to_leader-Advances :
      (now : ℕ) (rc : RaftCore V) → Advances rc (switch_to_leader now rc)
  unfolding switch_to_leader saved_vote reset_heartbeat_timer disable_election_timer
  switch_to_leader-Advances now rc =
      let last = (get_last_log_index rc.log).0 in
      let led = reset_heartbeat_timer now (disable_election_timer (record rc { role = leader })) in
      let p = track_all-Advances last rc.peers led in
      let q = track_all-Advances last rc.learners (track_all last rc.peers led) in
      record {
        term_grows = (Advances-trans p q).term_grows;
        vote_kept = (Advances-trans p q).vote_kept;
        durable = (Advances-trans p q).durable;
      }

  pub complete_pending-Advances :
      (p : RaftPayload V) (rc : RaftCore V) → Advances rc (complete_pending p rc)
  unfolding complete_pending saved_vote
  complete_pending-Advances p rc = ground arith

  pub reply_append_entries-Advances :
      (to : String) (s : Bool) (ct ci i : ℕ) (rc : RaftCore V)
      → Advances rc (reply_append_entries to s ct ci i rc)
  unfolding reply_append_entries saved_vote
  reply_append_entries-Advances to s ct ci i rc = ground arith

  apply_command-Advances :
      (op : RaftOpType) (cmd : RaftCommand V) (rc : RaftCore V)
      → Advances rc (apply_command op cmd rc)
  unfolding apply_command saved_vote
  apply_command-Advances put cmd rc = ground arith
  apply_command-Advances _ cmd rc = ground arith

  pub save_progress-Advances : (rc : RaftCore V) → Advances rc (save_progress rc)
  unfolding save_progress saved_vote
  save_progress-Advances rc = ground arith

  notify-Advances : (e : RaftLogEntry V) (rc : RaftCore V) → Advances rc (notify e rc)
  unfolding notify saved_vote
  notify-Advances e rc = ground arith

  move-Advances : (n : ℕ) (rc : RaftCore V) → Advances rc (record rc { last_applied = n })
  move-Advances n rc = ground arith

  apply_next-Advances : (rc rc' : RaftCore V) → apply_next rc ≡ ok rc' → Advances rc rc'
  unfolding apply_next
  apply_next-Advances rc rc' h =
      let (e, p, q) = >>=-eq-ok (elem rc.log rc.last_applied) _ h in
      let moved = record rc { last_applied = rc.last_applied + 1 } in
      let done = apply_command e.command.op e.command moved in
      subst (Advances rc) (ok_injective q) (
        Advances-trans (move-Advances (rc.last_applied + 1) rc) (
          Advances-trans (apply_command-Advances e.command.op e.command moved)
            (Advances-trans (notify-Advances e done) (save_progress-Advances (notify e done)))))

  apply_rounds-Advances :
      (n : ℕ) (rc rc' : RaftCore V) → apply_rounds n rc ≡ ok rc' → Advances rc rc'
  unfolding apply_rounds
  apply_rounds-Advances zero rc rc' h = subst (Advances rc) (ok_injective h) (Advances-refl rc)
  apply_rounds-Advances (suc n) rc rc' h =
      let (mid, p, q) = >>=-eq-ok (apply_next rc) (apply_rounds n) h in
      Advances-trans (apply_next-Advances rc mid p) (apply_rounds-Advances n mid rc' q)

  apply_log_to_state_machine-Advances :
      (rc rc' : RaftCore V) → apply_log_to_state_machine rc ≡ ok rc' → Advances rc rc'
  unfolding apply_log_to_state_machine
  apply_log_to_state_machine-Advances rc rc' h = apply_rounds-Advances _ rc rc' h

  pub commit-Advances :
      (n : ℕ) (rc rc' : RaftCore V)
      → apply_log_to_state_machine (record rc { commit_index = n }) ≡ ok rc'
      → Advances rc rc'
  commit-Advances n rc rc' h =
      Advances-trans (ground arith)
        (apply_log_to_state_machine-Advances (record rc { commit_index = n }) rc' h)
