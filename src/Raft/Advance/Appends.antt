-- ===== src/Raft/Advance/Appends.antt =====
-- core/Raft.go: the handlers of replication keep term and vote.
use majula.Prelude.{
  ℕ, ◌-◌, ◌≡◌, subst, Option, none, some, List, [], ◌∷◌, true, false, arith, length, take, min, ltb,
  Bool-cases, inl, inr,
}
use majula.Prelude.Int.{pos, ltb_ℤ, pos_part}
use majula.Prelude.Outcome.{Outcome, ok, >>=-eq-ok, ok_injective}
use majula.Raft.Types.{RaftLogEntry, RaftPayload}
use majula.Raft.Log.{get_last_log_index, cut_conflict, conflict_start}
use majula.Raft.Core.{RaftCore, emit, reset_election_timer, delete_logs_from}
use majula.Raft.Core.Apply.{apply_log_to_state_machine, save_progress}
use majula.Raft.Append.{
  store_entry, save_entry, store_entries, follow_commit, accept_entries, prev_conflict,
  resolve_conflict, check_entries, hear_leader, handle_append_entries,
}
use majula.Raft.Advance.{saved_vote, Advances, Advances-refl, Advances-trans}
use majula.Raft.Advance.Helpers.{
  switch_to_follower-Advances, reply_append_entries-Advances, save_progress-Advances,
  commit-Advances,
}

module _ {ℓ} {V : Type ℓ} where
  store_entry-Advances :
      (e : RaftLogEntry V) (rc rc' : RaftCore V) → store_entry e rc ≡ ok rc' → Advances rc rc'
  unfolding store_entry save_entry saved_vote
  store_entry-Advances e rc rc' h =
      let (cut, p, q) = >>=-eq-ok (cut_conflict e rc.log) _ h in
      subst (Advances rc) (ok_injective q) (ground arith)

  store_entries-Advances :
      (es : List (RaftLogEntry V)) (rc rc' : RaftCore V)
      → store_entries es rc ≡ ok rc'
      → Advances rc rc'
  unfolding store_entries
  store_entries-Advances [] rc rc' h = subst (Advances rc) (ok_injective h) (Advances-refl rc)
  store_entries-Advances (e ∷ es) rc rc' h =
      let (mid, p, q) = >>=-eq-ok (store_entry e rc) (store_entries es) h in
      Advances-trans (store_entry-Advances e rc mid p) (store_entries-Advances es mid rc' q)

  timer-Advances : (now : ℕ) (rc : RaftCore V) → Advances rc (reset_election_timer now rc)
  unfolding reset_election_timer
  timer-Advances now rc = ground arith

  follow_commit-Advances :
      (c : ℕ) (rc rc' : RaftCore V) → follow_commit c rc ≡ ok rc' → Advances rc rc'
  unfolding follow_commit
  follow_commit-Advances c rc rc' h = elim (Bool-cases (ltb rc.commit_index c)) [
    | inl more ↦
        let (mid, p, q) =
          >>=-eq-ok
            (apply_log_to_state_machine (record rc { commit_index = min c (length rc.log) }))
            (λ applied. ok (save_progress applied)) (rw more at h) in
        subst (Advances rc) (ok_injective q)
          (Advances-trans (commit-Advances _ rc mid p) (save_progress-Advances mid))
    | inr done ↦ subst (Advances rc) (ok_injective (rw done at h)) (Advances-refl rc)
  ]

  accept_entries-Advances :
      (now : ℕ) (p : RaftPayload V) (rc rc' : RaftCore V)
      → accept_entries now p rc ≡ ok rc'
      → Advances rc rc'
  unfolding accept_entries
  accept_entries-Advances now p rc rc' h =
      let (stored, a, b) = >>=-eq-ok (store_entries p.entries rc) _ h in
      let (done, c, d) = >>=-eq-ok (follow_commit p.leader_commit stored) _ b in
      subst (Advances rc) (ok_injective d) (
        Advances-trans (store_entries-Advances p.entries rc stored a) (
          Advances-trans (follow_commit-Advances p.leader_commit stored done c) (
            Advances-trans (reply_append_entries-Advances p.leader_id true 0 _ p.invoke_id done)
              (timer-Advances now _))))

  resolve_conflict-Advances :
      (now : ℕ) (p : RaftPayload V) (t : ℕ) (rc rc' : RaftCore V)
      → resolve_conflict now p t rc ≡ ok rc'
      → Advances rc rc'
  unfolding resolve_conflict saved_vote
  resolve_conflict-Advances now p t rc rc' h =
      let (c, a, b) = >>=-eq-ok (conflict_start rc.log t (pos_part p.prev_log_index)) _ h in
      let cut : RaftCore V =
        emit (delete_logs_from rc.group c) (record rc { log = take (c - 1) rc.log }) in
      subst (Advances rc) (ok_injective b) (
        Advances-trans {b = cut} (ground arith) (
          Advances-trans (reply_append_entries-Advances p.leader_id false t c p.invoke_id cut)
            (timer-Advances now _)))

  check_entries-Advances :
      (now : ℕ) (p : RaftPayload V) (rc rc' : RaftCore V)
      → check_entries now p rc ≡ ok rc'
      → Advances rc rc'
  unfolding check_entries
  check_entries-Advances now p rc rc' h =
      elim (Bool-cases (ltb_ℤ (pos (get_last_log_index rc.log).0) p.prev_log_index)) [
        | inl short ↦
            subst (Advances rc) (ok_injective (rw short at h))
              (Advances-trans (reply_append_entries-Advances _ _ _ _ _ rc) (timer-Advances now _))
        | inr reaches ↦
            let (conflict, a, b) =
              >>=-eq-ok (prev_conflict p.prev_log_index p.prev_log_term rc.log) _
                (rw reaches at h) in
            go conflict b
      ]
    where
      go :
          (conflict : Option ℕ)
          → (elim conflict as (λ x. Outcome (RaftCore V)) [
            | none ↦ accept_entries now p rc
            | some t ↦ resolve_conflict now p t rc
          ])
            ≡ ok rc'
          → Advances rc rc'
      go none e = accept_entries-Advances now p rc rc' e
      go (some t) e = resolve_conflict-Advances now p t rc rc' e

  hear_leader-Advances :
      (now : ℕ) (p : RaftPayload V) (rc : RaftCore V) → Advances rc (hear_leader now p rc)
  unfolding hear_leader
  hear_leader-Advances now p rc = ground (arith, switch_to_follower-Advances now p.term rc)

  pub handle_append_entries-Advances :
      (now : ℕ) (p : RaftPayload V) (rc rc' : RaftCore V)
      → handle_append_entries now p rc ≡ ok rc'
      → Advances rc rc'
  unfolding handle_append_entries
  handle_append_entries-Advances now p rc rc' h = elim (Bool-cases (ltb p.term rc.current_term)) [
    | inl stale ↦
        subst (Advances rc) (ok_injective (rw stale at h))
          (reply_append_entries-Advances _ _ _ _ _ rc)
    | inr current ↦
        Advances-trans (hear_leader-Advances now p rc)
          (check_entries-Advances now p _ rc' (rw current at h))
  ]
