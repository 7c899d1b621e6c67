-- ===== src/Raft/Advance/Responses.antt =====
-- core/Raft.go: the leader's side of replication keeps what a member owes to its term and vote.
use majula.Prelude.{
  ℕ, zero, suc, ◌≡◌, subst, String, List, [], ◌∷◌, ◌++◌, arith, ltb, if◌then◌else◌, not, ◌&&◌, ◌==◌,
  Bool-cases, inl, inr, ltb→lt,
}
use majula.Prelude.Int.{ℤ, pos, negsuc}
use majula.Prelude.Outcome.{ok, ◌>>=◌, >>=-eq-ok, ok_injective, index as elem}
use majula.Raft.Types.{RaftPayload, RaftCommand}
use majula.Raft.Log.{find_last_index_of_term}
use majula.Raft.Core.{RaftCore, emit, complete_pending, go_send_append_entries_to, save_log}
use majula.Raft.Vote.{is_leader}
use majula.Raft.Commit.{
  record_match, back_up, commit_to, advance_commit_index, handle_append_entries_response,
  propose_command, spawn_appends, others, new_entry,
}
use majula.Raft.Advance.{saved_vote, Advances, Advances-refl, Advances-trans}
use majula.Raft.Advance.Helpers.{
  switch_to_follower-Advances, complete_pending-Advances, commit-Advances,
}

module _ {ℓ} {V : Type ℓ} where
  record_match-Advances :
      (from : String) (i : ℕ) (rc : RaftCore V) → Advances rc (record_match from i rc)
  unfolding record_match
  record_match-Advances from i rc = ground arith

  commit_to-Advances : (n : ℤ) (rc rc' : RaftCore V) → commit_to n rc ≡ ok rc' → Advances rc rc'
  unfolding commit_to
  commit_to-Advances (negsuc n) rc rc' h = subst (Advances rc) (ok_injective h) (Advances-refl rc)
  commit_to-Advances (pos zero) rc rc' h = subst (Advances rc) (ok_injective h) (Advances-refl rc)
  commit_to-Advances (pos (suc n)) rc rc' h = elim (Bool-cases (ltb rc.commit_index (suc n))) [
    | inl more ↦
        let (e, a, b) = >>=-eq-ok (elem rc.log n) _ (rw more at h) in
        elim (Bool-cases (e.term == rc.current_term)) [
          | inl own ↦ commit-Advances (suc n) rc rc' (rw own at b)
          | inr old ↦ subst (Advances rc) (ok_injective (rw old at b)) (Advances-refl rc)
        ]
    | inr done ↦ subst (Advances rc) (ok_injective (rw done at h)) (Advances-refl rc)
  ]

  back_up-Advances :
      (from : String) (t i : ℕ) (rc rc' : RaftCore V)
      → back_up from t i rc ≡ ok rc'
      → Advances rc rc'
  unfolding back_up
  back_up-Advances from zero i rc rc' h = subst (Advances rc) (ok_injective h) (ground arith)
  back_up-Advances from (suc t) i rc rc' h =
      let (last, a, b) = >>=-eq-ok (find_last_index_of_term rc.log (suc t)) _ h in
      subst (Advances rc) (ok_injective b) (ground arith)

  retry-Advances :
      (from : String) (rc : RaftCore V) → Advances rc (emit (go_send_append_entries_to from) rc)
  unfolding saved_vote
  retry-Advances from rc = ground arith

  leading-Advances :
      (draw : ℕ → ℕ) (from : String) (p : RaftPayload V) (rc rc' : RaftCore V)
      → (if p.success
          then advance_commit_index draw (record_match from p.commit_index rc)
          else (back_up from p.conflict_term p.conflict_index rc >>= λ moved.
              ok (emit (go_send_append_entries_to from) moved)))
        ≡ ok rc'
      → Advances rc rc'
  unfolding advance_commit_index
  leading-Advances draw from p rc rc' h = elim (Bool-cases p.success) [
    | inl success ↦
        let matched = record_match from p.commit_index rc in
        let (n, a, b) = >>=-eq-ok _ (λ n. commit_to n matched) (rw success at h) in
        Advances-trans (record_match-Advances from p.commit_index rc) (commit_to-Advances n _ rc' b)
    | inr refused ↦
        let (moved, a, b) =
          >>=-eq-ok (back_up from p.conflict_term p.conflict_index rc) _ (rw refused at h) in
        subst (Advances rc) (ok_injective b)
          (Advances-trans (back_up-Advances from _ _ rc moved a) (retry-Advances from moved))
  ]

  pub handle_append_entries_response-Advances :
      (now : ℕ) (draw : ℕ → ℕ) (from : String) (p : RaftPayload V) (rc rc' : RaftCore V)
      → handle_append_entries_response now draw from p rc ≡ ok rc'
      → Advances rc rc'
  unfolding handle_append_entries_response
  handle_append_entries_response-Advances now draw from p rc0 rc' h =
      let rc = complete_pending p rc0 in
      let delivered = complete_pending-Advances p rc0 in
      elim (Bool-cases (ltb rc.current_term p.term)) [
        | inl newer ↦ subst (Advances rc0) (ok_injective (rw newer at h)) (
            Advances-trans delivered (switch_to_follower-Advances now p.term rc (ltb→lt _ _ newer)))
        | inr older ↦ elim (Bool-cases (not (is_leader rc.role && p.term == rc.current_term))) [
          | inl ignored ↦
              subst (Advances rc0) (ok_injective (rw ignored at (rw older at h))) delivered
          | inr leads ↦
              Advances-trans delivered
                (leading-Advances draw from p rc rc' (rw leads at (rw older at h)))
        ]
      ]

  spawn_appends-Advances : (ns : List String) (rc : RaftCore V) → Advances rc (spawn_appends ns rc)
  unfolding spawn_appends
  spawn_appends-Advances [] rc = Advances-refl rc
  spawn_appends-Advances (n ∷ ns) rc =
      Advances-trans (retry-Advances n rc)
        (spawn_appends-Advances ns (emit (go_send_append_entries_to n) rc))

  pub propose_command-Advances :
      (cmd : RaftCommand V) (rc : RaftCore V) → Advances rc (propose_command cmd rc)
  unfolding propose_command saved_vote
  propose_command-Advances cmd rc =
      let entry = new_entry cmd rc in
      let stored : RaftCore V =
        emit (save_log rc.group entry) (record rc { log = rc.log ++ entry ∷ [] }) in
      let sent = spawn_appends (others rc.id rc.peers) stored in
      let saved : Advances rc stored = ground arith in
      ground (
        arith,
        Advances-refl rc,
        Advances-trans saved (
            Advances-trans (spawn_appends-Advances (others rc.id rc.peers) stored)
              (spawn_appends-Advances stored.learners sent)),
      )
