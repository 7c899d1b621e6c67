-- ===== src/Raft/Advance/Handlers.antt =====
-- core/Raft.go: every handler keeps term and vote.
use majula.Prelude.{ℕ, ◌<◌, refl, String, List, [], ◌∷◌, Bool, arith, eq_iff, str_eq, if◌then◌else◌}
use majula.Raft.Types.{RaftPayload, follower}
use majula.Raft.Log.{get_last_log_index}
use majula.Raft.Core.{
  max_int64, RaftCore, emit, reset_election_timer, complete_pending, reset_vote_result, record_vote,
  switch_to_leader, persist_term_and_vote, send_with_invoke_id,
}
use majula.Raft.Vote.{
  handle_request_vote, count_response, handle_request_vote_response, request_votes, stand,
  start_election,
}
use majula.Raft.Advance.{saved_vote, Advances, Advances-refl, Advances-trans}
use majula.Raft.Advance.Helpers.{
  switch_to_candidate-Advances, track_all-Advances, switch_to_leader-Advances,
  complete_pending-Advances,
}

module _ {ℓ} {V : Type ℓ} where
  pub handle_request_vote-Advances :
      (now : ℕ) (group : String) (p : RaftPayload V) (rc : RaftCore V)
      → Advances rc (handle_request_vote now group p rc)
  unfolding handle_request_vote saved_vote
  handle_request_vote-Advances now group p rc =
      ground (arith, eq_iff rc.voted_for "", eq_iff rc.voted_for p.candidate_id)

  record_vote-Advances :
      (from : String) (g : Bool) (rc : RaftCore V) → Advances rc (record_vote from g rc)
  unfolding record_vote
  record_vote-Advances from g rc = ground arith

  count_response-Advances :
      (now : ℕ) (p : RaftPayload V) (rc : RaftCore V) → Advances rc (count_response now p rc)
  unfolding count_response
  count_response-Advances now p rc =
      let counted = record_vote p.sender_id p.vote_granted rc in
      let led = switch_to_leader now counted in
      let voted = record_vote-Advances p.sender_id p.vote_granted rc in
      ground (
        arith,
        voted,
        Advances-trans voted (
            Advances-trans (switch_to_leader-Advances now counted)
              (track_all-Advances (get_last_log_index led.log).0 led.peers led)),
      )

  newer-Advances :
      (now : ℕ) (p : RaftPayload V) (rc : RaftCore V)
      → rc.current_term < p.term
      → Advances rc (
          reset_election_timer now (
            persist_term_and_vote
              (record rc { current_term = p.term; voted_for = ""; role = follower })))
  unfolding reset_election_timer persist_term_and_vote saved_vote
  newer-Advances now p rc h = record {
    term_grows = omega arith;
    vote_kept = λ t v. absurd (omega arith);
    durable = λ d. refl;
  }

  pub handle_request_vote_response-Advances :
      (now : ℕ) (p : RaftPayload V) (rc : RaftCore V)
      → Advances rc (handle_request_vote_response now p rc)
  unfolding handle_request_vote_response
  handle_request_vote_response-Advances now p rc0 =
      let rc = complete_pending p rc0 in
      let delivered = complete_pending-Advances p rc0 in
      ground (
        arith,
        delivered,
        Advances-trans delivered (count_response-Advances now p rc),
        λ (h : rc.current_term < p.term). Advances-trans delivered (newer-Advances now p rc h),
      )

  request_votes-Advances :
      (p : RaftPayload V) (ns : List String) (rc : RaftCore V) → Advances rc (request_votes p ns rc)
  unfolding request_votes saved_vote
  request_votes-Advances p [] rc = Advances-refl rc
  request_votes-Advances p (n ∷ ns) rc =
      let asked : RaftCore V = if str_eq n rc.id then rc else emit (send_with_invoke_id n p) rc in
      Advances-trans {b = asked} (ground arith) (request_votes-Advances p ns asked)

  pub reset_vote_result-Advances : (rc : RaftCore V) → Advances rc (reset_vote_result rc)
  unfolding reset_vote_result
  reset_vote_result-Advances rc = ground arith

  pub stand-Advances :
      (now : ℕ) (rc : RaftCore V) → rc.current_term < max_int64 → Advances rc (stand now rc)
  unfolding stand
  stand-Advances now rc room =
      Advances-trans (switch_to_candidate-Advances now rc room) (request_votes-Advances _ _ _)

  pub start_election-Advances :
      (now : ℕ) (rc : RaftCore V)
      → rc.current_term < max_int64
      → Advances rc (start_election now rc)
  unfolding start_election reset_vote_result
  start_election-Advances now rc room = ground (
    arith,
    Advances-refl rc,
    Advances-trans (reset_vote_result-Advances rc) (stand-Advances now (reset_vote_result rc) room),
  )
