-- ===== src/Raft/Vote/Race.antt =====
-- core/Raft.go: startElection lets the lock go between the reset of the vote count and the new
-- term.
use majula.Prelude.{
  ℕ, ap, sym, ◌≡◌, refl, ◌∙◌, String, some, List, [], ◌∷◌, true, arith, str_eq, if◌then◌else◌,
}
use majula.Prelude.Dict.{lookup, insert, lookup-insert_self}
use majula.Raft.Types.{RaftPayload, follower}
use majula.Raft.Core.{
  RaftCore, next_term, emit, reset_vote_result, switch_to_candidate, complete_pending, record_vote,
  send_with_invoke_id,
}
use majula.Raft.Vote.{handle_request_vote_response, count_response, stand, request_votes}

module _ {ℓ} {V : Type ℓ} where
  request_votes-vote_result :
      (p : RaftPayload V) (ns : List String) (rc : RaftCore V)
      → ((request_votes p ns rc).vote_result ≡ rc.vote_result)
        × ((request_votes p ns rc).current_term ≡ rc.current_term)
  unfolding request_votes
  request_votes-vote_result p [] rc = (refl, refl)
  request_votes-vote_result p (n ∷ ns) rc =
      let asked : RaftCore V = if str_eq n rc.id then rc else emit (send_with_invoke_id n p) rc in
      ground (arith, request_votes-vote_result p ns asked)

  handled_vote :
      (now : ℕ) (p : RaftPayload V) (rc : RaftCore V)
      → rc.role ≡ follower
      → p.term ≡ rc.current_term
      → let rc' = handle_request_vote_response now p rc in
        (rc'.current_term ≡ rc.current_term)
        × (rc'.vote_result ≡ insert p.sender_id p.vote_granted rc.vote_result)
  unfolding handle_request_vote_response count_response complete_pending record_vote
  handled_vote now p rc r t = ground arith

  -- A granted vote for the current term of a follower, handled between the reset of the vote
  -- count and the second part of startElection, is in the vote count of the next term.
  pub stand-stale_vote :
      (now later : ℕ) (p : RaftPayload V) (rc : RaftCore V)
      → rc.role ≡ follower
      → p.term ≡ rc.current_term
      → p.vote_granted ≡ true
      → let rc' = stand later (handle_request_vote_response now p (reset_vote_result rc)) in
        (rc'.current_term ≡ next_term p.term) × (lookup p.sender_id rc'.vote_result ≡ some true)
  unfolding stand switch_to_candidate reset_vote_result
  stand-stale_vote now later p rc r t g =
      let reset = reset_vote_result rc in
      let handled = handle_request_vote_response now p reset in
      let (term, votes) = handled_vote now p reset r t in
      let standing = switch_to_candidate later handled in
      let (v, u) = request_votes-vote_result _ standing.peers standing in
      (
        u ∙ ap next_term (term ∙ sym t),
        rw v (rw votes (rw g (lookup-insert_self p.sender_id true reset.vote_result))),
      )
