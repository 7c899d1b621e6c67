-- ===== src/Raft/Vote.antt =====
-- core/Raft.go: elections. handleRequestVote, handleRequestVoteResponse, startElection.
pub mod Grant
pub mod Majority
pub mod Race
use majula.Prelude.{
  ℕ, suc, ◌+◌, String, List, [], ◌∷◌, Bool, true, false, if◌then◌else◌, str_eq, ltb, ◌&&◌, ◌||◌,
}
use majula.Prelude.Int.{ℤ, pos}
use majula.Raft.Types.{
  RaftRole, follower, candidate, leader, RaftPayload, blank, request_vote, request_vote_response,
}
use majula.Raft.Log.{get_last_log_index, is_up_to_date}
use majula.Raft.Core.{
  RaftCore, emit, send, send_with_invoke_id, persist_term_and_vote, reset_election_timer,
  switch_to_candidate, switch_to_leader, reset_vote_result, record_vote, has_majority_votes,
  complete_pending, track_all,
}

abbrev pub is_leader : RaftRole → Bool
is_leader leader = true
is_leader _ = false

abbrev is_candidate : RaftRole → Bool
is_candidate candidate = true
is_candidate _ = false

module _ {ℓ} {V : Type ℓ} where
  -- A newer term makes the node a follower of it that has not voted.
  unfoldable pub enter_term : ℕ → RaftCore V → RaftCore V
  unfolding persist_term_and_vote
  enter_term term rc =
      if ltb rc.current_term term
      then persist_term_and_vote
          (record rc { current_term = term; voted_for = ""; role = follower })
      else rc

  unfoldable pub may_vote : RaftPayload V → RaftCore V → Bool
  may_vote p rc =
      (str_eq rc.voted_for "" || str_eq rc.voted_for p.candidate_id)
      && is_up_to_date rc.log p.prev_log_index p.prev_log_term

  unfoldable pub cast_vote : ℕ → RaftPayload V → RaftCore V → RaftCore V × Bool
  unfolding persist_term_and_vote reset_election_timer may_vote
  cast_vote now p rc =
      if may_vote p rc
      then (
        reset_election_timer now (persist_term_and_vote (record rc { voted_for = p.candidate_id })),
        true,
      )
      else (rc, false)

  unfoldable pub decide_vote : ℕ → RaftPayload V → RaftCore V → RaftCore V × Bool
  unfolding enter_term cast_vote
  decide_vote now p rc =
      if ltb p.term rc.current_term then (rc, false) else cast_vote now p (enter_term p.term rc)

  abbrev pub vote_response : String → RaftPayload V → RaftCore V → Bool → RaftPayload V
  vote_response group p rc granted = record (blank request_vote_response) {
    term = rc.current_term;
    vote_granted = granted;
    candidate_id = p.candidate_id;
    sender_id = rc.id;
    group = group;
    invoke_id = p.invoke_id;
  }

  unfoldable pub handle_request_vote : ℕ → String → RaftPayload V → RaftCore V → RaftCore V
  unfolding decide_vote
  handle_request_vote now group p rc =
      let (voted, granted) = decide_vote now p rc in
      emit (send p.candidate_id (vote_response group p voted granted)) voted

  -- The vote is counted, and a candidate with a majority becomes leader.
  unfoldable pub count_response : ℕ → RaftPayload V → RaftCore V → RaftCore V
  count_response now p rc =
      let counted = record_vote p.sender_id p.vote_granted rc in
      if is_candidate counted.role && has_majority_votes counted
      then (let led = switch_to_leader now counted in
          track_all (get_last_log_index led.log).0 led.peers led)
      else counted

  unfoldable pub handle_request_vote_response : ℕ → RaftPayload V → RaftCore V → RaftCore V
  handle_request_vote_response now p rc0 =
      let rc = complete_pending p rc0 in
      if ltb p.term rc.current_term
      then rc
      else if ltb rc.current_term p.term
      then reset_election_timer now (
          persist_term_and_vote
            (record rc { current_term = p.term; voted_for = ""; role = follower }))
      else count_response now p rc

  -- The requests to the peers, sent by goroutines.
  unfoldable pub request_votes : RaftPayload V → List String → RaftCore V → RaftCore V
  request_votes p [] rc = rc
  request_votes p (peer ∷ peers) rc =
      request_votes p peers (if str_eq peer rc.id then rc else emit (send_with_invoke_id peer p) rc)

  -- The second part of startElection, under the lock taken after the vote count was reset.
  unfoldable pub stand : ℕ → RaftCore V → RaftCore V
  stand now rc0 =
      let rc = switch_to_candidate now rc0 in
      let (last_index, last_term) = get_last_log_index rc.log in
      let p = record (blank request_vote) {
        term = rc.current_term;
        candidate_id = rc.id;
        prev_log_index = pos last_index;
        prev_log_term = last_term;
        group = rc.group;
      } in
      request_votes p rc.peers rc

  -- Without another goroutine between its parts.
  unfoldable pub start_election : ℕ → RaftCore V → RaftCore V
  start_election now rc = if is_leader rc.role then rc else stand now (reset_vote_result rc)
