-- ===== src/Raft/Member.antt =====
-- core/Raft.go: the ways into a member: messages, client requests and the main loop's timers.
use majula.Prelude.{
  ℕ, String, Option, none, some, List, [], ◌∷◌, Bool, true, false, not, if◌then◌else◌, str_eq, leb,
  ◌||◌,
}
use majula.Prelude.Outcome.{Outcome, ok, ◌>>=◌}
use majula.Raft.Types.{
  RaftMsgType, RaftPayload, RaftCommand, ClientForwardPayload, request_vote, request_vote_response,
  append_entries, append_entries_response, client_command, RaftOpType, add_learner, remove_learner,
  add_learner_with_snapshot,
}
use majula.Raft.Core.{
  RaftCore, emit, send_forward, go_start_election, go_broadcast_heartbeat, reset_heartbeat_timer,
  reset_vote_result, unix_milli,
}
use majula.Raft.Vote.{
  is_leader, handle_request_vote, handle_request_vote_response, start_election, stand,
}
use majula.Raft.Append.{handle_append_entries}
use majula.Raft.Commit.{
  handle_append_entries_response, propose_command, send_append_entries_to, broadcast_heartbeat,
}

-- The bytes of a message, as the two ways of decoding them read it; `none` is a decoding error.
pub record Content {ℓ} (V : Type ℓ) : Type ℓ where
  pub payload : Option (RaftPayload V)
  pub command : Option (ClientForwardPayload V)

unfoldable pub contains_name : String → List String → Bool
contains_name a [] = false
contains_name a (x ∷ xs) = str_eq x a || contains_name a xs

module _ {ℓ} {V : Type ℓ} where
  unfoldable pub forward_to_leader :
      String → RaftCommand V → Bool → String → RaftCore V → RaftCore V
  forward_to_leader leader_id cmd forwarded origin rc =
      emit
        (send_forward leader_id (record { cmd = cmd; forwarded = forwarded; origin_id = origin }))
        rc

  unfoldable pub handle_client_request : RaftCommand V → RaftCore V → RaftCore V
  handle_client_request cmd rc =
      if is_leader rc.role
      then propose_command cmd rc
      else if not (str_eq rc.leader_hint "")
      then forward_to_leader rc.leader_hint cmd false rc.id rc
      else rc

  unfoldable pub on_client_command : ClientForwardPayload V → RaftCore V → RaftCore V
  on_client_command c rc =
      if is_leader rc.role
      then propose_command c.cmd rc
      else if c.forwarded
      then rc
      else if not (str_eq rc.leader_hint "")
      then forward_to_leader rc.leader_hint c.cmd true c.origin_id rc
      else rc

  -- The switch on the message's type.
  unfoldable pub dispatch :
      RaftMsgType
      → ℕ
      → (ℕ → ℕ)
      → String
      → String
      → RaftPayload V
      → Option (ClientForwardPayload V)
      → RaftCore V
      → Outcome (RaftCore V)
  dispatch request_vote now draw group from p c rc = ok (handle_request_vote now group p rc)
  dispatch request_vote_response now draw group from p c rc =
      ok (handle_request_vote_response now p rc)
  dispatch append_entries now draw group from p c rc = handle_append_entries now p rc
  dispatch append_entries_response now draw group from p c rc =
      handle_append_entries_response now draw from p rc
  dispatch client_command now draw group from p (some c) rc = ok (on_client_command c rc)
  dispatch _ now draw group from p c rc = ok rc

  unfoldable pub on_raft_message :
      ℕ → (ℕ → ℕ) → String → String → Content V → RaftCore V → Outcome (RaftCore V)
  on_raft_message now draw group from content rc = elim (content.payload) [
    | none ↦ ok rc
    | some p ↦ dispatch p.kind now draw group from p content.command rc
  ]

  -- One turn of the main loop.
  unfoldable pub process_timers : ℕ → RaftCore V → RaftCore V
  process_timers now rc =
      if is_leader rc.role
      then (if leb rc.heartbeat_timeout (unix_milli now)
          then reset_heartbeat_timer now (emit go_broadcast_heartbeat rc)
          else rc)
      else if leb rc.election_timeout (unix_milli now)
      then emit go_start_election rc
      else rc

  abbrev learner_command : RaftOpType → String → ℕ → ℕ → RaftCommand V
  learner_command op node index term = record {
    op = op;
    key = node;
    value = none;
    snapshot_index = index;
    snapshot_term = term;
  }

  unfoldable request_learner : String → RaftCore V → RaftCore V
  request_learner node rc = handle_client_request (learner_command add_learner node 0 0) rc

  unfoldable request_snapshot_learner : String → ℕ → ℕ → RaftCore V → RaftCore V
  request_snapshot_learner node index term rc =
      handle_client_request (learner_command add_learner_with_snapshot node index term) rc

  unfoldable request_learner_removal : String → RaftCore V → RaftCore V
  request_learner_removal node rc =
      handle_client_request (learner_command remove_learner node 0 0) rc

  unfoldable is_learner : RaftCore V → Bool
  is_learner rc = contains_name rc.id rc.learners

-- What can happen to a member, one lock at a time, in any order. The two parts of an election are
-- apart, since the lock is free between them.
pub data Event {ℓ} (V : Type ℓ) : Type ℓ where
  message : ℕ → (ℕ → ℕ) → String → String → Content V → Event V
  client_request : RaftCommand V → Event V
  timer : ℕ → Event V
  election : ℕ → Event V
  vote_reset : Event V
  standing : ℕ → Event V
  append_to : String → Event V
  heartbeats : Event V

module _ {ℓ} {V : Type ℓ} where
  unfoldable pub step : Event V → RaftCore V → Outcome (RaftCore V)
  step (message now draw group from content) rc = on_raft_message now draw group from content rc
  step (client_request cmd) rc = ok (handle_client_request cmd rc)
  step (timer now) rc = ok (process_timers now rc)
  step (election now) rc = ok (start_election now rc)
  step vote_reset rc = ok (reset_vote_result rc)
  step (standing now) rc = ok (stand now rc)
  step (append_to peer) rc = send_append_entries_to peer rc
  step heartbeats rc = ok (broadcast_heartbeat rc)

  unfoldable pub run : List (Event V) → RaftCore V → Outcome (RaftCore V)
  run [] rc = ok rc
  run (e ∷ es) rc = step e rc >>= run es
