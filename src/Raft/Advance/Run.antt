-- ===== src/Raft/Advance/Run.antt =====
-- core/Raft.go: any history of a member keeps its term and vote.
use majula.Prelude.{
  ℕ, ◌≡◌, ◌<◌, refl, subst, String, Option, none, some, List, [], ◌∷◌, Bool, true, false, arith,
}
use majula.Prelude.Outcome.{Outcome, ok, panic, >>=-eq-ok, ok_injective}
use majula.Raft.Types.{
  RaftMsgType, RaftPayload, RaftCommand, ClientForwardPayload, request_vote, request_vote_response,
  append_entries, append_entries_response, client_command,
}
use majula.Raft.Core.{RaftCore, reset_heartbeat_timer, max_int64}
use majula.Raft.Commit.{
  send_append_entries_to, entries_from, term_before, broadcast_heartbeat, heartbeats_to,
  send_heartbeat,
}
use majula.Prelude.Dict.{get_or}
use majula.Raft.Member.{
  Event, message, client_request, timer, election, vote_reset, standing, append_to, heartbeats,
  step, run, dispatch, on_raft_message, on_client_command, handle_client_request, forward_to_leader,
  process_timers,
}
use majula.Raft.Advance.{saved_vote, Advances, Advances-refl, Advances-trans}
use majula.Raft.Advance.Handlers.{
  handle_request_vote-Advances, handle_request_vote_response-Advances, stand-Advances,
  start_election-Advances, reset_vote_result-Advances,
}
use majula.Raft.Advance.Appends.{handle_append_entries-Advances}
use majula.Raft.Advance.Responses.{
  handle_append_entries_response-Advances, propose_command-Advances,
}

module _ {ℓ} {V : Type ℓ} where
  forward_to_leader-Advances :
      (to : String) (cmd : RaftCommand V) (f : Bool) (origin : String) (rc : RaftCore V)
      → Advances rc (forward_to_leader to cmd f origin rc)
  unfolding forward_to_leader saved_vote
  forward_to_leader-Advances to cmd f origin rc = ground arith

  handle_client_request-Advances :
      (cmd : RaftCommand V) (rc : RaftCore V) → Advances rc (handle_client_request cmd rc)
  unfolding handle_client_request
  handle_client_request-Advances cmd rc = ground (
    arith,
    Advances-refl rc,
    propose_command-Advances cmd rc,
    forward_to_leader-Advances rc.leader_hint cmd false rc.id rc,
  )

  on_client_command-Advances :
      (c : ClientForwardPayload V) (rc : RaftCore V) → Advances rc (on_client_command c rc)
  unfolding on_client_command
  on_client_command-Advances c rc = ground (
    arith,
    Advances-refl rc,
    propose_command-Advances c.cmd rc,
    forward_to_leader-Advances rc.leader_hint c.cmd true c.origin_id rc,
  )

  unchanged : (rc rc' : RaftCore V) → ok rc ≡ ok rc' → Advances rc rc'
  unchanged rc rc' h = subst (Advances rc) (ok_injective h) (Advances-refl rc)

  dispatch-Advances :
      (k : RaftMsgType) (now : ℕ) (draw : ℕ → ℕ) (group from : String) (p : RaftPayload V)
      (c : Option (ClientForwardPayload V)) (rc rc' : RaftCore V)
      → dispatch k now draw group from p c rc ≡ ok rc'
      → Advances rc rc'
  unfolding dispatch
  dispatch-Advances request_vote now draw group from p c rc rc' h =
      subst (Advances rc) (ok_injective h) (handle_request_vote-Advances now group p rc)
  dispatch-Advances request_vote_response now draw group from p c rc rc' h =
      subst (Advances rc) (ok_injective h) (handle_request_vote_response-Advances now p rc)
  dispatch-Advances append_entries now draw group from p c rc rc' h =
      handle_append_entries-Advances now p rc rc' h
  dispatch-Advances append_entries_response now draw group from p c rc rc' h =
      handle_append_entries_response-Advances now draw from p rc rc' h
  dispatch-Advances client_command now draw group from p (some c) rc rc' h =
      subst (Advances rc) (ok_injective h) (on_client_command-Advances c rc)
  dispatch-Advances _ now draw group from p c rc rc' h = unchanged rc rc' h

  on_raft_message-Advances :
      (now : ℕ) (draw : ℕ → ℕ) (group from : String) (o : Option (RaftPayload V))
      (c : Option (ClientForwardPayload V)) (rc rc' : RaftCore V)
      → on_raft_message now draw group from (record { payload = o; command = c }) rc ≡ ok rc'
      → Advances rc rc'
  unfolding on_raft_message
  on_raft_message-Advances now draw group from none c rc rc' h = unchanged rc rc' h
  on_raft_message-Advances now draw group from (some p) c rc rc' h =
      dispatch-Advances p.kind now draw group from p c rc rc' h

  process_timers-Advances : (now : ℕ) (rc : RaftCore V) → Advances rc (process_timers now rc)
  unfolding process_timers reset_heartbeat_timer saved_vote
  process_timers-Advances now rc = ground arith

  send_append_entries_to-Advances :
      (peer : String) (rc rc' : RaftCore V)
      → send_append_entries_to peer rc ≡ ok rc'
      → Advances rc rc'
  unfolding send_append_entries_to saved_vote
  send_append_entries_to-Advances peer rc rc' h =
      let (es, a, b) = >>=-eq-ok (entries_from (get_or 0 peer rc.next_index) rc.log) _ h in
      let (t, c, d) = >>=-eq-ok (term_before (get_or 0 peer rc.next_index) rc.log) _ b in
      subst (Advances rc) (ok_injective d)
        (record { term_grows = omega arith; vote_kept = λ e v. refl; durable = λ e. e })

  heartbeats_to-Advances :
      (ns : List String) (t c : ℕ) (rc : RaftCore V) → Advances rc (heartbeats_to ns t c rc)
  unfolding heartbeats_to send_heartbeat saved_vote
  heartbeats_to-Advances [] t c rc = Advances-refl rc
  heartbeats_to-Advances (n ∷ ns) t c rc =
      Advances-trans {b = send_heartbeat n t c rc} (ground arith)
        (heartbeats_to-Advances ns t c (send_heartbeat n t c rc))

  step-Advances :
      (e : Event V) (rc rc' : RaftCore V)
      → rc.current_term < max_int64
      → step e rc ≡ ok rc'
      → Advances rc rc'
  unfolding step broadcast_heartbeat
  step-Advances (message now draw group from content) rc rc' room h =
      on_raft_message-Advances now draw group from content.payload content.command rc rc' h
  step-Advances (client_request cmd) rc rc' room h =
      subst (Advances rc) (ok_injective h) (handle_client_request-Advances cmd rc)
  step-Advances (timer now) rc rc' room h =
      subst (Advances rc) (ok_injective h) (process_timers-Advances now rc)
  step-Advances (election now) rc rc' room h =
      subst (Advances rc) (ok_injective h) (start_election-Advances now rc room)
  step-Advances vote_reset rc rc' room h =
      subst (Advances rc) (ok_injective h) (reset_vote_result-Advances rc)
  step-Advances (standing now) rc rc' room h =
      subst (Advances rc) (ok_injective h) (stand-Advances now rc room)
  step-Advances (append_to peer) rc rc' room h = send_append_entries_to-Advances peer rc rc' h
  step-Advances heartbeats rc rc' room h =
      subst (Advances rc) (ok_injective h) (heartbeats_to-Advances _ _ _ rc)

  abbrev After : Outcome (RaftCore V) → (RaftCore V → Type 0) → Type 0
  After panic p = Unit
  After (ok rc) p = p rc

  -- Before each event of the history the term is below MaxInt64.
  unfoldable pub HasRoom : List (Event V) → RaftCore V → Type 0
  HasRoom [] rc = Unit
  HasRoom (e ∷ es) rc = (rc.current_term < max_int64) × After (step e rc) (HasRoom es)

  -- In every history of messages, client requests, timer turns, elections, sends and heartbeats
  -- that runs without a panic, from any state, if the term is below MaxInt64 before each of them:
  -- the term never falls, a vote cast is kept as long as the term stays the same, and where storage
  -- held the term and vote at the start it holds those at the end.
  pub run-Advances :
      (es : List (Event V)) (rc rc' : RaftCore V)
      → HasRoom es rc
      → run es rc ≡ ok rc'
      → Advances rc rc'
  unfolding run HasRoom
  run-Advances [] rc rc' room h = unchanged rc rc' h
  run-Advances (e ∷ es) rc rc' (room, later) h =
      let (mid, a, b) = >>=-eq-ok (step e rc) (run es) h in
      Advances-trans (step-Advances e rc mid room a)
        (run-Advances es mid rc' (subst (λ o. After o (HasRoom es)) a later) b)
