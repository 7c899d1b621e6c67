-- ===== src/Raft/Witnesses.antt =====
-- core/Raft.go: the theorems at concrete members of the group a, b, c.
use majula.Prelude.{
  ℕ, ◌≡◌, ◌≤◌, ◌<◌, ◌⊎◌, ◌↔◌, refl, String, none, some, List, [], ◌∷◌, true, arith,
}
use majula.Prelude.Int.{pos, negsuc}
use majula.Prelude.Dict.{lookup}
use majula.Prelude.Outcome.{ok, panic}
use majula.Raft.Types.{
  RaftLogEntry, RaftPayload, blank, follower, leader, put, request_vote, request_vote_response,
  append_entries,
}
use majula.Raft.Core.{
  persist_term_and_vote, reset_election_timer, RaftCore, Effect, send, save_meta, reset_vote_result,
  has_majority_votes, count_votes, put_state, apply_callback,
}
use majula.Raft.Core.Apply.{
  apply_log_to_state_machine, apply_rounds, apply_next, save_progress, notify, apply_command,
}
use majula.Raft.Core.Machine.{Applied, apply_log_to_state_machine-Applied}
use majula.Raft.Log.{is_up_to_date, get_last_log_index}
use majula.Raft.Vote.{
  enter_term, cast_vote, may_vote, decide_vote, handle_request_vote, handle_request_vote_response,
  stand,
}
use majula.Raft.Vote.Grant.{IsNoOlder, decide_vote_granted_iff, handle_request_vote_reply}
use majula.Raft.Vote.Majority.{has_majority_votes-share}
use majula.Raft.Vote.Race.{stand-stale_vote}
use majula.Raft.Append.{handle_append_entries}
use majula.Raft.Append.Agree.{Accepts, handle_append_entries-Accepts}
use majula.Raft.Append.Refuse.{Backs, handle_append_entries-Backs, handle_append_entries-IsDense}
use majula.Raft.Append.Unchecked.{handle_append_entries-unchecked}
use majula.Raft.Log.Dense.{IsDense}
use majula.Raft.Commit.{
  quick_select, advance_commit_index, commit_to, match_indexes, peer_matches, select_part,
}
use majula.Raft.Commit.Select.{Selects, quick_select-Selects}
use majula.Raft.Commit.Quorum.{
  IsCommitted, advance_commit_index-IsCommitted, advance_commit_index-panic,
  advance_commit_index-alone, reaching,
}
use majula.Raft.Member.{
  message, timer, run, step, on_raft_message, dispatch, process_timers, contains_name,
}
use majula.Raft.Advance.{Advances, saved_vote}
use majula.Raft.Advance.Run.{HasRoom, run-Advances}

abbrev write : ℕ → ℕ → RaftLogEntry ℕ
write index term = record {
  index = index;
  term = term;
  command = record {
    op = put;
    key = "x";
    value = some index;
    snapshot_index = 0;
    snapshot_term = 0;
  };
}

abbrev member : RaftCore ℕ
member = record {
  id = "a";
  group = "g";
  role = follower;
  current_term = 3;
  voted_for = "";
  log = write 1 1 ∷ write 2 2 ∷ write 3 2 ∷ [];
  commit_index = 1;
  last_applied = 1;
  next_index = [];
  match_index = [];
  vote_result = [];
  election_timeout = 0;
  heartbeat_timeout = 0;
  leader_hint = "";
  peers = "a" ∷ "b" ∷ "c" ∷ [];
  has_apply_callback = true;
  pending = [];
  learners = [];
  trace = save_meta "g" 3 "" 1 1 ∷ [];
}

abbrev vote_call : RaftPayload ℕ
vote_call = record (blank request_vote) {
  term = 4;
  candidate_id = "b";
  prev_log_index = pos 3;
  prev_log_term = 2;
}

-- The entry after index 2, from the leader of term 4.
abbrev append_call : RaftPayload ℕ
append_call = record (blank append_entries) {
  term = 4;
  leader_id = "b";
  prev_log_index = pos 2;
  prev_log_term = 2;
  entries = write 3 4 ∷ write 4 4 ∷ [];
  leader_commit = 3;
}

-- A probe at index 1.
abbrev probe_call : RaftPayload ℕ
probe_call = record append_call {
  prev_log_index = pos 1;
  prev_log_term = 1;
  entries = [];
  leader_commit = 5;
}

run-Advances_example :
    Advances member (process_timers 7 (handle_request_vote 5 "g" vote_call member))
unfolding run step on_raft_message dispatch HasRoom handle_request_vote decide_vote enter_term
    cast_vote may_vote is_up_to_date get_last_log_index persist_term_and_vote reset_election_timer
run-Advances_example =
    run-Advances
      (message 5 (λ n. n) "g" "b" (record { payload = some vote_call; command = none })
        ∷ timer 7
        ∷ [])
      member (process_timers 7 (handle_request_vote 5 "g" vote_call member))
      (omega arith, (omega arith, tt)) refl

handle_append_entries-Accepts_example :
    (rc' : RaftCore ℕ) × (handle_append_entries 9 append_call member ≡ ok rc')
    × Accepts append_call 2 member rc'
handle_append_entries-Accepts_example =
    handle_append_entries-Accepts 9 append_call 2 member (omega arith) refl (omega arith)
      (write 2 2, refl, refl) (refl, (refl, tt)) (refl, (refl, (refl, tt))) (omega arith)

handle_append_entries-Backs_example :
    (rc' : RaftCore ℕ) × (handle_append_entries 9 (record append_call { prev_log_term = 3 }) member
      ≡ ok rc')
    × Backs (record append_call { prev_log_term = 3 }) 1 (write 2 2) member rc'
handle_append_entries-Backs_example =
    handle_append_entries-Backs 9 (record append_call { prev_log_term = 3 }) 1 (write 2 2) member
      (omega arith) refl (refl, (refl, (refl, tt))) (omega arith) refl
      (λ e. absurd (omega (arith, e)))

handle_append_entries-IsDense_example :
    (rc' : RaftCore ℕ) × (handle_append_entries 9 append_call member ≡ ok rc') × IsDense rc'.log
handle_append_entries-IsDense_example =
    handle_append_entries-IsDense 9 append_call 2 member refl (refl, (refl, tt))
      (refl, (refl, (refl, tt))) (omega arith)

handle_append_entries-unchecked_example :
    (rc' : RaftCore ℕ) × (reply : RaftPayload ℕ) × (before : List (Effect ℕ))
    × (handle_append_entries 9 probe_call member ≡ ok rc')
    × (rc'.log ≡ member.log)
    × (rc'.commit_index ≡ 3)
    × (rc'.trace ≡ send "b" reply ∷ before)
    × (reply.success ≡ true)
    × (reply.commit_index ≡ 3)
handle_append_entries-unchecked_example =
    handle_append_entries-unchecked 9 probe_call 1 member (omega arith) refl (omega arith)
      (write 1 1, refl, refl) refl (refl, (refl, (refl, tt))) (omega arith) (omega arith)
      (omega arith)

abbrev led : RaftCore ℕ
led = record member {
  role = leader;
  current_term = 2;
  match_index = ("b", pos 3) ∷ ("c", pos 0) ∷ [];
}

abbrev caught_up : RaftCore ℕ
caught_up = record led {
  commit_index = 3;
  last_applied = 3;
  trace =
      save_meta "g" 2 "" 3 3
      ∷ apply_callback (write 3 2)
      ∷ put_state "g" "x" (some 3)
      ∷ save_meta "g" 2 "" 3 2
      ∷ apply_callback (write 2 2)
      ∷ put_state "g" "x" (some 2)
      ∷ led.trace;
}

advance_commit_index-IsCommitted_example : (caught_up ≡ led) ⊎ IsCommitted led 3
unfolding apply_log_to_state_machine apply_rounds apply_next save_progress notify apply_command
    commit_to advance_commit_index match_indexes peer_matches quick_select select_part
    get_last_log_index lookup
advance_commit_index-IsCommitted_example =
    advance_commit_index-IsCommitted (λ n. 0) led caught_up refl

-- The leader a of term 3, with two entries, where b and c have four.
abbrev overtaken : RaftCore ℕ
overtaken = record led {
  log = write 1 1 ∷ write 2 2 ∷ [];
  match_index = ("b", pos 4) ∷ ("c", pos 4) ∷ [];
}

advance_commit_index-panic_example : advance_commit_index (λ n. n) overtaken ≡ panic
unfolding match_indexes peer_matches get_last_log_index lookup
advance_commit_index-panic_example =
    advance_commit_index-panic (λ n. n) overtaken (omega arith) (omega arith)

-- The leader a of the group a, b.
abbrev pair_leader : RaftCore ℕ
pair_leader = record led { peers = "a" ∷ "b" ∷ []; match_index = ("b", pos 0) ∷ [] }

advance_commit_index-alone_example :
    (rc' : RaftCore ℕ) × (advance_commit_index (λ n. n) pair_leader ≡ ok rc')
    × (rc'.commit_index ≡ 3)
    × (reaching (pos 3) (match_indexes pair_leader) ≡ 1)
unfolding match_indexes peer_matches get_last_log_index lookup
advance_commit_index-alone_example =
    advance_commit_index-alone (λ n. n) pair_leader 2 (write 3 2) (pos 0) refl refl refl refl
      (omega arith)

quick_select-Selects_example :
    Selects
      (pos 4 ∷ negsuc 0 ∷ pos 2 ∷ [])
      1
      (quick_select 3 (λ n. n) (pos 4 ∷ negsuc 0 ∷ pos 2 ∷ []) 1)
quick_select-Selects_example =
    quick_select-Selects 3 (λ n. n) (pos 4 ∷ negsuc 0 ∷ pos 2 ∷ []) 1 (omega arith) (omega arith)

apply_log_to_state_machine-Applied_example :
    (rc' : RaftCore ℕ) × (apply_log_to_state_machine (record led { commit_index = 3 }) ≡ ok rc')
    × Applied (record led { commit_index = 3 }) (write 2 2 ∷ write 3 2 ∷ []) rc'
apply_log_to_state_machine-Applied_example =
    apply_log_to_state_machine-Applied (record led { commit_index = 3 }) (omega arith)

decide_vote_granted_iff_example : ((decide_vote 5 vote_call member).1 ≡ true) ↔ (
    (3 ≤ 4)
    × ((3 < 4) ⊎ ((member.voted_for ≡ "") ⊎ (member.voted_for ≡ "b")))
    × IsNoOlder member.log (pos 3) 2)
decide_vote_granted_iff_example = decide_vote_granted_iff 5 vote_call member

handle_request_vote_reply_example :
    let rc' = handle_request_vote 5 "g" vote_call member in
    (reply : RaftPayload ℕ) × (before : List (Effect ℕ)) × (rc'.trace ≡ send "b" reply ∷ before)
    × (reply.term ≡ rc'.current_term)
    × (reply.vote_granted ≡ true
        → (rc'.current_term ≡ 4) × (rc'.voted_for ≡ "b") × (saved_vote before ≡ some (4, "b")))
handle_request_vote_reply_example = handle_request_vote_reply 5 "g" vote_call member

abbrev first_count : RaftCore ℕ
first_count = record member { vote_result = ("a", true) ∷ ("b", true) ∷ [] }

abbrev second_count : RaftCore ℕ
second_count = record member { id = "c"; vote_result = ("c", true) ∷ ("b", true) ∷ [] }

has_majority_votes-share_example :
    (voter : String) × (contains_name voter first_count.peers ≡ true)
    × (lookup voter first_count.vote_result ≡ some true)
    × (lookup voter second_count.vote_result ≡ some true)
unfolding lookup contains_name has_majority_votes count_votes
has_majority_votes-share_example =
    has_majority_votes-share first_count second_count refl (refl, refl, (refl, refl, tt))
      (refl, refl, (refl, refl, tt)) refl refl

abbrev late_vote : RaftPayload ℕ
late_vote = record (blank request_vote_response) { term = 3; vote_granted = true; sender_id = "c" }

stand-stale_vote_example :
    let rc' = stand 8 (handle_request_vote_response 7 late_vote (reset_vote_result member)) in
    (rc'.current_term ≡ 4) × (lookup "c" rc'.vote_result ≡ some true)
stand-stale_vote_example = stand-stale_vote 7 8 late_vote member refl refl refl
