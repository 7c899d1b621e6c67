-- ===== src/Raft/Core.antt =====
-- core/Raft.go: the state of a group member (RaftCore) and the operations on it that the handlers
-- share. What an operation does outside the state (storage, messages, callbacks, goroutines) is
-- written to `trace`, the newest first. A method that holds rc.Mutex to its end is one function.
pub mod Apply
pub mod Effects
pub mod Machine
pub mod Tracking
use majula.Prelude.{
  ℕ, zero, suc, ◌+◌, ◌-◌, ◌/◌, ◌%◌, String, Option, none, some, List, [], ◌∷◌, ◌++◌, Bool, true,
  false, length, if◌then◌else◌, str_eq, leb, ltb, ◌==◌, ◌||◌, not, count_if,
}
use majula.Prelude.Int.{ℤ, pos, negsuc, pred_ℤ}
use majula.Prelude.Dict.{Dict, insert, delete, get_or}
use majula.Prelude.Outcome.{Outcome, ok, panic, ◌>>=◌, index as elem}
use majula.Raft.Types.{
  RaftRole, follower, candidate, leader, RaftLogEntry, RaftCommand, RaftPayload,
  ClientForwardPayload, put, del_op, add_learner, remove_learner, add_learner_with_snapshot,
  other_op, blank, append_entries, append_entries_response, RaftOpType,
}
use majula.Raft.Log.{get_last_log_index}

pub data Effect {ℓ} (V : Type ℓ) : Type ℓ where
  save_meta : String → ℕ → String → ℕ → ℕ → Effect V
  save_log : String → RaftLogEntry V → Effect V
  delete_logs_from : String → ℕ → Effect V
  put_state : String → String → Option V → Effect V
  delete_state : String → String → Effect V
  apply_callback : RaftLogEntry V → Effect V
  send : String → RaftPayload V → Effect V
  send_forward : String → ClientForwardPayload V → Effect V
  deliver : ℕ → RaftPayload V → Effect V
  send_with_invoke_id : String → RaftPayload V → Effect V
  go_send_append_entries_to : String → Effect V
  go_start_election : Effect V
  go_broadcast_heartbeat : Effect V

pub record RaftCore {ℓ} (V : Type ℓ) : Type ℓ where
  pub id : String
  pub group : String
  pub role : RaftRole
  pub current_term : ℕ
  pub voted_for : String
  pub log : List (RaftLogEntry V)
  pub commit_index : ℕ
  pub last_applied : ℕ
  pub next_index : Dict ℕ
  pub match_index : Dict ℤ
  pub vote_result : Dict Bool
  pub election_timeout : ℕ  -- Unix milliseconds
  pub heartbeat_timeout : ℕ  -- Unix milliseconds
  pub leader_hint : String
  pub peers : List String
  pub has_apply_callback : Bool
  pub pending : List ℕ  -- the invoke ids with a waiting sender
  pub learners : List String  -- the keys of the sync.Map
  pub trace : List (Effect V)

abbrev election_timeout_min : ℕ
election_timeout_min = 2000

abbrev election_timeout_max : ℕ
election_timeout_max = 3000

abbrev heartbeat_interval : ℕ
heartbeat_interval = 200

-- math.MaxInt64
abbrev pub max_int64 : ℕ
max_int64 = 9223372036854775807

-- rc.CurrentTerm++ on the 64 bits of an int64. From 2^63 on they stand for a negative number, which
-- the comparisons of terms do not read: they are those of the source below that.
abbrev pub next_term : ℕ → ℕ
next_term t = (t + 1) % 18446744073709551616

-- The time is UnixNano, read once in each method; UnixMilli is its quotient.
abbrev pub unix_milli : ℕ → ℕ
unix_milli now = now / 1000000

unfoldable rand_int : ℕ → ℕ → ℕ → ℕ
rand_int lo hi now = lo + now % (hi - lo + 1)

-- sync.Map.Store and Delete on a set of names.
unfoldable pub store_name : String → List String → List String
store_name a [] = a ∷ []
store_name a (x ∷ xs) = if str_eq x a then x ∷ xs else x ∷ store_name a xs

unfoldable pub delete_name : String → List String → List String
delete_name a [] = []
delete_name a (x ∷ xs) = let rest = delete_name a xs in if str_eq x a then rest else x ∷ rest

unfoldable mem_id : ℕ → List ℕ → Bool
mem_id i [] = false
mem_id i (x ∷ xs) = x == i || mem_id i xs

unfoldable remove_id : ℕ → List ℕ → List ℕ
remove_id i [] = []
remove_id i (x ∷ xs) = let rest = remove_id i xs in if x == i then rest else x ∷ rest

unfoldable pub count_votes : Dict Bool → ℕ
count_votes votes = count_if (λ v. v.1) votes

module _ {ℓ} {V : Type ℓ} where
  abbrev pub emit : Effect V → RaftCore V → RaftCore V
  emit e rc = record rc { trace = e ∷ rc.trace }

  unfoldable pub persist_term_and_vote : RaftCore V → RaftCore V
  persist_term_and_vote rc =
      emit (save_meta rc.group rc.current_term rc.voted_for rc.commit_index rc.last_applied) rc

  unfoldable pub reset_election_timer : ℕ → RaftCore V → RaftCore V
  unfolding rand_int
  reset_election_timer now rc =
      let timeout =
        election_timeout_min + rand_int 0 (election_timeout_max - election_timeout_min) now in
      record rc { election_timeout = unix_milli now + timeout }

  unfoldable pub disable_election_timer : RaftCore V → RaftCore V
  disable_election_timer rc = record rc { election_timeout = max_int64 }

  unfoldable pub reset_heartbeat_timer : ℕ → RaftCore V → RaftCore V
  reset_heartbeat_timer now rc = record rc {
    heartbeat_timeout = unix_milli now + heartbeat_interval;
  }

  unfoldable pub switch_to_follower : ℕ → ℕ → RaftCore V → RaftCore V
  unfolding persist_term_and_vote reset_election_timer
  switch_to_follower now term rc =
      reset_election_timer now
        (persist_term_and_vote (record rc { current_term = term; role = follower; voted_for = "" }))

  unfoldable pub switch_to_candidate : ℕ → RaftCore V → RaftCore V
  unfolding persist_term_and_vote reset_election_timer
  switch_to_candidate now rc =
      let standing = persist_term_and_vote (record rc {
        role = candidate;
        current_term = next_term rc.current_term;
        voted_for = rc.id;
      }) in
      reset_election_timer now (record standing { leader_hint = "" })

  -- Give a node the next index after the last entry, and no match.
  unfoldable start_tracking : ℕ → String → RaftCore V → RaftCore V
  start_tracking last node rc = record rc {
    next_index = insert node (last + 1) rc.next_index;
    match_index = insert node (pos 0) rc.match_index;
  }

  -- The loops over peers or learners that skip this node.
  unfoldable pub track_all : ℕ → List String → RaftCore V → RaftCore V
  unfolding start_tracking
  track_all last [] rc = rc
  track_all last (n ∷ ns) rc =
      track_all last ns (if str_eq n rc.id then rc else start_tracking last n rc)

  unfoldable pub switch_to_leader : ℕ → RaftCore V → RaftCore V
  unfolding disable_election_timer reset_heartbeat_timer track_all
  switch_to_leader now rc =
      let last = (get_last_log_index rc.log).0 in
      let led = reset_heartbeat_timer now (disable_election_timer (record rc { role = leader })) in
      emit go_broadcast_heartbeat (track_all last led.learners (track_all last led.peers led))

  unfoldable pub reset_vote_result : RaftCore V → RaftCore V
  reset_vote_result rc = record rc { vote_result = insert rc.id true [] }

  unfoldable pub record_vote : String → Bool → RaftCore V → RaftCore V
  record_vote from granted rc = record rc { vote_result = insert from granted rc.vote_result }

  unfoldable pub has_majority_votes : RaftCore V → Bool
  unfolding count_votes
  has_majority_votes rc = leb (length rc.peers / 2 + 1) (count_votes rc.vote_result)

  -- A response goes to the sender that waits for it, once.
  unfoldable pub complete_pending : RaftPayload V → RaftCore V → RaftCore V
  unfolding mem_id remove_id
  complete_pending p rc = elim (mem_id p.invoke_id rc.pending) [
    | true ↦ emit (deliver p.invoke_id p) (record rc { pending = remove_id p.invoke_id rc.pending })
    | false ↦ rc
  ]

  abbrev pub append_response : String → Bool → ℕ → ℕ → ℕ → RaftCore V → RaftPayload V
  append_response leader_id success conflict_term conflict_index invoke_id rc =
      record (blank append_entries_response) {
        term = rc.current_term;
        success = success;
        leader_id = leader_id;
        conflict_term = conflict_term;
        conflict_index = conflict_index;
        commit_index = (get_last_log_index rc.log).0;
        invoke_id = invoke_id;
        group = rc.group;
      }

  unfoldable pub reply_append_entries : String → Bool → ℕ → ℕ → ℕ → RaftCore V → RaftCore V
  reply_append_entries leader_id success conflict_term conflict_index invoke_id rc =
      emit
        (send leader_id
          (append_response leader_id success conflict_term conflict_index invoke_id rc))
        rc
