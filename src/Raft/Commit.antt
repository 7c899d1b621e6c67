-- ===== src/Raft/Commit.antt =====
-- core/Raft.go: the leader's side of replication. sendAppendEntriesTo, broadcastHeartbeat,
-- handleAppendEntriesResponse, advanceCommitIndex, ProposeCommand and quickSelect.
pub mod Select
pub mod Quorum
use majula.Prelude.{
  ℕ, zero, suc, ◌+◌, ◌-◌, ◌/◌, ◌%◌, String, Option, none, some, List, [], ◌∷◌, ◌++◌, Bool, true,
  false, not, length, drop, if◌then◌else◌, ltb, leb, ◌==◌, ◌&&◌, str_eq, filter_if, get_elem?,
}
use majula.Prelude.Int.{ℤ, pos, negsuc, pred_ℤ, succ_ℤ, ltb_ℤ}
use majula.Prelude.Dict.{Dict, lookup, insert, get_or}
use majula.Prelude.Outcome.{Outcome, ok, panic, ◌>>=◌, index as elem}
use majula.Raft.Types.{
  RaftLogEntry, RaftCommand, RaftPayload, blank, append_entries as append_entries_msg,
}
use majula.Raft.Log.{get_last_log_index, find_last_index_of_term}
use majula.Raft.Core.{
  RaftCore, emit, send, send_with_invoke_id, save_log, go_send_append_entries_to,
  switch_to_follower, complete_pending,
}
use majula.Raft.Core.Apply.{apply_log_to_state_machine}
use majula.Raft.Vote.{is_leader}

-- A round of quickSelect from its pivot on; `rec` is the call on one of the parts.
unfoldable pub select_part : (List ℤ → ℕ → Outcome ℤ) → ℤ → List ℤ → ℕ → Outcome ℤ
select_part rec pivot arr k =
    let lows = filter_if (λ v. ltb_ℤ v pivot) arr in
    let highs = filter_if (λ v. ltb_ℤ pivot v) arr in
    let pivots = filter_if (λ v. not (ltb_ℤ v pivot) && not (ltb_ℤ pivot v)) arr in
    if ltb k (length lows)
    then rec lows k
    else if ltb k (length lows + length pivots)
    then ok pivot
    else rec highs (k - length lows - length pivots)

-- The pivot of each round is drawn at random; `draw` gives the number for each depth. Fuel stands
-- for the stack, and an empty list has no pivot.
unfoldable pub quick_select : ℕ → (ℕ → ℕ) → List ℤ → ℕ → Outcome ℤ
quick_select zero draw arr k = panic
quick_select (suc f) draw [] k = panic
quick_select (suc f) draw (x ∷ []) k = ok x
quick_select (suc f) draw (x ∷ (y ∷ r)) k =
    let rec = quick_select f draw in
    elem (x ∷ y ∷ r) (draw f % length (x ∷ y ∷ r)) >>= λ pivot. select_part rec pivot (x ∷ y ∷ r) k

-- The known match indices of the other peers.
unfoldable pub peer_matches : String → Dict ℤ → List String → List ℤ
peer_matches id matches [] = []
peer_matches id matches (peer ∷ peers) =
    let rest = peer_matches id matches peers in
    if str_eq peer id
    then rest
    else elim (lookup peer matches) [ some idx ↦ idx ∷ rest | none ↦ rest ]

unfoldable pub others : String → List String → List String
others id peers = filter_if (λ p. not (str_eq p id)) peers

module _ {ℓ} {V : Type ℓ} where
  unfoldable pub match_indexes : RaftCore V → List ℤ
  unfolding peer_matches
  match_indexes rc = pos (get_last_log_index rc.log).0 ∷ peer_matches rc.id rc.match_index rc.peers

  -- What N passes: beyond the commit index, positive, and an entry of the current term.
  unfoldable pub commit_to : ℤ → RaftCore V → Outcome (RaftCore V)
  commit_to (negsuc n) rc = ok rc
  commit_to (pos zero) rc = ok rc
  commit_to (pos (suc n)) rc =
      if ltb rc.commit_index (suc n)
      then (elem rc.log n >>= λ e.
          if e.term == rc.current_term
          then apply_log_to_state_machine (record rc { commit_index = suc n })
          else ok rc)
      else ok rc

  unfoldable pub advance_commit_index : (ℕ → ℕ) → RaftCore V → Outcome (RaftCore V)
  advance_commit_index draw rc =
      let matches = match_indexes rc in
      quick_select (length matches) draw matches (length matches / 2) >>= λ n. commit_to n rc

  -- What the leader keeps of a follower that stored the entries.
  unfoldable pub record_match : String → ℕ → RaftCore V → RaftCore V
  record_match from index rc =
      if ltb 0 index
      then record rc {
        match_index = insert from (pos index) rc.match_index;
        next_index = insert from (index + 1) rc.next_index;
      }
      else (let before = pred_ℤ (get_or 0 from rc.next_index) in
          record rc {
            match_index = insert from before rc.match_index;
            next_index = insert from (succ_ℤ before) rc.next_index;
          })

  -- Where to go on after a refusal.
  unfoldable pub back_up : String → ℕ → ℕ → RaftCore V → Outcome (RaftCore V)
  back_up from zero conflict_index rc =
      let next = get_or 0 from rc.next_index in
      ok
        (if ltb 1 next then record rc { next_index = insert from (next - 1) rc.next_index } else rc)
  back_up from (suc t) conflict_index rc = find_last_index_of_term rc.log (suc t) >>= λ last.
      ok (record rc {
        next_index = insert from (if ltb 0 last then last + 1 else conflict_index) rc.next_index;
      })

  unfoldable pub handle_append_entries_response :
      ℕ → (ℕ → ℕ) → String → RaftPayload V → RaftCore V → Outcome (RaftCore V)
  handle_append_entries_response now draw from p rc0 =
      let rc = complete_pending p rc0 in
      if ltb rc.current_term p.term
      then ok (switch_to_follower now p.term rc)
      else if not (is_leader rc.role && p.term == rc.current_term)
      then ok rc
      else if p.success
      then advance_commit_index draw (record_match from p.commit_index rc)
      else (back_up from p.conflict_term p.conflict_index rc >>= λ moved.
          ok (emit (go_send_append_entries_to from) moved))

  -- rc.Log[nextIdx-1:], where nextIdx lies in the log; otherwise no entries.
  unfoldable pub entries_from : ℕ → List (RaftLogEntry V) → Outcome (List (RaftLogEntry V))
  entries_from zero log = panic
  entries_from (suc n) log = ok (if leb (suc n) (length log) then drop n log else [])

  -- The term before nextIdx; a nextIdx beyond the end by more than one reads out of range.
  unfoldable pub term_before : ℕ → List (RaftLogEntry V) → Outcome ℕ
  term_before zero log = ok 0
  term_before (suc zero) log = ok 0
  term_before (suc (suc n)) log = elem log n >>= λ e. ok e.term

  unfoldable pub send_append_entries_to : String → RaftCore V → Outcome (RaftCore V)
  send_append_entries_to peer rc =
      let next = get_or 0 peer rc.next_index in
      entries_from next rc.log >>= λ entries. term_before next rc.log >>= λ prev_term. ok (
        emit
          (send_with_invoke_id peer (record (blank append_entries_msg) {
            term = rc.current_term;
            leader_id = rc.id;
            prev_log_index = pred_ℤ next;
            prev_log_term = prev_term;
            entries = entries;
            leader_commit = rc.commit_index;
            group = rc.group;
          }))
          rc)

  -- A heartbeat carries the term before nextIdx where there is one, and no entries.
  unfoldable pub heartbeat_term : ℕ → List (RaftLogEntry V) → ℕ
  heartbeat_term zero log = 0
  heartbeat_term (suc zero) log = 0
  heartbeat_term (suc (suc n)) log = elim (get_elem? log n) [ none ↦ 0 | some e ↦ e.term ]

  unfoldable pub send_heartbeat : String → ℕ → ℕ → RaftCore V → RaftCore V
  send_heartbeat node term commit rc =
      let next = get_or 0 node rc.next_index in
      emit
        (send node (record (blank append_entries_msg) {
          term = term;
          leader_id = rc.id;
          prev_log_index = pred_ℤ next;
          prev_log_term = heartbeat_term next rc.log;
          leader_commit = commit;
          group = rc.group;
        }))
        rc

  unfoldable pub heartbeats_to : List String → ℕ → ℕ → RaftCore V → RaftCore V
  heartbeats_to [] term commit rc = rc
  heartbeats_to (n ∷ ns) term commit rc =
      heartbeats_to ns term commit (send_heartbeat n term commit rc)

  -- The goroutines of one broadcast, run one after another.
  unfoldable pub broadcast_heartbeat : RaftCore V → RaftCore V
  broadcast_heartbeat rc =
      heartbeats_to (others rc.id rc.peers ++ rc.learners) rc.current_term rc.commit_index rc

  unfoldable pub spawn_appends : List String → RaftCore V → RaftCore V
  spawn_appends [] rc = rc
  spawn_appends (n ∷ ns) rc = spawn_appends ns (emit (go_send_append_entries_to n) rc)

  abbrev pub new_entry : RaftCommand V → RaftCore V → RaftLogEntry V
  new_entry cmd rc = record {
    index = (get_last_log_index rc.log).0 + 1;
    term = rc.current_term;
    command = cmd;
  }

  unfoldable pub propose_command : RaftCommand V → RaftCore V → RaftCore V
  propose_command cmd rc =
      if not (is_leader rc.role)
      then rc
      else (let entry = new_entry cmd rc in
          let stored = emit (save_log rc.group entry) (record rc { log = rc.log ++ entry ∷ [] }) in
          spawn_appends stored.learners (spawn_appends (others rc.id rc.peers) stored))
