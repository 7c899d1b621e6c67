-- ===== src/Raft/Append/Agree.antt =====
-- core/Raft.go: handleAppendEntries where the leader's previous entry is in the log.
use majula.Prelude.{
  ℕ, zero, suc, ◌-◌, ◌≡◌, ◌≤◌, refl, ap, sym, subst, ◌∙◌, none, some, List, [], ◌∷◌, ◌++◌, true,
  false, arith, length, take, drop, get_elem?, if◌then◌else◌, ltb, min, length-take_le,
}
use majula.Prelude.Int.{pos}
use majula.Prelude.Outcome.{ok}
use majula.Raft.Types.{RaftLogEntry, RaftPayload}
use majula.Raft.Log.{get_last_log_index, append_log}
use majula.Raft.Log.Merge.{merge, IsNumbered, append_log-merge, merge-IsNumbered}
use majula.Raft.Log.Dense.{
  IsDense, IsNumbered-take, IsNumbered-drop, IsNumbered-append, get_last_log_index-length,
}
use majula.Raft.Core.{
  RaftCore, Effect, send, reset_election_timer, reply_append_entries, append_response,
}
use majula.Raft.Core.Effects.{machine, execute_all}
use majula.Raft.Append.{
  accept_entries, prev_conflict, check_entries, hear_leader, handle_append_entries,
}
use majula.Raft.Append.Progress.{store_entries_log, hear_leader_kept, follow_commit-Follows}

module _ {ℓ} {V : Type ℓ} where
  -- The log has the entry before position k, with term t.
  abbrev pub PrevAgrees : ℕ → ℕ → List (RaftLogEntry V) → Type ℓ
  PrevAgrees zero t log = Unit
  PrevAgrees (suc n) t log = (e : RaftLogEntry V) × (get_elem? log n ≡ some e) × (e.term ≡ t)

  pub take-append-drop : (n : ℕ) (xs : List (RaftLogEntry V)) → take n xs ++ drop n xs ≡ xs
  take-append-drop zero xs = refl
  take-append-drop (suc n) [] = refl
  take-append-drop (suc n) (x ∷ xs) = ap (λ l. x ∷ l) (take-append-drop n xs)

  append_log-at :
      (k : ℕ) (log es : List (RaftLogEntry V))
      → k ≤ length log
      → IsNumbered k es
      → append_log es log ≡ ok (take k log ++ merge (drop k log) es)
  append_log-at k log es h num =
      let n : length (take k log) ≡ k = length-take_le k log h in
      subst (λ l. append_log es l ≡ ok (take k log ++ merge (drop k log) es))
        (take-append-drop k log)
        (append_log-merge es (take k log) (drop k log) (subst (λ i. IsNumbered i es) (sym n) num))

  merged-IsDense :
      (k : ℕ) (log es : List (RaftLogEntry V))
      → k ≤ length log
      → IsDense log
      → IsNumbered k es
      → IsDense (take k log ++ merge (drop k log) es)
  merged-IsDense k log es h d num =
      let n : length (take k log) ≡ k = length-take_le k log h in
      IsNumbered-append 0 (take k log) (merge (drop k log) es) (IsNumbered-take 0 k log d) (
        subst (λ i. IsNumbered i (merge (drop k log) es)) (omega (arith, n))
          (merge-IsNumbered k (drop k log) es
            (subst (λ i. IsNumbered i (drop k log)) (omega arith) (IsNumbered-drop 0 k log h d))
            num))

  prev_conflict-none :
      (k t : ℕ) (log : List (RaftLogEntry V))
      → PrevAgrees k t log
      → prev_conflict (pos k) t log ≡ ok none
  unfolding prev_conflict
  prev_conflict-none zero t log h = refl
  prev_conflict-none (suc n) t log h = ground (arith, h.1, h.2)

  -- What a member answers and keeps when it accepts the entries es after index k.
  pub record Accepts (p : RaftPayload V) (k : ℕ) (rc rc' : RaftCore V) : Type ℓ where
    pub log : rc'.log ≡ take k rc.log ++ merge (drop k rc.log) p.entries
    pub dense : IsDense rc'.log
    pub commit_index : rc'.commit_index ≡ (
        if ltb rc.commit_index p.leader_commit
        then min p.leader_commit (length rc'.log)
        else rc.commit_index)
    pub caught_up : rc'.commit_index ≤ rc'.last_applied
    pub machine :
        machine rc'.trace
        ≡ execute_all
            (take (rc'.commit_index - rc.last_applied) (drop rc.last_applied rc'.log))
            (machine rc.trace)
    pub reply : RaftPayload V
    pub before : List (Effect V)
    pub sent : rc'.trace ≡ send p.leader_id reply ∷ before
    pub success : reply.success ≡ true
    pub reply_index : reply.commit_index ≡ length rc'.log

  accept_entries-Accepts :
      (now : ℕ) (p : RaftPayload V) (k : ℕ) (rc : RaftCore V)
      → IsDense rc.log
      → rc.commit_index ≤ rc.last_applied
      → k ≤ length rc.log
      → IsNumbered k p.entries
      → (rc' : RaftCore V) × (accept_entries now p rc ≡ ok rc') × Accepts p k rc rc'
  unfolding accept_entries reply_append_entries reset_election_timer machine
  accept_entries-Accepts now p k rc d c h num =
      let l = take k rc.log ++ merge (drop k rc.log) p.entries in
      let (stored, a, b, kept) =
        store_entries_log p.entries rc l (append_log-at k rc.log p.entries h num) in
      let (done, e, f) =
        follow_commit-Follows p.leader_commit stored
          (omega (arith, kept.commit_index, kept.last_applied)) in
      let same : done.log ≡ l = f.log ∙ b in
      let dense : IsDense done.log =
        subst IsDense (sym same) (merged-IsDense k rc.log p.entries h d num) in
      let last = (get_last_log_index done.log).0 in
      (
        reset_election_timer now (reply_append_entries p.leader_id true 0 last p.invoke_id done),
        rw a (rw e refl),
        record {
          log = same;
          dense = dense;
          commit_index = f.commit_index ∙ rw (kept.commit_index, b, same) refl;
          caught_up = f.caught_up;
          machine = f.machine ∙ rw (kept.last_applied, b, kept.machine, same) refl;
          reply = append_response p.leader_id true 0 last p.invoke_id done;
          before = done.trace;
          sent = refl;
          success = refl;
          reply_index = get_last_log_index-length done.log dense;
        },
      )

  check_entries-accept :
      (now : ℕ) (p : RaftPayload V) (k : ℕ) (rc : RaftCore V)
      → p.prev_log_index ≡ pos k
      → PrevAgrees k p.prev_log_term rc.log
      → IsDense rc.log
      → k ≤ length rc.log
      → check_entries now p rc ≡ accept_entries now p rc
  unfolding check_entries
  check_entries-accept now p k rc e agrees d h =
      let last = get_last_log_index-length rc.log d in
      let none_found : prev_conflict p.prev_log_index p.prev_log_term rc.log ≡ ok none =
        rw e (prev_conflict-none k p.prev_log_term rc.log agrees) in
      rw none_found (rw (last, e) (ground arith))

  -- For a request of no older term whose previous index k lies in the log, with the entry there
  -- (if k is not 0) of the term the request names, and whose entries are numbered from k on; for
  -- a member with a dense log that has applied what it has committed: the handler returns, and
  -- the new state has the log, commit index, state machine and reply that Accepts lists.
  pub handle_append_entries-Accepts :
      (now : ℕ) (p : RaftPayload V) (k : ℕ) (rc : RaftCore V)
      → rc.current_term ≤ p.term
      → p.prev_log_index ≡ pos k
      → k ≤ length rc.log
      → PrevAgrees k p.prev_log_term rc.log
      → IsNumbered k p.entries
      → IsDense rc.log
      → rc.commit_index ≤ rc.last_applied
      → (rc' : RaftCore V) × (handle_append_entries now p rc ≡ ok rc') × Accepts p k rc rc'
  unfolding handle_append_entries
  handle_append_entries-Accepts now p k rc term e h agrees num d c =
      let heard = hear_leader now p rc in
      let (l, kept) = hear_leader_kept now p rc in
      let fresh : ltb p.term rc.current_term ≡ false = ground arith in
      let agrees' : PrevAgrees k p.prev_log_term heard.log = rw l agrees in
      let d' : IsDense heard.log = rw l d in
      let h' : k ≤ length heard.log = rw l h in
      let (rc', a, r) =
        accept_entries-Accepts now p k heard d'
          (omega (arith, kept.commit_index, kept.last_applied)) h' num in
      (
        rc',
        rw fresh (check_entries-accept now p k heard e agrees' d' h' ∙ a),
        record {
          log = r.log ∙ rw l refl;
          dense = r.dense;
          commit_index = r.commit_index ∙ rw kept.commit_index refl;
          caught_up = r.caught_up;
          machine = r.machine ∙ rw (kept.last_applied, kept.machine) refl;
          reply = r.reply;
          before = r.before;
          sent = r.sent;
          success = r.success;
          reply_index = r.reply_index;
        },
      )
