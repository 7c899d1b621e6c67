-- ===== src/Raft/Append/Refuse.antt =====
-- core/Raft.go: handleAppendEntries where the leader's previous entry is missing or differs.
use majula.Prelude.{
  ℕ, zero, suc, ◌+◌, ◌-◌, ◌≡◌, ◌≢◌, ◌⊎◌, ◌≤◌, ◌<◌, refl, ap, subst, ◌∙◌, some, List, ◌∷◌, false,
  arith, length, take, get_elem?, Bool-cases, inl, inr, ltb, ◌==◌, ltb→lt, ltb_false→le,
}
use majula.Prelude.Int.{pos}
use majula.Prelude.Outcome.{ok}
use majula.Raft.Types.{RaftLogEntry, RaftPayload}
use majula.Raft.Log.{get_last_log_index}
use majula.Raft.Log.Merge.{IsNumbered}
use majula.Raft.Log.Dense.{IsDense, IsNumbered-take, get_last_log_index-length}
use majula.Raft.Core.{
  RaftCore, Effect, emit, send, switch_to_follower, reset_election_timer, reply_append_entries,
  append_response,
}
use majula.Raft.Core.Effects.{machine}
use majula.Raft.Append.{prev_conflict, check_entries, hear_leader, handle_append_entries}
use majula.Raft.Append.Progress.{Keeps, hear_leader_kept}
use majula.Raft.Log.Conflict.{IsRunStart, conflict_start-IsRunStart}
use majula.Raft.Append.Agree.{PrevAgrees, handle_append_entries-Accepts}
use majula.Raft.Append.{resolve_conflict}
use majula.Raft.Core.{delete_logs_from}
use majula.Prelude.{get_elem?_lt}

module _ {ℓ} {V : Type ℓ} where
  -- What a member answers and keeps when its entry at the leader's previous index, e, is of
  -- another term: it drops the log from the start c of the run of that term, in storage too, and
  -- reports the term and c.
  pub record Backs (p : RaftPayload V) (n : ℕ) (e : RaftLogEntry V) (rc rc' : RaftCore V)
      : Type ℓ where
    pub start : ℕ
    pub run : IsRunStart rc.log e.term (suc n) start
    pub log : rc'.log ≡ take (start - 1) rc.log
    pub keeps : Keeps rc rc'
    pub reply : RaftPayload V
    pub before : List (Effect V)
    pub sent : rc'.trace ≡ send p.leader_id reply ∷ delete_logs_from rc.group start ∷ before
    pub success : reply.success ≡ false
    pub conflict_term : reply.conflict_term ≡ e.term
    pub conflict_index : reply.conflict_index ≡ start

  resolve_conflict-Backs :
      (now : ℕ) (p : RaftPayload V) (n : ℕ) (e : RaftLogEntry V) (rc : RaftCore V)
      → p.prev_log_index ≡ pos (suc n)
      → n < length rc.log
      → get_elem? rc.log n ≡ some e
      → (rc' : RaftCore V) × (resolve_conflict now p e.term rc ≡ ok rc') × Backs p n e rc rc'
  unfolding resolve_conflict reply_append_entries reset_election_timer machine
  resolve_conflict-Backs now p n e rc q h at =
      let (c, a, run) = conflict_start-IsRunStart rc.log n e.term e at refl h in
      let cut : RaftCore V =
        emit (delete_logs_from rc.group c) (record rc { log = take (c - 1) rc.log }) in
      (
        reset_election_timer now (reply_append_entries p.leader_id false e.term c p.invoke_id cut),
        rw q (rw a refl),
        record {
          start = c;
          run = run;
          log = refl;
          keeps = record { commit_index = refl; last_applied = refl; machine = refl };
          reply = append_response p.leader_id false e.term c p.invoke_id cut;
          before = rc.trace;
          sent = refl;
          success = refl;
          conflict_term = refl;
          conflict_index = refl;
        },
      )

  prev_conflict-some :
      (n t : ℕ) (log : List (RaftLogEntry V)) (e : RaftLogEntry V)
      → get_elem? log n ≡ some e
      → e.term ≢ t
      → prev_conflict (pos (suc n)) t log ≡ ok (some e.term)
  unfolding prev_conflict
  prev_conflict-some n t log e at differs = ground arith

  check_entries-resolve :
      (now : ℕ) (p : RaftPayload V) (n : ℕ) (e : RaftLogEntry V) (rc : RaftCore V)
      → p.prev_log_index ≡ pos (suc n)
      → IsDense rc.log
      → n < length rc.log
      → get_elem? rc.log n ≡ some e
      → e.term ≢ p.prev_log_term
      → check_entries now p rc ≡ resolve_conflict now p e.term rc
  unfolding check_entries
  check_entries-resolve now p n e rc q d h at differs =
      let last = get_last_log_index-length rc.log d in
      let found : prev_conflict p.prev_log_index p.prev_log_term rc.log ≡ ok (some e.term) =
        rw q (prev_conflict-some n p.prev_log_term rc.log e at differs) in
      rw found (rw (last, q) (ground arith))

  hear_leader_group :
      (now : ℕ) (p : RaftPayload V) (rc : RaftCore V) → (hear_leader now p rc).group ≡ rc.group
  unfolding hear_leader switch_to_follower
  hear_leader_group now p rc = ground arith

  -- For a request of no older term whose previous index lies in the dense log, at an entry e of
  -- another term than the request names: the handler returns, the log is cut, in storage too, at
  -- the start of the run of entries of e's term, commit progress and state machine stay, and the
  -- last effect is a refusal that reports the term and that start.
  pub handle_append_entries-Backs :
      (now : ℕ) (p : RaftPayload V) (n : ℕ) (e : RaftLogEntry V) (rc : RaftCore V)
      → rc.current_term ≤ p.term
      → p.prev_log_index ≡ pos (suc n)
      → IsDense rc.log
      → n < length rc.log
      → get_elem? rc.log n ≡ some e
      → e.term ≢ p.prev_log_term
      → (rc' : RaftCore V) × (handle_append_entries now p rc ≡ ok rc') × Backs p n e rc rc'
  unfolding handle_append_entries
  handle_append_entries-Backs now p n e rc term q d h at differs =
      let heard = hear_leader now p rc in
      let (l, kept) = hear_leader_kept now p rc in
      let fresh : ltb p.term rc.current_term ≡ false = ground arith in
      let d' : IsDense heard.log = rw l d in
      let h' : n < length heard.log = rw l h in
      let at' : get_elem? heard.log n ≡ some e = rw l at in
      let (rc', a, r) = resolve_conflict-Backs now p n e heard q h' at' in
      (
        rc',
        rw fresh (check_entries-resolve now p n e heard q d' h' at' differs ∙ a),
        record {
          start = r.start;
          run = subst (λ log. IsRunStart log e.term (suc n) r.start) l r.run;
          log = r.log ∙ rw l refl;
          keeps = record {
            commit_index = (r.keeps).commit_index ∙ kept.commit_index;
            last_applied = (r.keeps).last_applied ∙ kept.last_applied;
            machine = (r.keeps).machine ∙ kept.machine;
          };
          reply = r.reply;
          before = r.before;
          sent =
              r.sent
              ∙ ap (λ g. send p.leader_id r.reply ∷ delete_logs_from g r.start ∷ r.before)
                  (hear_leader_group now p rc);
          success = r.success;
          conflict_term = r.conflict_term;
          conflict_index = r.conflict_index;
        },
      )

  short_log :
      (now : ℕ) (p : RaftPayload V) (k : ℕ) (rc : RaftCore V)
      → p.prev_log_index ≡ pos k
      → IsDense rc.log
      → length rc.log < k
      → (rc' : RaftCore V) × (check_entries now p rc ≡ ok rc') × (rc'.log ≡ rc.log)
  unfolding check_entries reset_election_timer reply_append_entries
  short_log now p k rc q d h =
      let last = get_last_log_index-length rc.log d in
      let index = (get_last_log_index rc.log).0 + 1 in
      (
        reset_election_timer now (reply_append_entries p.leader_id false 0 index p.invoke_id rc),
        rw (last, q) (ground arith),
        refl,
      )

  handle_short :
      (now : ℕ) (p : RaftPayload V) (k : ℕ) (rc : RaftCore V)
      → rc.current_term ≤ p.term
      → p.prev_log_index ≡ pos k
      → IsDense rc.log
      → length rc.log < k
      → (rc' : RaftCore V) × (handle_append_entries now p rc ≡ ok rc') × (rc'.log ≡ rc.log)
  unfolding handle_append_entries
  handle_short now p k rc term q d h =
      let heard = hear_leader now p rc in
      let (l, kept) = hear_leader_kept now p rc in
      let fresh : ltb p.term rc.current_term ≡ false = ground arith in
      let d' : IsDense heard.log = rw l d in
      let h' : length heard.log < k = rw l h in
      let (rc', a, r) = short_log now p k heard q d' h' in (rc', rw fresh a, r ∙ l)

  handle_stale :
      (now : ℕ) (p : RaftPayload V) (rc : RaftCore V)
      → p.term < rc.current_term
      → (rc' : RaftCore V) × (handle_append_entries now p rc ≡ ok rc') × (rc'.log ≡ rc.log)
  unfolding handle_append_entries reply_append_entries
  handle_stale now p rc h =
      (reply_append_entries p.leader_id false 0 0 p.invoke_id rc, ground arith, refl)

  -- The two outcomes of the comparison at the previous index.
  prev-cases :
      (k t : ℕ) (log : List (RaftLogEntry V))
      → k ≤ length log
      → PrevAgrees k t log
        ⊎ ((n : ℕ) × (e : RaftLogEntry V) × (k ≡ suc n)
            × (n < length log)
            × (get_elem? log n ≡ some e)
            × (e.term ≢ t))
  prev-cases zero t log h = inl tt
  prev-cases (suc n) t log h =
      let (e, at) = get_elem?_lt log n h in
      elim (Bool-cases (e.term == t)) [
        | inl same ↦ inl (e, at, ground arith)
        | inr differs ↦ inr (n, e, refl, h, at, ground arith)
      ]

  -- Whatever the terms, and wherever the previous index k (not negative) lies: for a member with
  -- a dense log that has applied what it has committed, and entries numbered from k on, the
  -- handler returns without a panic, and the log is dense again.
  pub handle_append_entries-IsDense :
      (now : ℕ) (p : RaftPayload V) (k : ℕ) (rc : RaftCore V)
      → p.prev_log_index ≡ pos k
      → IsNumbered k p.entries
      → IsDense rc.log
      → rc.commit_index ≤ rc.last_applied
      → (rc' : RaftCore V) × (handle_append_entries now p rc ≡ ok rc') × IsDense rc'.log
  handle_append_entries-IsDense now p k rc q num d c =
      elim (Bool-cases (ltb p.term rc.current_term)) [
        | inl stale ↦ let (rc', a, l) = handle_stale now p rc (ltb→lt _ _ stale) in (rc', a, rw l d)
        | inr fresh ↦ elim (Bool-cases (ltb (length rc.log) k)) [
          | inl short ↦
              let (rc', a, l) =
                handle_short now p k rc (ltb_false→le _ _ fresh) q d (ltb→lt _ _ short) in
              (rc', a, rw l d)
          | inr reaches ↦ elim (prev-cases k p.prev_log_term rc.log (ltb_false→le _ _ reaches)) [
            | inl agrees ↦
                let (rc', a, r) =
                  handle_append_entries-Accepts now p k rc (ltb_false→le _ _ fresh) q
                    (ltb_false→le _ _ reaches) agrees num d c in
                (rc', a, r.dense)
            | inr (n, e, s, h, at, differs) ↦
                let (rc', a, r) =
                  handle_append_entries-Backs now p n e rc (ltb_false→le _ _ fresh) (rw (← s) q) d h
                    at differs in
                (rc', a, rw r.log (IsNumbered-take 0 (r.start - 1) rc.log d))
          ]
        ]
      ]
