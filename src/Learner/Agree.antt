-- ===== src/Learner/Agree.antt =====
-- core/Learner.go: handleAppendEntries of a traditional learner, on all branches.
use majula.Prelude.{
  ℕ, zero, suc, ◌+◌, ◌-◌, ◌≡◌, ◌≤◌, ◌<◌, refl, ap, sym, ◌∙◌, subst, Option, none, some, List, ◌∷◌,
  Bool, true, false, length, take, get_elem?, get_elem?_lt, if◌then◌else◌, ltb, leb, ◌==◌, arith,
  Bool-cases, inl, inr, ltb→lt, ltb_false→le, else_branch,
}
use majula.Prelude.Int.{pos}
use majula.Prelude.Outcome.{Outcome, ok}
use majula.Raft.Types.{RaftLogEntry, RaftPayload}
use majula.Raft.Core.{Effect, send, delete_logs_from}
use majula.Raft.Core.Effects.{machine}
use majula.Raft.Append.{prev_conflict}
use majula.Raft.Log.Merge.{IsNumbered}
use majula.Raft.Log.Dense.{IsNumbered-take}
use majula.Raft.Log.Conflict.{conflict_start-IsRunStart}
use majula.Learner.{
  RaftLearner, reply_append_entries, append_response, accept_entries, resolve_conflict,
  check_entries, hear_leader, handle_append_entries,
}
use majula.Learner.Stored.{stored, before, before-take, InStep, store_entries-Stores}
use majula.Learner.Ran.{Ran, Ran-still, Ran-from}
use majula.Learner.Apply.{CaughtUp, follow_commit_kept}

module _ {ℓ} {V : Type ℓ} where
  -- A handler that returns, in step with storage, that has executed what it has committed beyond the
  -- old last_applied, and that answers.
  pub record Answers (p : RaftPayload V) (lc : RaftLearner V) (r : Outcome (RaftLearner V))
      : Type ℓ where
    pub after : RaftLearner V
    pub returns : r ≡ ok after
    pub step : InStep after
    pub caught_up : CaughtUp after
    pub ran : Ran lc after
    pub reply : RaftPayload V
    pub before : List (Effect V)
    pub sent : after.trace ≡ send p.leader_id reply ∷ before
    pub reply_index : reply.commit_index ≡ length after.log

  answer-Answers :
      (p : RaftPayload V) (success : Bool) (term index : ℕ) (start lc : RaftLearner V)
      → InStep lc
      → CaughtUp lc
      → Ran start lc
      → Answers p start (ok (reply_append_entries p.leader_id success term index p.invoke_id lc))
  unfolding reply_append_entries stored machine
  answer-Answers p success term index start lc s h x = record {
    after = reply_append_entries p.leader_id success term index p.invoke_id lc;
    returns = refl;
    step = record { dense = s.dense; same = s.same };
    caught_up = h;
    ran = record { grows = x.grows; machine = x.machine };
    reply = append_response p.leader_id success term index p.invoke_id lc;
    before = lc.trace;
    sent = refl;
    reply_index = refl;
  }

  accept_entries-Answers :
      (p : RaftPayload V) (k : ℕ) (lc : RaftLearner V)
      → IsNumbered k p.entries
      → k ≤ length lc.log
      → InStep lc
      → CaughtUp lc
      → Answers p lc (accept_entries p lc)
  unfolding accept_entries
  accept_entries-Answers p k lc n l s h =
      let a = store_entries-Stores p.entries k lc n l s in
      let (done, b, t, u, x) =
        follow_commit_kept p.leader_commit a.after a.step
          (omega (arith, a.commit_index, a.last_applied)) in
      rw a.returns (
        rw b (
          answer-Answers p true 0 (length done.log) lc done t u
            (Ran-from a.last_applied a.machine x)))

  resolve_conflict-Answers :
      (p : RaftPayload V) (n : ℕ) (e : RaftLogEntry V) (lc : RaftLearner V)
      → p.prev_log_index ≡ pos (suc n)
      → get_elem? lc.log n ≡ some e
      → n < length lc.log
      → InStep lc
      → CaughtUp lc
      → Answers p lc (resolve_conflict p e.term lc)
  unfolding resolve_conflict stored machine
  resolve_conflict-Answers p n e lc q at l s h =
      let (c, a, run) = conflict_start-IsRunStart lc.log n e.term e at refl l in
      let cut : RaftLearner V = record lc {
        log = take (c - 1) lc.log;
        trace = delete_logs_from lc.group c ∷ lc.trace;
      } in
      let same : stored cut.trace ≡ cut.log =
        ap (before c) s.same
        ∙ (ap (λ m. before m lc.log) (omega (arith, run.positive))
            ∙ before-take (c - 1) 0 lc.log s.dense) in
      let eq : resolve_conflict p e.term lc
          ≡ ok (reply_append_entries p.leader_id false e.term c p.invoke_id cut) =
        rw q (rw a refl) in
      subst (Answers p lc) (sym eq) (
        answer-Answers p false e.term c lc cut
          (record { dense = IsNumbered-take 0 (c - 1) lc.log s.dense; same = same }) h
          (Ran-still lc cut refl refl))

  check_entries_found :
      (p : RaftPayload V) (k : ℕ) (lc : RaftLearner V) (conflict : Option ℕ)
      → p.prev_log_index ≡ pos k
      → k ≤ length lc.log
      → prev_conflict (pos k) p.prev_log_term lc.log ≡ ok conflict
      → check_entries p lc
        ≡ (elim conflict [ none ↦ accept_entries p lc | some t ↦ resolve_conflict p t lc ])
  unfolding check_entries
  check_entries_found p k lc conflict q h c =
      let found : prev_conflict p.prev_log_index p.prev_log_term lc.log ≡ ok conflict = rw q c in
      rw found (rw q (ground arith))

  check_entries_short :
      (p : RaftPayload V) (k : ℕ) (lc : RaftLearner V)
      → p.prev_log_index ≡ pos k
      → length lc.log < k
      → check_entries p lc
        ≡ ok (reply_append_entries p.leader_id false 0 (length lc.log + 1) p.invoke_id lc)
  unfolding check_entries
  check_entries_short p k lc q h = rw q (ground arith)

  prev_conflict_at :
      (i t : ℕ) (log : List (RaftLogEntry V)) (e : RaftLogEntry V)
      → get_elem? log i ≡ some e
      → prev_conflict (pos (suc i)) t log ≡ ok (if e.term == t then none else some e.term)
  unfolding prev_conflict
  prev_conflict_at i t log e at = rw at refl

  check_entries-Answers :
      (p : RaftPayload V) (k : ℕ) (lc : RaftLearner V)
      → p.prev_log_index ≡ pos k
      → IsNumbered k p.entries
      → InStep lc
      → CaughtUp lc
      → Answers p lc (check_entries p lc)
  unfolding prev_conflict
  check_entries-Answers p zero lc q n s h =
      subst (Answers p lc) (sym (check_entries_found p 0 lc none q (omega arith) refl))
        (accept_entries-Answers p 0 lc n (omega arith) s h)
  check_entries-Answers p (suc i) lc q n s h = elim (Bool-cases (ltb (length lc.log) (suc i))) [
    | inl short ↦
        subst (Answers p lc) (sym (check_entries_short p (suc i) lc q (ltb→lt _ _ short)))
          (answer-Answers p false 0 (length lc.log + 1) lc lc s h (Ran-still lc lc refl refl))
    | inr reaches ↦
        let l = ltb_false→le _ _ reaches in
        let (e, at) = get_elem?_lt lc.log i l in
        let c = prev_conflict_at i p.prev_log_term lc.log e at in
        elim (Bool-cases (e.term == p.prev_log_term)) [
          | inl agrees ↦
              subst (Answers p lc)
                (sym (check_entries_found p (suc i) lc none q l (c ∙ rw agrees refl)))
                (accept_entries-Answers p (suc i) lc n l s h)
          | inr differs ↦
              subst (Answers p lc)
                (sym (check_entries_found p (suc i) lc (some e.term) q l (c ∙ rw differs refl)))
                (resolve_conflict-Answers p i e lc q at l s h)
        ]
  ]

  hear_leader_kept :
      (p : RaftPayload V) (lc : RaftLearner V)
      → InStep lc
      → CaughtUp lc
      → let heard = hear_leader p lc in
        (heard.is_snapshot_learner ≡ lc.is_snapshot_learner)
        × InStep heard
        × CaughtUp heard
        × (heard.last_applied ≡ lc.last_applied)
        × (heard.trace ≡ lc.trace)
  unfolding hear_leader
  hear_leader_kept p lc s h = elim (Bool-cases (leb lc.current_term p.term)) [
    | inl newer ↦ rw newer (refl, record { dense = s.dense; same = s.same }, h, refl, refl)
    | inr older ↦ rw older (refl, s, h, refl, refl)
  ]

  -- For entries numbered from the previous index on, whatever the terms and wherever the previous
  -- index lies, a traditional learner that is in step with its storage, and whose commit index is not
  -- beyond last_applied, handles the request without a panic and is so again afterwards. Its
  -- key-value state has then moved on by exactly the entries of its log from the old last_applied up
  -- to the new one, in order, and the last thing that it does is to answer the leader with its log's
  -- length.
  pub handle_append_entries-Answers :
      (p : RaftPayload V) (k : ℕ) (lc : RaftLearner V)
      → lc.is_snapshot_learner ≡ false
      → p.prev_log_index ≡ pos k
      → IsNumbered k p.entries
      → InStep lc
      → CaughtUp lc
      → Answers p lc (handle_append_entries p lc)
  unfolding handle_append_entries
  handle_append_entries-Answers p k lc t q n s h =
      let heard = hear_leader p lc in
      let (same, step, caught_up, progress, trace) = hear_leader_kept p lc s h in
      let a = check_entries-Answers p k heard q n step caught_up in
      subst (Answers p lc) (sym (else_branch heard.is_snapshot_learner _ _ (same ∙ t))) (record {
        after = a.after;
        returns = a.returns;
        step = a.step;
        caught_up = a.caught_up;
        ran = Ran-from progress (ap machine trace) a.ran;
        reply = a.reply;
        before = a.before;
        sent = a.sent;
        reply_index = a.reply_index;
      })
