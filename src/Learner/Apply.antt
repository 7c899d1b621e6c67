-- ===== src/Learner/Apply.antt =====
-- core/Learner.go: applying the log neither panics nor touches the log, here or in storage.
use majula.Prelude.{
  some, [], ◌∷◌, take, drop, get_elem?, ℕ, zero, suc, ◌+◌, ◌-◌, ◌≡◌, ◌≤◌, ◌<◌, refl, ap, sym, ◌∙◌,
  subst, length, get_elem?_lt, ltb, leb, min, arith, Bool-cases, inl, inr,
}
use majula.Prelude.Outcome.{ok}
use majula.Raft.Types.{RaftLogEntry, RaftCommand, RaftOpType, put}
use majula.Raft.Core.Effects.{machine, execute, execute_all, execute_all-append, slice_step}
use majula.Raft.Log.Dense.{IsDense}
use majula.Learner.{
  RaftLearner, save_progress, apply_command, notify, apply_next, apply_rounds,
  apply_log_to_state_machine, follow_commit,
}
use majula.Learner.Ran.{Ran, Ran-still, Ran-by}
use majula.Learner.Stored.{stored, InStep}

module _ {ℓ} {V : Type ℓ} where
  -- The log and what storage holds of it are as before.
  record Keeps (lc lc' : RaftLearner V) : Type ℓ where
    log : lc'.log ≡ lc.log
    stored : stored lc'.trace ≡ stored lc.trace
    commit_index : lc'.commit_index ≡ lc.commit_index

  InStep-Keeps : {lc lc' : RaftLearner V} → InStep lc → Keeps lc lc' → InStep lc'
  InStep-Keeps s k = record {
    dense = subst IsDense (sym k.log) s.dense;
    same = k.stored ∙ (s.same ∙ sym k.log);
  }

  Keeps-trans : {a b c : RaftLearner V} → Keeps a b → Keeps b c → Keeps a c
  Keeps-trans p q = record {
    log = q.log ∙ p.log;
    stored = q.stored ∙ p.stored;
    commit_index = q.commit_index ∙ p.commit_index;
  }

  apply_command_kept :
      (op : RaftOpType) (cmd : RaftCommand V) (lc : RaftLearner V)
      → Keeps lc (apply_command op cmd lc)
        × ((apply_command op cmd lc).last_applied ≡ lc.last_applied)
        × (machine (apply_command op cmd lc).trace ≡ execute op cmd (machine lc.trace))
  unfolding apply_command stored machine execute
  apply_command_kept put cmd lc =
      (record { log = refl; stored = refl; commit_index = refl }, refl, refl)
  apply_command_kept _ cmd lc =
      (record { log = refl; stored = refl; commit_index = refl }, refl, refl)

  notify_kept :
      (e : RaftLogEntry V) (lc : RaftLearner V)
      → Keeps lc (notify e lc)
        × ((notify e lc).last_applied ≡ lc.last_applied)
        × (machine (notify e lc).trace ≡ machine lc.trace)
  unfolding notify stored machine
  notify_kept e lc = ground arith

  apply_next_kept :
      (lc : RaftLearner V)
      → lc.last_applied < length lc.log
      → (lc' : RaftLearner V) × (e : RaftLogEntry V) × (apply_next lc ≡ ok lc')
        × Keeps lc lc'
        × (lc'.last_applied ≡ lc.last_applied + 1)
        × (get_elem? lc.log lc.last_applied ≡ some e)
        × (machine lc'.trace ≡ execute_all (e ∷ []) (machine lc.trace))
  unfolding apply_next execute_all
  apply_next_kept lc h =
      let (e, at) = get_elem?_lt lc.log lc.last_applied h in
      let moved = record lc { last_applied = lc.last_applied + 1 } in
      let done = apply_command e.command.op e.command moved in
      let (a, b, x) = apply_command_kept e.command.op e.command moved in
      let (c, d, y) = notify_kept e done in
      (
        notify e done,
        e,
        rw at refl,
        Keeps-trans (record { log = a.log; stored = a.stored; commit_index = a.commit_index }) c,
        d ∙ b,
        at,
        y ∙ x,
      )

  apply_rounds_kept :
      (n : ℕ) (lc : RaftLearner V)
      → lc.last_applied + n ≤ length lc.log
      → (lc' : RaftLearner V) × (apply_rounds n lc ≡ ok lc')
        × Keeps lc lc'
        × (lc'.last_applied ≡ lc.last_applied + n)
        × (machine lc'.trace
            ≡ execute_all (take n (drop lc.last_applied lc.log)) (machine lc.trace))
  unfolding apply_rounds execute_all
  apply_rounds_kept zero lc h =
      (lc, refl, record { log = refl; stored = refl; commit_index = refl }, omega arith, refl)
  apply_rounds_kept (suc n) lc h =
      let (mid, e, a, k, l, at, x) = apply_next_kept lc (omega arith) in
      let (lc', b, m, q, y) = apply_rounds_kept n mid (omega (arith, l, ap length k.log)) in
      let rest = take n (drop mid.last_applied mid.log) in
      (
        lc',
        rw a b,
        Keeps-trans k m,
        omega (arith, l, q),
        y
            ∙ (ap (execute_all rest) x
                ∙ (sym (execute_all-append (e ∷ []) rest (machine lc.trace))
                    ∙ ap (λ es. execute_all es (machine lc.trace))
                        (slice_step n lc.last_applied lc.log mid.last_applied mid.log e at l
                          k.log))),
      )

  save_progress_kept :
      (lc : RaftLearner V)
      → Keeps lc (save_progress lc)
        × ((save_progress lc).last_applied ≡ lc.last_applied)
        × (machine (save_progress lc).trace ≡ machine lc.trace)
  unfolding save_progress stored machine
  save_progress_kept lc = (record { log = refl; stored = refl; commit_index = refl }, refl, refl)

  -- The commit index lies in the log and everything up to it has been applied.
  abbrev pub CaughtUp : RaftLearner V → Type 0
  CaughtUp lc = lc.commit_index ≤ lc.last_applied

  apply_log_kept :
      (lc : RaftLearner V)
      → lc.commit_index ≤ length lc.log
      → (lc' : RaftLearner V) × (apply_log_to_state_machine lc ≡ ok lc')
        × Keeps lc lc'
        × CaughtUp lc'
        × Ran lc lc'
  unfolding apply_log_to_state_machine apply_rounds
  apply_log_kept lc h = elim (Bool-cases (leb lc.last_applied lc.commit_index)) [
    | inl behind ↦
        let (mid, a, k, l, x) =
          apply_rounds_kept (lc.commit_index - lc.last_applied) lc (ground arith) in
        let (m, q, y) = save_progress_kept mid in
        (
          save_progress mid,
          rw a refl,
          Keeps-trans k m,
          ground (arith, l, q, k.commit_index, m.commit_index),
          Ran-by (lc.commit_index - lc.last_applied) lc (save_progress mid) (m.log ∙ k.log) (q ∙ l)
              (y ∙ x),
        )
    | inr ahead ↦
        let z : lc.commit_index - lc.last_applied ≡ 0 = ground arith in
        let (m, q, y) = save_progress_kept lc in
        (
          save_progress lc,
          rw z refl,
          m,
          ground (arith, q, m.commit_index),
          Ran-still lc (save_progress lc) q y,
        )
  ]

  pub follow_commit_kept :
      (c : ℕ) (lc : RaftLearner V)
      → InStep lc
      → CaughtUp lc
      → (lc' : RaftLearner V) × (follow_commit c lc ≡ ok lc')
        × InStep lc'
        × CaughtUp lc'
        × Ran lc lc'
  unfolding follow_commit
  follow_commit_kept c lc s h = elim (Bool-cases (ltb lc.commit_index c)) [
    | inl more ↦
        let moved : RaftLearner V = record lc { commit_index = min c (length lc.log) } in
        let (mid, a, k, u, x) = apply_log_kept moved (omega arith) in
        let (m, q, y) = save_progress_kept mid in
        let s' : InStep moved = record { dense = s.dense; same = s.same } in
        (
          save_progress mid,
          rw more (rw a refl),
          InStep-Keeps s' (Keeps-trans k m),
          omega (arith, q, m.commit_index, u),
          record {
            grows = omega (arith, q, x.grows);
            machine = y ∙ (x.machine ∙ rw (q, m.log) refl);
          },
        )
    | inr done ↦ (lc, rw done refl, s, h, Ran-still lc lc refl refl)
  ]
