-- ===== src/Raft/Core/Machine.antt =====
-- core/Raft.go: applyLogToStateMachine against the fold of the log over a key-value state.
use native.Mathlib.Nat.{add-zero}
use mathlib.Core.List.{append-nil, append_assoc}
use majula.Prelude.{
  ℕ, zero, suc, ◌+◌, ◌-◌, ◌≡◌, ◌≤◌, refl, ap, sym, subst, ◌∙◌, some, List, [], ◌∷◌, ◌++◌, arith,
  length, take, drop, get_elem?, get_elem?_lt, if◌then◌else◌, Bool-cases, inl, inr, length-append,
  leb, leb→le, String, eq_iff,
}
use majula.Prelude.Outcome.{ok}
use majula.Raft.Types.{RaftLogEntry, RaftCommand, RaftOpType, put, del_op}
use majula.Raft.Core.{RaftCore}
use majula.Raft.Core.Tracking.{tracking, enlist, enlist_all, enlist_all-append}
use majula.Raft.Core.Apply.{
  apply_command, notify, save_progress, apply_next, apply_rounds, apply_log_to_state_machine,
}
use majula.Raft.Core.Effects.{
  machine, callbacks, execute, execute_all, stray, execute_all-append, slice_step,
}

module _ {ℓ} {V : Type ℓ} where
  -- After a run of rounds on the entries es.
  pub record Applied (rc : RaftCore V) (es : List (RaftLogEntry V)) (rc' : RaftCore V)
      : Type ℓ where
    pub last_applied : rc'.last_applied ≡ rc.last_applied + length es
    pub commit_index : rc'.commit_index ≡ rc.commit_index
    pub log : rc'.log ≡ rc.log
    pub role : rc'.role ≡ rc.role
    pub group : rc'.group ≡ rc.group
    pub has_apply_callback : rc'.has_apply_callback ≡ rc.has_apply_callback
    pub machine : machine rc'.trace ≡ execute_all es (machine rc.trace)
    pub stray : stray rc.group rc'.trace ≡ stray rc.group rc.trace
    pub tracking : tracking rc' ≡ enlist_all rc.commit_index es (tracking rc)
    pub callbacks :
        callbacks rc'.trace
        ≡ (if rc.has_apply_callback then callbacks rc.trace ++ es else callbacks rc.trace)

  apply_command_kept :
      (op : RaftOpType) (cmd : RaftCommand V) (rc : RaftCore V)
      → let rc' = apply_command op cmd rc in
        (rc'.last_applied ≡ rc.last_applied)
        × (rc'.commit_index ≡ rc.commit_index)
        × (rc'.log ≡ rc.log)
        × (rc'.role ≡ rc.role)
        × (rc'.has_apply_callback ≡ rc.has_apply_callback)
        × (machine rc'.trace ≡ execute op cmd (machine rc.trace))
        × (callbacks rc'.trace ≡ callbacks rc.trace)
        × (rc'.group ≡ rc.group)
        × (stray rc.group rc'.trace ≡ stray rc.group rc.trace)
        × (tracking rc' ≡ enlist rc.commit_index op cmd (tracking rc))
  unfolding apply_command machine callbacks execute stray enlist
  apply_command_kept put cmd rc = (
    refl,
    refl,
    refl,
    refl,
    refl,
    refl,
    refl,
    refl,
    ground (arith, eq_iff rc.group rc.group),
    refl,
  )
  apply_command_kept del_op cmd rc = (
    refl,
    refl,
    refl,
    refl,
    refl,
    refl,
    refl,
    refl,
    ground (arith, eq_iff rc.group rc.group),
    refl,
  )
  apply_command_kept _ cmd rc = (refl, refl, refl, refl, refl, refl, refl, refl, refl, refl)

  finish_kept :
      (e : RaftLogEntry V) (rc : RaftCore V)
      → let rc' = save_progress (notify e rc) in
        (rc'.last_applied ≡ rc.last_applied)
        × (rc'.commit_index ≡ rc.commit_index)
        × (rc'.log ≡ rc.log)
        × (rc'.role ≡ rc.role)
        × (rc'.has_apply_callback ≡ rc.has_apply_callback)
        × (machine rc'.trace ≡ machine rc.trace)
        × (callbacks rc'.trace
            ≡ (if rc.has_apply_callback then callbacks rc.trace ++ e ∷ [] else callbacks rc.trace))
        × (rc'.group ≡ rc.group)
        × ((g : String) → stray g rc'.trace ≡ stray g rc.trace)
        × (tracking rc' ≡ tracking rc)
  unfolding notify save_progress machine callbacks stray
  finish_kept e rc = elim (Bool-cases rc.has_apply_callback) [
    | inl told ↦ rw told (refl, refl, refl, refl, refl, refl, refl, refl, λ g. refl, refl)
    | inr alone ↦ rw alone (refl, refl, refl, refl, refl, refl, refl, refl, λ g. refl, refl)
  ]

  apply_next-Applied :
      (rc : RaftCore V) (e : RaftLogEntry V)
      → get_elem? rc.log rc.last_applied ≡ some e
      → (rc' : RaftCore V) × (apply_next rc ≡ ok rc') × Applied rc (e ∷ []) rc'
  unfolding apply_next execute_all enlist_all
  apply_next-Applied rc e h =
      let moved = record rc { last_applied = rc.last_applied + 1 } in
      let done = apply_command e.command.op e.command moved in
      let k = apply_command_kept e.command.op e.command moved in
      let f = finish_kept e done in
      (
        save_progress (notify e done),
        rw h refl,
        record {
          last_applied = f.0 ∙ k.0;
          commit_index = f.1 ∙ k.1;
          log = f.2 ∙ k.2;
          role = f.3 ∙ k.3;
          has_apply_callback = f.4 ∙ k.4;
          machine = f.5 ∙ k.5;
          callbacks = f.6 ∙ rw (k.4, k.6);
          group = f.7 ∙ k.7;
          stray = f.8 rc.group ∙ k.8;
          tracking = f.9 ∙ k.9;
        },
      )

  Applied-trans :
      {a b c : RaftCore V} {es fs : List (RaftLogEntry V)}
      → Applied a es b
      → Applied b fs c
      → Applied a (es ++ fs) c
  Applied-trans {a} {b} {c} {es} {fs} p q = record {
    last_applied = omega (arith, p.last_applied, q.last_applied, length-append es fs);
    commit_index = q.commit_index ∙ p.commit_index;
    log = q.log ∙ p.log;
    role = q.role ∙ p.role;
    has_apply_callback = q.has_apply_callback ∙ p.has_apply_callback;
    machine =
        q.machine
        ∙ (ap (execute_all fs) p.machine ∙ sym (execute_all-append es fs (machine a.trace)));
    group = q.group ∙ p.group;
    stray = subst (λ g. stray g c.trace ≡ stray g b.trace) p.group q.stray ∙ p.stray;
    tracking =
        q.tracking
        ∙ (rw (p.commit_index, p.tracking)
            (sym (enlist_all-append a.commit_index es fs (tracking a))));
    callbacks = ground (
      arith,
      p.callbacks,
      q.callbacks,
      p.has_apply_callback,
      append_assoc (callbacks a.trace) es fs,
    );
  }

  no_rounds :
      (rc : RaftCore V) → (rc' : RaftCore V) × (apply_rounds zero rc ≡ ok rc') × Applied rc [] rc'
  unfolding apply_rounds execute_all enlist_all
  no_rounds rc = (
    rc,
    refl,
    record {
      last_applied = sym (add-zero rc.last_applied);
      commit_index = refl;
      log = refl;
      role = refl;
      has_apply_callback = refl;
      group = refl;
      stray = refl;
      tracking = refl;
      machine = refl;
      callbacks = ground (arith, append-nil (callbacks rc.trace));
    },
  )

  -- The rounds apply the entries from last_applied on, in order, each once.
  apply_rounds-Applied :
      (n : ℕ) (rc : RaftCore V)
      → rc.last_applied + n ≤ length rc.log
      → (rc' : RaftCore V) × (apply_rounds n rc ≡ ok rc')
        × Applied rc (take n (drop rc.last_applied rc.log)) rc'
  unfolding apply_rounds execute_all enlist_all
  apply_rounds-Applied zero rc h = no_rounds rc
  apply_rounds-Applied (suc n) rc h =
      let (e, at) = get_elem?_lt rc.log rc.last_applied (omega arith) in
      let (mid, a, p) = apply_next-Applied rc e at in
      let (rc', b, q) =
        apply_rounds-Applied n mid (omega (arith, p.last_applied, ap length p.log)) in
      (
        rc',
        rw a b,
        subst (λ es. Applied rc es rc')
            (slice_step n rc.last_applied rc.log mid.last_applied mid.log e at p.last_applied p.log)
            (Applied-trans p q),
      )

  -- Where the commit index lies in the log, applying returns, and it leaves the group's key-value
  -- state (no other group's changes) and the learners with their indices as the entries after
  -- last_applied up to the commit index make them, executed in order and once each; the callback (if
  -- there is one) is told of these entries.
  pub apply_log_to_state_machine-Applied :
      (rc : RaftCore V)
      → rc.commit_index ≤ length rc.log
      → (rc' : RaftCore V) × (apply_log_to_state_machine rc ≡ ok rc')
        × Applied rc (take (rc.commit_index - rc.last_applied) (drop rc.last_applied rc.log)) rc'
  unfolding apply_log_to_state_machine
  apply_log_to_state_machine-Applied rc h =
      elim (Bool-cases (leb rc.last_applied rc.commit_index)) [
        | inl behind ↦
            apply_rounds-Applied (rc.commit_index - rc.last_applied) rc
              (omega (arith, leb→le _ _ behind))
        | inr ahead ↦
            let z : rc.commit_index - rc.last_applied ≡ 0 = ground arith in rw z (no_rounds rc)
      ]
