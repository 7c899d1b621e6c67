-- ===== src/Raft/Append/Progress.antt =====
-- core/Raft.go: the steps of handleAppendEntries, each by what it leaves.
use majula.Prelude.{
  ℕ, zero, suc, ◌+◌, ◌-◌, ◌≡◌, ◌≤◌, refl, ap, sym, ◌∙◌, List, [], ◌∷◌, ◌++◌, arith, length, take,
  drop, if◌then◌else◌, Bool-cases, inl, inr, ltb, min, length-take_le, ltb→lt, ltb_false→le,
}
use majula.Prelude.Outcome.{ok, >>=-eq-ok, ok_injective}
use majula.Raft.Types.{RaftLogEntry, RaftPayload}
use majula.Raft.Log.{append_log, append_entry, cut_conflict}
use majula.Raft.Core.{RaftCore, switch_to_follower}
use majula.Raft.Core.Apply.{save_progress}
use majula.Raft.Core.Effects.{machine, execute_all}
use majula.Raft.Core.Machine.{Applied, apply_log_to_state_machine-Applied}
use majula.Raft.Append.{store_entry, save_entry, store_entries, follow_commit, hear_leader}

module _ {ℓ} {V : Type ℓ} where
  -- The same commit progress and key-value state.
  pub record Keeps (rc rc' : RaftCore V) : Type ℓ where
    pub commit_index : rc'.commit_index ≡ rc.commit_index
    pub last_applied : rc'.last_applied ≡ rc.last_applied
    pub machine : machine rc'.trace ≡ machine rc.trace

  save_entry_log :
      (e : RaftLogEntry V) (cut : List (RaftLogEntry V)) (rc : RaftCore V)
      → ((save_entry e cut rc).log ≡ (if ltb (length cut) e.index then cut ++ e ∷ [] else cut))
        × Keeps rc (save_entry e cut rc)
  unfolding save_entry machine
  save_entry_log e cut rc = ground arith

  store_entry_log :
      (e : RaftLogEntry V) (rc : RaftCore V) (l : List (RaftLogEntry V))
      → append_entry e rc.log ≡ ok l
      → (rc' : RaftCore V) × (store_entry e rc ≡ ok rc') × (rc'.log ≡ l) × Keeps rc rc'
  unfolding store_entry append_entry
  store_entry_log e rc l h =
      let (cut, a, b) = >>=-eq-ok (cut_conflict e rc.log) _ h in
      let (c, k) = save_entry_log e cut rc in
      (save_entry e cut rc, rw a refl, c ∙ ok_injective b, k)

  pub store_entries_log :
      (es : List (RaftLogEntry V)) (rc : RaftCore V) (l : List (RaftLogEntry V))
      → append_log es rc.log ≡ ok l
      → (rc' : RaftCore V) × (store_entries es rc ≡ ok rc') × (rc'.log ≡ l) × Keeps rc rc'
  unfolding store_entries append_log
  store_entries_log [] rc l h = (
    rc,
    refl,
    ok_injective h,
    record { commit_index = refl; last_applied = refl; machine = refl },
  )
  store_entries_log (e ∷ es) rc l h =
      let (mid_log, a, b) = >>=-eq-ok (append_entry e rc.log) (append_log es) h in
      let (mid, c, d, k) = store_entry_log e rc mid_log a in
      let (rc', f, g, m) = store_entries_log es mid l (rw d b) in
      (
        rc',
        rw c f,
        g,
        record {
          commit_index = m.commit_index ∙ k.commit_index;
          last_applied = m.last_applied ∙ k.last_applied;
          machine = m.machine ∙ k.machine;
        },
      )

  pub hear_leader_kept :
      (now : ℕ) (p : RaftPayload V) (rc : RaftCore V)
      → ((hear_leader now p rc).log ≡ rc.log) × Keeps rc (hear_leader now p rc)
  unfolding hear_leader switch_to_follower machine
  hear_leader_kept now p rc = ground arith

  -- What following the leader's commit index c leaves.
  pub record Follows (c : ℕ) (rc rc' : RaftCore V) : Type ℓ where
    pub log : rc'.log ≡ rc.log
    pub commit_index :
        rc'.commit_index
        ≡ (if ltb rc.commit_index c then min c (length rc.log) else rc.commit_index)
    pub caught_up : rc'.commit_index ≤ rc'.last_applied
    pub machine :
        machine rc'.trace
        ≡ execute_all
            (take (rc'.commit_index - rc.last_applied) (drop rc.last_applied rc.log))
            (machine rc.trace)

  save_progress_kept :
      (rc : RaftCore V) → ((save_progress rc).log ≡ rc.log) × Keeps rc (save_progress rc)
  unfolding save_progress machine
  save_progress_kept rc = ground arith

  no_entries : (n : ℕ) (log : List (RaftLogEntry V)) → n ≡ 0 → take n log ≡ []
  no_entries zero log h = refl
  no_entries (suc n) log h = absurd (omega arith)

  length-slice :
      (n i : ℕ) (log : List (RaftLogEntry V))
      → n + i ≤ length log
      → length (take n (drop i log)) ≡ n
  length-slice n zero log h = length-take_le n log (omega arith)
  length-slice zero (suc i) [] h = refl
  length-slice (suc n) (suc i) [] h = absurd (omega arith)
  length-slice n (suc i) (e ∷ log) h = length-slice n i log (omega arith)

  Applied-all :
      (rc mid rc' : RaftCore V)
      → rc.commit_index ≤ length rc.log
      → Applied rc (take (rc.commit_index - rc.last_applied) (drop rc.last_applied rc.log)) mid
      → Keeps mid rc'
      → rc'.commit_index ≤ rc'.last_applied
  Applied-all rc mid rc' h p k = elim (Bool-cases (ltb rc.commit_index rc.last_applied)) [
    | inl ahead ↦
        omega
          (arith, p.last_applied, p.commit_index, k.last_applied, k.commit_index, ltb→lt _ _ ahead)
    | inr behind ↦
        let le = ltb_false→le _ _ behind in
        omega (
          arith,
          p.last_applied,
          p.commit_index,
          k.last_applied,
          k.commit_index,
          le,
          length-slice (rc.commit_index - rc.last_applied) rc.last_applied rc.log (omega arith),
        )
  ]

  pub follow_commit-Follows :
      (c : ℕ) (rc : RaftCore V)
      → rc.commit_index ≤ rc.last_applied
      → (rc' : RaftCore V) × (follow_commit c rc ≡ ok rc') × Follows c rc rc'
  unfolding follow_commit execute_all
  follow_commit-Follows c rc h = elim (Bool-cases (ltb rc.commit_index c)) [
    | inl more ↦
        let moved : RaftCore V = record rc { commit_index = min c (length rc.log) } in
        let (mid, a, p) = apply_log_to_state_machine-Applied moved (omega arith) in
        let (l, k) = save_progress_kept mid in
        (
          save_progress mid,
          rw more (rw a refl),
          record {
            log = l ∙ p.log;
            commit_index = rw more (k.commit_index ∙ p.commit_index);
            caught_up = Applied-all moved mid (save_progress mid) (omega arith) p k;
            machine =
                k.machine
                ∙ (p.machine
                    ∙ ap
                        (λ n.
                          execute_all (take (n - rc.last_applied) (drop rc.last_applied rc.log))
                            (machine rc.trace))
                        (sym (k.commit_index ∙ p.commit_index)));
          },
        )
    | inr done ↦ (
      rc,
      rw done refl,
      record {
        log = refl;
        commit_index = rw done refl;
        caught_up = h;
        machine =
            rw
              (no_entries (rc.commit_index - rc.last_applied) (drop rc.last_applied rc.log)
                (omega arith))
              refl;
      },
    )
  ]
