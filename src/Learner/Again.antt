-- ===== src/Learner/Again.antt =====
-- core/Learner.go: an entry past the snapshot that a snapshot learner is sent again.
use majula.Prelude.{
  ℕ, zero, suc, ◌+◌, ◌≡◌, ◌<◌, refl, ap, ◌∙◌, [], ◌∷◌, ◌++◌, true, false, length, ltb, arith,
  Bool-cases, inl, inr, length-append,
}
use majula.Prelude.Outcome.{ok}
use majula.Raft.Types.{RaftLogEntry}
use majula.Learner.{RaftLearner, cut_entry, save_entry, store_at, store_entry, store_snapshot_entry}

module _ {ℓ} {V : Type ℓ} where
  store_at_beyond :
      (i : ℕ) (e : RaftLogEntry V) (lc : RaftLearner V)
      → length lc.log < i
      → store_at i e lc ≡ ok (save_entry e lc)
  unfolding store_at cut_entry
  store_at_beyond zero e lc h = elim h [ ]
  store_at_beyond (suc i) e lc h =
      let beyond : ltb i (length lc.log) ≡ false = ground arith in rw beyond refl

  save_entry_new :
      (e : RaftLogEntry V) (lc : RaftLearner V)
      → length lc.log < e.index
      → ((save_entry e lc).log ≡ lc.log ++ e ∷ [])
        × ((save_entry e lc).snapshot_index ≡ lc.snapshot_index)
  unfolding save_entry
  save_entry_new e lc h = ground arith

  store_snapshot_entry_beyond :
      (e : RaftLogEntry V) (lc : RaftLearner V)
      → lc.snapshot_index < e.index
      → length lc.log < e.index
      → (lc' : RaftLearner V) × (store_snapshot_entry e lc ≡ ok lc')
        × (lc'.log ≡ lc.log ++ e ∷ [])
        × (lc'.snapshot_index ≡ lc.snapshot_index)
  unfolding store_snapshot_entry store_entry
  store_snapshot_entry_beyond e lc h l =
      let past : ltb lc.snapshot_index e.index ≡ true = ground arith in
      let saved = save_entry e lc in
      let (a, b) = save_entry_new e lc l in
      elim (Bool-cases (ltb saved.max_applied_index e.index)) [
        | inl higher ↦ (
          record saved { max_applied_index = e.index },
          rw past (rw (store_at_beyond e.index e lc l) (rw higher refl)),
          a,
          b,
        )
        | inr lower ↦ (saved, rw past (rw (store_at_beyond e.index e lc l) (rw lower refl)), a, b)
      ]

  -- An entry past the snapshot whose index lies beyond the end of the log by more than one is
  -- appended each time it is delivered.
  store_snapshot_entry_again :
      (e : RaftLogEntry V) (lc : RaftLearner V)
      → lc.snapshot_index < e.index
      → length lc.log + 1 < e.index
      → (lc' lc'' : RaftLearner V) × (store_snapshot_entry e lc ≡ ok lc')
        × (store_snapshot_entry e lc' ≡ ok lc'')
        × (lc''.log ≡ (lc.log ++ e ∷ []) ++ e ∷ [])
  store_snapshot_entry_again e lc h l =
      let (mid, a, b, c) = store_snapshot_entry_beyond e lc h (omega arith) in
      let n : length mid.log ≡ length lc.log + 1 =
        ap length b ∙ omega (arith, length-append lc.log (e ∷ [])) in
      let (done, f, g, k) =
        store_snapshot_entry_beyond e mid (omega (arith, c)) (omega (arith, n)) in
      (mid, done, a, f, g ∙ ap (λ m. m ++ e ∷ []) b)
