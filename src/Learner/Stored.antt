-- ===== src/Learner/Stored.antt =====
-- core/Learner.go: what storage holds of the log, and that the append loop keeps it in step with the
-- log in memory.
use majula.Prelude.{
  ℕ, zero, suc, ◌+◌, ◌≡◌, ◌≤◌, ◌<◌, refl, ap, sym, ◌∙◌, subst, List, [], ◌∷◌, ◌++◌, length, take,
  get_elem?_lt, if◌then◌else◌, ltb, ◌==◌, arith, Bool-cases, inl, inr, ltb→lt, ltb_false→le,
  length-append, length-take_le,
}
use majula.Prelude.Outcome.{Outcome, ok}
use majula.Raft.Types.{RaftLogEntry}
use majula.Raft.Core.{Effect, save_log, delete_logs_from}
use majula.Raft.Log.Merge.{IsNumbered}
use majula.Raft.Log.Dense.{IsDense, IsNumbered-take, IsNumbered-append}
use majula.Raft.Core.Effects.{machine}
use majula.Learner.{RaftLearner, cut_entry, save_entry, store_at, store_entry, store_entries}

module _ {ℓ} {V : Type ℓ} where
  -- Storage keeps the entries under their indices, in order.
  unfoldable pub put_at : RaftLogEntry V → List (RaftLogEntry V) → List (RaftLogEntry V)
  put_at e [] = e ∷ []
  put_at e (x ∷ xs) =
      let rest = put_at e xs in
      if ltb x.index e.index then x ∷ rest else if x.index == e.index then e ∷ xs else e ∷ x ∷ xs

  unfoldable pub before : ℕ → List (RaftLogEntry V) → List (RaftLogEntry V)
  before i [] = []
  before i (x ∷ xs) = let rest = before i xs in if ltb x.index i then x ∷ rest else rest

  unfoldable pub stored : List (Effect V) → List (RaftLogEntry V)
  stored [] = []
  stored (save_log g e ∷ es) = put_at e (stored es)
  stored (delete_logs_from g i ∷ es) = before i (stored es)
  stored (e ∷ es) = stored es

  put_at-append :
      (i : ℕ) (e : RaftLogEntry V) (l : List (RaftLogEntry V))
      → IsNumbered i l
      → i + length l < e.index
      → put_at e l ≡ l ++ e ∷ []
  unfolding put_at
  put_at-append i e [] n h = refl
  put_at-append i e (x ∷ xs) n h =
      let ih = put_at-append (suc i) e xs n.1 (omega arith) in ground (arith, n.0, ih)

  before_nil : (i j : ℕ) (l : List (RaftLogEntry V)) → IsNumbered j l → i ≤ suc j → before i l ≡ []
  unfolding before
  before_nil i j [] n h = refl
  before_nil i j (x ∷ xs) n h =
      let ih = before_nil i (suc j) xs n.1 (omega arith) in ground (arith, n.0, ih)

  pub before-take :
      (k i : ℕ) (l : List (RaftLogEntry V)) → IsNumbered i l → before (suc (i + k)) l ≡ take k l
  unfolding before
  before-take zero i [] n = refl
  before-take (suc k) i [] n = refl
  before-take zero i (x ∷ xs) n = before_nil (suc (i + 0)) i (x ∷ xs) n (omega arith)
  before-take (suc k) i (x ∷ xs) n =
      let ih : before (suc (i + suc k)) xs ≡ take k xs =
        ap (λ m. before m xs) (omega arith) ∙ before-take k (suc i) xs n.1 in
      ground (arith, n.0, ih)

  -- The log has no gap, and storage holds the same.
  pub record InStep (lc : RaftLearner V) : Type ℓ where
    pub dense : IsDense lc.log
    pub same : stored lc.trace ≡ lc.log

  -- A call that returns in step, with the same commit progress.
  pub record Stores (lc : RaftLearner V) (r : Outcome (RaftLearner V)) : Type ℓ where
    pub after : RaftLearner V
    pub returns : r ≡ ok after
    pub step : InStep after
    pub commit_index : after.commit_index ≡ lc.commit_index
    pub last_applied : after.last_applied ≡ lc.last_applied
    pub machine : machine after.trace ≡ machine lc.trace

  cut_entry-Stores :
      (e : RaftLogEntry V) (i : ℕ) (lc : RaftLearner V)
      → e.index ≡ suc i
      → InStep lc
      → Stores lc (cut_entry e i lc)
  unfolding cut_entry stored machine
  cut_entry-Stores e i lc n s = elim (Bool-cases (ltb i (length lc.log))) [
    | inl within ↦
        let (x, at) = get_elem?_lt lc.log i (ltb→lt _ _ within) in
        elim (Bool-cases (x.term == e.term)) [
          | inl agrees ↦ record {
            after = lc;
            returns = rw (within, at) (rw agrees refl);
            step = s;
            commit_index = refl;
            last_applied = refl;
            machine = refl;
          }
          | inr differs ↦ record {
            after = record lc {
              log = take i lc.log;
              trace = delete_logs_from lc.group e.index ∷ lc.trace;
            };
            returns = rw (within, at) (rw differs refl);
            step = record {
              dense = IsNumbered-take 0 i lc.log s.dense;
              same =
                  ap (before e.index) s.same
                  ∙ (ap (λ m. before m lc.log) (omega (arith, n)) ∙ before-take i 0 lc.log s.dense);
            };
            commit_index = refl;
            last_applied = refl;
            machine = refl;
          }
        ]
    | inr beyond ↦ record {
      after = lc;
      returns = rw beyond refl;
      step = s;
      commit_index = refl;
      last_applied = refl;
      machine = refl;
    }
  ]

  cut_entry-length :
      (e : RaftLogEntry V) (i : ℕ) (lc lc' : RaftLearner V)
      → i ≤ length lc.log
      → cut_entry e i lc ≡ ok lc'
      → i ≤ length lc'.log
  unfolding cut_entry
  cut_entry-length e i lc lc' h q = elim (Bool-cases (ltb i (length lc.log))) [
    | inl within ↦
        let (x, at) = get_elem?_lt lc.log i (ltb→lt _ _ within) in
        elim (Bool-cases (x.term == e.term)) [
          | inl agrees ↦ ground arith
          | inr differs ↦ ground (arith, length-take_le i lc.log)
        ]
    | inr beyond ↦ ground arith
  ]

  save_entry-InStep :
      (e : RaftLogEntry V) (i : ℕ) (lc : RaftLearner V)
      → e.index ≡ suc i
      → i ≤ length lc.log
      → InStep lc
      → InStep (save_entry e lc)
        × ((save_entry e lc).commit_index ≡ lc.commit_index)
        × ((save_entry e lc).last_applied ≡ lc.last_applied)
        × (suc i ≤ length (save_entry e lc).log)
        × (machine (save_entry e lc).trace ≡ machine lc.trace)
  unfolding save_entry stored machine
  save_entry-InStep e i lc n h s = elim (Bool-cases (ltb (length lc.log) e.index)) [
    | inl new ↦
        let short = ltb→lt _ _ new in
        let m : length lc.log ≡ i = omega arith in
        let shape : stored lc.trace ≡ lc.log = s.same in
        rw new (
          record {
            dense = IsNumbered-append 0 lc.log (e ∷ []) s.dense (omega arith, tt);
            same = ap (put_at e) shape ∙ put_at-append 0 e lc.log s.dense (omega arith);
          },
          refl,
          refl,
          omega (arith, length-append lc.log (e ∷ [])),
          refl,
        )
    | inr known ↦ rw known (s, refl, refl, omega (arith, ltb_false→le _ _ known), refl)
  ]

  store_entry-Stores :
      (e : RaftLogEntry V) (i : ℕ) (lc : RaftLearner V)
      → e.index ≡ suc i
      → i ≤ length lc.log
      → InStep lc
      → (r : Stores lc (store_entry e lc)) × (suc i ≤ length (r.after).log)
  unfolding store_entry store_at
  store_entry-Stores e i lc n h s =
      let c = cut_entry-Stores e i lc n s in
      let l = cut_entry-length e i lc c.after h c.returns in
      let (t, a, b, m, d) = save_entry-InStep e i c.after n l c.step in
      (
        record {
          after = save_entry e c.after;
          returns =
              subst (λ j. store_at j e lc ≡ ok (save_entry e c.after)) (sym n) (rw c.returns refl);
          step = t;
          commit_index = a ∙ c.commit_index;
          last_applied = b ∙ c.last_applied;
          machine = d ∙ c.machine;
        },
        m,
      )

  -- For entries numbered from the index after k on, where the log reaches k, is dense and is
  -- what storage holds: the loop returns, the log is dense and what storage holds again, and the
  -- commit progress is as before.
  pub store_entries-Stores :
      (es : List (RaftLogEntry V)) (k : ℕ) (lc : RaftLearner V)
      → IsNumbered k es
      → k ≤ length lc.log
      → InStep lc
      → Stores lc (store_entries es lc)
  unfolding store_entries
  store_entries-Stores [] k lc n h s = record {
    after = lc;
    returns = refl;
    step = s;
    commit_index = refl;
    last_applied = refl;
    machine = refl;
  }
  store_entries-Stores (e ∷ es) k lc n h s =
      let (r, l) = store_entry-Stores e k lc n.0 h s in
      let q = store_entries-Stores es (suc k) r.after n.1 l r.step in
      record {
        after = q.after;
        returns = rw r.returns q.returns;
        step = q.step;
        commit_index = q.commit_index ∙ r.commit_index;
        last_applied = q.last_applied ∙ r.last_applied;
        machine = q.machine ∙ r.machine;
      }
