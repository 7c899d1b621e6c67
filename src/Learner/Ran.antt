-- ===== src/Learner/Ran.antt =====
-- core/Learner.go: what a learner has executed between two states.
use majula.Prelude.{Option, List, take, drop, ℕ, zero, suc, ◌+◌, ◌-◌, ◌≡◌, ◌≤◌, refl, ◌∙◌, arith}
use majula.Prelude.Dict.{Dict}
use majula.Raft.Types.{RaftLogEntry}
use majula.Raft.Core.Effects.{machine, execute_all}
use majula.Learner.{RaftLearner}

module _ {ℓ} {V : Type ℓ} where
  -- The key-value state has moved on by the entries of the log from the old last_applied up to the
  -- new one, executed in order and once each.
  pub record Ran (lc lc' : RaftLearner V) : Type ℓ where
    pub grows : lc.last_applied ≤ lc'.last_applied
    pub machine :
        machine lc'.trace
        ≡ execute_all
            (take (lc'.last_applied - lc.last_applied) (drop lc.last_applied lc'.log))
            (machine lc.trace)

  none_executed :
      (n : ℕ) (log : List (RaftLogEntry V)) (m : Dict (Option V))
      → n ≡ 0
      → m ≡ execute_all (take n log) m
  unfolding execute_all
  none_executed zero log m h = refl
  none_executed (suc n) log m h = absurd (omega arith)

  pub Ran-still :
      (lc lc' : RaftLearner V)
      → lc'.last_applied ≡ lc.last_applied
      → machine lc'.trace ≡ machine lc.trace
      → Ran lc lc'
  Ran-still lc lc' same m = record {
    grows = omega (arith, same);
    machine = m ∙ none_executed _ (drop lc.last_applied lc'.log) (machine lc.trace) (omega arith);
  }

  -- From a state of the same progress.
  pub Ran-from :
      {a b c : RaftLearner V}
      → b.last_applied ≡ a.last_applied
      → machine b.trace ≡ machine a.trace
      → Ran b c
      → Ran a c
  Ran-from {a} {b} {c} same m p = record {
    grows = omega (arith, p.grows);
    machine = p.machine ∙ rw (same, m) refl;
  }

  pub Ran-by :
      (n : ℕ) (lc lc' : RaftLearner V)
      → lc'.log ≡ lc.log
      → lc'.last_applied ≡ lc.last_applied + n
      → machine lc'.trace ≡ execute_all (take n (drop lc.last_applied lc.log)) (machine lc.trace)
      → Ran lc lc'
  Ran-by n lc lc' l a m =
      let d : lc'.last_applied - lc.last_applied ≡ n = omega arith in
      record { grows = omega arith; machine = rw (d, l) m }
