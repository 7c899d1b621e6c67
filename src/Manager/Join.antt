-- ===== src/Manager/Join.antt =====
-- core/RaftManager.go: a node becomes a learner when one of the peers that it asks is the leader.
use majula.Prelude.{
  ℕ, ◌+◌, ◌≡◌, refl, String, Option, none, some, List, [], ◌∷◌, Bool, true, false, str_eq, eq_iff,
  arith, Bool-cases, inl, inr,
}
use majula.Prelude.Outcome.{Outcome, ok}
use majula.Prelude.Dict.{lookup, insert}
use majula.Node.{mem}
use majula.Manager.{
  RaftManager, Answer, success, refused, no_map, redirect, is_accepted, seek, create_learner,
}

module _ (ask : ℕ → String → Option Answer) (leader : String)
    (accepts : (n : ℕ) → ask n leader ≡ some success)
    (maps : (n : ℕ) (peer : String) → ask n peer ≡ some no_map → ⊥) where
  is_accepted-ok :
      (n : ℕ) (to : String) (answer : Option Answer)
      → ask n to ≡ answer
      → (joined : Bool) × (is_accepted answer ≡ ok joined)
  unfolding is_accepted
  is_accepted-ok n to none e = (false, refl)
  is_accepted-ok n to (some success) e = (true, refl)
  is_accepted-ok n to (some refused) e = (false, refl)
  is_accepted-ok n to (some no_map) e = absurd (maps n to e)
  is_accepted-ok n to (some (redirect other)) e = (false, refl)

  after_redirect :
      (joined : Bool) (rest : Outcome Bool)
      → rest ≡ ok true
      → (elim joined as (λ _. Outcome Bool) [ true ↦ ok true | false ↦ rest ]) ≡ ok true
  after_redirect true rest e = refl
  after_redirect false rest e = e

  seek_on :
      (n : ℕ) (peer : String) (peers : List String) (answer : Option Answer)
      → ask n peer ≡ answer
      → ((k : ℕ) → seek ask k peers ≡ ok true)
      → seek ask n (peer ∷ peers) ≡ ok true
  unfolding seek
  seek_on n peer peers none e later = rw (e, seek) (later (n + 1))
  seek_on n peer peers (some success) e later = rw (e, seek) refl
  seek_on n peer peers (some refused) e later = rw (e, seek) (later (n + 1))
  seek_on n peer peers (some no_map) e later = absurd (maps n peer e)
  seek_on n peer peers (some (redirect to)) e later = elim (Bool-cases (str_eq to "")) [
    | inl empty ↦ rw (e, empty, seek) (later (n + 1))
    | inr named ↦
        let (joined, f) = is_accepted-ok (n + 1) to (ask (n + 1) to) refl in
        rw (e, named, f, seek) (after_redirect joined (seek ask (n + 2) peers) (later (n + 2)))
  ]

  seek_leader_first :
      (n : ℕ) (peer : String) (peers : List String)
      → ask n peer ≡ some success
      → seek ask n (peer ∷ peers) ≡ ok true
  unfolding seek
  seek_leader_first n peer peers e = rw (e, seek) refl

  seek-leader : (peers : List String) (n : ℕ) → mem leader peers ≡ true → seek ask n peers ≡ ok true
  unfolding mem
  seek-leader [] n m = absurd (ground arith)
  seek-leader (peer ∷ peers) n m = elim (Bool-cases (str_eq peer leader)) [
    | inl own ↦ seek_leader_first n peer peers (ground (arith, accepts n, eq_iff peer leader))
    | inr other ↦ seek_on n peer peers (ask n peer) refl (λ k. seek-leader peers k (ground arith))
  ]

  -- Where a node knows the peers of a group, and the leader, who takes every learner, is one of them,
  -- it becomes a learner of the group, whatever the other peers answer before, as long as no answer
  -- panics.
  pub create_learner-joins {ℓ} :
      {R L : Type ℓ} (group : String) (learner : L) (peers : List String) (m : RaftManager R L)
      → lookup group m.raft_peers ≡ some peers
      → mem leader peers ≡ true
      → create_learner ask group learner m
        ≡ ok (some (record m { learner_stubs = insert group learner m.learner_stubs }))
  unfolding create_learner
  create_learner-joins group learner peers m known found =
      rw (known, seek-leader peers 0 found, create_learner) refl
