-- ===== src/Manager/Witnesses.antt =====
-- core/RaftManager.go: the theorem at a group of two, whose second node is the leader.
use majula.Prelude.{ℕ, ◌≡◌, refl, String, Option, some, [], ◌∷◌, true, if◌then◌else◌, str_eq, arith}
use majula.Prelude.Outcome.{ok}
use majula.Prelude.Dict.{lookup, insert}
use majula.Node.{mem}
use majula.Manager.{RaftManager, Answer, success, refused, no_map, create_learner}
use majula.Manager.Join.{create_learner-joins}

abbrev ask : ℕ → String → Option Answer
ask n peer = if str_eq peer "b" then some success else some refused

abbrev manager : RaftManager ℕ ℕ
manager = record {
  raft_group = [];
  raft_stubs = [];
  learner_stubs = [];
  raft_peers = ("g", "a" ∷ "b" ∷ []) ∷ [];
}

no_panic : (n : ℕ) (peer : String) → ask n peer ≡ some no_map → ⊥
no_panic n peer e = ground arith

known : lookup "g" manager.raft_peers ≡ some ("a" ∷ "b" ∷ [])
unfolding lookup
known = refl

among : mem "b" ("a" ∷ "b" ∷ []) ≡ true
unfolding mem
among = refl

create_learner-joins_example :
    create_learner ask "g" 7 manager
    ≡ ok (some (record manager { learner_stubs = insert "g" 7 [] }))
create_learner-joins_example =
    create_learner-joins ask "b" (λ n. refl) no_panic "g" 7 ("a" ∷ "b" ∷ []) manager known among
