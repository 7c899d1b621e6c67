-- ===== src/Manager.antt =====
-- core/RaftManager.go, and the flood of groups of core/RaftSub.go: which groups a node takes part in,
-- and how it joins and leaves one as a learner. A member and a learner stand for themselves, of types
-- R and L; they are made by the callers' arguments. The calls to other nodes are answered by `ask`,
-- from the number of the call and the node that is called.
pub mod Join
mod Witnesses
use majula.Prelude.{
  ℕ, ◌+◌, String, Option, none, some, List, [], ◌∷◌, ◌++◌, Bool, true, false, if◌then◌else◌, str_eq,
}
use majula.Prelude.Outcome.{Outcome, ok, panic, ◌>>=◌}
use majula.Prelude.Dict.{Dict, lookup, insert, delete}
use majula.Node.{note_subs, is_empty}

pub record RaftManager {ℓ} (R L : Type ℓ) : Type ℓ where
  pub raft_group : List String
  pub raft_stubs : Dict R
  pub learner_stubs : Dict L
  pub raft_peers : Dict (List String)

-- What a call for a change of the learners answers: `success`, another node to ask, neither, or a
-- result that is no map, for which the source's type assertion panics.
pub data Answer : Type 0 where
  success refused no_map : Answer
  redirect : String → Answer

pub record RaftSubscriptionInfo : Type 0 where
  pub node_id : String
  pub raft_groups : List String

-- The second call, to the node that the first one names.
unfoldable pub is_accepted : Option Answer → Outcome Bool
is_accepted none = ok false
is_accepted (some success) = ok true
is_accepted (some refused) = ok false
is_accepted (some no_map) = panic
is_accepted (some (redirect to)) = ok false

-- The loop over the peers, with the number of calls made so far.
unfoldable pub seek : (ℕ → String → Option Answer) → ℕ → List String → Outcome Bool
seek ask n [] = ok false
seek ask n (peer ∷ peers) = elim (ask n peer) [
  | none ↦ seek ask (n + 1) peers
  | some answer ↦ elim answer [
    | success ↦ ok true
    | refused ↦ seek ask (n + 1) peers
    | no_map ↦ panic
    | redirect to ↦ elim (str_eq to "") [
      | true ↦ seek ask (n + 1) peers
      | false ↦ is_accepted (ask (n + 1) to) >>= λ joined. elim joined [
        | true ↦ ok true
        | false ↦ seek ask (n + 2) peers
      ]
    ]
  ]
]

-- The loop of LeaveAsLearner, which follows no other node.
unfoldable seek_directly : (ℕ → String → Option Answer) → ℕ → List String → Outcome Bool
seek_directly ask n [] = ok false
seek_directly ask n (peer ∷ peers) = is_accepted (ask n peer) >>= λ left. elim left [
  | true ↦ ok true
  | false ↦ seek_directly ask (n + 1) peers
]

module _ {ℓ} {R L : Type ℓ} where
  abbrev new_raft_manager : RaftManager R L
  new_raft_manager = record {
    raft_group = [];
    raft_stubs = [];
    learner_stubs = [];
    raft_peers = [];
  }

  -- `none` is the error for a group that exists. No other call comes between the test and the change.
  unfoldable create_raft_group :
      String → R → List String → RaftManager R L → Option (RaftManager R L)
  create_raft_group group client peers m = elim (lookup group m.raft_stubs) [
    | some old ↦ none
    | none ↦ some (record {
      raft_group = m.raft_group ++ group ∷ [];
      raft_stubs = insert group client m.raft_stubs;
      learner_stubs = m.learner_stubs;
      raft_peers = insert group peers m.raft_peers;
    })
  ]

  -- `none` is an error, which changes nothing.
  unfoldable pub create_learner :
      (ℕ → String → Option Answer)
      → String
      → L
      → RaftManager R L
      → Outcome (Option (RaftManager R L))
  create_learner ask group learner m = elim (lookup group m.raft_peers) [
    | none ↦ ok none
    | some peers ↦ seek ask 0 peers >>= λ joined. ok (
        if joined
        then some (record m { learner_stubs = insert group learner m.learner_stubs })
        else none)
  ]

  unfoldable pub remove_learner :
      (ℕ → String → Option Answer) → String → RaftManager R L → Outcome (Option (RaftManager R L))
  remove_learner ask group m = elim (lookup group m.raft_peers) [
    | none ↦ ok none
    | some peers ↦ seek ask 0 peers >>= λ removed.
        ok (
          if removed
          then some (record m { learner_stubs = delete group m.learner_stubs })
          else none)
  ]

  -- The learner is gone whether the result is an error (false) or not.
  unfoldable leave_as_learner :
      (ℕ → String → Option Answer) → String → RaftManager R L → Outcome (Bool × RaftManager R L)
  leave_as_learner ask group m =
      let gone = record m { learner_stubs = delete group m.learner_stubs } in
      elim (lookup group m.raft_peers) [
        | none ↦ ok (false, gone)
        | some peers ↦ seek_directly ask 0 peers >>= λ left. ok (left, gone)
      ]

  -- The groups that a node floods, if there are any.
  unfoldable flood_raft_group_info : String → RaftManager R L → Option RaftSubscriptionInfo
  flood_raft_group_info node m =
      if is_empty m.raft_group
      then none
      else some (record { node_id = node; raft_groups = m.raft_group })

  -- `none` is a flood that cannot be decoded. It is passed on otherwise.
  unfoldable pub handle_raft_subscribe_flood :
      Option RaftSubscriptionInfo → RaftManager R L → RaftManager R L
  handle_raft_subscribe_flood none m = m
  handle_raft_subscribe_flood (some info) m = record m {
    raft_peers = note_subs info.node_id info.raft_groups m.raft_peers;
  }
