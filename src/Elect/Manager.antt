-- ===== src/Elect/Manager.antt =====
-- core/Elect.go: ElectManager, the candidates of a node by group.
use majula.Prelude.{
  ℕ, ◌≡◌, String, Option, none, some, Bool, false, if◌then◌else◌, str_eq, arith, eq_iff,
  Option-cases, inl, inr, [], ◌∷◌,
}
use majula.Prelude.Dict.{Dict, lookup, insert, delete, lookup-insert, lookup-delete}
use majula.Elect.{ElectState, ElectConfig, ElectCandidate, new_elect_candidate, stop, is_duty_state}

pub record ElectManager : Type 0 where
  pub node : String
  pub candidates : Dict ElectCandidate

pub record ElectStats : Type 0 where
  pub id : String
  pub state : ElectState
  pub group : String
  pub heartbeat_count : ℕ
  pub state_changes : ℕ
  pub duty : Bool

unfoldable get_stats : ElectCandidate → ElectStats
get_stats c = record {
  id = c.id;
  state = c.state;
  group = c.group_name;
  heartbeat_count = c.heartbeat_count;
  state_changes = c.state_change_count;
  duty = is_duty_state c.state;
}

unfoldable new_elect_manager : String → ElectManager
new_elect_manager node = record { node = node; candidates = [] }

unfoldable get_candidate : String → ElectManager → Option ElectCandidate
get_candidate group em = lookup group em.candidates

-- A copy of the map.
unfoldable get_all_candidates : ElectManager → Dict ElectCandidate
get_all_candidates em = em.candidates

-- The candidate is none where the source returns an error.
unfoldable create_candidate :
    String → ElectConfig → ElectManager → ElectManager × Option ElectCandidate
create_candidate group config em = elim (lookup group em.candidates) [
  | some c ↦ (em, none)
  | none ↦
      let candidate = new_elect_candidate em.node (record config { group_name = group }) in
      (record em { candidates = insert group candidate em.candidates }, some candidate)
]

-- The candidate, stopped, is what a holder of the pointer sees; none stands for the error.
unfoldable remove_candidate : String → ElectManager → ElectManager × Option ElectCandidate
remove_candidate group em = elim (lookup group em.candidates) [
  | none ↦ (em, none)
  | some c ↦ (record em { candidates = delete group em.candidates }, some (stop c))
]

unfoldable all_stats : Dict ElectCandidate → Dict ElectStats
all_stats [] = []
all_stats ((group, c) ∷ m) = (group, get_stats c) ∷ all_stats m

-- Creation gives a group that has no candidate a new one of that name, refuses a group that has
-- one, and touches no other group.
get_candidate-create_candidate :
    (group other : String) (config : ElectConfig) (em : ElectManager)
    → let (em', made) = create_candidate group config em in
      get_candidate other em' ≡ (
        if str_eq group other
        then (elim (get_candidate group em) [ some c ↦ some c | none ↦ made ])
        else get_candidate other em)
unfolding create_candidate get_candidate
get_candidate-create_candidate group other config em =
    elim (Option-cases (lookup group em.candidates)) [
      | inl e ↦ ground (
        arith,
        eq_iff group other,
        lookup-insert group other
            (new_elect_candidate em.node (record config { group_name = group })) em.candidates,
      )
      | inr (c, e) ↦ ground (arith, eq_iff group other)
    ]

-- A removal either gives an error and changes nothing, or the candidate it gives does not run.
abbrev IsRemoval : ElectManager → ElectManager → Option ElectCandidate → Type 0
IsRemoval em em' none = em' ≡ em
IsRemoval em em' (some c) = c.running ≡ false

-- After a removal the group has no candidate and every other group the one it had. A removal
-- that gives an error changes nothing, and the candidate that another removal gives does not
-- run.
get_candidate-remove_candidate :
    (group other : String) (em : ElectManager)
    → let (em', removed) = remove_candidate group em in
      (get_candidate other em' ≡ (if str_eq group other then none else get_candidate other em))
      × IsRemoval em em' removed
unfolding remove_candidate get_candidate stop
get_candidate-remove_candidate group other em = elim (Option-cases (lookup group em.candidates)) [
  | inl e ↦ ground (arith, eq_iff group other)
  | inr (c, e) ↦ ground (arith, eq_iff group other, lookup-delete group other em.candidates)
]
