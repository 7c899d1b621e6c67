-- ===== src/Raft/Vote/Majority.antt =====
-- core/Raft.go: hasMajorityVotes. Two majorities of one group share a voter.
use majula.Prelude.{
  suc, ◌+◌, ◌/◌, ◌≡◌, ◌≤◌, ◌<◌, inl, inr, String, none, some, List, [], ◌∷◌, Bool, true, false,
  arith, length, count_if, eq_iff, leb→le, Bool-cases,
}
use majula.Prelude.Dict.{Dict, lookup}
use majula.Raft.Core.{RaftCore, count_votes, has_majority_votes}
use majula.Raft.Member.{contains_name}

-- Whether a voter's answer is recorded and grants the vote.
unfoldable pub granted : Dict Bool → String → Bool
unfolding lookup
granted votes voter = elim (lookup voter votes) [ none ↦ false | some b ↦ b ]

-- Each voter is recorded once, and is a member of the group.
abbrev AreVotersOf : List String → Dict Bool → Type 0
AreVotersOf peers [] = Unit {0}
AreVotersOf peers ((voter, b) ∷ votes) =
    (lookup voter votes ≡ none) × (contains_name voter peers ≡ true) × AreVotersOf peers votes

count_granted_mono :
    (k : String) (b : Bool) (votes : Dict Bool) (peers : List String)
    → lookup k votes ≡ none
    → count_if (granted votes) peers ≤ count_if (granted ((k, b) ∷ votes)) peers
unfolding granted
count_granted_mono k b votes [] h = omega arith
count_granted_mono k b votes (p ∷ peers) h =
    ground (arith, eq_iff k p, count_granted_mono k b votes peers h)

count_granted-suc :
    (k : String) (votes : Dict Bool) (peers : List String)
    → lookup k votes ≡ none
    → contains_name k peers ≡ true
    → suc (count_if (granted votes) peers) ≤ count_if (granted ((k, true) ∷ votes)) peers
unfolding granted contains_name
count_granted-suc k votes [] h c = absurd (ground arith)
count_granted-suc k votes (p ∷ peers) h c = ground (
  arith,
  eq_iff k p,
  eq_iff p k,
  count_granted_mono k true votes peers h,
  count_granted-suc k votes peers h,
)

count_votes-le :
    (peers : List String) (votes : Dict Bool)
    → AreVotersOf peers votes
    → count_votes votes ≤ count_if (granted votes) peers
unfolding count_votes
count_votes-le peers [] h = omega arith
count_votes-le peers ((k, true) ∷ votes) h =
    omega (arith, count_votes-le peers votes h.2, count_granted-suc k votes peers h.0 h.1)
count_votes-le peers ((k, false) ∷ votes) h =
    omega (arith, count_votes-le peers votes h.2, count_granted_mono k false votes peers h.0)

-- Two tests that pass more often together than there are elements both pass on one.
pigeonhole :
    (p q : String → Bool) (xs : List String)
    → length xs < count_if p xs + count_if q xs
    → (x : String) × (contains_name x xs ≡ true) × (p x ≡ true) × (q x ≡ true)
unfolding contains_name
pigeonhole p q [] h = absurd (omega arith)
pigeonhole p q (x ∷ xs) h = elim (Bool-cases (p x)) [
  | inl a ↦ elim (Bool-cases (q x)) [
    | inl b ↦ (x, ground (arith, eq_iff x x), a, b)
    | inr b ↦ let (y, c, d, e) = pigeonhole p q xs (ground arith) in (y, ground arith, d, e)
  ]
  | inr a ↦ let (y, c, d, e) = pigeonhole p q xs (ground arith) in (y, ground arith, d, e)
]

-- Two candidates with the same peers that both count a majority, where each records each voter
-- once and only voters among the peers, have a voter in common, a peer, who granted its vote to
-- both.
pub has_majority_votes-share {ℓ} :
    {V : Type ℓ} (a b : RaftCore V)
    → a.peers ≡ b.peers
    → AreVotersOf a.peers a.vote_result
    → AreVotersOf b.peers b.vote_result
    → has_majority_votes a ≡ true
    → has_majority_votes b ≡ true
    → (voter : String) × (contains_name voter a.peers ≡ true)
      × (lookup voter a.vote_result ≡ some true)
      × (lookup voter b.vote_result ≡ some true)
unfolding has_majority_votes granted
has_majority_votes-share a b e va vb ha hb =
    let na = leb→le _ _ ha in
    let nb = leb→le _ _ hb in
    let ca = count_votes-le a.peers a.vote_result va in
    let cb = count_votes-le b.peers b.vote_result vb in
    let cb' : count_votes b.vote_result ≤ count_if (granted b.vote_result) a.peers = rw e cb in
    let nb' : length a.peers / 2 + 1 ≤ count_votes b.vote_result = rw e nb in
    let (v, m, p, q) =
      pigeonhole (granted a.vote_result) (granted b.vote_result) a.peers (omega arith) in
    (v, m, ground (arith, p), ground (arith, q))
