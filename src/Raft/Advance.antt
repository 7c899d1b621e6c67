-- ===== src/Raft/Advance.antt =====
-- core/Raft.go: what every operation of a member keeps of its term and vote.
pub mod Helpers
pub mod Handlers
pub mod Appends
pub mod Run
pub mod Responses
use majula.Prelude.{ℕ, ◌≡◌, ◌≢◌, ◌≤◌, refl, ◌∙◌, String, Option, none, some, List, [], ◌∷◌, arith}
use majula.Raft.Core.{RaftCore, Effect, save_meta}

module _ {ℓ} {V : Type ℓ} where
  -- The term and vote that were last written to storage.
  unfoldable pub saved_vote : List (Effect V) → Option (ℕ × String)
  saved_vote [] = none
  saved_vote (save_meta g t v c a ∷ es) = some (t, v)
  saved_vote (e ∷ es) = saved_vote es

  -- Storage holds the member's term and vote.
  abbrev IsDurable : RaftCore V → Type 0
  IsDurable rc = saved_vote rc.trace ≡ some (rc.current_term, rc.voted_for)

  -- The term never falls, a vote cast in a term stays while the term does, and storage keeps up.
  pub record Advances (rc rc' : RaftCore V) : Type 0 where
    pub term_grows : rc.current_term ≤ rc'.current_term
    pub vote_kept :
        rc'.current_term ≡ rc.current_term → rc.voted_for ≢ "" → rc'.voted_for ≡ rc.voted_for
    pub durable : IsDurable rc → IsDurable rc'

  pub Advances-refl : (rc : RaftCore V) → Advances rc rc
  Advances-refl rc = record { term_grows = omega arith; vote_kept = λ t v. refl; durable = λ d. d }

  pub Advances-trans : {a b c : RaftCore V} → Advances a b → Advances b c → Advances a c
  Advances-trans {a} {b} {c} p q = record {
    term_grows = omega (arith, p.term_grows, q.term_grows);
    vote_kept = λ t v.
        let mid : b.current_term ≡ a.current_term = omega (arith, p.term_grows, q.term_grows) in
        let first = p.vote_kept mid v in q.vote_kept (omega arith) (λ e. v (cc)) ∙ first;
    durable = λ d. q.durable (p.durable d);
  }
