-- ===== src/Raft/Vote/Grant.antt =====
-- core/Raft.go: when a vote is granted, and what the reply says.
use majula.Prelude.{
  ℕ, ◌≡◌, ◌≤◌, ◌<◌, ◌↔◌, ◌⊎◌, refl, String, some, List, ◌∷◌, true, false, arith, eq_iff, ltb,
  Bool-cases, inl, inr, ltb→lt, lt→ltb, ltb_false→le,
}
use majula.Prelude.Int.{ℤ, pos, ◌≤ℤ◌}
use majula.Raft.Types.{RaftLogEntry, RaftPayload}
use majula.Raft.Log.{get_last_log_index, is_up_to_date}
use majula.Raft.Core.{RaftCore, Effect, send}
use majula.Raft.Vote.{
  decide_vote, cast_vote, may_vote, enter_term, handle_request_vote, vote_response,
}
use majula.Raft.Advance.{saved_vote}

module _ {ℓ} {V : Type ℓ} where
  cast_vote_granted :
      (now : ℕ) (p : RaftPayload V) (rc : RaftCore V) → (cast_vote now p rc).1 ≡ may_vote p rc
  unfolding cast_vote
  cast_vote_granted now p rc = elim (Bool-cases (may_vote p rc)) [ inl e ↦ rw e | inr e ↦ rw e ]

  free_vote_iff :
      (p : RaftPayload V) (rc : RaftCore V)
      → (may_vote p rc ≡ true) ↔ (
          ((rc.voted_for ≡ "") ⊎ (rc.voted_for ≡ p.candidate_id))
          × (is_up_to_date rc.log p.prev_log_index p.prev_log_term ≡ true))
  unfolding may_vote
  free_vote_iff p rc = (
    ground (arith, eq_iff rc.voted_for "", eq_iff rc.voted_for p.candidate_id),
    ground (arith, eq_iff rc.voted_for "", eq_iff rc.voted_for p.candidate_id),
  )

  new_term_vote :
      (p : RaftPayload V) (rc : RaftCore V)
      → rc.current_term < p.term
      → may_vote p (enter_term p.term rc) ≡ is_up_to_date rc.log p.prev_log_index p.prev_log_term
  unfolding may_vote enter_term
  new_term_vote p rc h = rw (lt→ltb _ _ h)

  same_term :
      (p : RaftPayload V) (rc : RaftCore V)
      → ltb rc.current_term p.term ≡ false
      → enter_term p.term rc ≡ rc
  unfolding enter_term
  same_term p rc h = rw h

  -- A log that ends with an entry of this index and term is no older than the given one.
  abbrev pub IsNoOlder : List (RaftLogEntry V) → ℤ → ℕ → Type 0
  IsNoOlder log last_index last_term =
      let (my_index, my_term) = get_last_log_index log in
      (my_term < last_term) ⊎ ((my_term ≡ last_term) × (pos my_index ≤ℤ last_index))

  is_up_to_date_iff :
      (log : List (RaftLogEntry V)) (i : ℤ) (t : ℕ)
      → (is_up_to_date log i t ≡ true) ↔ IsNoOlder log i t
  unfolding is_up_to_date
  is_up_to_date_iff log i t = (ground arith, ground arith)

  decide_vote_iff :
      (now : ℕ) (p : RaftPayload V) (rc : RaftCore V)
      → ((decide_vote now p rc).1 ≡ true) ↔ (
          (rc.current_term ≤ p.term)
          × ((rc.current_term < p.term) ⊎ ((rc.voted_for ≡ "") ⊎ (rc.voted_for ≡ p.candidate_id)))
          × (is_up_to_date rc.log p.prev_log_index p.prev_log_term ≡ true))
  unfolding decide_vote
  decide_vote_iff now p rc = elim (Bool-cases (ltb p.term rc.current_term)) [
    | inl old ↦ rw old (λ h. absurd (cc h), λ h. absurd (ground arith))
    | inr fresh ↦
        rw (fresh, cast_vote_granted now p (enter_term p.term rc))
          (elim (Bool-cases (ltb rc.current_term p.term)) [
            | inl new ↦
                rw (new_term_vote p rc (ltb→lt _ _ new))
                  (λ h. (ground arith, inl (ltb→lt _ _ new), h), λ h. h.2)
            | inr same ↦ rw (same_term p rc same) (
              λ h. let (v, u) = (free_vote_iff p rc).0 h in (ltb_false→le _ _ fresh, inr v, u),
              λ h. (free_vote_iff p rc).1 (ground arith, h.2),
            )
          ])
  ]

  -- A vote is granted exactly if the request's term is not old, the vote is free in that term (the
  -- term is new, no vote was cast in it, or it went to the same candidate), and the candidate's last
  -- entry is of a later term than the member's last, or of the same term and no lower index.
  pub decide_vote_granted_iff :
      (now : ℕ) (p : RaftPayload V) (rc : RaftCore V)
      → ((decide_vote now p rc).1 ≡ true) ↔ (
          (rc.current_term ≤ p.term)
          × ((rc.current_term < p.term) ⊎ ((rc.voted_for ≡ "") ⊎ (rc.voted_for ≡ p.candidate_id)))
          × IsNoOlder rc.log p.prev_log_index p.prev_log_term)
  decide_vote_granted_iff now p rc =
      let (to, back) = decide_vote_iff now p rc in
      let (up, down) = is_up_to_date_iff rc.log p.prev_log_index p.prev_log_term in
      (λ h. let (t, v, u) = to h in (t, v, up u), λ h. back (h.0, h.1, down h.2))

  -- The reply is the last effect and carries the member's term after the request. If it grants the
  -- vote, that term is the request's, the vote is the candidate's, and both were written to
  -- storage before the reply was sent.
  pub handle_request_vote_reply :
      (now : ℕ) (group : String) (p : RaftPayload V) (rc : RaftCore V)
      → let rc' = handle_request_vote now group p rc in
        (reply : RaftPayload V) × (before : List (Effect V)) × (rc'.trace
          ≡ send p.candidate_id reply ∷ before)
        × (reply.term ≡ rc'.current_term)
        × (reply.vote_granted ≡ true
            → (rc'.current_term ≡ p.term)
              × (rc'.voted_for ≡ p.candidate_id)
              × (saved_vote before ≡ some (p.term, p.candidate_id)))
  unfolding handle_request_vote decide_vote saved_vote
  handle_request_vote_reply now group p rc =
      let v = decide_vote now p rc in
      (
        vote_response group p v.0 v.1,
        v.0.trace,
        refl,
        refl,
        ground (arith, eq_iff rc.voted_for "", eq_iff rc.voted_for p.candidate_id),
      )

  -- Of two logs, at least one is up to date for the holder of the other.
  is_up_to_date-total :
      (a b : List (RaftLogEntry V))
      → (is_up_to_date a (pos (get_last_log_index b).0) (get_last_log_index b).1 ≡ true)
        ⊎ (is_up_to_date b (pos (get_last_log_index a).0) (get_last_log_index a).1 ≡ true)
  unfolding is_up_to_date
  is_up_to_date-total a b = ground arith

  -- A last entry (i, t) that is up to date for the holder of log b is so for the holder of log a, if
  -- the last entry of b is up to date for the holder of a.
  is_up_to_date_trans :
      (a b : List (RaftLogEntry V)) (i : ℤ) (t : ℕ)
      → is_up_to_date b i t ≡ true
      → is_up_to_date a (pos (get_last_log_index b).0) (get_last_log_index b).1 ≡ true
      → is_up_to_date a i t ≡ true
  unfolding is_up_to_date
  is_up_to_date_trans a b i t h k = ground arith
