-- ===== src/Raft/Commit/Quorum.antt =====
-- core/Raft.go: advanceCommitIndex. How many match indices a new commit index has behind it, and
-- when the leader's log is read out of range.
use majula.Prelude.{
  ℕ, zero, suc, ◌+◌, ◌-◌, ◌*◌, ◌/◌, ◌%◌, ◌≡◌, ◌≤◌, ◌<◌, ◌⊎◌, inl, inr, refl, sym, subst, ◌∙◌, some,
  none, List, [], ◌∷◌, true, false, arith, length, get_elem?, lt_of_get_elem?, count_if, ltb, ◌==◌,
  Bool-cases, ltb→lt,
}
use majula.Prelude.Int.{ℤ, pos, negsuc, ltb_ℤ, leb_ℤ, ◌≤ℤ◌}
use majula.Prelude.Outcome.{ok, panic, >>=-eq-ok, ok_injective, get_elem?_of_index, index as elem}
use majula.Raft.Types.{RaftLogEntry}
use majula.Raft.Core.{RaftCore}
use majula.Raft.Core.Machine.{apply_log_to_state_machine-Applied}
use majula.Raft.Commit.{commit_to, advance_commit_index, match_indexes}
use majula.Raft.Commit.Select.{quick_select-Selects, below, up_to}

-- How many of the indices reach n.
abbrev pub reaching : ℤ → List ℤ → ℕ
reaching n ms = count_if (λ m. leb_ℤ n m) ms

reaching-below : (n : ℤ) (ms : List ℤ) → reaching n ms + below n ms ≡ length ms
reaching-below n [] = omega arith
reaching-below n (m ∷ ms) = ground (arith, reaching-below n ms)

beyond-up_to :
    (n v : ℤ) (ms : List ℤ) → v ≤ℤ n → up_to v ms + count_if (λ m. ltb_ℤ n m) ms ≤ length ms
beyond-up_to n v [] h = omega arith
beyond-up_to n v (m ∷ ms) h = ground (arith, beyond-up_to n v ms h)

ltb_ℤ_false→≤ℤ : (a b : ℤ) → ltb_ℤ a b ≡ false → b ≤ℤ a
ltb_ℤ_false→≤ℤ a b h = ground arith

get_elem?_out {ℓ} : {A : Type ℓ} (xs : List A) (i : ℕ) → length xs ≤ i → get_elem? xs i ≡ none
get_elem?_out [] i h = refl
get_elem?_out (x ∷ xs) zero h = absurd (omega arith)
get_elem?_out (x ∷ xs) (suc i) h = get_elem?_out xs i (omega arith)

highest_of_two :
    (last other v : ℤ) (i : ℕ)
    → ltb_ℤ other last ≡ true
    → get_elem? (last ∷ other ∷ []) i ≡ some v
    → 1 < up_to v (last ∷ other ∷ [])
    → v ≡ last
highest_of_two last other v zero h at many = ground arith
highest_of_two last other v (suc zero) h at many = absurd (ground arith)
highest_of_two last other v (suc (suc i)) h at many = absurd (ground arith)

module _ {ℓ} {V : Type ℓ} where
  -- What a change of the commit index to n rests on.
  pub record IsCommitted (rc : RaftCore V) (n : ℕ) : Type ℓ where
    pub beyond : rc.commit_index < n
    pub entry : RaftLogEntry V
    pub position : ℕ
    pub index : n ≡ suc position
    pub at : get_elem? rc.log position ≡ some entry
    pub own_term : entry.term ≡ rc.current_term
    pub half : length (match_indexes rc) ≤ 2 * reaching (pos n) (match_indexes rc)
    pub majority :
        length (match_indexes rc) % 2 ≡ 1
        → length (match_indexes rc) < 2 * reaching (pos n) (match_indexes rc)

  commit_to-cases :
      (v : ℤ) (rc rc' : RaftCore V)
      → commit_to v rc ≡ ok rc'
      → (rc' ≡ rc)
        ⊎ ((n : ℕ) × (e : RaftLogEntry V) × (v ≡ pos (suc n))
            × (rc.commit_index < suc n)
            × (get_elem? rc.log n ≡ some e)
            × (e.term ≡ rc.current_term)
            × (rc'.commit_index ≡ suc n))
  unfolding commit_to
  commit_to-cases (negsuc n) rc rc' h = inl (sym (ok_injective h))
  commit_to-cases (pos zero) rc rc' h = inl (sym (ok_injective h))
  commit_to-cases (pos (suc n)) rc rc' h = elim (Bool-cases (ltb rc.commit_index (suc n))) [
    | inl more ↦
        let (e, a, b) = >>=-eq-ok (elem rc.log n) _ (rw more at h) in
        let at = get_elem?_of_index rc.log n e a in
        elim (Bool-cases (e.term == rc.current_term)) [
          | inl own ↦
              let (done, c, p) =
                apply_log_to_state_machine-Applied (record rc { commit_index = suc n })
                  (lt_of_get_elem? rc.log n at) in
              let same : done ≡ rc' = ok_injective (sym c ∙ rw own at b) in
              inr (n, e, refl, ltb→lt _ _ more, at, ground arith, rw (← same) p.commit_index)
          | inr old ↦ inl (sym (ok_injective (rw old at b)))
        ]
    | inr done ↦ inl (sym (ok_injective (rw done at h)))
  ]

  match_indexes-pos : (rc : RaftCore V) → 0 < length (match_indexes rc)
  unfolding match_indexes
  match_indexes-pos rc = omega arith

  -- Where advanceCommitIndex returns, it leaves the state as it is, or raises the commit index
  -- to that of an entry in the log of the current term that at least half of the known match
  -- indices reach, and more than half of them where their number is odd.
  pub advance_commit_index-IsCommitted :
      (draw : ℕ → ℕ) (rc rc' : RaftCore V)
      → advance_commit_index draw rc ≡ ok rc'
      → (rc' ≡ rc) ⊎ IsCommitted rc rc'.commit_index
  unfolding advance_commit_index
  advance_commit_index-IsCommitted draw rc rc' h =
      let ms = match_indexes rc in
      let mid = length ms / 2 in
      let lies : mid < length ms = omega (arith, match_indexes-pos rc) in
      let s = quick_select-Selects (length ms) draw ms mid (omega arith) lies in
      elim (commit_to-cases s.value rc rc' (rw s.returns at h)) [
        | inl same ↦ inl same
        | inr (n, e, v, more, at, own, moved) ↦
            let split = reaching-below s.value ms in
            let reach : length ms ≤ mid + reaching (pos (suc n)) ms =
              subst (λ w. length ms ≤ mid + reaching w ms) v
                (omega (arith, split, (s.rank).few_below)) in
            inr (
              rw moved (record {
                beyond = more;
                entry = e;
                position = n;
                index = refl;
                at = at;
                own_term = own;
                half = omega (arith, reach);
                majority = λ odd. omega (arith, reach, odd);
              }))
      ]

  commit_to-panic :
      (v : ℤ) (rc : RaftCore V)
      → ltb_ℤ (pos (length rc.log)) v ≡ true
      → rc.commit_index ≤ length rc.log
      → commit_to v rc ≡ panic
  unfolding commit_to
  commit_to-panic (negsuc n) rc h c = absurd (ground arith)
  commit_to-panic (pos zero) rc h c = absurd (ground arith)
  commit_to-panic (pos (suc n)) rc h c =
      let more : ltb rc.commit_index (suc n) ≡ true = ground arith in
      let out : get_elem? rc.log n ≡ none = get_elem?_out rc.log n (ground arith) in
      rw more (rw out refl)

  -- If the commit index lies in the log, and at least half of the known match indices (rounded
  -- up), the leader's own among them, are greater than the length of its log, advanceCommitIndex
  -- panics, whatever pivots are drawn.
  pub advance_commit_index-panic :
      (draw : ℕ → ℕ) (rc : RaftCore V)
      → rc.commit_index ≤ length rc.log
      → let ms = match_indexes rc in
        length ms - length ms / 2 ≤ count_if (λ m. ltb_ℤ (pos (length rc.log)) m) ms
        → advance_commit_index draw rc ≡ panic
  unfolding advance_commit_index
  advance_commit_index-panic draw rc c h =
      let ms = match_indexes rc in
      let mid = length ms / 2 in
      let lies : mid < length ms = omega (arith, match_indexes-pos rc) in
      let s = quick_select-Selects (length ms) draw ms mid (omega arith) lies in
      elim (Bool-cases (ltb_ℤ (pos (length rc.log)) s.value)) [
        | inl beyond ↦ rw s.returns (commit_to-panic s.value rc beyond c)
        | inr within ↦ absurd (
            omega (
              arith,
              beyond-up_to (pos (length rc.log)) s.value ms
                  (ltb_ℤ_false→≤ℤ (pos (length rc.log)) s.value within),
              (s.rank).many_up_to,
            ))
      ]

  commit_to_own :
      (n : ℕ) (e : RaftLogEntry V) (rc : RaftCore V)
      → get_elem? rc.log n ≡ some e
      → e.term ≡ rc.current_term
      → rc.commit_index < suc n
      → (rc' : RaftCore V) × (commit_to (pos (suc n)) rc ≡ ok rc') × (rc'.commit_index ≡ suc n)
  unfolding commit_to
  commit_to_own n e rc at own more =
      let (rc', a, p) =
        apply_log_to_state_machine-Applied (record rc { commit_index = suc n })
          (lt_of_get_elem? rc.log n at) in
      let moves : ltb rc.commit_index (suc n) ≡ true = ground arith in
      let same : (e.term == rc.current_term) ≡ true = ground arith in
      (rc', rw moves (rw at (rw same a)), p.commit_index)

  -- Where the known match indices are the leader's own and one lower one, and its own is that of an
  -- entry of its term beyond the commit index, advanceCommitIndex returns with the leader's own as
  -- the commit index, whatever pivots are drawn, and that one alone reaches it.
  pub advance_commit_index-alone :
      (draw : ℕ → ℕ) (rc : RaftCore V) (n : ℕ) (e : RaftLogEntry V) (other : ℤ)
      → match_indexes rc ≡ pos (suc n) ∷ other ∷ []
      → ltb_ℤ other (pos (suc n)) ≡ true
      → get_elem? rc.log n ≡ some e
      → e.term ≡ rc.current_term
      → rc.commit_index < suc n
      → (rc' : RaftCore V) × (advance_commit_index draw rc ≡ ok rc')
        × (rc'.commit_index ≡ suc n)
        × (reaching (pos (suc n)) (match_indexes rc) ≡ 1)
  unfolding advance_commit_index
  advance_commit_index-alone draw rc n e other m h at own more =
      let last = pos (suc n) in
      let s = quick_select-Selects 2 draw (last ∷ other ∷ []) 1 (omega arith) (omega arith) in
      let chosen : s.value ≡ last =
        highest_of_two last other s.value s.position h s.found (s.rank).many_up_to in
      let (rc', a, c) = commit_to_own n e rc at own more in
      (rc', rw m (rw s.returns (rw chosen a)), c, rw m (ground arith))
