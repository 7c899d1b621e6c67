-- ===== src/Raft/Log/Conflict.antt =====
-- core/Raft.go: the two scans by which a conflict is resolved, the follower's back to the start of
-- the conflicting term and the leader's for its own last entry of that term.
use majula.Prelude.{
  ℕ, zero, suc, ◌≡◌, ◌≢◌, ◌≤◌, ◌<◌, refl, ◌⊎◌, inl, inr, List, length, get_elem?, get_elem?_lt,
  some, ◌==◌, arith, Bool-cases,
}
use majula.Prelude.Outcome.{ok}
use majula.Raft.Types.{RaftLogEntry}
use majula.Raft.Log.{conflict_start, scan_back, find_last_index_of_term}

lt_suc-cases : (i n : ℕ) → i < suc n → (i < n) ⊎ (i ≡ n)
lt_suc-cases i n h = omega arith

module _ {ℓ} {V : Type ℓ} where
  -- The entries of indices c to n all have term t, and c is the least such index.
  pub record IsRunStart (log : List (RaftLogEntry V)) (t n c : ℕ) : Type ℓ where
    pub positive : 1 ≤ c
    pub within : c ≤ n
    pub same_term :
        (i : ℕ) (e : RaftLogEntry V) → c ≤ suc i → i < n → get_elem? log i ≡ some e → e.term ≡ t
    pub starts :
        (c ≡ 1)
        ⊎ ((i : ℕ) × (e : RaftLogEntry V) × (c ≡ suc (suc i))
            × (get_elem? log i ≡ some e)
            × (e.term ≢ t))

  same_at :
      (log : List (RaftLogEntry V)) (i n t : ℕ) (e x : RaftLogEntry V)
      → get_elem? log n ≡ some e
      → e.term ≡ t
      → i ≡ n
      → get_elem? log i ≡ some x
      → x.term ≡ t
  same_at log i n t e x g h q p = ground arith

  ne_at :
      (log : List (RaftLogEntry V)) (i n t : ℕ) (e x : RaftLogEntry V)
      → get_elem? log n ≡ some e
      → e.term ≢ t
      → i ≡ n
      → get_elem? log i ≡ some x
      → x.term ≢ t
  ne_at log i n t e x g h q p = ground arith

  -- From a position in the log with an entry of term t on, the scan returns the first index of
  -- the run of entries of term t that ends there.
  pub conflict_start-IsRunStart :
      (log : List (RaftLogEntry V)) (n t : ℕ) (e : RaftLogEntry V)
      → get_elem? log n ≡ some e
      → e.term ≡ t
      → n < length log
      → (c : ℕ) × (conflict_start log t (suc n) ≡ ok c) × IsRunStart log t (suc n) c
  unfolding conflict_start
  conflict_start-IsRunStart log zero t e g q h = (
    1,
    refl,
    record {
      positive = omega arith;
      within = omega arith;
      same_term = λ i x a b p. same_at log i 0 t e x g q (omega arith) p;
      starts = inl refl;
    },
  )
  conflict_start-IsRunStart log (suc n) t e g q h =
      let (x, p) = get_elem?_lt log n (omega arith) in
      elim (Bool-cases (x.term == t)) [
        | inl same ↦
            let (c, r, s) = conflict_start-IsRunStart log n t x p (ground arith) (omega arith) in
            (
              c,
              ground (arith, p, same, r),
              record {
                positive = s.positive;
                within = omega (arith, s.within);
                same_term = λ i y a b w. elim (lt_suc-cases i (suc n) b) [
                  | inl below ↦ s.same_term i y a below w
                  | inr here ↦ same_at log i (suc n) t e y g q here w
                ];
                starts = s.starts;
              },
            )
        | inr differs ↦ (
          suc (suc n),
          ground (arith, p, differs),
          record {
            positive = omega arith;
            within = omega arith;
            same_term = λ i y a b w. same_at log i (suc n) t e y g q (omega arith) w;
            starts = inr (n, x, refl, p, ground arith);
          },
        )
      ]

  -- The position of the last entry of term t before position n, or that there is none.
  abbrev LastOf : List (RaftLogEntry V) → ℕ → ℕ → ℕ → Type ℓ
  LastOf log t n r =
      ((r ≡ 0) × ((i : ℕ) (e : RaftLogEntry V) → i < n → get_elem? log i ≡ some e → e.term ≢ t))
      ⊎ ((k : ℕ) × (e : RaftLogEntry V) × (k < n)
          × (get_elem? log k ≡ some e)
          × (e.term ≡ t)
          × (r ≡ e.index)
          × ((i : ℕ) (x : RaftLogEntry V) → k < i → i < n → get_elem? log i ≡ some x → x.term ≢ t))

  scan_back-LastOf :
      (log : List (RaftLogEntry V)) (t n : ℕ)
      → n ≤ length log
      → (r : ℕ) × (scan_back log t n ≡ ok r) × LastOf log t n r
  unfolding scan_back
  scan_back-LastOf log t zero h = (0, refl, inl (refl, λ i e l. elim l [ ]))
  scan_back-LastOf log t (suc n) h =
      let (x, p) = get_elem?_lt log n (omega arith) in
      elim (Bool-cases (x.term == t)) [
        | inl same ↦ (
          x.index,
          ground (arith, p, same),
          inr (n, x, omega arith, p, ground arith, refl, λ i y a b. absurd (omega arith)),
        )
        | inr differs ↦
            let (r, q, s) = scan_back-LastOf log t n (omega arith) in
            (
              r,
              ground (arith, p, differs, q),
              elim s [
                | inl (z, no_entry) ↦ inl (
                  z,
                  λ i y l w. elim (lt_suc-cases i n l) [
                    | inl below ↦ no_entry i y below w
                    | inr here ↦ λ same. ne_at log i n t x y p (ground arith) here w same
                  ],
                )
                | inr (k, e, b, g, same, v, later) ↦ inr (
                  k,
                  e,
                  omega arith,
                  g,
                  same,
                  v,
                  λ i y a l w. elim (lt_suc-cases i n l) [
                    | inl below ↦ later i y a below w
                    | inr here ↦ λ eq. ne_at log i n t x y p (ground arith) here w eq
                  ],
                )
              ],
            )
      ]

  -- For every log and term the leader's scan returns, either the index of the last entry of the
  -- term or, if there is none, 0.
  find_last_index_of_term-LastOf :
      (log : List (RaftLogEntry V)) (t : ℕ)
      → (r : ℕ) × (find_last_index_of_term log t ≡ ok r) × LastOf log t (length log) r
  unfolding find_last_index_of_term
  find_last_index_of_term-LastOf log t = scan_back-LastOf log t (length log) (omega arith)
