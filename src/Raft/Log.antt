-- ===== src/Raft/Log.antt =====
-- core/Raft.go and core/Learner.go: what the handlers read from a log, and the loops over it. An
-- entry stands at its index less one.
pub mod Merge
pub mod Dense
pub mod Conflict
use majula.Prelude.{
  ℕ, zero, suc, ◌+◌, ◌≡◌, List, [], ◌∷◌, ◌++◌, Bool, true, false, length, take, ltb, leb, ◌==◌,
  if◌then◌else◌, ◌&&◌, ◌||◌,
}
use majula.Prelude.Int.{ℤ, pos, negsuc, leb_ℤ}
use majula.Prelude.Outcome.{Outcome, ok, panic, ◌>>=◌, index as elem}
use majula.Raft.Types.{RaftLogEntry}

module _ {ℓ} {V : Type ℓ} where
  -- The index and term of the last entry, or zeros.
  unfoldable pub get_last_log_index : List (RaftLogEntry V) → ℕ × ℕ
  get_last_log_index [] = (0, 0)
  get_last_log_index (e ∷ []) = (e.index, e.term)
  get_last_log_index (e ∷ (f ∷ r)) = get_last_log_index (f ∷ r)

  unfoldable pub is_up_to_date : List (RaftLogEntry V) → ℤ → ℕ → Bool
  is_up_to_date log last_index last_term =
      let (my_index, my_term) = get_last_log_index log in
      if ltb my_term last_term
      then true
      else (last_term == my_term && leb_ℤ (pos my_index) last_index)

  unfoldable check_log_match : List (RaftLogEntry V) → ℤ → ℕ → Outcome Bool
  check_log_match log (negsuc n) t = ok false
  check_log_match log (pos zero) t = ok true
  check_log_match log (pos (suc n)) t =
      if ltb (length log) (suc n) then ok false else elem log n >>= λ e. ok (e.term == t)

  -- The first index of the run of entries of one term that ends at a given index.
  unfoldable pub conflict_start : List (RaftLogEntry V) → ℕ → ℕ → Outcome ℕ
  conflict_start log t zero = ok 0
  conflict_start log t (suc zero) = ok 1
  conflict_start log t (suc (suc n)) = elem log n >>= λ e. elim (e.term == t) [
    | true ↦ conflict_start log t (suc n)
    | false ↦ ok (suc (suc n))
  ]

  -- The first half of a round of the append loop: cut the log at a conflicting entry. An entry of
  -- index 0 reads position -1.
  unfoldable pub cut_conflict :
      RaftLogEntry V → List (RaftLogEntry V) → Outcome (List (RaftLogEntry V))
  cut_conflict e log = elim (e.index) [
    | zero ↦ panic
    | suc i ↦
        if ltb i (length log)
        then (elem log i >>= λ x. ok (if x.term == e.term then log else take i log))
        else ok log
  ]

  -- A round of the append loop, as far as the log goes.
  unfoldable pub append_entry :
      RaftLogEntry V → List (RaftLogEntry V) → Outcome (List (RaftLogEntry V))
  unfolding cut_conflict
  append_entry e log =
      cut_conflict e log >>= λ cut. ok (if ltb (length cut) e.index then cut ++ e ∷ [] else cut)

  unfoldable pub append_log :
      List (RaftLogEntry V) → List (RaftLogEntry V) → Outcome (List (RaftLogEntry V))
  unfolding append_entry
  append_log [] log = ok log
  append_log (e ∷ es) log = append_entry e log >>= append_log es

  -- The loop of findLastIndexOfTerm, from position i - 1 down.
  unfoldable pub scan_back : List (RaftLogEntry V) → ℕ → ℕ → Outcome ℕ
  scan_back log t zero = ok 0
  scan_back log t (suc i) =
      elem log i >>= λ e. elim (e.term == t) [ true ↦ ok e.index | false ↦ scan_back log t i ]

  unfoldable pub find_last_index_of_term : List (RaftLogEntry V) → ℕ → Outcome ℕ
  unfolding scan_back
  find_last_index_of_term log t = scan_back log t (length log)
