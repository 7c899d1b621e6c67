-- ===== src/Raft/Log/Merge.antt =====
-- core/Raft.go: the append loop of handleAppendEntries against its specification.
use mathlib.Core.List.{append-nil, append_assoc}
use majula.Prelude.{
  ℕ, suc, ◌≡◌, refl, ap, subst, ◌∙◌, List, [], ◌∷◌, ◌++◌, length, take, length-append, ◌==◌,
  if◌then◌else◌, arith, Bool-cases, inl, inr, some, get_elem?,
}
use majula.Prelude.Outcome.{ok}
use majula.Raft.Types.{RaftLogEntry}
use majula.Raft.Log.{append_entry, append_log}

module _ {ℓ} {V : Type ℓ} where
  -- Keep what agrees with the new entries; at the first conflict drop the rest; append what is new.
  unfoldable pub merge : List (RaftLogEntry V) → List (RaftLogEntry V) → List (RaftLogEntry V)
  merge old [] = old
  merge [] (e ∷ es) = e ∷ es
  merge (x ∷ xs) (e ∷ es) = let rest = merge xs es in if x.term == e.term then x ∷ rest else e ∷ es

  -- The entries are numbered one after another, the first by i + 1.
  abbrev pub IsNumbered : ℕ → List (RaftLogEntry V) → Type 0
  IsNumbered i [] = Unit {0}
  IsNumbered i (e ∷ es) = (e.index ≡ suc i) × IsNumbered (suc i) es

  get_elem?-middle :
      (p r : List (RaftLogEntry V)) (x : RaftLogEntry V)
      → get_elem? (p ++ x ∷ r) (length p) ≡ some x
  get_elem?-middle [] r x = refl
  get_elem?-middle (y ∷ p) r x = get_elem?-middle p r x

  take-append : (p r : List (RaftLogEntry V)) → take (length p) (p ++ r) ≡ p
  take-append [] r = refl
  take-append (y ∷ p) r = ap (λ t. y ∷ t) (take-append p r)

  append_entry-new :
      (p : List (RaftLogEntry V)) (e : RaftLogEntry V)
      → e.index ≡ suc (length p)
      → append_entry e p ≡ ok (p ++ e ∷ [])
  unfolding append_entry
  append_entry-new p e h = ground arith

  append_entry-middle :
      (p r : List (RaftLogEntry V)) (x e : RaftLogEntry V)
      → e.index ≡ suc (length p)
      → append_entry e (p ++ x ∷ r) ≡ ok (if x.term == e.term then p ++ x ∷ r else p ++ e ∷ [])
  unfolding append_entry
  append_entry-middle p r x e h =
      ground (arith, length-append p (x ∷ r), get_elem?-middle p r x, take-append p (x ∷ r))

  merge-nil : (es : List (RaftLogEntry V)) → merge [] es ≡ es
  unfolding merge
  merge-nil [] = refl
  merge-nil (e ∷ es) = refl

  -- The numbers of what follows one more entry.
  IsNumbered-snoc :
      (p : List (RaftLogEntry V)) (y : RaftLogEntry V) (es : List (RaftLogEntry V))
      → IsNumbered (suc (length p)) es
      → IsNumbered (length (p ++ y ∷ [])) es
  IsNumbered-snoc p y es h =
      subst (λ n. IsNumbered n es) (omega (arith, length-append p (y ∷ []))) h

  -- For new entries numbered from the index after p on, the append loop on p ++ r returns, and gives
  -- p followed by the merge of r with them.
  pub append_log-merge :
      (es p r : List (RaftLogEntry V))
      → IsNumbered (length p) es
      → append_log es (p ++ r) ≡ ok (p ++ merge r es)
  unfolding append_log merge
  append_log-merge [] p r h = refl
  append_log-merge (e ∷ es) p [] h =
      let ih = append_log-merge es (p ++ e ∷ []) [] (IsNumbered-snoc p e es h.1) in
      rw (append-nil p, append_entry-new p e h.0) (simp (append-nil, merge-nil, append_assoc) at ih)
  append_log-merge (e ∷ es) p (x ∷ r) h = elim (Bool-cases (x.term == e.term)) [
    | inl same ↦
        let ih = append_log-merge es (p ++ x ∷ []) r (IsNumbered-snoc p x es h.1) in
        rw (append_entry-middle p r x e h.0, same) (simp append_assoc at ih)
    | inr differs ↦
        let ih = append_log-merge es (p ++ e ∷ []) [] (IsNumbered-snoc p e es h.1) in
        rw (append_entry-middle p r x e h.0, differs)
          (simp (append-nil, merge-nil, append_assoc) at ih)
  ]

  pub merge-IsNumbered :
      (i : ℕ) (r es : List (RaftLogEntry V))
      → IsNumbered i r
      → IsNumbered i es
      → IsNumbered i (merge r es)
  unfolding merge
  merge-IsNumbered i r [] hr he = hr
  merge-IsNumbered i [] (e ∷ es) hr he = he
  merge-IsNumbered i (x ∷ r) (e ∷ es) hr he =
      ground (arith, merge-IsNumbered (suc i) r es hr.1 he.1)

  -- A second delivery of the same entries changes nothing.
  merge-merge : (r es : List (RaftLogEntry V)) → merge (merge r es) es ≡ merge r es
  unfolding merge
  merge-merge r [] = refl
  merge-merge [] (e ∷ es) = ground (arith, merge-merge [] es, merge-nil es)
  merge-merge (x ∷ r) (e ∷ es) = ground (arith, merge-merge r es, merge-merge [] es, merge-nil es)

  -- For new entries numbered from the index after p on, the append loop returns, and carrying it
  -- out once more on its result, with the same entries, changes nothing.
  append_log_twice :
      (es p r : List (RaftLogEntry V))
      → IsNumbered (length p) es
      → (log : List (RaftLogEntry V)) × (append_log es (p ++ r) ≡ ok log)
        × (append_log es log ≡ ok log)
  append_log_twice es p r h = (
    p ++ merge r es,
    append_log-merge es p r h,
    append_log-merge es p (merge r es) h ∙ ap (λ m. ok (p ++ m)) (merge-merge r es),
  )
