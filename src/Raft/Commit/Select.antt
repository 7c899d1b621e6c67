-- ===== src/Raft/Commit/Select.antt =====
-- core/Raft.go: quickSelect finds the element of a given rank, whatever pivots are drawn.
use majula.Prelude.{
  ℕ, zero, suc, ◌+◌, ◌-◌, ◌%◌, ◌≡◌, ◌≤◌, ◌<◌, refl, some, List, [], ◌∷◌, Bool, true, not, ◌&&◌,
  arith, length, get_elem?, get_elem?_lt, count_if, filter_if, ltb, Bool-cases, inl, inr, ltb→lt,
  ltb_false→le,
}
use majula.Prelude.Int.{ℤ, ltb_ℤ, leb_ℤ}
use majula.Prelude.Outcome.{Outcome, ok}
use majula.Raft.Commit.{quick_select, select_part}

abbrev pub below : ℤ → List ℤ → ℕ
below v arr = count_if (λ w. ltb_ℤ w v) arr

abbrev pub up_to : ℤ → List ℤ → ℕ
up_to v arr = count_if (λ w. leb_ℤ w v) arr

abbrev lows : ℤ → List ℤ → List ℤ
lows p arr = filter_if (λ w. ltb_ℤ w p) arr

abbrev highs : ℤ → List ℤ → List ℤ
highs p arr = filter_if (λ w. ltb_ℤ p w) arr

abbrev equals : ℤ → List ℤ → List ℤ
equals p arr = filter_if (λ w. not (ltb_ℤ w p) && not (ltb_ℤ p w)) arr

below-lows :
    (v p : ℤ) (arr : List ℤ)
    → ltb_ℤ v p ≡ true
    → (below v arr ≡ below v (lows p arr)) × (up_to v arr ≡ up_to v (lows p arr))
below-lows v p [] h = (refl, refl)
below-lows v p (x ∷ arr) h = ground (arith, below-lows v p arr h)

below-highs :
    (v p : ℤ) (arr : List ℤ)
    → ltb_ℤ p v ≡ true
    → (below v arr ≡ length (lows p arr) + length (equals p arr) + below v (highs p arr))
      × (up_to v arr ≡ length (lows p arr) + length (equals p arr) + up_to v (highs p arr))
below-highs v p [] h = (omega arith, omega arith)
below-highs v p (x ∷ arr) h = ground (arith, below-highs v p arr h)

below_pivot :
    (p : ℤ) (arr : List ℤ)
    → (below p arr ≡ length (lows p arr))
      × (up_to p arr ≡ length (lows p arr) + length (equals p arr))
      × (length arr ≡ length (lows p arr) + length (equals p arr) + length (highs p arr))
below_pivot p [] = (omega arith, omega arith, omega arith)
below_pivot p (x ∷ arr) = ground (arith, below_pivot p arr)

equals_pos : (p : ℤ) (arr : List ℤ) (i : ℕ) → get_elem? arr i ≡ some p → 0 < length (equals p arr)
equals_pos p [] i h = absurd (ground arith)
equals_pos p (x ∷ arr) zero h = ground arith
equals_pos p (x ∷ arr) (suc i) h = ground (arith, equals_pos p arr i)

filter_test :
    (t : ℤ → Bool) (arr : List ℤ) (i : ℕ) (v : ℤ)
    → get_elem? (filter_if t arr) i ≡ some v
    → t v ≡ true
filter_test t [] i v h = absurd (ground arith)
filter_test t (x ∷ arr) zero v h = elim (Bool-cases (t x)) [
  | inl a ↦ ground arith
  | inr b ↦ ground (arith, filter_test t arr 0 v)
]
filter_test t (x ∷ arr) (suc i) v h = elim (Bool-cases (t x)) [
  | inl a ↦ ground (arith, filter_test t arr i v)
  | inr b ↦ ground (arith, filter_test t arr (suc i) v)
]

-- v is an element of arr, at most k elements lie below it, and more than k lie up to it.
pub record IsRank (arr : List ℤ) (k : ℕ) (v : ℤ) : Type 0 where
  pub few_below : below v arr ≤ k
  pub many_up_to : k < up_to v arr

-- The result of quickSelect, and where it stands.
pub record Selects (arr : List ℤ) (k : ℕ) (r : Outcome ℤ) : Type 0 where
  pub value : ℤ
  pub returns : r ≡ ok value
  pub position : ℕ
  pub found : get_elem? arr position ≡ some value
  pub rank : IsRank arr k value

filter_position :
    (t : ℤ → Bool) (arr : List ℤ) (i : ℕ) (v : ℤ)
    → get_elem? (filter_if t arr) i ≡ some v
    → (j : ℕ) × (get_elem? arr j ≡ some v)
filter_position t [] i v h = absurd (ground arith)
filter_position t (x ∷ arr) zero v h = elim (Bool-cases (t x)) [
  | inl a ↦ (0, ground arith)
  | inr b ↦ let (j, e) = filter_position t arr zero v (ground arith) in (suc j, e)
]
filter_position t (x ∷ arr) (suc i) v h = elim (Bool-cases (t x)) [
  | inl a ↦ let (j, e) = filter_position t arr i v (ground arith) in (suc j, e)
  | inr b ↦ let (j, e) = filter_position t arr (suc i) v (ground arith) in (suc j, e)
]

low-IsRank :
    (arr : List ℤ) (p v : ℤ) (k : ℕ) → ltb_ℤ v p ≡ true → IsRank (lows p arr) k v → IsRank arr k v
low-IsRank arr p v k h r =
    let b = below-lows v p arr h in
    record {
      few_below = omega (arith, b.0, r.few_below);
      many_up_to = omega (arith, b.1, r.many_up_to);
    }

high-IsRank :
    (arr : List ℤ) (p v : ℤ) (k : ℕ)
    → ltb_ℤ p v ≡ true
    → length (lows p arr) + length (equals p arr) ≤ k
    → IsRank (highs p arr) (k - length (lows p arr) - length (equals p arr)) v
    → IsRank arr k v
high-IsRank arr p v k h c r =
    let b = below-highs v p arr h in
    record {
      few_below = omega (arith, b.0, r.few_below);
      many_up_to = omega (arith, b.1, r.many_up_to);
    }

select_part-Selects :
    (rec : List ℤ → ℕ → Outcome ℤ) (p : ℤ) (arr : List ℤ) (k i : ℕ)
    → ((sub : List ℤ) (j : ℕ)
        → length sub < length arr
        → j < length sub
        → Selects sub j (rec sub j))
    → get_elem? arr i ≡ some p
    → k < length arr
    → Selects arr k (select_part rec p arr k)
unfolding select_part
select_part-Selects rec p arr k i ih e l =
    let parts = below_pivot p arr in
    let here = equals_pos p arr i e in
    elim (Bool-cases (ltb k (length (lows p arr)))) [
      | inl low ↦
          let s = ih (lows p arr) k (omega (arith, parts.2)) (ltb→lt _ _ low) in
          let found = filter_position (λ w. ltb_ℤ w p) arr s.position s.value s.found in
          let test = filter_test (λ w. ltb_ℤ w p) arr s.position s.value s.found in
          record {
            value = s.value;
            returns = rw low s.returns;
            position = found.0;
            found = found.1;
            rank = low-IsRank arr p s.value k test s.rank;
          }
      | inr not_low ↦ elim (Bool-cases (ltb k (length (lows p arr) + length (equals p arr)))) [
        | inl equal ↦ record {
          value = p;
          returns = rw (not_low, equal);
          position = i;
          found = e;
          rank = record {
            few_below = omega (arith, parts.0, ltb_false→le _ _ not_low);
            many_up_to = omega (arith, parts.1, ltb→lt _ _ equal);
          };
        }
        | inr high ↦
            let c = ltb_false→le _ _ high in
            let s =
              ih (highs p arr) (k - length (lows p arr) - length (equals p arr))
                (omega (arith, parts.2)) (omega (arith, parts.2, c)) in
            let found = filter_position (λ w. ltb_ℤ p w) arr s.position s.value s.found in
            let test = filter_test (λ w. ltb_ℤ p w) arr s.position s.value s.found in
            record {
              value = s.value;
              returns = rw (not_low, high) s.returns;
              position = found.0;
              found = found.1;
              rank = high-IsRank arr p s.value k test c s.rank;
            }
      ]
    ]

-- With fuel for its length, quickSelect returns an element of the given rank, for every list, every
-- rank below its length and every draw of the pivots.
pub quick_select-Selects :
    (f : ℕ) (draw : ℕ → ℕ) (arr : List ℤ) (k : ℕ)
    → length arr ≤ f
    → k < length arr
    → Selects arr k (quick_select f draw arr k)
unfolding quick_select
quick_select-Selects zero draw arr k h l = absurd (omega arith)
quick_select-Selects (suc f) draw [] k h l = elim l [ ]
quick_select-Selects (suc f) draw (x ∷ []) k h l = record {
  value = x;
  returns = refl;
  position = 0;
  found = refl;
  rank = record { few_below = ground arith; many_up_to = ground arith };
}
quick_select-Selects (suc f) draw (x ∷ (y ∷ r)) k h l =
    let (p, e) = get_elem?_lt (x ∷ y ∷ r) (draw f % length (x ∷ y ∷ r)) (omega arith) in
    rw e (
      select_part-Selects (quick_select f draw) p (x ∷ y ∷ r) k _
        (λ sub j shorter inside. quick_select-Selects f draw sub j (omega arith) inside) e l)
