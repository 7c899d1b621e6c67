-- ===== src/Elect/Wait.antt =====
-- core/Elect.go: how long a candidate waits. A heartbeat of another keeps it off duty for the base
-- time, and left alone it is on duty after twice that time.
use majula.Prelude.{
  ℕ, ◌*◌, ◌+◌, ◌≡◌, ◌≤◌, ◌<◌, refl, ◌∙◌, sym, subst, String, Option, List, [], ◌∷◌, Bool, true,
  false, if◌then◌else◌, arith, Bool-cases, inl, inr,
}
use majula.Prelude.Int64.{leb_int64, leb_int64_early, quot_int64, wrap}
use majula.Prelude.Outcome.{Outcome, ok}
use majula.Elect.{
  ElectState, busy, standby, duty, ElectCandidate, Note, process_busy_state, process_standby_state,
  process_in, process_state, main_loop_turn, concerns, held_back, on_heartbeat, give_up_in, give_up,
  is_duty, is_duty_state,
}
use majula.Elect.Life.{Event, turn, heartbeat, give_up_note, resign, step, run}
use majula.Elect.Sound.{IsPositive, IsSound, duty_wait-lt, health_wait_ok}

-- Not on duty, and not before the limit.
abbrev Waits : ℕ → ElectState → ℕ → Type 0
Waits limit busy wait = Unit {0}
Waits limit standby wait = (limit ≤ wait) × (wait < 9223372036854775808)
Waits limit duty wait = ⊥

-- The event falls between two times; a give-up note, which shortens the wait, does not count.
abbrev IsWithin : ℕ → ℕ → Event → Type 0
IsWithin lo hi (turn now draw) = (lo ≤ now) × (now < hi)
IsWithin lo hi (heartbeat now r from content) = (lo ≤ now) × (now < hi)
IsWithin lo hi (give_up_note now from content) = ⊥
IsWithin lo hi (resign now r) = Unit {0}

abbrev AreWithin : ℕ → ℕ → List Event → Type 0
AreWithin lo hi [] = Unit {0}
AreWithin lo hi (e ∷ es) = IsWithin lo hi e × AreWithin lo hi es

-- A call that returns with a waiting candidate of the same base time.
abbrev HoldsOff : ℕ → ElectCandidate → Outcome ElectCandidate → Type 0
HoldsOff limit c r =
    (c' : ElectCandidate) × (r ≡ ok c')
    × (c'.base_overtime_t ≡ c.base_overtime_t)
    × Waits limit c'.state c'.wait_duty_time

process_in-HoldsOff :
    (t : ElectState) (lo now : ℕ) (draw : ℕ → ℕ) (c : ElectCandidate)
    → IsPositive c.base_overtime_t
    → c.state ≡ t
    → Waits (lo + c.base_overtime_t) t c.wait_duty_time
    → lo ≤ now
    → now < lo + c.base_overtime_t
    → lo + 3 * c.base_overtime_t ≤ 9223372036854775808
    → HoldsOff (lo + c.base_overtime_t) c (process_in t now draw c)
unfolding process_in process_busy_state process_standby_state
process_in-HoldsOff busy lo now draw c b e q l h room =
    elim (Bool-cases (leb_int64 c.wait_standby_time now)) [
      | inl due ↦
          let (w, p, x, y) = duty_wait-lt now (draw 0) c b (omega arith) in
          let (g, z) = health_wait_ok now (draw 1) c b in
          (
            record c {
              state = standby;
              state_change_count = c.state_change_count + 1;
              wait_duty_time = w;
              heartbeat_time = wrap (now + quot_int64 c.base_overtime_t 5);
              check_health_time = g;
            },
            rw (due, p, z) refl,
            refl,
            (omega arith, omega arith),
          )
      | inr early ↦
          rw early (
            c,
            refl,
            refl,
            subst (λ s. Waits (lo + c.base_overtime_t) s c.wait_duty_time) (sym e) tt,
          )
    ]
process_in-HoldsOff standby lo now draw c b e q l h room =
    let early : leb_int64 c.wait_duty_time now ≡ false =
      leb_int64_early c.wait_duty_time now (omega (arith, q.0)) q.1 in
    rw early
      (c, refl, refl, subst (λ s. Waits (lo + c.base_overtime_t) s c.wait_duty_time) (sym e) q)
process_in-HoldsOff duty lo now draw c b e q l h room = absurd q

turn-HoldsOff :
    (over : Bool) (lo now : ℕ) (draw : ℕ → ℕ) (c : ElectCandidate)
    → IsPositive c.base_overtime_t
    → Waits (lo + c.base_overtime_t) c.state c.wait_duty_time
    → lo ≤ now
    → now < lo + c.base_overtime_t
    → lo + 3 * c.base_overtime_t ≤ 9223372036854775808
    → HoldsOff (lo + c.base_overtime_t) c (if over then ok c else process_state now draw c)
unfolding process_state
turn-HoldsOff true lo now draw c b q l h room = (c, refl, refl, q)
turn-HoldsOff false lo now draw c b q l h room =
    process_in-HoldsOff c.state lo now draw c b refl q l h room

held_back-HoldsOff :
    (t : ElectState) (lo now r : ℕ) (c : ElectCandidate)
    → IsPositive c.base_overtime_t
    → c.state ≡ t
    → lo ≤ now
    → now + 2 * c.base_overtime_t ≤ 9223372036854775808
    → HoldsOff (lo + c.base_overtime_t) c (held_back t now r c)
unfolding held_back
held_back-HoldsOff busy lo now r c b e l room =
    (c, refl, refl, subst (λ s. Waits (lo + c.base_overtime_t) s c.wait_duty_time) (sym e) tt)
held_back-HoldsOff standby lo now r c b e l room =
    let (w, p, x, y) = duty_wait-lt now r c b room in
    (
      record c { wait_duty_time = w },
      rw p refl,
      refl,
      subst (λ s. Waits (lo + c.base_overtime_t) s w) (sym e) (omega arith, omega arith),
    )
held_back-HoldsOff duty lo now r c b e l room =
    let (w, p, x, y) = duty_wait-lt now r c b room in
    (
      record c {
        state = standby;
        state_change_count = c.state_change_count + 1;
        wait_duty_time = w;
      },
      rw p refl,
      refl,
      (omega arith, omega arith),
    )

give_up_in-HoldsOff :
    (t : ElectState) (limit now r : ℕ) (c : ElectCandidate)
    → c.state ≡ t
    → Waits limit t c.wait_duty_time
    → HoldsOff limit c (give_up_in t now r c)
unfolding give_up_in
give_up_in-HoldsOff busy limit now r c e q =
    (c, refl, refl, subst (λ s. Waits limit s c.wait_duty_time) (sym e) q)
give_up_in-HoldsOff standby limit now r c e q =
    (c, refl, refl, subst (λ s. Waits limit s c.wait_duty_time) (sym e) q)
give_up_in-HoldsOff duty limit now r c e q = absurd q

step-HoldsOff :
    (e : Event) (lo : ℕ) (c : ElectCandidate)
    → IsPositive c.base_overtime_t
    → Waits (lo + c.base_overtime_t) c.state c.wait_duty_time
    → IsWithin lo (lo + c.base_overtime_t) e
    → lo + 3 * c.base_overtime_t ≤ 9223372036854775808
    → HoldsOff (lo + c.base_overtime_t) c (step e c)
unfolding step main_loop_turn on_heartbeat give_up
step-HoldsOff (turn now draw) lo c b q w room =
    turn-HoldsOff c.cancelled lo now draw c b q w.0 w.1 room
step-HoldsOff (heartbeat now r from content) lo c b q w room =
    elim (Bool-cases (concerns from content c)) [
      | inl heard ↦ rw heard (held_back-HoldsOff c.state lo now r c b refl w.0 (omega (arith, w.1)))
      | inr ignored ↦ rw ignored (c, refl, refl, q)
    ]
step-HoldsOff (give_up_note now from content) lo c b q w room = absurd w
step-HoldsOff (resign now r) lo c b q w room =
    give_up_in-HoldsOff c.state (lo + c.base_overtime_t) now r c refl q

run-HoldsOff :
    (es : List Event) (lo base : ℕ) (c : ElectCandidate)
    → c.base_overtime_t ≡ base
    → IsPositive base
    → Waits (lo + base) c.state c.wait_duty_time
    → AreWithin lo (lo + base) es
    → lo + 3 * base ≤ 9223372036854775808
    → HoldsOff (lo + base) c (run es c)
unfolding run
run-HoldsOff [] lo base c n b q w room = (c, refl, refl, q)
run-HoldsOff (e ∷ es) lo base c n b q w room =
    let (mid, p, k, m) =
      step-HoldsOff e lo c (subst IsPositive (sym n) b)
        (subst (λ x. Waits (lo + x) c.state c.wait_duty_time) (sym n) q)
        (subst (λ x. IsWithin lo (lo + x) e) (sym n) w.0) (omega (arith, n)) in
    let m' = subst (λ x. Waits (lo + x) mid.state mid.wait_duty_time) n m in
    let (c', p', k', q') = run-HoldsOff es lo base mid (k ∙ n) b m' w.1 room in
    (c', rw p p', k' ∙ k, q')

off_duty : (limit wait : ℕ) (s : ElectState) → Waits limit s wait → is_duty_state s ≡ false
off_duty limit wait busy q = refl
off_duty limit wait standby q = refl
off_duty limit wait duty q = absurd q

-- For a sound candidate that hears at `now`, in any state, a heartbeat of another candidate of
-- its group: after whatever turns, heartbeats (both at times from `now` to before the base time
-- later) and resignations follow, the history returns and the candidate is not on duty, if the time
-- three base times after `now` is still an int64.
pub on_heartbeat-off_duty :
    (now r : ℕ) (from : String) (content : Option Note) (es : List Event) (c : ElectCandidate)
    → IsSound c
    → concerns from content c ≡ true
    → AreWithin now (now + c.base_overtime_t) es
    → now + 3 * c.base_overtime_t ≤ 9223372036854775808
    → (c' : ElectCandidate) × (run (heartbeat now r from content ∷ es) c ≡ ok c')
      × (is_duty c' ≡ false)
unfolding run step on_heartbeat is_duty
on_heartbeat-off_duty now r from content es c s heard w room =
    let (mid, p, k, m) =
      held_back-HoldsOff c.state now now r c s.base refl (omega arith) (omega arith) in
    let (c', p', k', q) = run-HoldsOff es now c.base_overtime_t mid k s.base m w room in
    (c', rw heard (rw p p'), off_duty _ _ c'.state q)
