-- ===== src/Elect/Reach.antt =====
-- core/Elect.go: a candidate that hears nothing reaches duty.
use majula.Prelude.{
  ℕ, ◌+◌, ◌*◌, ◌≡◌, ◌≤◌, ◌<◌, refl, ◌∙◌, sym, subst, String, List, [], ◌∷◌, ◌++◌, Bool, true, false,
  if◌then◌else◌, arith, Bool-cases, inl, inr,
}
use majula.Prelude.Int64.{leb_int64, leb_int64_due, quot_int64, wrap}
use majula.Prelude.Outcome.{Outcome, ok}
use majula.Elect.{
  ElectState, busy, standby, duty, ElectConfig, ElectCandidate, new_elect_candidate, send_heartbeat,
  process_busy_state, process_standby_state, process_duty_state, beat, examine, process_in,
  process_state, main_loop_turn, is_duty,
}
use majula.Elect.Life.{Event, turn, step, run, new_elect_candidate-IsSound}
use majula.Elect.Sound.{IsPositive, duty_wait-lt, health_wait_ok}

-- On duty, or on standby with a wait that ends by the limit.
abbrev Nears : ℕ → ElectState → ℕ → Type 0
Nears limit busy wait = ⊥
Nears limit standby wait = wait ≤ limit
Nears limit duty wait = Unit {0}

-- A turn that returns and leaves a running candidate of the same base time, so near to duty.
record Turned (limit : ℕ) (c : ElectCandidate) (r : Outcome ElectCandidate) : Type 0 where
  after : ElectCandidate
  returns : r ≡ ok after
  base : after.base_overtime_t ≡ c.base_overtime_t
  on : after.cancelled ≡ c.cancelled
  near : Nears limit after.state after.wait_duty_time

pub record Turn : Type 0 where
  pub now : ℕ
  pub draw : ℕ → ℕ

abbrev pub turns : List Turn → List Event
turns [] = []
turns (t ∷ ts) = turn t.now t.draw ∷ turns ts

examine_kept :
    (now : ℕ) (draw : ℕ → ℕ) (c : ElectCandidate)
    → IsPositive c.base_overtime_t
    → (c' : ElectCandidate) × (examine now draw c ≡ ok c')
      × (c'.base_overtime_t ≡ c.base_overtime_t)
      × (c'.cancelled ≡ c.cancelled)
      × (c'.state ≡ c.state)
unfolding examine
examine_kept now draw c b = elim (Bool-cases (leb_int64 c.check_health_time now)) [
  | inl due ↦
      let (h, q) = health_wait_ok now (draw 0) c b in
      (record c { check_health_time = h }, rw (due, q) refl, refl, refl, refl)
  | inr early ↦ rw early (c, refl, refl, refl, refl)
]

beat_kept :
    (now : ℕ) (c : ElectCandidate)
    → ((beat now c).base_overtime_t ≡ c.base_overtime_t)
      × ((beat now c).cancelled ≡ c.cancelled)
      × ((beat now c).state ≡ c.state)
unfolding beat send_heartbeat
beat_kept now c = elim (Bool-cases (leb_int64 c.heartbeat_time now)) [
  | inl due ↦ rw due (refl, refl, refl)
  | inr early ↦ rw early (refl, refl, refl)
]

duty-Turned :
    (limit now : ℕ) (draw : ℕ → ℕ) (c : ElectCandidate)
    → IsPositive c.base_overtime_t
    → c.state ≡ duty
    → (t : Turned limit c (process_duty_state now draw c)) × ((t.after).state ≡ duty)
unfolding process_duty_state
duty-Turned limit now draw c b e =
    let (kb, kc, ks) = beat_kept now c in
    let (c', p, nb, nc, ns) = examine_kept now draw (beat now c) (subst IsPositive (sym kb) b) in
    let still : c'.state ≡ duty = ns ∙ (ks ∙ e) in
    (
      record {
        after = c';
        returns = p;
        base = nb ∙ kb;
        on = nc ∙ kc;
        near = subst (λ s. Nears limit s c'.wait_duty_time) (sym still) tt;
      },
      still,
    )

standby_due :
    (limit now : ℕ) (draw : ℕ → ℕ) (c : ElectCandidate)
    → IsPositive c.base_overtime_t
    → leb_int64 c.wait_duty_time now ≡ true
    → (t : Turned limit c (process_standby_state now draw c)) × ((t.after).state ≡ duty)
unfolding process_standby_state send_heartbeat
standby_due limit now draw c b due =
    let (h, q) = health_wait_ok now (draw 0) c b in
    (
      record {
        after = send_heartbeat now (record c {
          state = duty;
          state_change_count = c.state_change_count + 1;
          heartbeat_time = wrap (now + quot_int64 c.base_overtime_t 5);
          check_health_time = h;
        });
        returns = rw (due, q) refl;
        base = refl;
        on = refl;
        near = tt;
      },
      refl,
    )

standby_early :
    (limit now : ℕ) (draw : ℕ → ℕ) (c : ElectCandidate)
    → c.state ≡ standby
    → c.wait_duty_time ≤ limit
    → leb_int64 c.wait_duty_time now ≡ false
    → Turned limit c (process_standby_state now draw c)
unfolding process_standby_state
standby_early limit now draw c e q early = rw early (record {
  after = c;
  returns = refl;
  base = refl;
  on = refl;
  near = subst (λ s. Nears limit s c.wait_duty_time) (sym e) q;
})

process_in-Turned :
    (t : ElectState) (limit now : ℕ) (draw : ℕ → ℕ) (c : ElectCandidate)
    → IsPositive c.base_overtime_t
    → c.state ≡ t
    → Nears limit t c.wait_duty_time
    → Turned limit c (process_in t now draw c)
unfolding process_in
process_in-Turned busy limit now draw c b e q = absurd q
process_in-Turned standby limit now draw c b e q =
    elim (Bool-cases (leb_int64 c.wait_duty_time now)) [
      | inl due ↦ (standby_due limit now draw c b due).0
      | inr early ↦ standby_early limit now draw c e q early
    ]
process_in-Turned duty limit now draw c b e q = (duty-Turned limit now draw c b e).0

-- A turn at the limit or later ends on duty.
process_in_late :
    (t : ElectState) (limit now : ℕ) (draw : ℕ → ℕ) (c : ElectCandidate)
    → IsPositive c.base_overtime_t
    → c.state ≡ t
    → Nears limit t c.wait_duty_time
    → limit ≤ now
    → now < 9223372036854775808
    → (c' : ElectCandidate) × (process_in t now draw c ≡ ok c') × (c'.state ≡ duty)
unfolding process_in
process_in_late busy limit now draw c b e q h room = absurd q
process_in_late standby limit now draw c b e q h room =
    let (r, d) =
      standby_due limit now draw c b (leb_int64_due c.wait_duty_time now (omega arith) room) in
    (r.after, r.returns, d)
process_in_late duty limit now draw c b e q h room =
    let (r, d) = duty-Turned limit now draw c b e in (r.after, r.returns, d)

on_turn :
    (over : Bool) (now : ℕ) (draw : ℕ → ℕ) (c : ElectCandidate)
    → over ≡ false
    → (if over then ok c else process_state now draw c) ≡ process_in c.state now draw c
unfolding process_state
on_turn true now draw c e = cc
on_turn false now draw c e = refl

turns_to_duty :
    (ts : List Turn) (limit now : ℕ) (draw : ℕ → ℕ) (c : ElectCandidate)
    → IsPositive c.base_overtime_t
    → c.cancelled ≡ false
    → Nears limit c.state c.wait_duty_time
    → limit ≤ now
    → now < 9223372036854775808
    → (c' : ElectCandidate) × (run (turns ts ++ turn now draw ∷ []) c ≡ ok c') × (c'.state ≡ duty)
unfolding run step main_loop_turn
turns_to_duty [] limit now draw c b on q h room =
    let (c', p, d) = process_in_late c.state limit now draw c b refl q h room in
    (c', rw (on_turn c.cancelled now draw c on) (rw p refl), d)
turns_to_duty (t ∷ ts) limit now draw c b on q h room =
    let m = process_in-Turned c.state limit t.now t.draw c b refl q in
    let (c', p, d) =
      turns_to_duty ts limit now draw m.after (subst IsPositive (sym m.base) b) (m.on ∙ on) m.near h
        room in
    (c', rw (on_turn c.cancelled t.now t.draw c on) (rw m.returns p), d)

first_turn :
    (limit now : ℕ) (draw : ℕ → ℕ) (c : ElectCandidate)
    → IsPositive c.base_overtime_t
    → c.wait_standby_time ≤ now
    → now + 2 * c.base_overtime_t ≤ limit
    → limit < 9223372036854775808
    → Turned limit c (process_busy_state now draw c)
unfolding process_busy_state
first_turn limit now draw c b z h room =
    let (w, p, l, u) = duty_wait-lt now (draw 0) c b (omega arith) in
    let (g, q) = health_wait_ok now (draw 1) c b in
    let due : leb_int64 c.wait_standby_time now ≡ true =
      leb_int64_due c.wait_standby_time now z (omega arith) in
    record {
      after = record c {
        state = standby;
        state_change_count = c.state_change_count + 1;
        wait_duty_time = w;
        heartbeat_time = wrap (now + quot_int64 c.base_overtime_t 5);
        check_health_time = g;
      };
      returns = rw (due, p, q) refl;
      base = refl;
      on = refl;
      near = omega arith;
    }

-- A new candidate whose configuration gives no negative base time, that turns for the first time at
-- `start` and hears nothing is on duty after a turn at an int64 time at least twice its base time
-- later, whatever turns, at whatever times, lie between.
pub new_elect_candidate-is_duty :
    (node_id : String) (config : ElectConfig) (start now : ℕ) (first last : ℕ → ℕ) (ts : List Turn)
    → config.base_overtime_t < 9223372036854775808
    → let c = new_elect_candidate node_id config in
      start + 2 * c.base_overtime_t ≤ now
      → now < 9223372036854775808
      → (c' : ElectCandidate) × (run (turn start first ∷ turns ts ++ turn now last ∷ []) c ≡ ok c')
        × (is_duty c' ≡ true)
unfolding run step main_loop_turn is_duty new_elect_candidate process_state process_in
new_elect_candidate-is_duty node_id config start now first last ts valid h room =
    let c = new_elect_candidate node_id config in
    let b = (new_elect_candidate-IsSound node_id config valid).base in
    let m = first_turn now start first c b (omega arith) h room in
    let (c', p, d) =
      turns_to_duty ts now now last m.after (subst IsPositive (sym m.base) b) m.on m.near
        (omega arith) room in
    (c', rw m.returns p, rw d refl)
