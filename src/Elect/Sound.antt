-- ===== src/Elect/Sound.antt =====
-- core/Elect.go: a turn of a candidate does not panic, and its counters tell its state.
use majula.Prelude.{ℕ, ◌+◌, ◌*◌, ◌%◌, ◌≡◌, ◌≤◌, ◌<◌, inl, inr, refl, ◌∙◌, subst, arith, Bool-cases}
use native.Mathlib.Nat.{mod-lt}
use majula.Prelude.Int64.{leb_int64, quot_int64, wrap}
use majula.Prelude.Outcome.{Outcome, ok}
use majula.Elect.{
  ElectState, busy, standby, duty, ElectCandidate, int63n, send_heartbeat, duty_wait, health_wait,
  process_busy_state, process_standby_state, process_duty_state, beat, examine, process_in,
}

-- The changes go busy, standby, duty, standby, duty and so on, so their number gives the state.
abbrev CountTells : ElectState → ℕ → Type 0
CountTells busy n = n ≡ 0
CountTells standby n = n % 2 ≡ 1
CountTells duty n = (n % 2 ≡ 0) × (2 ≤ n)

-- A positive int64.
abbrev pub IsPositive : ℕ → Type 0
IsPositive n = (0 < n) × (n < 9223372036854775808)

pub record IsSound (c : ElectCandidate) : Type 0 where
  pub base : IsPositive c.base_overtime_t
  pub count : CountTells c.state c.state_change_count

int63n-lt : (r n : ℕ) → IsPositive n → (k : ℕ) × (int63n r n ≡ ok k) × (k < n)
unfolding int63n
int63n-lt r n h = (r % n, ground (arith, h.0, h.1), mod-lt r h.0)

pub duty_wait_ok :
    (now r : ℕ) (c : ElectCandidate)
    → IsPositive c.base_overtime_t
    → (w : ℕ) × (duty_wait now r c ≡ ok w)
unfolding duty_wait
duty_wait_ok now r c h =
    let (k, e, l) = int63n-lt r c.base_overtime_t h in
    (wrap (now + c.base_overtime_t + k), rw e refl)

-- Where the sum does not leave the int64.
pub duty_wait-lt :
    (now r : ℕ) (c : ElectCandidate)
    → IsPositive c.base_overtime_t
    → now + 2 * c.base_overtime_t ≤ 9223372036854775808
    → (w : ℕ) × (duty_wait now r c ≡ ok w)
      × (now + c.base_overtime_t ≤ w)
      × (w < now + 2 * c.base_overtime_t)
unfolding duty_wait
duty_wait-lt now r c h room =
    let (k, e, l) = int63n-lt r c.base_overtime_t h in
    (wrap (now + c.base_overtime_t + k), rw e refl, omega arith, omega arith)

pub health_wait_ok :
    (now r : ℕ) (c : ElectCandidate)
    → IsPositive c.base_overtime_t
    → (w : ℕ) × (health_wait now r c ≡ ok w)
unfolding health_wait
health_wait_ok now r c h =
    let (k, e, l) = int63n-lt r c.base_overtime_t h in
    (wrap (now + c.base_overtime_t * 3 + k), rw e refl)

-- What a call leaves: a sound candidate with the same name, group and base, and no fewer changes.
pub record Lives (c c' : ElectCandidate) : Type 0 where
  pub sound : IsSound c'
  pub id : c'.id ≡ c.id
  pub group_name : c'.group_name ≡ c.group_name
  pub base_overtime_t : c'.base_overtime_t ≡ c.base_overtime_t
  pub changes : c.state_change_count ≤ c'.state_change_count

pub Lives-refl : (c : ElectCandidate) → IsSound c → Lives c c
Lives-refl c s = record {
  sound = s;
  id = refl;
  group_name = refl;
  base_overtime_t = refl;
  changes = omega arith;
}

pub Lives-trans : {a b c : ElectCandidate} → Lives a b → Lives b c → Lives a c
Lives-trans p q = record {
  sound = q.sound;
  id = q.id ∙ p.id;
  group_name = q.group_name ∙ p.group_name;
  base_overtime_t = q.base_overtime_t ∙ p.base_overtime_t;
  changes = omega (arith, p.changes, q.changes);
}

busy_count : (c : ElectCandidate) → IsSound c → c.state ≡ busy → c.state_change_count ≡ 0
busy_count c s e = subst (λ t. CountTells t c.state_change_count) e s.count

standby_count : (c : ElectCandidate) → IsSound c → c.state ≡ standby → c.state_change_count % 2 ≡ 1
standby_count c s e = subst (λ t. CountTells t c.state_change_count) e s.count

pub duty_count :
    (c : ElectCandidate)
    → IsSound c
    → c.state ≡ duty
    → (c.state_change_count % 2 ≡ 0) × (2 ≤ c.state_change_count)
duty_count c s e = subst (λ t. CountTells t c.state_change_count) e s.count

-- A call that returns, and what it leaves.
abbrev pub Returns : ElectCandidate → Outcome ElectCandidate → Type 0
Returns c r = (c' : ElectCandidate) × (r ≡ ok c') × Lives c c'

pub Returns-refl : (c : ElectCandidate) → IsSound c → Returns c (ok c)
Returns-refl c s = (c, refl, Lives-refl c s)

process_busy_state-Returns :
    (now : ℕ) (draw : ℕ → ℕ) (c : ElectCandidate)
    → IsSound c
    → c.state ≡ busy
    → Returns c (process_busy_state now draw c)
unfolding process_busy_state
process_busy_state-Returns now draw c s e = elim (Bool-cases (leb_int64 c.wait_standby_time now)) [
  | inl due ↦
      let n = busy_count c s e in
      let (w, p) = duty_wait_ok now (draw 0) c s.base in
      let (h, q) = health_wait_ok now (draw 1) c s.base in
      (
        record c {
          state = standby;
          state_change_count = c.state_change_count + 1;
          wait_duty_time = w;
          heartbeat_time = wrap (now + quot_int64 c.base_overtime_t 5);
          check_health_time = h;
        },
        rw (due, p, q) refl,
        record {
          sound = record { base = s.base; count = omega (arith, n) };
          id = refl;
          group_name = refl;
          base_overtime_t = refl;
          changes = omega arith;
        },
      )
  | inr early ↦ rw early (Returns-refl c s)
]

process_standby_state-Returns :
    (now : ℕ) (draw : ℕ → ℕ) (c : ElectCandidate)
    → IsSound c
    → c.state ≡ standby
    → Returns c (process_standby_state now draw c)
unfolding process_standby_state send_heartbeat
process_standby_state-Returns now draw c s e = elim (Bool-cases (leb_int64 c.wait_duty_time now)) [
  | inl due ↦
      let n = standby_count c s e in
      let (h, q) = health_wait_ok now (draw 0) c s.base in
      (
        send_heartbeat now (record c {
          state = duty;
          state_change_count = c.state_change_count + 1;
          heartbeat_time = wrap (now + quot_int64 c.base_overtime_t 5);
          check_health_time = h;
        }),
        rw (due, q) refl,
        record {
          sound = record { base = s.base; count = (omega (arith, n), omega (arith, n)) };
          id = refl;
          group_name = refl;
          base_overtime_t = refl;
          changes = omega arith;
        },
      )
  | inr early ↦ rw early (Returns-refl c s)
]

beat-Lives : (now : ℕ) (c : ElectCandidate) → IsSound c → Lives c (beat now c)
unfolding beat send_heartbeat
beat-Lives now c s = elim (Bool-cases (leb_int64 c.heartbeat_time now)) [
  | inl due ↦ rw due (record {
    sound = record { base = s.base; count = s.count };
    id = refl;
    group_name = refl;
    base_overtime_t = refl;
    changes = omega arith;
  })
  | inr early ↦ rw early (Lives-refl c s)
]

examine-Returns :
    (now : ℕ) (draw : ℕ → ℕ) (c : ElectCandidate) → IsSound c → Returns c (examine now draw c)
unfolding examine
examine-Returns now draw c s = elim (Bool-cases (leb_int64 c.check_health_time now)) [
  | inl due ↦
      let (h, q) = health_wait_ok now (draw 0) c s.base in
      (
        record c { check_health_time = h },
        rw (due, q) refl,
        record {
          sound = record { base = s.base; count = s.count };
          id = refl;
          group_name = refl;
          base_overtime_t = refl;
          changes = omega arith;
        },
      )
  | inr early ↦ rw early (Returns-refl c s)
]

pub process_in-Returns :
    (t : ElectState) (now : ℕ) (draw : ℕ → ℕ) (c : ElectCandidate)
    → IsSound c
    → c.state ≡ t
    → Returns c (process_in t now draw c)
unfolding process_in process_duty_state
process_in-Returns busy now draw c s e = process_busy_state-Returns now draw c s e
process_in-Returns standby now draw c s e = process_standby_state-Returns now draw c s e
process_in-Returns duty now draw c s e =
    let l = beat-Lives now c s in
    let (c', q, m) = examine-Returns now draw (beat now c) l.sound in (c', q, Lives-trans l m)
