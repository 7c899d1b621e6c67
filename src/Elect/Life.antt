-- ===== src/Elect/Life.antt =====
-- core/Elect.go: histories of a candidate. No call panics, the counters tell the state, and after
-- a stop the loop is over for good.
use majula.Prelude.{
  ℕ, ◌+◌, ◌<◌, ◌≡◌, inl, inr, refl, String, Option, List, [], ◌∷◌, Bool, true, false, if◌then◌else◌,
  arith, Bool-cases,
}
use majula.Prelude.Outcome.{Outcome, ok, ◌>>=◌}
use majula.Elect.{
  ElectState, busy, standby, duty, ElectConfig, ElectCandidate, Note, publish, give_up_topic,
  note_of, new_elect_candidate, start, stop, subscribe_to_election_topics, process_state,
  main_loop_turn, concerns, held_back, on_heartbeat, hastened, on_give_up, give_up_in, give_up,
}
use majula.Elect.Sound.{
  IsSound, duty_wait_ok, Lives, Lives-refl, Lives-trans, duty_count, Returns, Returns-refl,
  process_in-Returns,
}

-- What can happen to a candidate, one lock at a time, in any order.
pub data Event : Type 0 where
  turn : ℕ → (ℕ → ℕ) → Event
  heartbeat : ℕ → ℕ → String → Option Note → Event
  give_up_note : ℕ → String → Option Note → Event
  resign : ℕ → ℕ → Event

unfoldable pub step : Event → ElectCandidate → Outcome ElectCandidate
step (turn now draw) c = main_loop_turn now draw c
step (heartbeat now r from content) c = on_heartbeat now r from content c
step (give_up_note now from content) c = ok (on_give_up now from content c)
step (resign now r) c = give_up now r c

unfoldable pub run : List Event → ElectCandidate → Outcome ElectCandidate
run [] c = ok c
run (e ∷ es) c = step e c >>= run es

held_back-Returns :
    (t : ElectState) (now r : ℕ) (c : ElectCandidate)
    → IsSound c
    → c.state ≡ t
    → Returns c (held_back t now r c)
unfolding held_back
held_back-Returns busy now r c s e = Returns-refl c s
held_back-Returns standby now r c s e =
    let (w, p) = duty_wait_ok now r c s.base in
    (
      record c { wait_duty_time = w },
      rw p refl,
      record {
        sound = record { base = s.base; count = s.count };
        id = refl;
        group_name = refl;
        base_overtime_t = refl;
        changes = omega arith;
      },
    )
held_back-Returns duty now r c s e =
    let (w, p) = duty_wait_ok now r c s.base in
    let n = duty_count c s e in
    (
      record c {
        state = standby;
        state_change_count = c.state_change_count + 1;
        wait_duty_time = w;
      },
      rw p refl,
      record {
        sound = record { base = s.base; count = omega (arith, n.0) };
        id = refl;
        group_name = refl;
        base_overtime_t = refl;
        changes = omega arith;
      },
    )

hastened-Lives :
    (t : ElectState) (now : ℕ) (c : ElectCandidate)
    → IsSound c
    → c.state ≡ t
    → Lives c (hastened t now c)
unfolding hastened
hastened-Lives standby now c s e = record {
  sound = record { base = s.base; count = s.count };
  id = refl;
  group_name = refl;
  base_overtime_t = refl;
  changes = omega arith;
}
hastened-Lives busy now c s e = Lives-refl c s
hastened-Lives duty now c s e = Lives-refl c s

give_up_in-Returns :
    (t : ElectState) (now r : ℕ) (c : ElectCandidate)
    → IsSound c
    → c.state ≡ t
    → Returns c (give_up_in t now r c)
unfolding give_up_in
give_up_in-Returns busy now r c s e = Returns-refl c s
give_up_in-Returns standby now r c s e = Returns-refl c s
give_up_in-Returns duty now r c s e =
    let n = duty_count c s e in
    let (w, p) = duty_wait_ok now r c s.base in
    (
      record c {
        state = standby;
        state_change_count = c.state_change_count + 1;
        wait_duty_time = w;
        actions = publish (give_up_topic c) (note_of now c) ∷ c.actions;
      },
      rw p refl,
      record {
        sound = record { base = s.base; count = omega (arith, n.0) };
        id = refl;
        group_name = refl;
        base_overtime_t = refl;
        changes = omega arith;
      },
    )

turn-Returns :
    (over : Bool) (now : ℕ) (draw : ℕ → ℕ) (c : ElectCandidate)
    → IsSound c
    → Returns c (if over then ok c else process_state now draw c)
unfolding process_state
turn-Returns true now draw c s = Returns-refl c s
turn-Returns false now draw c s = process_in-Returns c.state now draw c s refl

step-Returns : (e : Event) (c : ElectCandidate) → IsSound c → Returns c (step e c)
unfolding step main_loop_turn on_heartbeat on_give_up give_up
step-Returns (turn now draw) c s = turn-Returns c.cancelled now draw c s
step-Returns (heartbeat now r from content) c s = elim (Bool-cases (concerns from content c)) [
  | inl heard ↦ rw heard (held_back-Returns c.state now r c s refl)
  | inr ignored ↦ rw ignored (Returns-refl c s)
]
step-Returns (give_up_note now from content) c s = elim (Bool-cases (concerns from content c)) [
  | inl heard ↦ rw heard (hastened c.state now c, refl, hastened-Lives c.state now c s refl)
  | inr ignored ↦ rw ignored (Returns-refl c s)
]
step-Returns (resign now r) c s = give_up_in-Returns c.state now r c s refl

-- For a sound candidate, every history returns, without a panic, and leaves a sound candidate: the
-- number of state changes still tells the state (none is busy, odd is standby, even is duty), and
-- name, group and base time are as before.
pub run-Returns : (es : List Event) (c : ElectCandidate) → IsSound c → Returns c (run es c)
unfolding run
run-Returns [] c s = Returns-refl c s
run-Returns (e ∷ es) c s =
    let (mid, p, l) = step-Returns e c s in
    let (c', q, m) = run-Returns es mid l.sound in (c', rw p q, Lives-trans l m)

-- A new candidate is sound, unless the configuration gives it a negative base time.
pub new_elect_candidate-IsSound :
    (node_id : String) (config : ElectConfig)
    → config.base_overtime_t < 9223372036854775808
    → IsSound (new_elect_candidate node_id config)
unfolding new_elect_candidate
new_elect_candidate-IsSound node_id config h = record {
  base = (ground arith, ground arith);
  count = refl;
}

-- A running candidate that is stopped can be started again without an error, but its loop is over:
-- a turn at any time leaves it as it is, though it counts as running.
pub start-stop_over :
    (c : ElectCandidate)
    → c.running ≡ true
    → let c' = (start (stop c)).0 in
      ((start (stop c)).1 ≡ true)
      × (c'.running ≡ true)
      × ((now : ℕ) (draw : ℕ → ℕ) → main_loop_turn now draw c' ≡ ok c')
unfolding start stop main_loop_turn subscribe_to_election_topics
start-stop_over c h = rw h (refl, refl, λ now draw. refl)
