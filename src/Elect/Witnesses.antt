-- ===== src/Elect/Witnesses.antt =====
-- core/Elect.go: the theorems at a candidate of the group g.
use majula.Prelude.{ℕ, ◌≡◌, refl, Option, some, [], ◌∷◌, ◌++◌, true, false, arith}
use majula.Prelude.Outcome.{ok}
use majula.Elect.{
  duty, ElectConfig, ElectCandidate, Note, new_elect_candidate, start, stop, main_loop_turn,
  is_duty, concerns,
}
use majula.Elect.Life.{
  turn, heartbeat, resign, run, run-Returns, new_elect_candidate-IsSound, start-stop_over,
}
use majula.Elect.Sound.{IsSound, Lives}
use majula.Elect.Wait.{on_heartbeat-off_duty}
use majula.Elect.Reach.{turns, new_elect_candidate-is_duty}
use majula.Elect.Manager.{ElectManager}

abbrev config : ElectConfig
config = record { base_overtime_t = 50; group_name = "g" }

abbrev on_duty : ElectCandidate
on_duty = record {
  id = "a";
  state = duty;
  base_overtime_t = 50;
  group_name = "g";
  wait_standby_time = 0;
  wait_duty_time = 60;
  heartbeat_time = 70;
  check_health_time = 250;
  cancelled = false;
  running = true;
  heartbeat_count = 1;
  state_change_count = 2;
  actions = [];
}

abbrev note : Option Note
note = some (record { id = "b"; timestamp = 65; group = some "g" })

on_duty-IsSound : IsSound on_duty
on_duty-IsSound = record { base = (omega arith, omega arith); count = (refl, omega arith) }

run-Returns_example :
    (c' : ElectCandidate) × (run
        (heartbeat 65 7 "b" note ∷ turn 200 (λ n. n) ∷ resign 300 8 ∷ [])
        on_duty
      ≡ ok c')
    × Lives on_duty c'
run-Returns_example =
    run-Returns (heartbeat 65 7 "b" note ∷ turn 200 (λ n. n) ∷ resign 300 8 ∷ []) on_duty
      on_duty-IsSound

new_elect_candidate-IsSound_example :
    IsSound (new_elect_candidate "a" (record config { base_overtime_t = 0 }))
new_elect_candidate-IsSound_example =
    new_elect_candidate-IsSound "a" (record config { base_overtime_t = 0 }) (omega arith)

start-stop_over_example :
    let c' = (start (stop on_duty)).0 in
    ((start (stop on_duty)).1 ≡ true)
    × (c'.running ≡ true)
    × ((now : ℕ) (draw : ℕ → ℕ) → main_loop_turn now draw c' ≡ ok c')
start-stop_over_example = start-stop_over on_duty refl

on_heartbeat-off_duty_example :
    (c' : ElectCandidate) × (run
        (heartbeat 65 7 "b" note ∷ turn 80 (λ n. n) ∷ turn 110 (λ n. n) ∷ [])
        on_duty
      ≡ ok c')
    × (is_duty c' ≡ false)
unfolding concerns
on_heartbeat-off_duty_example =
    on_heartbeat-off_duty 65 7 "b" note (turn 80 (λ n. n) ∷ turn 110 (λ n. n) ∷ []) on_duty
      on_duty-IsSound refl ((omega arith, omega arith), ((omega arith, omega arith), tt))
      (omega arith)

new_elect_candidate-is_duty_example :
    (c' : ElectCandidate) × (run
        (turn 10 (λ n. n) ∷ turns ((record { now = 40; draw = λ n. n }) ∷ [])
          ++ turn 120 (λ n. n) ∷ [])
        (new_elect_candidate "a" config)
      ≡ ok c')
    × (is_duty c' ≡ true)
unfolding new_elect_candidate
new_elect_candidate-is_duty_example =
    new_elect_candidate-is_duty "a" config 10 120 (λ n. n) (λ n. n)
      ((record { now = 40; draw = λ n. n }) ∷ []) (omega arith) (omega arith) (omega arith)

abbrev manager : ElectManager
manager = record { node = "a"; candidates = ("g", on_duty) ∷ [] }
