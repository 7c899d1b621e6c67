-- ===== src/Elect.antt =====
-- core/Elect.go: the duty of a group. A candidate is busy, on standby or on duty; a clock turns it
-- forward, and heartbeats of others hold it back.
pub mod Life
pub mod Wait
pub mod Reach
pub mod Manager
pub mod Sound
mod Witnesses
use majula.Prelude.{
  ℕ, ◌+◌, ◌*◌, ◌/◌, ◌%◌, String, Option, none, some, List, [], ◌∷◌, Bool, true, false,
  if◌then◌else◌, str_eq, leb, ltb, ◌-◌, ◌==◌, not, ◌&&◌,
}
use majula.Prelude.Int64.{wrap, leb_int64, quot_int64}
use majula.Prelude.Outcome.{Outcome, ok, panic, ◌>>=◌}
use Prim.Native.String.{◌++◌ as text_append}

pub data ElectState : Type 0 where
  busy standby duty : ElectState

abbrev pub base_overtime : ℕ
base_overtime = 3000

pub record ElectConfig : Type 0 where
  pub base_overtime_t : ℕ
  pub group_name : String

-- The map that the messages carry; `group` is none where the key is missing or not a string.
pub record Note : Type 0 where
  pub id : String
  pub timestamp : ℕ
  pub group : Option String

-- What a candidate does to its node.
pub data Action : Type 0 where
  subscribe : String → String → Action
  publish : String → Note → Action
  go_main_loop : Action

-- Times are Unix milliseconds, int64 like the base time.
pub record ElectCandidate : Type 0 where
  pub id : String
  pub state : ElectState
  pub base_overtime_t : ℕ
  pub group_name : String
  pub wait_standby_time : ℕ
  pub wait_duty_time : ℕ
  pub heartbeat_time : ℕ
  pub check_health_time : ℕ
  pub cancelled : Bool
  pub running : Bool
  pub heartbeat_count : ℕ
  pub state_change_count : ℕ
  pub actions : List Action  -- the newest first

unfoldable pub new_elect_candidate : String → ElectConfig → ElectCandidate
new_elect_candidate node_id config = record {
  id = node_id;
  state = busy;
  base_overtime_t = if config.base_overtime_t == 0 then base_overtime else config.base_overtime_t;
  group_name = config.group_name;
  wait_standby_time = 0;
  wait_duty_time = 0;
  heartbeat_time = 0;
  check_health_time = 0;
  cancelled = false;
  running = false;
  heartbeat_count = 0;
  state_change_count = 0;
  actions = [];
}

abbrev heartbeat_topic : ElectCandidate → String
heartbeat_topic c = text_append "election_heartbeat_" c.group_name

abbrev pub give_up_topic : ElectCandidate → String
give_up_topic c = text_append "election_giveup_" c.group_name

abbrev act : Action → ElectCandidate → ElectCandidate
act a c = record c { actions = a ∷ c.actions }

unfoldable pub subscribe_to_election_topics : ElectCandidate → ElectCandidate
subscribe_to_election_topics c =
    act (subscribe (give_up_topic c) c.id) (act (subscribe (heartbeat_topic c) c.id) c)

-- The Boolean is false where the source returns an error.
unfoldable pub start : ElectCandidate → ElectCandidate × Bool
start c =
    if c.running
    then (c, false)
    else (act go_main_loop (subscribe_to_election_topics (record c { running = true })), true)

unfoldable pub stop : ElectCandidate → ElectCandidate
stop c = if c.running then record c { running = false; cancelled = true } else c

abbrev pub is_duty_state : ElectState → Bool
is_duty_state duty = true
is_duty_state _ = false

unfoldable pub is_duty : ElectCandidate → Bool
is_duty c = is_duty_state c.state

-- rand.Int63n: a number below n from the random number r, and a panic unless n is positive.
unfoldable pub int63n : ℕ → ℕ → Outcome ℕ
int63n r n = if ltb 0 n && ltb n 9223372036854775808 then ok (r % n) else panic

abbrev pub note_of : ℕ → ElectCandidate → Note
note_of now c = record { id = c.id; timestamp = now; group = some c.group_name }

unfoldable pub send_heartbeat : ℕ → ElectCandidate → ElectCandidate
send_heartbeat now c = record c {
  actions = publish (heartbeat_topic c) (note_of now c) ∷ c.actions;
  heartbeat_count = c.heartbeat_count + 1;
}

-- now + BaseOvertimeT + a random offset
unfoldable pub duty_wait : ℕ → ℕ → ElectCandidate → Outcome ℕ
duty_wait now r c =
    int63n r c.base_overtime_t >>= λ offset. ok (wrap (now + c.base_overtime_t + offset))

-- now + BaseOvertimeT*3 + a random offset
unfoldable pub health_wait : ℕ → ℕ → ElectCandidate → Outcome ℕ
health_wait now r c =
    int63n r c.base_overtime_t >>= λ offset. ok (wrap (now + c.base_overtime_t * 3 + offset))

-- `draw` gives the random numbers of one call, in turn.
unfoldable pub process_busy_state : ℕ → (ℕ → ℕ) → ElectCandidate → Outcome ElectCandidate
process_busy_state now draw c =
    if leb_int64 c.wait_standby_time now
    then (duty_wait now (draw 0) c >>= λ wait. health_wait now (draw 1) c >>= λ health.
        ok (record c {
          state = standby;
          state_change_count = c.state_change_count + 1;
          wait_duty_time = wait;
          heartbeat_time = wrap (now + quot_int64 c.base_overtime_t 5);
          check_health_time = health;
        }))
    else ok c

unfoldable pub process_standby_state : ℕ → (ℕ → ℕ) → ElectCandidate → Outcome ElectCandidate
process_standby_state now draw c =
    if leb_int64 c.wait_duty_time now
    then (health_wait now (draw 0) c >>= λ health. ok (
        send_heartbeat now (record c {
          state = duty;
          state_change_count = c.state_change_count + 1;
          heartbeat_time = wrap (now + quot_int64 c.base_overtime_t 5);
          check_health_time = health;
        })))
    else ok c

unfoldable pub beat : ℕ → ElectCandidate → ElectCandidate
beat now c =
    if leb_int64 c.heartbeat_time now
    then record (send_heartbeat now c) {
      heartbeat_time = wrap (now + quot_int64 c.base_overtime_t 5);
    }
    else c

-- checkHealth only writes to the log.
unfoldable pub examine : ℕ → (ℕ → ℕ) → ElectCandidate → Outcome ElectCandidate
examine now draw c =
    if leb_int64 c.check_health_time now
    then (health_wait now (draw 0) c >>= λ health. ok (record c { check_health_time = health }))
    else ok c

unfoldable pub process_duty_state : ℕ → (ℕ → ℕ) → ElectCandidate → Outcome ElectCandidate
process_duty_state now draw c = examine now draw (beat now c)

unfoldable pub process_in : ElectState → ℕ → (ℕ → ℕ) → ElectCandidate → Outcome ElectCandidate
process_in busy now draw c = process_busy_state now draw c
process_in standby now draw c = process_standby_state now draw c
process_in duty now draw c = process_duty_state now draw c

unfoldable pub process_state : ℕ → (ℕ → ℕ) → ElectCandidate → Outcome ElectCandidate
process_state now draw c = process_in c.state now draw c

-- One turn of the loop; when the context is done the loop is over.
unfoldable pub main_loop_turn : ℕ → (ℕ → ℕ) → ElectCandidate → Outcome ElectCandidate
main_loop_turn now draw c = if c.cancelled then ok c else process_state now draw c

-- A message counts if it is from another candidate, can be read and names this group.
unfoldable pub concerns : String → Option Note → ElectCandidate → Bool
concerns from none c = false
concerns from (some note) c =
    not (str_eq from c.id)
    && (elim (note.group) [ none ↦ false | some group ↦ str_eq group c.group_name ])

unfoldable pub held_back : ElectState → ℕ → ℕ → ElectCandidate → Outcome ElectCandidate
held_back busy now r c = ok c
held_back standby now r c = duty_wait now r c >>= λ wait. ok (record c { wait_duty_time = wait })
held_back duty now r c = duty_wait now r c >>= λ wait. ok (record c {
  state = standby;
  state_change_count = c.state_change_count + 1;
  wait_duty_time = wait;
})

unfoldable pub on_heartbeat : ℕ → ℕ → String → Option Note → ElectCandidate → Outcome ElectCandidate
on_heartbeat now r from content c =
    if concerns from content c then held_back c.state now r c else ok c

unfoldable pub hastened : ElectState → ℕ → ElectCandidate → ElectCandidate
hastened standby now c = record c { wait_duty_time = wrap (now + quot_int64 c.base_overtime_t 2) }
hastened _ now c = c

unfoldable pub on_give_up : ℕ → String → Option Note → ElectCandidate → ElectCandidate
on_give_up now from content c = if concerns from content c then hastened c.state now c else c

unfoldable pub give_up_in : ElectState → ℕ → ℕ → ElectCandidate → Outcome ElectCandidate
give_up_in duty now r c = duty_wait now r c >>= λ wait. ok (
    act (publish (give_up_topic c) (note_of now c)) (record c {
      state = standby;
      state_change_count = c.state_change_count + 1;
      wait_duty_time = wait;
    }))
give_up_in _ now r c = ok c

unfoldable pub give_up : ℕ → ℕ → ElectCandidate → Outcome ElectCandidate
give_up now r c = give_up_in c.state now r c
