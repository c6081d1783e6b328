-- ===== src/Timers/Tests.antt =====
-- The timer interrupt at concrete lists: three sleepers, two of them due.
use magic_box.Prelude.{◌≡◌, refl, ◌==◌, leb, if◌then◌else◌, [], ◌∷◌, arith}
use magic_box.Scheduler.{Task, Status, waiting, running, in_list}
use magic_box.Timers.{Timers, expire_timers, sys_alarm, sleep_ticks}
use magic_box.Timers.Ascends.{Ascends}
use magic_box.Timers.Arm.{AlarmOk, sys_alarm-AlarmOk}
use magic_box.Timers.Wake.{Rested}
use magic_box.Timers.Due.{Fires}
use magic_box.Timers.Expire.{expire_timers-Fires}

abbrev status : Task → Status
status u = if leb 3 u then waiting else running

abbrev three : Timers
three = record {
  threads = record {
    ready_list = [];
    all_list = 1 ∷ 2 ∷ 3 ∷ 4 ∷ 5 ∷ [];
    ticks = λ u. 4;
    priority = λ u. 8;
    status = status;
    idle_thread = 1;
  };
  ticks = 100;
  timer_list = 3 ∷ 5 ∷ 4 ∷ [];
  alarm_list = 4 ∷ [];
  wait_until = λ u. if u == 4 then 250 else if u == 3 then 90 else 100;
  alarm = λ u. if u == 4 then 100 else 0;
  signal = λ u. 0;
}

three-Rested : Rested three.threads
unfolding in_list
three-Rested u asleep = refl

-- What is said of all members of a list is shown for each of them.
three-Ascends : Ascends three.wait_until three.timer_list
unfolding in_list
three-Ascends = (
  omega arith,
  refl,
  (λ u e. ground (arith, e)),
  (
    omega arith,
    refl,
    (λ u e. ground (arith, e)),
    (omega arith, refl, (λ u e. ground (arith, e)), tt),
  ),
)

expire_timers-Fires_example :
    Fires (λ s. s.timer_list) three.wait_until three.timer_list three (expire_timers three)
expire_timers-Fires_example = expire_timers-Fires three three-Ascends three-Rested

alarm-Ascends : Ascends three.alarm three.alarm_list
unfolding in_list
alarm-Ascends = (omega arith, refl, (λ u e. ground (arith, e)), tt)

sys_alarm-AlarmOk_example : AlarmOk 5 2 three (sys_alarm 5 2 three)
sys_alarm-AlarmOk_example = sys_alarm-AlarmOk 5 2 three alarm-Ascends (omega arith)

-- The longest sleep rounds down to none, as the rounding sum wraps.
longest_sleep : sleep_ticks 4294967295 ≡ 0
longest_sleep = refl
