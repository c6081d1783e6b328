-- ===== src/Timers.antt =====
-- device/timer.c: the timer interrupt, and the calls that wait for it. A list of sleeping tasks is the
-- list of their numbers. `none` is a failed ASSERT or a PANIC.
mod Ascends
mod Wake
mod Due
mod Expire
mod Arm
mod Tests
use magic_box.Prelude.{
  ℕ, zero, suc, ◌+◌, ◌-◌, ◌*◌, ◌/◌, ◌%◌, ◌^◌, Bool, true, false, ltb, leb, ◌==◌, ◌&&◌,
  if◌then◌else◌, Option, none, some, ◌>>=◌, List, [], ◌∷◌,
}
use magic_box.Scheduler.{
  Task, Threads, Status, waiting, update, in_list, is_asleep, schedule, thread_block,
  thread_unblock,
}
use magic_box.Signal.{sig_addset}

pub record Timers : Type 0 where
  pub threads : Threads
  pub ticks : ℕ
  pub timer_list : List Task
  pub alarm_list : List Task
  pub wait_until : Task → ℕ
  pub alarm : Task → ℕ
  pub signal : Task → ℕ

-- `list_insert_ascend`: before the first task with a later time.
unfoldable pub insert_ascend : (Task → ℕ) → Task → List Task → List Task
insert_ascend time t [] = t ∷ []
insert_ascend time t (u ∷ l) =
    if ltb (time t) (time u) then t ∷ u ∷ l else u ∷ insert_ascend time t l

unfoldable pub list_insert_ascend : (Task → ℕ) → Task → List Task → Option (List Task)
list_insert_ascend time t l = if in_list t l then none else some (insert_ascend time t l)

-- The two loops of `intr_handler_timer` differ in the list that they take tasks from, the time of a
-- task, and what they do to a task that is due.
abbrev pub due : ℕ → ℕ → Bool
due time now = ltb 0 time && leb time now

abbrev pub with_threads : Timers → Threads → Option Timers
with_threads s threads = some (record s { threads = threads })

unfoldable pub wake_task : Task → Timers → Option Timers
wake_task t s =
    if is_asleep (s.threads.status t)
    then (thread_unblock s.threads t >>= with_threads s)
    else some s

unfoldable pub expire :
    (Timers → Task → ℕ) → (Task → List Task → Timers → Timers) → List Task → Timers → Option Timers
expire time fire [] s = some s
expire time fire (t ∷ l) s =
    if due (time s t) s.ticks then (wake_task t (fire t l s) >>= expire time fire l) else some s

abbrev pub fire_timer : Task → List Task → Timers → Timers
fire_timer t l s = record s { timer_list = l; wait_until = update s.wait_until t 0 }

abbrev pub sigalrm : ℕ
sigalrm = 14

abbrev pub fire_alarm : Task → List Task → Timers → Timers
fire_alarm t l s = record s {
  alarm_list = l;
  signal = update s.signal t (sig_addset (s.signal t) sigalrm);
  alarm = update s.alarm t 0;
}

abbrev pub expire_timers : Timers → Option Timers
expire_timers s = expire (λ s. s.wait_until) fire_timer s.timer_list s

abbrev pub expire_alarms : Timers → Option Timers
expire_alarms s = expire (λ s. s.alarm) fire_alarm s.alarm_list s

-- The end of the handler: the task that runs next.
abbrev pub switched : Timers → Task × Threads → Option (Task × Timers)
switched s (t, threads) = some (t, record s { threads = threads })

unfoldable pub use_tick : Task → Timers → Option (Task × Timers)
use_tick cur s =
    if s.threads.ticks cur == 0
    then (schedule s.threads cur >>= switched s)
    else some (
      cur,
      record s {
        threads = record s.threads { ticks = update s.threads.ticks cur (s.threads.ticks cur - 1) };
      },
    )

unfoldable pub intr_handler_timer : Task → Timers → Option (Task × Timers)
intr_handler_timer cur s = do
  s₁ ← expire_timers (record s { ticks = (s.ticks + 1) % 2 ^ 32 })
  s₂ ← expire_alarms s₁
  use_tick cur s₂

abbrev pub mil_seconds_per_intr : ℕ
mil_seconds_per_intr = 5

abbrev pub irq0_frequency : ℕ
irq0_frequency = 200

-- `sys_milsleep` up to its `thread_block`, for a sleep of one tick at least. The sum of the division
-- is of 32 bits, and a time behind the last tick is the last.
abbrev pub sleep_ticks : ℕ → ℕ
sleep_ticks mil_seconds =
    ((mil_seconds + (mil_seconds_per_intr - 1)) % 2 ^ 32) / mil_seconds_per_intr

abbrev pub expire_ticks : ℕ → ℕ → ℕ
expire_ticks now n = if ltb ((now + n) % 2 ^ 32) now then 2 ^ 32 - 1 else (now + n) % 2 ^ 32

abbrev pub sleeps_in : Timers → List Task → Option Timers
sleeps_in s l = some (record s { timer_list = l })

unfoldable pub sleep_until : Task → ℕ → Timers → Option Timers
sleep_until cur time s =
    let s' = record s { wait_until = update s.wait_until cur time } in
    list_insert_ascend s'.wait_until cur s.timer_list >>= sleeps_in s'

unfoldable pub sys_milsleep : Task → ℕ → Timers → Option (Task × Timers)
sys_milsleep cur mil_seconds s =
    if sleep_ticks mil_seconds == 0
    then some (cur, s)
    else sleep_until cur (expire_ticks s.ticks (sleep_ticks mil_seconds)) s >>= λ s'.
        thread_block s'.threads cur waiting >>= switched s'

-- The rest of `sys_milsleep`, once the task runs again: the milliseconds that were left.
unfoldable pub without_task : Task → List Task → List Task
without_task t [] = []
without_task t (u ∷ l) = if u == t then l else u ∷ without_task t l

unfoldable pub milsleep_end : Task → ℕ → Timers → ℕ × Timers
milsleep_end cur expire_at s =
    if in_list cur s.timer_list
    then (
      if ltb s.ticks expire_at then ((expire_at - s.ticks) * mil_seconds_per_intr) % 2 ^ 32 else 0,
      record s { timer_list = without_task cur s.timer_list },
    )
    else (0, s)

abbrev pub alarms_in : Timers → ℕ → List Task → Option (ℕ × Timers)
alarms_in s remaining l = some (remaining, record s { alarm_list = l })

unfoldable pub sys_alarm : Task → ℕ → Timers → Option (ℕ × Timers)
sys_alarm cur seconds s =
    let remaining =
      if ltb s.ticks (s.alarm cur) then (s.alarm cur - s.ticks) / irq0_frequency else 0 in
    let rest = without_task cur s.alarm_list in
    let time = if ltb 0 seconds then (s.ticks + seconds * irq0_frequency) % 2 ^ 32 else 0 in
    let s' = record s { alarm = update s.alarm cur time } in
    if ltb 0 seconds
    then (list_insert_ascend s'.alarm cur rest >>= alarms_in s' remaining)
    else alarms_in s' remaining rest
