-- ===== src/Scheduler.antt =====
-- `schedule`, `thread_block` and `thread_unblock` of thread/thread.c. A task is its number, and the
-- two lists of tasks are lists of numbers. `process_activate` and `switch_to` act on the hardware: the
-- result is the state in which they are called, with the task that runs next.
pub mod Pick
mod Tests
use magic_box.Prelude.{
  ℕ, zero, suc, ◌+◌, ◌/◌, Bool, true, false, ltb, ◌==◌, ◌||◌, if◌then◌else◌, Option, none, some,
  List, [], ◌∷◌, ◌++◌,
}

abbrev pub Task : Type 0
Task = ℕ

pub data Status : Type 0 where
  running : Status
  ready : Status
  blocked : Status
  waiting : Status
  hanging : Status
  died : Status

pub record Threads : Type 0 where
  pub ready_list : List Task
  pub all_list : List Task
  pub ticks : Task → ℕ
  pub priority : Task → ℕ
  pub status : Task → Status
  pub idle_thread : Task

abbrev pub update {ℓ} : {A : Type ℓ} → (Task → A) → Task → A → Task → A
update f t v u = if u == t then v else f u

unfoldable pub in_list : Task → List Task → Bool
in_list t [] = false
in_list t (u ∷ l) = (u == t) || in_list t l

unfoldable pub without : Task → List Task → List Task
without t [] = []
without t (u ∷ l) = if u == t then l else u ∷ without t l

-- The search for the task with the most ticks, the first one of several; `best` is that so far.
unfoldable pub pick : (ticks : Task → ℕ) → Option Task → List Task → Option Task
pick ticks best [] = best
pick ticks none (t ∷ l) = pick ticks (some t) l
pick ticks (some b) (t ∷ l) = pick ticks (some (if ltb (ticks b) (ticks t) then t else b)) l

-- The refill of all ticks.
unfoldable pub refill : Threads → Threads
refill s = record s {
  ticks = λ t. if in_list t s.all_list then s.ticks t / 2 + s.priority t else s.ticks t;
}

-- What a round does with the task that the search found; `again` is what the next round gives.
unfoldable pub settle :
    Option Task → Threads → (again : Option (Task × Threads)) → Option (Task × Threads)
settle none s again = some (
  s.idle_thread,
  record s {
    ticks =
        update s.ticks s.idle_thread
          (if s.ticks s.idle_thread == 0 then 1 else s.ticks s.idle_thread);
  },
)
settle (some t) s again = if ltb 0 (s.ticks t) then some (t, s) else again

-- The loop of `schedule`; none where the fuel does not suffice.
unfoldable pub choose : (fuel : ℕ) → Threads → Option (Task × Threads)
choose zero s = none
choose (suc fuel) s = settle (pick s.ticks none s.ready_list) s (choose fuel (refill s))

abbrev pub is_running : Status → Bool
is_running running = true
is_running ready = false
is_running blocked = false
is_running waiting = false
is_running hanging = false
is_running died = false

-- The current task goes to the end of the ready list if it still runs; none is the failed `ASSERT`.
unfoldable pub requeue : Threads → Task → Option Threads
requeue s cur =
    if is_running (s.status cur)
    then (if in_list cur s.ready_list
        then none
        else some (record s {
          ready_list = s.ready_list ++ (cur ∷ []);
          status = update s.status cur ready;
        }))
    else some s

-- The chosen task leaves the ready list and runs.
unfoldable pub dispatch : Option (Task × Threads) → Option (Task × Threads)
dispatch none = none
dispatch (some (t, s)) =
    some (t, record s { ready_list = without t s.ready_list; status = update s.status t running })

unfoldable pub schedule : Threads → Task → Option (Task × Threads)
schedule s cur = elim (requeue s cur) [ none ↦ none | some s' ↦ dispatch (choose 2 s') ]

-- `thread_block` by the current task, with a status that its `ASSERT` admits.
unfoldable pub thread_block : Threads → Task → Status → Option (Task × Threads)
thread_block s cur stat =
    if in_list cur s.ready_list
    then none
    else schedule (record s { status = update s.status cur stat }) cur

abbrev pub is_asleep : Status → Bool
is_asleep running = false
is_asleep ready = false
is_asleep blocked = true
is_asleep waiting = true
is_asleep hanging = true
is_asleep died = false

-- `thread_unblock`: none is a failed `ASSERT` or the panic.
unfoldable pub thread_unblock : Threads → Task → Option Threads
thread_unblock s t =
    if is_asleep (s.status t)
    then (if in_list t s.ready_list
        then none
        else some (record s { ready_list = t ∷ s.ready_list; status = update s.status t ready }))
    else none
