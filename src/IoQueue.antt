-- ===== src/IoQueue.antt =====
-- device/ioqueue.c and include/magicbox/ioqueue.h: the character ring behind pipes, FIFOs and
-- terminals. A task is its number, `buf` gives the character at each index, and the effect of a
-- call on the scheduler is the list of tasks that it makes ready. All functions run with interrupts
-- off, which their first `ASSERT` checks. The lock that `ioq_getchar` and `ioq_putchar` hold while
-- they sleep is not part of the model: the terminal's handler never lets them sleep, and pipes use
-- the raw operations.
pub mod Queue
pub mod Window
pub mod Refine
mod Tests
use magic_box.Prelude.{
  ℕ, ◌+◌, ◌-◌, ◌%◌, Bool, true, false, ltb, leb, ◌==◌, if◌then◌else◌, Option, none, some, List, [],
  ◌∷◌, not,
}

abbrev pub bufsize : ℕ
bufsize = 2048

abbrev pub Task : Type 0
Task = ℕ

pub record IoQueue : Type 0 where
  pub producer : Option Task
  pub consumer : Option Task
  pub buf : ℕ → ℕ
  pub head : ℕ
  pub tail : ℕ

-- A call gives the new queue, its value and the tasks that it made ready, or it leaves the caller
-- asleep in the new queue, to try again when it is woken. `assert_failed` is a failed `ASSERT`,
-- which stops the kernel.
pub data Outcome {ℓ} (A : Type ℓ) : Type ℓ where
  returns : IoQueue → A → List Task → Outcome A
  sleeps : IoQueue → Outcome A
  assert_failed : Outcome A

abbrev pub update : (ℕ → ℕ) → ℕ → ℕ → ℕ → ℕ
update f i v j = if j == i then v else f j

unfoldable pub ioqueue_init : (ℕ → ℕ) → IoQueue
ioqueue_init memory = record { producer = none; consumer = none; buf = memory; head = 0; tail = 0 }

abbrev pub next_pos : ℕ → ℕ
next_pos pos = (pos + 1) % bufsize

-- `(pos - 1 + BUFSIZE) % BUFSIZE`
abbrev pub prev_pos : ℕ → ℕ
prev_pos pos = (pos + bufsize - 1) % bufsize

unfoldable pub ioq_full : IoQueue → Bool
ioq_full q = next_pos q.head == q.tail

unfoldable pub ioq_empty : IoQueue → Bool
ioq_empty q = q.head == q.tail

-- `if (waiter != NULL) ioq_wakeup(&waiter)`: the field becomes NULL, and the task ready.
abbrev pub woken : Option Task → List Task
woken none = []
woken (some t) = t ∷ []

-- `ioq_wait(&consumer)` and `ioq_wait(&producer)` by the task `me`.
unfoldable pub wait_consumer : {A : Type 0} → IoQueue → Task → Outcome A
wait_consumer q me = elim q.consumer [
  | none ↦ sleeps (record q { consumer = some me })
  | some t ↦ assert_failed
]

unfoldable pub wait_producer : {A : Type 0} → IoQueue → Task → Outcome A
wait_producer q me = elim q.producer [
  | none ↦ sleeps (record q { producer = some me })
  | some t ↦ assert_failed
]

abbrev take_out : IoQueue → Outcome ℕ
take_out q =
    returns (record q { tail = next_pos q.tail; producer = none }) (q.buf q.tail) (woken q.producer)

abbrev put_in : IoQueue → ℕ → Outcome (Unit {0})
put_in q byte =
    returns (record q { buf = update q.buf q.head byte; head = next_pos q.head; consumer = none })
      tt (woken q.consumer)

-- One round of the loop of `ioq_getchar`, by the task `me`.
unfoldable pub ioq_getchar : IoQueue → Task → Outcome ℕ
ioq_getchar q me = if ioq_empty q then wait_consumer q me else take_out q

unfoldable pub ioq_putchar : IoQueue → ℕ → Task → Outcome (Unit {0})
ioq_putchar q byte me = if ioq_full q then wait_producer q me else put_in q byte

unfoldable pub ioq_get_raw : IoQueue → Outcome ℕ
ioq_get_raw q = if ioq_empty q then assert_failed else take_out q

unfoldable pub ioq_put_raw : IoQueue → ℕ → Outcome (Unit {0})
ioq_put_raw q byte = if ioq_full q then assert_failed else put_in q byte

unfoldable pub ioq_last_char : IoQueue → ℕ
ioq_last_char q = if ioq_empty q then 0 else q.buf (prev_pos q.head)

unfoldable pub ioq_popchar : IoQueue → IoQueue × List Task
ioq_popchar q =
    if ioq_empty q
    then (q, [])
    else (record q { head = prev_pos q.head; producer = none }, woken q.producer)

unfoldable pub ioq_length : IoQueue → ℕ
ioq_length q = if leb q.tail q.head then q.head - q.tail else bufsize - (q.tail - q.head)
