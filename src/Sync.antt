-- ===== src/Sync.antt =====
-- thread/sync.c and include/magicbox/sync.h: semaphores and the recursive lock. A task is its number.
-- `sema_wait`, `sema_signal` and `sema_try_wait` run with interrupts off and are single steps, where
-- `sema_wait` is split into the rounds of its loop; `lock_acquire` and `lock_release` are split where
-- interrupts are on, before and behind their call of the semaphore.
pub mod Exclusion
pub mod Mutual
mod Tests
use magic_box.Prelude.{
  ℕ, ◌+◌, ◌-◌, ◌%◌, ◌^◌, Bool, true, false, ltb, ◌==◌, if◌then◌else◌, Option, none, some, List, [],
  ◌∷◌, ◌++◌,
}

abbrev pub Task : Type 0
Task = ℕ

pub record Semaphore : Type 0 where
  pub value : ℕ
  pub waiters : List Task

pub record Lock : Type 0 where
  pub holder : Option Task
  pub semaphore : Semaphore
  pub holder_repeat_nr : ℕ

unfoldable pub sema_init : ℕ → Semaphore
sema_init value = record { value = value; waiters = [] }

unfoldable pub lock_init : Lock
lock_init = record { holder = none; semaphore = sema_init 1; holder_repeat_nr = 0 }

-- A round of `sema_wait`: the task passes, or it sleeps among the waiters and tries again when woken.
pub data WaitRound : Type 0 where
  passes : Semaphore → WaitRound
  sleeps : Semaphore → WaitRound

-- `value--` and `value++` of a `uint8_t`.
unfoldable pub sema_wait : Semaphore → Task → WaitRound
sema_wait s me =
    if s.value == 0
    then sleeps (record s { waiters = s.waiters ++ (me ∷ []) })
    else passes (record s { value = (s.value + 2 ^ 8 - 1) % 2 ^ 8 })

abbrev pub pop_front : List Task → Option Task × List Task
pop_front [] = (none, [])
pop_front (t ∷ l) = (some t, l)

-- The semaphore afterwards, and the task that is made ready.
unfoldable pub sema_signal : Semaphore → Semaphore × Option Task
sema_signal s = (
  record { value = (s.value + 1) % 2 ^ 8; waiters = (pop_front s.waiters).1 },
  (pop_front s.waiters).0,
)

unfoldable pub sema_try_wait : Semaphore → Semaphore × Bool
sema_try_wait s =
    if ltb 0 s.value then (record s { value = (s.value + 2 ^ 8 - 1) % 2 ^ 8 }, true) else (s, false)

abbrev pub is_holder : Option Task → Task → Bool
is_holder none me = false
is_holder (some t) me = t == me

-- The first test of `lock_acquire`: a holder only counts up, any other task goes on to wait.
pub data Acquire : Type 0 where
  counted : Lock → Acquire
  must_wait : Acquire

unfoldable pub acquire_first : Lock → Task → Acquire
acquire_first l me =
    if is_holder l.holder me
    then counted (record l { holder_repeat_nr = (l.holder_repeat_nr + 1) % 2 ^ 32 })
    else must_wait

-- The rest of `lock_acquire` behind its `sema_wait`; none is a failed `ASSERT`.
unfoldable pub acquire_last : Lock → Task → Option Lock
acquire_last l me =
    if l.holder_repeat_nr == 0
    then some (record l { holder = some me; holder_repeat_nr = 1 })
    else none

-- `lock_release` up to its `sema_signal`.
pub data Release : Type 0 where
  still_held : Lock → Release
  must_signal : Lock → Release
  release_asserts : Release

unfoldable pub lock_release : Lock → Task → Release
lock_release l me =
    if is_holder l.holder me
    then (if ltb 1 l.holder_repeat_nr
        then still_held (record l { holder_repeat_nr = l.holder_repeat_nr - 1 })
        else if l.holder_repeat_nr == 1
        then must_signal (record l { holder = none; holder_repeat_nr = 0 })
        else release_asserts)
    else release_asserts
