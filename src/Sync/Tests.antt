-- ===== src/Sync/Tests.antt =====
-- The lock taken by a task while another one waits for it.
use magic_box.Prelude.{refl, ◌≡◌, none, [], ◌∷◌}
use magic_box.Sync.{Semaphore, passes, sema_wait, lock_init, sema_init, must_wait, acquire_first}
use magic_box.Sync.Exclusion.{
  outside, waiting, passed, System, asks, waits, passes_by, Reach, here, next, moved,
}
use magic_box.Sync.Mutual.{IsSafe, start, Reach-IsSafe}

abbrev taken : Semaphore
taken = record { value = 0; waiters = [] }

abbrev contended : Semaphore
contended = record { value = 0; waiters = 5 ∷ [] }

-- Task 3 has passed the semaphore, and task 5 sleeps among its waiters.
abbrev one_waits : System
one_waits = record {
  lock = record { holder = none; semaphore = contended; holder_repeat_nr = 0 };
  phase = moved (moved (moved (λ t. outside) 3 waiting) 3 passed) 5 waiting;
}

free_first : acquire_first lock_init 3 ≡ must_wait
unfolding acquire_first lock_init
free_first = refl

passes_first : sema_wait lock_init.semaphore 3 ≡ passes taken
unfolding sema_wait lock_init sema_init
passes_first = refl

one_waits_reached : Reach start one_waits
unfolding acquire_first lock_init sema_init sema_wait
one_waits_reached =
    next
      (next (next (next here (asks 3 refl refl)) (passes_by 3 taken refl refl)) (asks 5 refl refl))
      (waits 5 contended refl refl)

Reach-IsSafe_example : IsSafe one_waits
Reach-IsSafe_example = Reach-IsSafe one_waits_reached
