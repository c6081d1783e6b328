-- ===== src/Processes/Tests.antt =====
-- The end of processes at concrete lists: init, a shell that waits, its child, and a thread.
use magic_box.Prelude.{
  ℕ, ◌-◌, ◌^◌, ◌≡◌, refl, some, none, true, false, Option, [], ◌∷◌, arith, if◌then◌else◌, ◌==◌,
}
use magic_box.Scheduler.{Status, running, ready, waiting}
use magic_box.Signal.{Task}
use magic_box.Processes.{
  Process, Processes, reaped, no_child, pid2thread, sys_exit, to_int8, sys_waitpid, wait_hanging,
  wait_living, dlist_traversal, thread_exit,
}
use magic_box.Processes.Wait.{WaitOk, sys_waitpid-WaitOk}
use magic_box.Processes.Exit.{Wakes, sys_exit-Wakes}
use magic_box.Processes.Orphan.{sys_exit-orphan}

abbrev quiet : Task
quiet = record {
  signal = 0;
  blocked = 0;
  sigactions = λ n. record { sa_handler = 0; sa_flags = 0; sa_restorer = 0; sa_mask = 0 };
  waiting = false;
}

abbrev process : ℕ → Option ℕ → Status → Option ℕ → Process
process pid parent status mm = record {
  pid = pid;
  parent_pid = parent;
  pgrp = pid;
  status = status;
  exit_status = 0;
  mm = mm;
  signals = quiet;
}

-- Init, a shell that waits for its child 7, and the child, which has a child 8 and shares its address
-- space with the thread 9.
abbrev shell : ℕ → Processes
shell users = record {
  thread_all_list =
      process 1 none ready (some 1)
      ∷ process 5 (some 1) waiting (some 5)
      ∷ process 7 (some 5) running (some 7)
      ∷ process 8 (some 7) ready (some 8)
      ∷ [];
  mm_users = λ m. if m == 7 then users else 1;
}

sys_exit-Wakes_example : Wakes 7 5 (to_int8 300) false (sys_exit 7 300 (shell 1))
unfolding pid2thread
sys_exit-Wakes_example =
    sys_exit-Wakes 7 5 300 false (shell 1) (process 7 (some 5) running (some 7))
      (process 5 (some 1) waiting (some 5)) refl refl refl (λ e. ground (arith, e)) refl refl

sys_waitpid-WaitOk_example :
    WaitOk 5 (some 7) true (shell 1) (sys_waitpid 5 (some 7) true (shell 1))
sys_waitpid-WaitOk_example = sys_waitpid-WaitOk 5 (some 7) true (shell 1)

sys_exit-orphan_example :
    (s₁ s₂ : Processes) × (sys_exit 7 3 (shell 2) ≡ some s₁)
    × (sys_waitpid 5 (some 7) false s₁ ≡ reaped 7 (to_int8 3) s₂)
    × (sys_exit 8 0 s₂ ≡ none)
unfolding pid2thread thread_exit
sys_exit-orphan_example =
    sys_exit-orphan 7 5 8 3 0 7 false (shell 2) (process 7 (some 5) running (some 7))
      (process 8 (some 7) ready (some 8)) refl refl refl (omega arith) refl refl refl refl
      (λ e. ground (arith, e))

-- Only the low byte of a status is kept, with its sign.
exit_256 : to_int8 256 ≡ 0
unfolding to_int8
exit_256 = refl

exit_200 : to_int8 200 ≡ 2 ^ 32 - 56
unfolding to_int8
exit_200 = refl

-- Nobody is left to wait for once the last child is taken.
sys_waitpid_alone : sys_waitpid 8 none false (shell 1) ≡ no_child
unfolding sys_waitpid wait_hanging wait_living dlist_traversal
sys_waitpid_alone = refl
