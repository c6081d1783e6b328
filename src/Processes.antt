-- ===== src/Processes.antt =====
-- The end of processes in userprog/wait_exit.c: `sys_exit`, `sys_wait` and `sys_waitpid` on the list of
-- all tasks. System calls run with interrupts off, so a call is one step, up to where it blocks. A
-- task that is not the kernel's has an address space, whose users are its threads. Of what a task
-- owns, the model holds the count of these users. `none` is a PANIC, a failed ASSERT or a fault.
mod Family
mod Wait
mod Notify
mod Exit
mod Orphan
mod Groups
mod Tests
use magic_box.Prelude.{
  ℕ, zero, suc, ◌+◌, ◌-◌, ◌%◌, ◌^◌, ltb, Bool, true, false, ◌&&◌, ◌||◌, ◌==◌, if◌then◌else◌, Option,
  none, some, ◌>>=◌, List, [], ◌∷◌, map,
}
use magic_box.Scheduler.{Status, running, ready, blocked, waiting, hanging, died}
use magic_box.Signal.{Task, send_signal}

pub record Process : Type 0 where
  pub pid : ℕ
  pub parent_pid : Option ℕ
  pub pgrp : ℕ
  pub status : Status
  -- As the `int32_t` that is read from it.
  pub exit_status : ℕ
  pub mm : Option ℕ
  pub signals : Task

pub record Processes : Type 0 where
  pub thread_all_list : List Process
  pub mm_users : ℕ → ℕ

abbrev pub init_pid : ℕ
init_pid = 1

abbrev pub sigchld : ℕ
sigchld = 17

abbrev pub is_waiting : Status → Bool
is_waiting waiting = true
is_waiting running = false
is_waiting ready = false
is_waiting blocked = false
is_waiting hanging = false
is_waiting died = false

abbrev pub is_hanging : Status → Bool
is_hanging hanging = true
is_hanging running = false
is_hanging ready = false
is_hanging blocked = false
is_hanging waiting = false
is_hanging died = false

-- `pid2thread`, and a change of the task that it finds.
unfoldable pub pid2thread : ℕ → List Process → Option Process
pid2thread pid [] = none
pid2thread pid (p ∷ l) = if p.pid == pid then some p else pid2thread pid l

unfoldable pub change : ℕ → (Process → Process) → List Process → List Process
change pid f [] = []
change pid f (p ∷ l) = if p.pid == pid then f p ∷ l else p ∷ change pid f l

-- `find_child`.
abbrev pub is_parent : ℕ → Option ℕ → Bool
is_parent ppid none = false
is_parent ppid (some parent) = parent == ppid

-- `find_specific_child` and `find_specific_hanging_child`; a target of none is -1.
abbrev pub is_target : Option ℕ → ℕ → Bool
is_target none pid = true
is_target (some target) pid = pid == target

abbrev pub find_specific_child : ℕ → Option ℕ → Process → Bool
find_specific_child ppid target p = is_parent ppid p.parent_pid && is_target target p.pid

abbrev pub find_specific_hanging_child : ℕ → Option ℕ → Process → Bool
find_specific_hanging_child ppid target p =
    is_parent ppid p.parent_pid && is_hanging p.status && is_target target p.pid

unfoldable pub dlist_traversal : (Process → Bool) → List Process → Option Process
dlist_traversal condition [] = none
dlist_traversal condition (p ∷ l) = if condition p then some p else dlist_traversal condition l

-- `release_mm_space`: the count of the users, or none for the failed ASSERT.
unfoldable pub release_mm_space : Option ℕ → (ℕ → ℕ) → Option (ℕ → ℕ)
release_mm_space none users = some users
release_mm_space (some mm) users =
    if users mm == 0 then none else some (λ m. if m == mm then users mm - 1 else users m)

-- Whether the task was the last of its address space.
abbrev pub is_last : Option ℕ → (ℕ → ℕ) → Bool
is_last none users = true
is_last (some mm) users = users mm == 0

abbrev pub init_adopt_a_child : ℕ → Process → Process
init_adopt_a_child pid p =
    if is_parent pid p.parent_pid then record p { parent_pid = some init_pid } else p

-- `send_signal` to a task of the list, which wakes it if it waits and does not block the signal.
abbrev pub signalled : Process → Task × Bool → Process
signalled p (t, wakes) = record p { signals = t; status = if wakes then ready else p.status }

abbrev pub wake : Process → Process
wake p = if is_waiting p.status then record p { status = ready } else p

abbrev pub notify : Process → Process
notify p =
    wake (signalled p (send_signal (record p.signals { waiting = is_waiting p.status }) sigchld))

-- A hanging child of init, if there is one, makes `sys_exit` notify init.
unfoldable pub notify_init : Option Process → List Process → List Process
notify_init none l = l
notify_init (some zombie) l = change init_pid notify l

unfoldable pub notify_parent : Option Process → ℕ → List Process → Option (List Process)
notify_parent none ppid l = none
notify_parent (some parent) ppid l =
    let l' = change ppid notify l in
    some (notify_init (dlist_traversal (find_specific_hanging_child init_pid none) l') l')

-- What the last task of an address space does: its children go to init, and its parent is told. The
-- parent is read after that.
unfoldable pub leave_family : ℕ → ℕ → List Process → Option (List Process)
leave_family pid ppid l =
    let adopted = map (init_adopt_a_child pid) l in
    let parent = if ppid == pid then init_pid else ppid in
    notify_parent (pid2thread parent adopted) parent adopted

abbrev pub hang : Process → Process
hang p = record p { status = hanging }

abbrev pub hung : ℕ → (ℕ → ℕ) → List Process → Processes
hung pid users l = record { thread_all_list = change pid hang l; mm_users = users }

unfoldable pub exit_with : ℕ → Option ℕ → ℕ → List Process → (ℕ → ℕ) → Option Processes
exit_with pid mm ppid l users =
    if is_last mm users
    then (leave_family pid ppid l >>= λ l'. some (hung pid users l'))
    else some (hung pid users l)

-- A status as `exit_status`, an `int8_t`, and as the `int32_t` that is read from it: the low byte with
-- its sign, on 32 bits.
unfoldable pub to_int8 : ℕ → ℕ
to_int8 status = if ltb (status % 256) 128 then status % 256 else status % 256 + (2 ^ 32 - 256)

unfoldable pub exit_process : ℕ → Processes → Process → Option ℕ → Option Processes
exit_process status s p none = none
exit_process status s p (some ppid) =
    release_mm_space p.mm s.mm_users
    >>= exit_with p.pid p.mm ppid
        (change p.pid (λ p. record p { exit_status = to_int8 status }) s.thread_all_list)

-- `sys_exit` of the task with a process id.
unfoldable pub sys_exit : ℕ → ℕ → Processes → Option Processes
sys_exit pid status s = do
  p ← pid2thread pid s.thread_all_list
  exit_process status s p p.parent_pid

-- `thread_exit` of a child, as far as the list of all tasks goes.
unfoldable pub thread_exit : ℕ → List Process → List Process
thread_exit pid [] = []
thread_exit pid (p ∷ l) = if p.pid == pid then l else p ∷ thread_exit pid l

-- A round of the loop of `sys_waitpid`: the child's id, as a `uint16_t`, and its status, -1, 0, or the state in which
-- the parent waits. `sys_wait` is the loop for any child without WNOHANG.
pub data WaitResult : Type 0 where
  reaped : (pid exit_status : ℕ) → Processes → WaitResult
  no_child : WaitResult
  no_hang : WaitResult
  blocks : Processes → WaitResult

unfoldable pub wait_living : ℕ → Bool → Processes → Option Process → WaitResult
wait_living ppid wnohang s none = no_child
wait_living ppid wnohang s (some child) =
    if wnohang
    then no_hang
    else blocks (record s {
      thread_all_list = change ppid (λ p. record p { status = waiting }) s.thread_all_list;
    })

unfoldable pub wait_hanging : ℕ → Option ℕ → Bool → Processes → Option Process → WaitResult
wait_hanging ppid target wnohang s (some child) =
    reaped (child.pid % 2 ^ 16) child.exit_status
      (record s { thread_all_list = thread_exit child.pid s.thread_all_list })
wait_hanging ppid target wnohang s none =
    wait_living ppid wnohang s (dlist_traversal (find_specific_child ppid target) s.thread_all_list)

unfoldable pub sys_waitpid : ℕ → Option ℕ → Bool → Processes → WaitResult
sys_waitpid ppid target wnohang s =
    wait_hanging ppid target wnohang s
      (dlist_traversal (find_specific_hanging_child ppid target) s.thread_all_list)

abbrev pub sys_wait : ℕ → Processes → WaitResult
sys_wait ppid s = sys_waitpid ppid none false s
