-- ===== src/Processes/Exit.antt =====
-- `sys_exit` and then `sys_waitpid` of userprog/wait_exit.c: the parent that waits gets the status.
use magic_box.Prelude.{
  ℕ, ◌-◌, ◌%◌, ◌^◌, ◌≡◌, ◌≢◌, refl, sym, ◌∙◌, Bool, true, false, ◌==◌, if◌then◌else◌, arith, Option,
  none, some, List, subst,
}
use magic_box.Scheduler.{waiting, ready}
use magic_box.Processes.{
  Process, Processes, reaped, pid2thread, change, release_mm_space, is_last, hung, exit_with,
  exit_process, to_int8, sys_exit, thread_exit, sys_waitpid,
}
use magic_box.Processes.Family.{
  Has, KeepsPid, pid2thread-pid, pid2thread-change_self, pid2thread-change_other,
}
use magic_box.Processes.Notify.{Asleep, Leaves, after_exit, leave_family-Told, waits_for}

-- The task is the only user of its address space, or one of the kernel's.
abbrev pub OnlyUser : Option ℕ → (ℕ → ℕ) → Type 0
OnlyUser none users = Unit
OnlyUser (some mm) users = users mm ≡ 1

pub released :
    (mm : Option ℕ) (users : ℕ → ℕ)
    → OnlyUser mm users
    → (users' : ℕ → ℕ) × (release_mm_space mm users ≡ some users') × (is_last mm users' ≡ true)
unfolding release_mm_space
released none users only = (users, refl, refl)
released (some mm) users only =
    let some_left : (users mm == 0) ≡ false = ground (arith, only) in
    let self : (mm == mm) ≡ true = ground arith in
    let gone : ((users mm - 1) == 0) ≡ true = ground (arith, only) in
    ((λ m. if m == mm then users mm - 1 else users m), rw some_left refl, rw self gone)

-- What the parent that waits for a task gets after the task's `sys_exit`.
abbrev pub Wakes : ℕ → ℕ → ℕ → Bool → Option Processes → Type 0
Wakes pid ppid status wnohang o =
    (s' : Processes) × (o ≡ some s')
    × ((q : Process) × (pid2thread ppid s'.thread_all_list ≡ some q) × (q.status ≡ ready))
    × (sys_waitpid ppid (some pid) wnohang s'
        ≡ reaped (pid % 2 ^ 16) status
            (record s' { thread_all_list = thread_exit pid s'.thread_all_list }))

exit_with-Wakes :
    (pid ppid status : ℕ) (wnohang : Bool) (mm : Option ℕ) (users : ℕ → ℕ) (l : List Process)
    → ppid ≢ pid
    → is_last mm users ≡ true
    → Has pid (Leaves ppid status) l
    → Has ppid Asleep l
    → Wakes pid ppid status wnohang (exit_with pid mm ppid l users)
unfolding exit_with
exit_with-Wakes pid ppid status wnohang mm users l ne last leaves asleep =
    let (l', e, told) = leave_family-Told pid ppid status l ne leaves asleep in
    let (found, awake) = after_exit pid ppid status users l' ne told in
    (
      hung pid users l',
      rw (last, e) refl,
      awake,
      waits_for pid ppid status wnohang (hung pid users l') found,
    )

-- Where the only task of an address space exits and its parent, another task, waits: `sys_exit` does
-- not panic, it makes the parent ready, and the parent's round of `sys_waitpid` for the task then
-- returns its id on 16 bits with the low byte of the status, read as a signed number, and takes it off the list.
pub sys_exit-Wakes :
    (pid ppid status : ℕ) (wnohang : Bool) (s : Processes) (p q : Process)
    → pid2thread pid s.thread_all_list ≡ some p
    → p.parent_pid ≡ some ppid
    → OnlyUser p.mm s.mm_users
    → ppid ≢ pid
    → pid2thread ppid s.thread_all_list ≡ some q
    → q.status ≡ waiting
    → Wakes pid ppid (to_int8 status) wnohang (sys_exit pid status s)
unfolding sys_exit exit_process
sys_exit-Wakes pid ppid status wnohang s p q e parent only ne e' asleep =
    let kept = to_int8 status in
    let with_status = λ (x : Process). record x { exit_status = kept } in
    let l = change pid with_status s.thread_all_list in
    let (users, r, last) = released p.mm s.mm_users only in
    let keeps : KeepsPid with_status = λ x. refl in
    let leaves : Has pid (Leaves ppid kept) l = (
      with_status p,
      pid2thread-change_self pid with_status s.thread_all_list p keeps e,
      (parent, refl),
    ) in
    let sleeper : Has ppid Asleep l =
      (q, pid2thread-change_other ppid pid with_status s.thread_all_list keeps ne ∙ e', asleep) in
    rw (e, parent, r)
      (subst
        (λ n.
          Wakes pid ppid kept wnohang
            (exit_with n p.mm ppid (change n with_status s.thread_all_list) users))
        (sym (pid2thread-pid pid s.thread_all_list p e))
        (exit_with-Wakes pid ppid kept wnohang p.mm users l ne last leaves sleeper))
