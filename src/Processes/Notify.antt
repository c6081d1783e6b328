-- ===== src/Processes/Notify.antt =====
-- What `sys_exit` does to the list of tasks: the parent is told, and the task hangs.
use magic_box.Prelude.{
  ℕ, ◌%◌, ◌^◌, ◌≡◌, ◌≢◌, ◌⊎◌, inl, inr, refl, ap, ◌∙◌, Bool, true, false, ◌&&◌, ◌==◌, arith, Option,
  none, some, List, map, Bool-cases,
}
use magic_box.Scheduler.{waiting, ready, hanging}
use magic_box.Signal.{Task, send_signal}
use magic_box.Processes.{
  Process, Processes, reaped, change, is_parent, dlist_traversal, find_specific_hanging_child,
  is_waiting, is_hanging, init_adopt_a_child, signalled, wake, notify, notify_init, notify_parent,
  leave_family, hang, hung, thread_exit, sys_waitpid, wait_hanging, init_pid, sigchld,
}
use magic_box.Processes.Family.{
  Has, KeepsPid, pid2thread-pid, pid2thread-change_self, pid2thread-change_other, pid2thread-map,
  Has-change, dlist_traversal-pid,
}

-- A task that has left a status for a parent.
abbrev pub Leaves : ℕ → ℕ → Process → Type 0
Leaves ppid status p = (p.parent_pid ≡ some ppid) × (p.exit_status ≡ status)

abbrev Awake : Process → Type 0
Awake p = p.status ≡ ready

abbrev pub Asleep : Process → Type 0
Asleep p = p.status ≡ waiting

-- What `notify` changes, whatever `send_signal` returns.
wake-cases : (p : Process) → (wake p ≡ p) ⊎ (wake p ≡ record p { status = ready })
wake-cases p = elim (Bool-cases (is_waiting p.status)) [
  | inl e ↦ rw e (inr refl)
  | inr e ↦ rw e (inl refl)
]

abbrev sent : Process → Task × Bool
sent p = send_signal (record p.signals { waiting = is_waiting p.status }) sigchld

notify-KeepsPid : KeepsPid notify
notify-KeepsPid p = elim (wake-cases (signalled p (sent p))) [
  | inl e ↦ ap (λ x. x.pid) e
  | inr e ↦ ap (λ x. x.pid) e
]

notify-Leaves :
    (ppid status : ℕ) (p : Process) → Leaves ppid status p → Leaves ppid status (notify p)
notify-Leaves ppid status p leaves = elim (wake-cases (signalled p (sent p))) [
  | inl e ↦ (ap (λ x. x.parent_pid) e ∙ leaves.0, ap (λ x. x.exit_status) e ∙ leaves.1)
  | inr e ↦ (ap (λ x. x.parent_pid) e ∙ leaves.0, ap (λ x. x.exit_status) e ∙ leaves.1)
]

signalled-Awake : (p : Process) (r : Task × Bool) → Awake p → Awake (signalled p r)
signalled-Awake p (t, true) e = refl
signalled-Awake p (t, false) e = e

notify-Awake : (p : Process) → Awake p → Awake (notify p)
notify-Awake p awake = elim (wake-cases (signalled p (sent p))) [
  | inl e ↦ ap (λ x. x.status) e ∙ signalled-Awake p (sent p) awake
  | inr e ↦ ap (λ x. x.status) e
]

wakes_from : (p : Process) (r : Task × Bool) → Asleep p → Awake (wake (signalled p r))
wakes_from p (t, true) e = refl
wakes_from p (t, false) e =
    let asleep : is_waiting p.status ≡ true = ap is_waiting e in rw asleep refl

notify_wakes : (p : Process) → Asleep p → Awake (notify p)
notify_wakes p e = wakes_from p (sent p) e

pub adopt-KeepsPid : (pid : ℕ) → KeepsPid (init_adopt_a_child pid)
adopt-KeepsPid pid p = elim (Bool-cases (is_parent pid p.parent_pid)) [
  | inl e ↦ rw e refl
  | inr e ↦ rw e refl
]

adopt-Leaves :
    (pid ppid status : ℕ) (p : Process)
    → ppid ≢ pid
    → Leaves ppid status p
    → Leaves ppid status (init_adopt_a_child pid p)
adopt-Leaves pid ppid status p ne (e, e') =
    let stays : is_parent pid p.parent_pid ≡ false = rw e (ground (arith, ne)) in rw stays (e, e')

adopt-Asleep : (pid : ℕ) (p : Process) → Asleep p → Asleep (init_adopt_a_child pid p)
adopt-Asleep pid p e = elim (Bool-cases (is_parent pid p.parent_pid)) [
  | inl a ↦ rw a e
  | inr a ↦ rw a e
]

-- The child's status is left and the parent is awake.
abbrev Told : ℕ → ℕ → ℕ → List Process → Type 0
Told pid ppid status l = Has pid (Leaves ppid status) l × Has ppid Awake l

notify_init-Told :
    (pid ppid status : ℕ) (zombie : Option Process) (l : List Process)
    → Told pid ppid status l
    → Told pid ppid status (notify_init zombie l)
unfolding notify_init
notify_init-Told pid ppid status none l told = told
notify_init-Told pid ppid status (some zombie) l (left, awake) = (
  Has-change pid init_pid notify (Leaves ppid status) (Leaves ppid status) l notify-KeepsPid
      (notify-Leaves ppid status) (λ p q. q) left,
  Has-change ppid init_pid notify Awake Awake l notify-KeepsPid notify-Awake (λ p q. q) awake,
)

hang-KeepsPid : KeepsPid hang
hang-KeepsPid p = refl

-- The list that the last task of an address space leaves.
pub leave_family-Told :
    (pid ppid status : ℕ) (l : List Process)
    → ppid ≢ pid
    → Has pid (Leaves ppid status) l
    → Has ppid Asleep l
    → (l' : List Process) × (leave_family pid ppid l ≡ some l') × Told pid ppid status l'
unfolding leave_family notify_parent
leave_family-Told pid ppid status l ne (p, e, leaves) (q, e', asleep) =
    let adopted = map (init_adopt_a_child pid) l in
    let other : (ppid == pid) ≡ false = ground (arith, ne) in
    let left : Has pid (Leaves ppid status) adopted = (
      init_adopt_a_child pid p,
      pid2thread-map pid (init_adopt_a_child pid) l p (adopt-KeepsPid pid) e,
      adopt-Leaves pid ppid status p ne leaves,
    ) in
    let parent = pid2thread-map ppid (init_adopt_a_child pid) l q (adopt-KeepsPid pid) e' in
    let told : Told pid ppid status (change ppid notify adopted) = (
      Has-change pid ppid notify (Leaves ppid status) (Leaves ppid status) adopted notify-KeepsPid
          (notify-Leaves ppid status) (λ p q. q) left,
      (
        notify (init_adopt_a_child pid q),
        pid2thread-change_self ppid notify adopted (init_adopt_a_child pid q) notify-KeepsPid
            parent,
        notify_wakes (init_adopt_a_child pid q) (adopt-Asleep pid q asleep),
      ),
    ) in
    let zombie =
      dlist_traversal (find_specific_hanging_child init_pid none) (change ppid notify adopted) in
    (
      notify_init zombie (change ppid notify adopted),
      rw (other, parent) refl,
      notify_init-Told pid ppid status zombie (change ppid notify adopted) told,
    )

-- What the parent finds after the exit.
abbrev pub Found : ℕ → ℕ → ℕ → Process → Type 0
Found pid ppid status p = (p.status ≡ hanging) × Leaves ppid status p

pub after_exit :
    (pid ppid status : ℕ) (users : ℕ → ℕ) (l : List Process)
    → ppid ≢ pid
    → Told pid ppid status l
    → Has pid (Found pid ppid status) (hung pid users l).thread_all_list
      × Has ppid Awake (hung pid users l).thread_all_list
after_exit pid ppid status users l ne ((p, e, leaves), (q, e', awake)) = (
  (hang p, pid2thread-change_self pid hang l p hang-KeepsPid e, (refl, leaves)),
  (q, pid2thread-change_other ppid pid hang l hang-KeepsPid ne ∙ e', awake),
)

fails_last : (a b : Bool) → (a && b && false) ≡ false
fails_last true true = refl
fails_last true false = refl
fails_last false b = refl

-- The round of the parent that waits for the task.
pub waits_for :
    (pid ppid status : ℕ) (wnohang : Bool) (s : Processes)
    → Has pid (Found pid ppid status) s.thread_all_list
    → sys_waitpid ppid (some pid) wnohang s
      ≡ reaped
          (pid % 2 ^ 16)
          status
          (record s { thread_all_list = thread_exit pid s.thread_all_list })
unfolding sys_waitpid wait_hanging
waits_for pid ppid status wnohang s (p, e, found) =
    let (hangs, leaves) = found in
    let is_it = pid2thread-pid pid s.thread_all_list p e in
    let passes : find_specific_hanging_child ppid (some pid) p ≡ true =
      rw (leaves.0, hangs, is_it) (ground arith) in
    let first =
      dlist_traversal-pid pid (find_specific_hanging_child ppid (some pid)) s.thread_all_list p
        (λ x ne. rw ne (fails_last (is_parent ppid x.parent_pid) (is_hanging x.status))) e passes in
    rw (first, is_it, leaves.1) refl
