-- ===== src/Processes/Orphan.antt =====
-- A thread with children that exits before the other threads of its process, in wait_exit.c.
use magic_box.Prelude.{
  ℕ, ◌-◌, ◌%◌, ◌^◌, ◌≤◌, ◌≡◌, ◌≢◌, inl, inr, refl, ap, sym, ◌∙◌, Bool, true, false, ◌==◌,
  if◌then◌else◌, arith, Option, none, some, List, [], ◌∷◌, map, Bool-cases, ==_iff,
}
use magic_box.Processes.{
  Process, Processes, reaped, pid2thread, change, release_mm_space, init_adopt_a_child,
  notify_parent, leave_family, hang, hung, exit_with, exit_process, to_int8, sys_exit, thread_exit,
  sys_waitpid,
}
use magic_box.Processes.Family.{KeepsPid, pid2thread-pid, pid2thread-change_self}
use magic_box.Processes.Notify.{waits_for, adopt-KeepsPid}
use magic_box.Processes.Exit.{OnlyUser, released}

module _ (f : Process → Process) (keeps : KeepsPid f) where
  test_kept : (pid : ℕ) (p : Process) → ((f p).pid == pid) ≡ (p.pid == pid)
  test_kept pid p = ap (λ n. n == pid) (keeps p)

  pid2thread-change_absent :
      (pid other : ℕ) (l : List Process)
      → pid2thread pid l ≡ none
      → pid2thread pid (change other f l) ≡ none
  unfolding pid2thread change
  pid2thread-change_absent pid other [] e = refl
  pid2thread-change_absent pid other (x ∷ l) e =
      ground (arith, pid2thread-change_absent pid other l, test_kept pid x)

  pid2thread-map_absent :
      (pid : ℕ) (l : List Process) → pid2thread pid l ≡ none → pid2thread pid (map f l) ≡ none
  unfolding pid2thread
  pid2thread-map_absent pid [] e = refl
  pid2thread-map_absent pid (x ∷ l) e = ground (arith, pid2thread-map_absent pid l, test_kept pid x)

  thread_exit-change :
      (pid : ℕ) (l : List Process) → thread_exit pid (change pid f l) ≡ thread_exit pid l
  unfolding thread_exit change
  thread_exit-change pid [] = refl
  thread_exit-change pid (x ∷ l) = elim (Bool-cases (x.pid == pid)) [
    | inl e ↦ rw (e, test_kept pid x, e) refl
    | inr e ↦ rw (e, e) (ap (λ (r : List Process). x ∷ r) (thread_exit-change pid l))
  ]

pid2thread-exit_other :
    (pid other : ℕ) (l : List Process)
    → pid ≢ other
    → pid2thread pid (thread_exit other l) ≡ pid2thread pid l
unfolding pid2thread thread_exit
pid2thread-exit_other pid other [] ne = refl
pid2thread-exit_other pid other (x ∷ l) ne = elim (Bool-cases (x.pid == other)) [
  | inl e ↦ let not_it : (x.pid == pid) ≡ false = ground (arith, e, ne) in rw (e, not_it) refl
  | inr e ↦
      rw e (ap (λ o. if x.pid == pid then some x else o) (pid2thread-exit_other pid other l ne))
]

-- `sys_exit` of the last task of an address space, where its parent is not on the list.
orphan_faults :
    (pid ppid status : ℕ) (s : Processes) (p : Process)
    → pid2thread pid s.thread_all_list ≡ some p
    → p.parent_pid ≡ some ppid
    → OnlyUser p.mm s.mm_users
    → ppid ≢ pid
    → pid2thread ppid s.thread_all_list ≡ none
    → sys_exit pid status s ≡ none
unfolding sys_exit exit_process exit_with leave_family notify_parent
orphan_faults pid ppid status s p e parent only ne gone =
    let (users, r, last) = released p.mm s.mm_users only in
    let is_it = pid2thread-pid pid s.thread_all_list p e in
    let other : (ppid == pid) ≡ false = ground (arith, ne) in
    let with_status : Process → Process = λ x. record x { exit_status = to_int8 status } in
    let l = change pid with_status s.thread_all_list in
    let absent =
      pid2thread-map_absent (init_adopt_a_child pid) (adopt-KeepsPid pid) ppid l
        (pid2thread-change_absent with_status (λ x. refl) ppid pid s.thread_all_list gone) in
    rw (e, parent, r, last, is_it, other, absent) refl

-- One user of an address space less leaves the counts of the others.
fewer : ℕ → (ℕ → ℕ) → ℕ → ℕ
fewer mm users m = if m == mm then users mm - 1 else users m

fewer-OnlyUser :
    (mm : ℕ) (o : Option ℕ) (users : ℕ → ℕ)
    → 2 ≤ users mm
    → OnlyUser o users
    → OnlyUser o (fewer mm users)
unfolding fewer
fewer-OnlyUser mm none users two only = tt
fewer-OnlyUser mm (some m) users two only = elim (Bool-cases (m == mm)) [
  | inl e ↦ absurd (omega (arith, two, only, ap users ((==_iff m mm).0 e)))
  | inr e ↦ rw e only
]

-- The exit of a task whose address space has other users.
after_thread : ℕ → ℕ → ℕ → Processes → Processes
after_thread pid status mm s =
    hung pid (fewer mm s.mm_users)
      (change pid (λ p. record p { exit_status = to_int8 status }) s.thread_all_list)

thread_exits :
    (pid ppid status mm : ℕ) (s : Processes) (p : Process)
    → pid2thread pid s.thread_all_list ≡ some p
    → p.parent_pid ≡ some ppid
    → p.mm ≡ some mm
    → 2 ≤ s.mm_users mm
    → sys_exit pid status s ≡ some (after_thread pid status mm s)
unfolding sys_exit exit_process exit_with release_mm_space after_thread fewer
thread_exits pid ppid status mm s p e parent space two =
    let some_left : (s.mm_users mm == 0) ≡ false = ground (arith, two) in
    let self : (mm == mm) ≡ true = ground arith in
    let not_last : ((s.mm_users mm - 1) == 0) ≡ false = ground (arith, two) in
    rw (e, parent, space, some_left)
      (rw (self, not_last) (rw (pid2thread-pid pid s.thread_all_list p e) refl))

with_status_kept : (status : ℕ) → KeepsPid (λ p. record p { exit_status = status })
with_status_kept status p = refl

-- A thread with a child exits while its address space has other users, and its parent waits for it.
-- Then the child's `sys_exit`, as the only user of an address space, follows the null pointer that
-- `pid2thread` gives for its parent.
pub sys_exit-orphan :
    (pid ppid child status child_status mm : ℕ) (wnohang : Bool) (s : Processes) (p c : Process)
    → pid2thread pid s.thread_all_list ≡ some p
    → p.parent_pid ≡ some ppid
    → p.mm ≡ some mm
    → 2 ≤ s.mm_users mm
    → pid2thread pid (thread_exit pid s.thread_all_list) ≡ none
    → pid2thread child s.thread_all_list ≡ some c
    → c.parent_pid ≡ some pid
    → OnlyUser c.mm s.mm_users
    → pid ≢ child
    → (s₁ s₂ : Processes) × (sys_exit pid status s ≡ some s₁)
      × (sys_waitpid ppid (some pid) wnohang s₁ ≡ reaped (pid % 2 ^ 16) (to_int8 status) s₂)
      × (sys_exit child child_status s₂ ≡ none)
unfolding after_thread
sys_exit-orphan pid ppid child status child_status mm wnohang s p c e parent space two unique e'
      parent' only ne =
    let with_status : Process → Process = λ x. record x { exit_status = to_int8 status } in
    let l = change pid with_status s.thread_all_list in
    let s₁ = after_thread pid status mm s in
    let left = thread_exit pid s₁.thread_all_list in
    let s₂ : Processes = record s₁ { thread_all_list = left } in
    let same : left ≡ thread_exit pid s.thread_all_list =
      thread_exit-change hang (λ x. refl) pid l
      ∙ thread_exit-change with_status (λ x. refl) pid s.thread_all_list in
    let there =
      pid2thread-change_self pid hang l (with_status p) (λ x. refl)
        (pid2thread-change_self pid with_status s.thread_all_list p (λ x. refl) e) in
    let still : pid2thread child left ≡ some c =
      ap (pid2thread child) same
      ∙ pid2thread-exit_other child pid s.thread_all_list (λ x. ne (sym x))
      ∙ e' in
    (
      s₁,
      s₂,
      thread_exits pid ppid status mm s p e parent space two,
      waits_for pid ppid (to_int8 status) wnohang s₁
          (hang (with_status p), there, (refl, (parent, refl))),
      orphan_faults child pid child_status s₂ c still parent'
          (fewer-OnlyUser mm c.mm s.mm_users two only) ne (ap (pid2thread pid) same ∙ unique),
    )
