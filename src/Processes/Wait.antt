-- ===== src/Processes/Wait.antt =====
-- What a round of `sys_waitpid` in userprog/wait_exit.c gives.
use magic_box.Prelude.{
  ℕ, ◌%◌, ◌^◌, ◌≡◌, ◌≢◌, ◌⊎◌, ◌==◌, ==_iff, inl, inr, refl, ap, sym, ◌∙◌, Bool, true, false,
  if◌then◌else◌, arith, Option, none, some, List, [], ◌∷◌, Bool-cases, Option-cases, some-injective,
  subst,
}
use magic_box.Scheduler.{Status, running, ready, blocked, waiting, hanging, died}
use magic_box.Processes.{
  Process, Processes, WaitResult, reaped, no_child, no_hang, blocks, change, dlist_traversal,
  is_parent, is_target, is_hanging, find_specific_child, find_specific_hanging_child, thread_exit,
  sys_waitpid, wait_hanging, wait_living,
}

abbrev pub Among : Process → List Process → Type 0
Among p [] = ⊥
Among p (x ∷ l) = (x ≡ p) ⊎ Among p l

traversal-found :
    (test : Process → Bool) (l : List Process) (p : Process)
    → dlist_traversal test l ≡ some p
    → Among p l × (test p ≡ true)
unfolding dlist_traversal
traversal-found test [] p e = absurd (ground arith)
traversal-found test (x ∷ l) p e = elim (Bool-cases (test x)) [
  | inl passes ↦
      let first : x ≡ p =
        some-injective (
          subst (λ (b : Bool). (if b then some x else dlist_traversal test l) ≡ some p) passes e) in
      (inl first, ap test (sym first) ∙ passes)
  | inr fails ↦
      let (among, passes) =
        traversal-found test l p
          (subst (λ (b : Bool). (if b then some x else dlist_traversal test l) ≡ some p) fails e) in
      (inr among, passes)
]

traversal-absent :
    (test : Process → Bool) (l : List Process) (p : Process)
    → dlist_traversal test l ≡ none
    → Among p l
    → test p ≡ false
unfolding dlist_traversal
traversal-absent test [] p e among = absurd among
traversal-absent test (x ∷ l) p e (inl first) = ap test (sym first) ∙ ground arith
traversal-absent test (x ∷ l) p e (inr among) = traversal-absent test l p (ground arith) among

-- A child of a task that is waited for: its parent is the task, and it has the wanted id, if one is
-- wanted.
abbrev pub IsWanted : Option ℕ → ℕ → Type 0
IsWanted none pid = Unit
IsWanted (some target) pid = pid ≡ target

pub record IsChild (ppid : ℕ) (target : Option ℕ) (p : Process) : Type 0 where
  pub of_parent : p.parent_pid ≡ some ppid
  pub wanted : IsWanted target p.pid

is_parent_sound : (ppid : ℕ) (o : Option ℕ) → is_parent ppid o ≡ true → o ≡ some ppid
is_parent_sound ppid none e = absurd (ground (arith, e))
is_parent_sound ppid (some parent) e = ap some ((==_iff parent ppid).0 e)

is_target_sound : (target : Option ℕ) (pid : ℕ) → is_target target pid ≡ true → IsWanted target pid
is_target_sound none pid e = tt
is_target_sound (some target) pid e = (==_iff pid target).0 e

is_target_complete :
    (target : Option ℕ) (pid : ℕ) → IsWanted target pid → is_target target pid ≡ true
is_target_complete none pid e = refl
is_target_complete (some target) pid e = (==_iff pid target).1 e

is_hanging_sound : (s : Status) → is_hanging s ≡ true → s ≡ hanging
is_hanging_sound running e = absurd (ground (arith, e))
is_hanging_sound ready e = absurd (ground (arith, e))
is_hanging_sound blocked e = absurd (ground (arith, e))
is_hanging_sound waiting e = absurd (ground (arith, e))
is_hanging_sound hanging e = refl
is_hanging_sound died e = absurd (ground (arith, e))

module _ (ppid : ℕ) (target : Option ℕ) (p : Process) where
  IsChild-sound : find_specific_child ppid target p ≡ true → IsChild ppid target p
  IsChild-sound e = record {
    of_parent = is_parent_sound ppid p.parent_pid (ground (arith, e));
    wanted = is_target_sound target p.pid (ground (arith, e));
  }

  hanging_sound :
      find_specific_hanging_child ppid target p ≡ true
      → IsChild ppid target p × (p.status ≡ hanging)
  hanging_sound e =
      (IsChild-sound (ground (arith, e)), is_hanging_sound p.status (ground (arith, e)))

  parent_test : IsChild ppid target p → is_parent ppid p.parent_pid ≡ true
  parent_test c = let self : (ppid == ppid) ≡ true = ground arith in rw c.of_parent self

  not-IsChild : find_specific_child ppid target p ≡ false → ¬ IsChild ppid target p
  not-IsChild e c = ground (arith, e, parent_test c, is_target_complete target p.pid c.wanted)

  not_hanging :
      find_specific_hanging_child ppid target p ≡ false → IsChild ppid target p → p.status ≢ hanging
  not_hanging e c h =
      ground (arith, e, parent_test c, is_target_complete target p.pid c.wanted, ap is_hanging h)

-- Children are wanted, and none of them hangs.
abbrev pub NoneHangs : ℕ → Option ℕ → Processes → Type 0
NoneHangs ppid target s =
    ((p : Process) → Among p s.thread_all_list → IsChild ppid target p → p.status ≢ hanging)
    × ((p : Process) × Among p s.thread_all_list × IsChild ppid target p)

-- What each result of a round means.
abbrev pub WaitOk : ℕ → Option ℕ → Bool → Processes → WaitResult → Type 0
WaitOk ppid target wnohang s (reaped pid status s') =
    (p : Process) × Among p s.thread_all_list
    × IsChild ppid target p
    × (p.status ≡ hanging)
    × (pid ≡ p.pid % 2 ^ 16)
    × (status ≡ p.exit_status)
    × (s' ≡ record s { thread_all_list = thread_exit p.pid s.thread_all_list })
WaitOk ppid target wnohang s no_child =
    (p : Process) → Among p s.thread_all_list → ¬ IsChild ppid target p
WaitOk ppid target wnohang s no_hang = (wnohang ≡ true) × NoneHangs ppid target s
WaitOk ppid target wnohang s (blocks s') =
    (wnohang ≡ false)
    × NoneHangs ppid target s
    × (s' ≡ record s {
      thread_all_list = change ppid (λ p. record p { status = waiting }) s.thread_all_list;
    })

-- A round of `sys_waitpid` for any child or for one with a given id takes such a child of the caller that
-- hangs off the list, and returns its id on 16 bits and its exit status. It returns -1 only if there is no such child.
-- Where there are some but none hangs, it
-- returns 0 with WNOHANG, and otherwise makes the parent wait.
pub sys_waitpid-WaitOk :
    (ppid : ℕ) (target : Option ℕ) (wnohang : Bool) (s : Processes)
    → WaitOk ppid target wnohang s (sys_waitpid ppid target wnohang s)
unfolding sys_waitpid wait_hanging wait_living
sys_waitpid-WaitOk ppid target wnohang s =
    elim (Option-cases
      (dlist_traversal (find_specific_hanging_child ppid target) s.thread_all_list)) [
        | inl none_hangs ↦
            let living = λ (p : Process) (among : Among p s.thread_all_list).
              not_hanging ppid target p (
                traversal-absent (find_specific_hanging_child ppid target) s.thread_all_list p
                  none_hangs among) in
            elim (Option-cases
              (dlist_traversal (find_specific_child ppid target) s.thread_all_list)) [
                | inl e ↦
                    rw (none_hangs, e)
                      (λ p among. not-IsChild ppid target p (
                        traversal-absent (find_specific_child ppid target) s.thread_all_list p e
                          among))
                | inr (p, e) ↦
                    let (among, passes) =
                      traversal-found (find_specific_child ppid target) s.thread_all_list p e in
                    elim (Bool-cases wnohang) [
                      | inl w ↦
                          rw (none_hangs, e, w)
                            (refl, (living, (p, among, IsChild-sound ppid target p passes)))
                      | inr w ↦
                          rw (none_hangs, e, w)
                            (refl, (living, (p, among, IsChild-sound ppid target p passes)), refl)
                    ]
              ]
        | inr (p, e) ↦
            let (among, passes) =
              traversal-found (find_specific_hanging_child ppid target) s.thread_all_list p e in
            let (child, hangs) = hanging_sound ppid target p passes in
            rw e (p, among, child, hangs, refl, refl, refl)
      ]
