-- ===== src/Processes/Groups.antt =====
-- Signals to processes and to groups of them: `sys_kill` and `kill_pgrp` of kernel/signal.c, the call
-- `do_kill` of glue/syscall_intrcpt.c, and the groups of thread/thread.c. A process id of a call is a
-- word of 32 bits, negative from 2 ^ 31 on, and a signal is at most 31.
use magic_box.Prelude.{
  ℕ, ◌-◌, ◌^◌, ◌≤◌, ◌≡◌, refl, Bool, true, false, ltb, leb, ◌==◌, ◌&&◌, ◌||◌, not, if◌then◌else◌,
  arith, Option, none, some, ◌>>=◌, List, map, Bool-cases, inl, inr,
}
use magic_box.Signal.{send_signal, sig_addset, sig_ismember}
use magic_box.Signal.Sets.{ismember-addset}
use magic_box.Processes.{Process, pid2thread, change, signalled, is_waiting, is_parent}

-- `sys_kill`: none for -1.
abbrev pub send_to : ℕ → Process → Process
send_to sig p = signalled p (send_signal (record p.signals { waiting = is_waiting p.status }) sig)

abbrev pub killed : ℕ → ℕ → List Process → Process → Option (List Process)
killed pid sig l target = some (change pid (send_to sig) l)

unfoldable pub sys_kill : ℕ → ℕ → List Process → Option (List Process)
sys_kill pid sig l = pid2thread pid l >>= killed pid sig l

abbrev pub is_user : Option ℕ → Bool
is_user none = false
is_user (some mm) = true

unfoldable pub mark : ℕ → ℕ → Process → Process
mark pgrp sig p =
    if is_user p.mm && p.pgrp == pgrp
    then record p { signals = record p.signals { signal = sig_addset p.signals.signal sig } }
    else p

abbrev pub kill_pgrp : ℕ → ℕ → List Process → List Process
kill_pgrp pgrp sig l = map (mark pgrp sig) l

-- `do_kill` by a task: none for -ESRCH.
abbrev pub exists_only : List Process → Process → Option (List Process)
exists_only l target = some l

unfoldable pub do_kill : Process → ℕ → ℕ → List Process → Option (List Process)
do_kill cur pid sig l =
    if sig == 0
    then pid2thread pid l >>= exists_only l
    else if leb (2 ^ 31) pid && ltb pid (2 ^ 32 - 1)
    then some (kill_pgrp (2 ^ 32 - pid) sig l)
    else if pid == 0
    then some (kill_pgrp cur.pgrp sig l)
    else sys_kill pid sig l

-- `sys_setpgid`: none for -1 and for -EPERM.
abbrev pub join_group : ℕ → Process → Process
join_group pgid p = record p { pgrp = if pgid == 0 then p.pid else pgid }

abbrev pub permitted : Process → ℕ → List Process → Process → Option (List Process)
permitted cur pgid l p =
    if not (p.pid == cur.pid) && not (is_parent cur.pid p.parent_pid)
    then none
    else some (change p.pid (join_group pgid) l)

unfoldable pub sys_setpgid : Process → ℕ → ℕ → List Process → Option (List Process)
sys_setpgid cur pid pgid l =
    if pid == 0 then permitted cur pgid l cur else pid2thread pid l >>= permitted cur pgid l

abbrev pub group_of : Process → Option ℕ
group_of p = some p.pgrp

unfoldable pub sys_getpgid : Process → ℕ → List Process → Option ℕ
sys_getpgid cur pid l = if pid == 0 then some cur.pgrp else pid2thread pid l >>= group_of

abbrev pub sys_getppid : Process → Option ℕ
sys_getppid cur = cur.parent_pid

-- `kill_pgrp` with a signal from 1 to 31 makes just this signal pending too for the processes of the
-- group, and changes neither the status of a task, so that one that waits is not woken, nor a task
-- outside of the group.
abbrev Marked : ℕ → ℕ → Process → Type 0
Marked pgrp sig p =
    ((mark pgrp sig p).status ≡ p.status)
    × ((n : ℕ)
        → 1 ≤ n
        → sig_ismember (mark pgrp sig p).signals.signal n
          ≡ (sig_ismember p.signals.signal n || is_user p.mm && p.pgrp == pgrp && sig == n))

mark-Marked : (pgrp sig : ℕ) (p : Process) → 1 ≤ sig → Marked pgrp sig p
unfolding mark
mark-Marked pgrp sig p low = elim (Bool-cases (is_user p.mm && p.pgrp == pgrp)) [
  | inl e ↦ rw e (refl, λ n one. ismember-addset p.signals.signal sig n low one)
  | inr e ↦ rw e (refl, λ n one. ground arith)
]
