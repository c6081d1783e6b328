-- ===== src/Signal.antt =====
-- kernel/signal.c and include/uapi/signal.h: the signals of a process. The saved registers
-- (`struct intr_stack`) are 19 words by their index, `eip` at 14 and `esp` at 17; the memory of the
-- user is a word for each address, used at the addresses that lie a multiple of 4 from the stack
-- pointer. Handlers and restorers are addresses. Each function runs with interrupts off where it
-- reads and writes the sets.
pub mod Sets
pub mod Frame
pub mod Deliver
pub mod Masks
pub mod Kill
mod Tests
use magic_box.Prelude.{
  ℕ, zero, suc, ◌+◌, ◌-◌, ◌*◌, ◌/◌, ◌%◌, ◌^◌, Bool, true, false, ltb, leb, ◌==◌, ◌&&◌, ◌||◌, not,
  if◌then◌else◌, Option, none, some, List, [], ◌∷◌, bit_and, bit_or,
}

pub record SigAction : Type 0 where
  pub sa_handler : ℕ
  pub sa_mask : ℕ
  pub sa_flags : ℕ
  pub sa_restorer : ℕ

-- The fields of `struct task_struct` and the context that the signals use. `waiting` is the status
-- TASK_WAITING.
pub record Task : Type 0 where
  pub signal : ℕ
  pub blocked : ℕ
  pub sigactions : ℕ → SigAction
  pub waiting : Bool

pub record Context : Type 0 where
  pub stack : ℕ → ℕ
  pub memory : ℕ → ℕ

abbrev pub sig_nr : ℕ
sig_nr = 32

abbrev pub sig_dfl : ℕ
sig_dfl = 0

abbrev pub sig_ign : ℕ
sig_ign = 1

abbrev pub eip_index : ℕ
eip_index = 14

abbrev pub esp_index : ℕ
esp_index = 17

unfoldable pub sigmask : ℕ → ℕ
sigmask sig = 2 ^ (sig - 1)

-- `~` of a `uint32_t`.
abbrev pub complement : ℕ → ℕ
complement x = 2 ^ 32 - 1 - x

unfoldable pub sig_addset : ℕ → ℕ → ℕ
sig_addset set sig = bit_or set (sigmask sig)

unfoldable pub sig_delset : ℕ → ℕ → ℕ
sig_delset set sig = bit_and set (complement (sigmask sig))

unfoldable pub sig_ismember : ℕ → ℕ → Bool
sig_ismember set sig = not (bit_and set (sigmask sig) == 0)

-- `&= ~(sigmask(SIGKILL) | sigmask(SIGSTOP))`
unfoldable pub without_kill_stop : ℕ → ℕ
without_kill_stop blocked = bit_and blocked (complement (bit_or (sigmask 9) (sigmask 19)))

abbrev pub update {ℓ} : {A : Type ℓ} → (ℕ → A) → ℕ → A → ℕ → A
update f i v j = if j == i then v else f j

abbrev pub sub32 : ℕ → ℕ → ℕ
sub32 a b = (a + 2 ^ 32 - b) % 2 ^ 32

-- `memcpy` of the registers to the `left` words from `to` on, the word `i` first.
unfoldable pub save_words : (left : ℕ) → (stack memory : ℕ → ℕ) → (to i : ℕ) → ℕ → ℕ
save_words zero stack memory to i = memory
save_words (suc left) stack memory to i =
    save_words left stack (update memory (to + 4 * i) (stack i)) to (i + 1)

unfoldable pub setup_frame : (sig : ℕ) → SigAction → Context → (blocked : ℕ) → Context
setup_frame sig sa c blocked =
    let user_esp = sub32 (c.stack esp_index) (22 * 4) in
    let saved = save_words 19 c.stack c.memory (user_esp + 12) 0 in
    record {
      stack = update (update c.stack esp_index user_esp) eip_index sa.sa_handler;
      memory =
          update (update (update saved user_esp sa.sa_restorer) (user_esp + 4) sig) (user_esp + 8)
            blocked;
    }

-- `sys_sigreturn`: none is its panic.
unfoldable pub sys_sigreturn : Task → Context → Option (Task × Context)
sys_sigreturn t c =
    let user_esp = c.stack esp_index in
    let saved_frame = user_esp + 8 in
    if ltb saved_frame 0x1000
    then none
    else some (
      record t { blocked = c.memory (user_esp + 4) },
      record c { stack = λ i. c.memory (saved_frame + 4 * i) },
    )

-- The search of `do_signal`, over the `left` signals from `i` on; 0 if there is none.
unfoldable pub lowest : (left : ℕ) → (pending i : ℕ) → ℕ
lowest zero pending i = 0
lowest (suc left) pending i =
    let rest = lowest left pending (i + 1) in if bit_and pending (sigmask i) == 0 then rest else i

-- SIGALRM, SIGTERM, SIGKILL, SIGINT, SIGPIPE, SIGSEGV and SIGILL end the process by default.
unfoldable pub default_exits : ℕ → Bool
default_exits sig =
    (sig == 14)
    || (sig == 15)
    || (sig == 9)
    || (sig == 2)
    || (sig == 13)
    || (sig == 11)
    || (sig == 4)

-- How `do_signal` ends: it returns, or the process exits with minus the signal.
pub data Delivered : Type 0 where
  continues : Task → Context → Delivered
  exits : ℕ → Delivered

-- The part of `do_signal` behind the choice of the signal.
unfoldable pub deliver : Task → Context → (sig : ℕ) → Delivered
deliver t c sig =
    let sa = t.sigactions (sig - 1) in
    let rest = record t { signal = bit_and t.signal (complement (sigmask sig)) } in
    let masked = record rest {
      blocked = without_kill_stop (bit_or t.blocked (bit_or (sigmask sig) sa.sa_mask));
    } in
    if sa.sa_handler == sig_ign
    then continues rest c
    else if sa.sa_handler == sig_dfl
    then (if default_exits sig then exits sig else continues rest c)
    else if sa.sa_restorer == 0
    then exits sig
    else continues masked (setup_frame sig sa c t.blocked)

unfoldable pub do_signal : Task → Context → Delivered
do_signal t c =
    let t' = record t { blocked = without_kill_stop t.blocked } in
    let pending = bit_and t.signal (complement t'.blocked) in
    let sig = lowest 31 pending 1 in
    if pending == 0 then continues t' c else if sig == 0 then continues t' c else deliver t' c sig

-- `send_signal` to a task that is there, and whether it wakes the task.
unfoldable pub send_signal : Task → ℕ → Task × Bool
send_signal t sig =
    let wakes = (bit_and t.blocked (sigmask sig) == 0) && t.waiting in
    if ltb (sig_nr - 1) sig || ltb sig 1 then (t, false) else (
      record t { signal = sig_addset t.signal sig; waiting = if wakes then false else t.waiting },
      wakes,
    )

-- `sys_signal`: the old handler, or none for -1.
unfoldable pub sys_signal : Task → (sig handler : ℕ) → Task × Option ℕ
sys_signal t sig handler =
    let old = t.sigactions (sig - 1) in
    if ltb sig 1 || ltb (sig_nr - 1) sig then (t, none) else (
      record t {
        sigactions =
            update t.sigactions (sig - 1)
              (record old { sa_handler = handler; sa_mask = 0; sa_flags = 0 });
      },
      some old.sa_handler,
    )

-- `sys_sigaction`, with none for a null pointer: the old action, or none for -EINVAL.
unfoldable pub sys_sigaction : Task → ℕ → Option SigAction → Option (Task × SigAction)
sys_sigaction t sig act =
    if ltb sig 1 || ltb 32 sig
    then none
    else some (
      record t {
        sigactions = elim act [ none ↦ t.sigactions | some a ↦ update t.sigactions (sig - 1) a ];
      },
      t.sigactions (sig - 1),
    )

unfoldable pub sys_rt_sigaction :
    Task → ℕ → Option SigAction → (sigsetsize : ℕ) → Option (Task × SigAction)
sys_rt_sigaction t sig act sigsetsize =
    if not (sigsetsize == 8) && not (sigsetsize == 4) then none else sys_sigaction t sig act

-- The change that `how` asks for: none for -EINVAL.
unfoldable pub change_mask : Task → (how set : ℕ) → Option Task
change_mask t how set =
    let with_mask = λ (m : ℕ). some (record t { blocked = without_kill_stop m }) in
    if how == 0
    then with_mask (bit_or t.blocked set)
    else if how == 1
    then with_mask (bit_and t.blocked (complement set))
    else if how == 2
    then with_mask set
    else none

-- `sys_sigprocmask` with a set or NULL: the task, or none for -EINVAL, and what it writes to `oldset`.
unfoldable pub sys_sigprocmask : Task → (how : ℕ) → (set : Option ℕ) → Option Task × ℕ
sys_sigprocmask t how none = (some t, t.blocked)
sys_sigprocmask t how (some set) = (change_mask t how set, t.blocked)

unfoldable pub sys_sigpending : Task → ℕ
sys_sigpending t = bit_and t.signal t.blocked
