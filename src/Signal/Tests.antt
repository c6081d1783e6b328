-- ===== src/Signal/Tests.antt =====
-- The theorems on signals at a task with SIGINT and SIGTERM pending.
use magic_box.Prelude.{
  ℕ, ◌+◌, ◌<◌, ◌≤◌, ◌≡◌, ◌≢◌, ◌⊎◌, refl, true, false, ◌==◌, ◌&&◌, ◌||◌, not, if◌then◌else◌, arith,
  some, none,
}
use magic_box.Signal.{
  SigAction, Task, Context, esp_index, eip_index, update, sig_ign, sig_ismember, setup_frame,
  sys_sigreturn, exits, continues, deliver, do_signal, sys_signal, sys_sigprocmask, send_signal,
}
use magic_box.Signal.Frame.{setup_frame-entry, sys_sigreturn-setup_frame}
use magic_box.Signal.Deliver.{DoOk, do_signal-DoOk}
use magic_box.Signal.Masks.{MaskOk, sys_sigprocmask-MaskOk, deliver-handled, send_signal_sends}
use magic_box.Signal.Kill.{do_signal-ignored_kill}

abbrev handler : SigAction
handler = record { sa_handler = 0x8048100; sa_mask = 8; sa_flags = 0; sa_restorer = 0x8048200 }

-- Bits 1 and 14 are SIGINT and SIGTERM.
abbrev task : Task
task = record { signal = 0x4002; blocked = 0; sigactions = λ i. handler; waiting = true }

abbrev context : Context
context = record { stack = λ i. if i == 17 then 0xbffff000 else i; memory = λ a. 0 }

abbrev after : Context
after = record (setup_frame 2 handler context 5) {
  stack =
      update (setup_frame 2 handler context 5).stack 17
        ((setup_frame 2 handler context 5).stack 17 + 4);
}

setup_frame-entry_example :
    ((setup_frame 2 handler context 5).stack eip_index ≡ 0x8048100)
    × ((setup_frame 2 handler context 5).stack esp_index + 88 ≡ 0xbffff000)
    × ((setup_frame 2 handler context 5).memory ((setup_frame 2 handler context 5).stack esp_index)
        ≡ 0x8048200)
    × ((setup_frame 2 handler context 5).memory
          ((setup_frame 2 handler context 5).stack esp_index + 4)
        ≡ 2)
    × ((a : ℕ) → 0xbffff000 ≤ a → (setup_frame 2 handler context 5).memory a ≡ 0)
setup_frame-entry_example = setup_frame-entry 2 handler context 5 (omega arith) (omega arith)

sys_sigreturn-setup_frame_example :
    (t' : Task) × (c' : Context) × (sys_sigreturn task after ≡ some (t', c'))
    × (t'.blocked ≡ 5)
    × (t'.signal ≡ 0x4002)
    × ((i : ℕ) → i < 19 → c'.stack i ≡ context.stack i)
sys_sigreturn-setup_frame_example =
    sys_sigreturn-setup_frame 2 handler context 5 task after (omega arith) (omega arith) refl
      (λ a h in_frame. refl)

do_signal-DoOk_example : DoOk task context (do_signal task context)
do_signal-DoOk_example = do_signal-DoOk task context

sys_sigprocmask-MaskOk_example :
    MaskOk task 0 0x40100 (sys_sigprocmask task 0 (some 0x40100)).0
    × (sys_sigprocmask task 0 none ≡ (some task, 0))
    × ((sys_sigprocmask task 0 (some 0x40100)).1 ≡ 0)
sys_sigprocmask-MaskOk_example = sys_sigprocmask-MaskOk task 0 0x40100 (omega arith)

deliver-handled_example :
    (t' : Task) × (deliver task context 2 ≡ continues t' (setup_frame 2 handler context 0))
    × ((s : ℕ)
        → 1 ≤ s
        → s ≤ 32
        → (sig_ismember t'.blocked s
            ≡ ((sig_ismember 0 s || 2 == s || sig_ismember 8 s) && not (s == 9) && not (s == 19)))
          × (sig_ismember t'.signal s ≡ (sig_ismember 0x4002 s && not (2 == s))))
deliver-handled_example =
    deliver-handled task context 2 (omega arith) (omega arith) (omega arith) (omega arith)
      (omega arith)

send_signal_sends_example :
    (((1 ≤ 15) × (15 ≤ 31))
      × ((s : ℕ)
          → 1 ≤ s
          → sig_ismember (send_signal task 15).0.signal s ≡ (sig_ismember 0x4002 s || 15 == s))
      × ((send_signal task 15).0.blocked ≡ 0)
      × ((send_signal task 15).1 ≡ (not (sig_ismember 0 15) && true)))
    ⊎ (((15 < 1) ⊎ (31 < 15)) × (send_signal task 15 ≡ (task, false)))
send_signal_sends_example = send_signal_sends task 15

do_signal-ignored_kill_example :
    ((sys_signal task 9 sig_ign).1 ≡ some 0x8048100)
    × (do_signal (sys_signal task 9 sig_ign).0 context ≢ exits 9)
do_signal-ignored_kill_example = do_signal-ignored_kill task context
