-- ===== src/Signal/Masks.antt =====
-- The masks of kernel/signal.c: `sys_sigprocmask`, the mask while a handler runs, and waking a task
-- that waits.
use magic_box.Prelude.{
  ℕ, ◌-◌, ◌^◌, ◌<◌, ◌≤◌, ◌≡◌, ◌≢◌, ◌⊎◌, inl, inr, refl, Bool, true, false, ltb, ◌==◌, ◌&&◌, ◌||◌,
  not, if◌then◌else◌, arith, bit_and, bit_or, Option, none, some, Bool-cases,
}
use magic_box.Signal.{
  Task, Context, sig_ign, sig_dfl, sigmask, complement, sig_ismember, without_kill_stop, continues,
  deliver, setup_frame, change_mask, sys_sigprocmask, send_signal,
}
use magic_box.Signal.Sets.{
  ismember-and_not, ismember-or, ismember-addset, ismember-without_kill_stop, ismember-sigmask,
  sigmask-lt,
}

-- Whether `how` makes the signal blocked: SIG_BLOCK is 0, SIG_UNBLOCK is 1 and SIG_SETMASK is 2.
abbrev pub wants_blocked : (how : ℕ) → (old new : Bool) → Bool
wants_blocked how old new =
    if how == 0 then old || new else if how == 1 then old && not new else new

abbrev pub MaskOk : Task → (how set : ℕ) → Option Task → Type 0
MaskOk t how set none = 2 < how
MaskOk t how set (some t') =
    (how ≤ 2)
    × (t'.signal ≡ t.signal)
    × ((sig : ℕ)
        → 1 ≤ sig
        → sig ≤ 32
        → sig_ismember t'.blocked sig ≡ (
            wants_blocked how (sig_ismember t.blocked sig) (sig_ismember set sig)
            && not (sig == 9)
            && not (sig == 19)))

change_mask-MaskOk :
    (t : Task) (how set : ℕ) → set < 2 ^ 32 → MaskOk t how set (change_mask t how set)
unfolding change_mask
change_mask-MaskOk t how set word = elim (Bool-cases (how == 0)) [
  | inl block ↦ rw block (
    ground arith,
    refl,
    λ sig p q. ground (
      arith,
      ismember-without_kill_stop (bit_or t.blocked set) sig p q,
      ismember-or t.blocked set sig,
    ),
  )
  | inr not_block ↦ elim (Bool-cases (how == 1)) [
    | inl unblock ↦
        rw (not_block, unblock)
          (
            ground arith,
            refl,
            λ sig p q. ground (
              arith,
              ismember-without_kill_stop (bit_and t.blocked (complement set)) sig p q,
              ismember-and_not t.blocked set sig word q,
            ),
          )
    | inr not_unblock ↦ elim (Bool-cases (how == 2)) [
      | inl set_mask ↦
          rw (not_block, not_unblock, set_mask)
            (ground arith, refl, λ sig p q. ground (arith, ismember-without_kill_stop set sig p q))
      | inr other ↦ rw (not_block, not_unblock, other) (ground arith)
    ]
  ]
]

-- `sys_sigprocmask` with a set of 32 bits blocks just the signals that `how` asks for, SIGKILL and
-- SIGSTOP never, and refuses every other `how`. Without a set it changes nothing, whatever `how` is.
-- It writes the old mask to `oldset` in each case.
pub sys_sigprocmask-MaskOk :
    (t : Task) (how set : ℕ)
    → set < 2 ^ 32
    → MaskOk t how set (sys_sigprocmask t how (some set)).0
      × (sys_sigprocmask t how none ≡ (some t, t.blocked))
      × ((sys_sigprocmask t how (some set)).1 ≡ t.blocked)
unfolding sys_sigprocmask
sys_sigprocmask-MaskOk t how set word = (change_mask-MaskOk t how set word, refl, refl)

-- While a handler runs that has a restorer, the signals blocked are those blocked before, the signal
-- itself and those of `sa_mask`, but never SIGKILL and SIGSTOP; the signal is no longer pending, and
-- every other one is as it was.
pub deliver-handled :
    (t : Task) (c : Context) (sig : ℕ)
    → 1 ≤ sig
    → sig ≤ 31
    → (t.sigactions (sig - 1)).sa_handler ≢ sig_ign
    → (t.sigactions (sig - 1)).sa_handler ≢ sig_dfl
    → (t.sigactions (sig - 1)).sa_restorer ≢ 0
    → (t' : Task) × (deliver t c sig
        ≡ continues t' (setup_frame sig (t.sigactions (sig - 1)) c t.blocked))
      × ((s : ℕ)
          → 1 ≤ s
          → s ≤ 32
          → (sig_ismember t'.blocked s ≡ (
              (sig_ismember t.blocked s
                || sig == s
                || sig_ismember (t.sigactions (sig - 1)).sa_mask s)
              && not (s == 9)
              && not (s == 19)))
            × (sig_ismember t'.signal s ≡ (sig_ismember t.signal s && not (sig == s))))
unfolding deliver
deliver-handled t c sig p q not_ign not_dfl restorer = (
  record t {
    signal = bit_and t.signal (complement (sigmask sig));
    blocked =
        without_kill_stop
          (bit_or t.blocked (bit_or (sigmask sig) (t.sigactions (sig - 1)).sa_mask));
  },
  rw (a, b, r) refl,
  λ s p' q'. (
    ground (
      arith,
      ismember-without_kill_stop
          (bit_or t.blocked (bit_or (sigmask sig) (t.sigactions (sig - 1)).sa_mask)) s p' q',
      ismember-or t.blocked (bit_or (sigmask sig) (t.sigactions (sig - 1)).sa_mask) s,
      ismember-or (sigmask sig) (t.sigactions (sig - 1)).sa_mask s,
      ismember-sigmask sig s p p',
    ),
    ground (
      arith,
      ismember-and_not t.signal (sigmask sig) s (sigmask-lt sig (omega arith)) q',
      ismember-sigmask sig s p p',
    ),
  ),
)
  where
    a : ((t.sigactions (sig - 1)).sa_handler == sig_ign) ≡ false
    a = ground arith

    b : ((t.sigactions (sig - 1)).sa_handler == sig_dfl) ≡ false
    b = ground arith

    r : ((t.sigactions (sig - 1)).sa_restorer == 0) ≡ false
    r = ground arith

-- `send_signal` of a signal from 1 to 31 makes just this signal pending too, and wakes the task
-- exactly when the task waits and does not block the signal; any other number changes nothing.
pub send_signal_sends :
    (t : Task) (sig : ℕ)
    → (((1 ≤ sig) × (sig ≤ 31))
        × ((s : ℕ)
            → 1 ≤ s
            → sig_ismember (send_signal t sig).0.signal s ≡ (sig_ismember t.signal s || sig == s))
        × ((send_signal t sig).0.blocked ≡ t.blocked)
        × ((send_signal t sig).1 ≡ (not (sig_ismember t.blocked sig) && t.waiting)))
      ⊎ (((sig < 1) ⊎ (31 < sig)) × (send_signal t sig ≡ (t, false)))
unfolding send_signal sig_ismember
send_signal_sends t sig = elim (Bool-cases (ltb 31 sig || ltb sig 1)) [
  | inl refused ↦ rw refused (inr (out_of_range refused, refl))
  | inr valid ↦ rw valid (
      inl (
        (ground arith, ground arith),
        (λ s p. ismember-addset t.signal sig s (ground arith) p),
        refl,
        ground arith,
      ))
]
  where
    out_of_range : (ltb 31 sig || ltb sig 1) ≡ true → (sig < 1) ⊎ (31 < sig)
    out_of_range h = elim (Bool-cases (ltb sig 1)) [
      | inl low ↦ inl (ground arith)
      | inr high ↦ inr (ground arith)
    ]
