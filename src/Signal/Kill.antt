-- ===== src/Signal/Kill.antt =====
-- SIGKILL in kernel/signal.c: `sys_signal` accepts a disposition for it, and then it does not kill.
use magic_box.Prelude.{ℕ, ◌-◌, ◌≡◌, ◌≢◌, ◌⊎◌, inl, inr, refl, ap, ◌==◌, arith, some, Bool-cases}
use magic_box.Signal.{
  Task, Context, sig_ign, sig_dfl, Delivered, continues, exits, deliver, do_signal, default_exits,
  sys_signal,
}
use magic_box.Signal.Deliver.{DoOk, do_signal-DoOk, unmasked}

abbrev killed_by : Delivered → ℕ
killed_by (continues t c) = 0
killed_by (exits sig) = sig

-- A process exits only with the signal that is delivered, and not if it ignores it.
deliver-killed_by :
    (t : Task) (c : Context) (sig : ℕ)
    → (killed_by (deliver t c sig) ≡ 0)
      ⊎ ((killed_by (deliver t c sig) ≡ sig) × ((t.sigactions (sig - 1)).sa_handler ≢ sig_ign))
unfolding deliver
deliver-killed_by t c sig = elim (Bool-cases ((t.sigactions (sig - 1)).sa_handler == sig_ign)) [
  | inl ign ↦ rw ign (inl refl)
  | inr not_ign ↦ elim (Bool-cases ((t.sigactions (sig - 1)).sa_handler == sig_dfl)) [
    | inl dfl ↦ elim (Bool-cases (default_exits sig)) [
      | inl ends ↦ rw (not_ign, dfl, ends) (inr (refl, ground arith))
      | inr stays ↦ rw (not_ign, dfl, stays) (inl refl)
    ]
    | inr handler ↦ elim (Bool-cases ((t.sigactions (sig - 1)).sa_restorer == 0)) [
      | inl bare ↦ rw (not_ign, handler, bare) (inr (refl, ground arith))
      | inr whole ↦ rw (not_ign, handler, whole) (inl refl)
    ]
  ]
]

-- After `sys_signal` with SIGKILL and SIG_IGN, which it accepts, `do_signal` never ends the process
-- for SIGKILL, whatever is pending.
pub do_signal-ignored_kill :
    (t : Task) (c : Context)
    → ((sys_signal t 9 sig_ign).1 ≡ some (t.sigactions 8).sa_handler)
      × (do_signal (sys_signal t 9 sig_ign).0 c ≢ exits 9)
unfolding sys_signal
do_signal-ignored_kill t c = (refl, λ dead. by_case (do_signal-DoOk ignoring c) (ap killed_by dead))
  where
    ignoring : Task
    ignoring = (sys_signal t 9 sig_ign).0

    by_case : DoOk ignoring c (do_signal ignoring c) → killed_by (do_signal ignoring c) ≡ 9 → ⊥
    by_case (inl (none_due, e)) k = omega (arith, k, ap killed_by e)
    by_case (inr (sig, p, q, due, lower, e)) k =
        decide (deliver-killed_by (unmasked ignoring) c sig)
      where
        decide :
            (killed_by (deliver (unmasked ignoring) c sig) ≡ 0)
              ⊎ ((killed_by (deliver (unmasked ignoring) c sig) ≡ sig)
                  × (((unmasked ignoring).sigactions (sig - 1)).sa_handler ≢ sig_ign))
            → ⊥
        decide (inl alive) = omega (arith, k, ap killed_by e, alive)
        decide (inr (by_sig, not_ign)) =
            let nine : sig ≡ 9 = omega (arith, k, ap killed_by e, by_sig) in not_ign (rw nine refl)
