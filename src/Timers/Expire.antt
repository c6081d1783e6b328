-- ===== src/Timers/Expire.antt =====
-- Which tasks the loops of `intr_handler_timer` wake, and which they leave on the list.
use magic_box.Prelude.{
  ℕ, ◌≡◌, ◌≢◌, refl, ap, sym, ◌∙◌, true, false, ◌==◌, arith, List, [], ◌∷◌, Bool-cases, inl, inr,
  some, subst,
}
use magic_box.Scheduler.{Task, Threads, in_list}
use magic_box.Timers.{
  Timers, due, wake_task, expire, fire_timer, fire_alarm, expire_timers, expire_alarms,
}
use magic_box.Timers.Ascends.{Ascends, Ascends-ext, not_member}
use magic_box.Timers.Wake.{Rested, Woken, wake_task-Woken}
use magic_box.Timers.Due.{
  IsLoop, Fires, and_rest, due-later, fires_at, later, later-all, none_due_empty, none_due_later,
  passed,
}

module _ (time : Timers → Task → ℕ) (fire : Task → List Task → Timers → Timers)
    (queue : Timers → List Task) (loop : IsLoop time fire queue) where
  expire-due :
      (t : Task) (l : List Task) (s : Timers) (threads : Threads)
      → due (time s t) s.ticks ≡ true
      → wake_task t (fire t l s) ≡ some (record (fire t l s) { threads = threads })
      → expire time fire (t ∷ l) s ≡ expire time fire l (record (fire t l s) { threads = threads })
  unfolding expire
  expire-due t l s threads d e = rw (d, e) refl

  expire-Fires :
      (l : List Task) (s : Timers)
      → queue s ≡ l
      → Ascends (time s) l
      → Rested s.threads
      → Fires queue (time s) l s (expire time fire l s)
  unfolding expire later
  expire-Fires [] s e a rested = (
    s,
    refl,
    e,
    refl,
    rested,
    (λ u d asleep. absurd (none_due_empty (time s) s.ticks u d)),
    (λ u d. refl),
    (λ u m. m),
    λ u up. refl,
  )
  expire-Fires (t ∷ l) s e (pos, once, least, rest) rested =
      elim (Bool-cases (passed (time s t) s.ticks)) [
        | inl d ↦
            let s₁ = fire t l s in
            let rested₁ : Rested s₁.threads = rw (loop.fire-threads t l s) rested in
            let (threads, e₂, woken) = wake_task-Woken t s₁ rested₁ in
            let s₂ : Timers = record s₁ { threads = threads } in
            let same : (u : Task) → u ≢ t → time s₂ u ≡ time s u =
              λ u ne. loop.threads-time s₁ threads u ∙ loop.fire-time t u l s ne in
            let rest₂ =
              Ascends-ext (time s) (time s₂) l (λ u m. same u (not_member u t l m once)) rest in
            subst (Fires queue (time s) (t ∷ l) s)
              (sym (expire-due t l s threads (fires_at (time s t) s.ticks pos ∙ d) e₂))
              (and_rest queue (time s) (time s₂) t l s s₂ (expire time fire l s₂) d once
                (loop.fire-ticks t l s)
                (subst (λ x. Woken t x threads) (loop.fire-threads t l s) woken) same
                (expire-Fires l s₂ (loop.threads-queue s₁ threads ∙ loop.fire-queue t l s) rest₂
                  woken.rested))
        | inr early ↦
            let none_due = λ (u : Task) (m : in_list u l ≡ true).
              due-later (time s) s.ticks t u early pos (least u m) in
            rw (fires_at (time s t) s.ticks pos, early)
              (
                s,
                refl,
                e ∙ ap (λ (r : List Task). t ∷ r) (sym (later-all (time s) s.ticks l none_due)),
                refl,
                rested,
                (λ u d asleep. absurd (none_due_later (time s) s.ticks t u l early none_due d)),
                (λ u d. refl),
                (λ u m. m),
                λ u up. refl,
              )
      ]

timers-IsLoop : IsLoop (λ s. s.wait_until) fire_timer (λ s. s.timer_list)
timers-IsLoop = record {
  fire-threads = λ t l s. refl;
  fire-ticks = λ t l s. refl;
  fire-queue = λ t l s. refl;
  fire-time = λ t u l s ne. let other : (u == t) ≡ false = ground (arith, ne) in rw other refl;
  threads-queue = λ s threads. refl;
  threads-time = λ s threads u. refl;
}

alarms-IsLoop : IsLoop (λ s. s.alarm) fire_alarm (λ s. s.alarm_list)
alarms-IsLoop = record {
  fire-threads = λ t l s. refl;
  fire-ticks = λ t l s. refl;
  fire-queue = λ t l s. refl;
  fire-time = λ t u l s ne. let other : (u == t) ≡ false = ground (arith, ne) in rw other refl;
  threads-queue = λ s threads. refl;
  threads-time = λ s threads u. refl;
}

-- Where the list of sleepers rises in their times and no sleeping task is in the ready list, the first
-- loop of the timer interrupt takes from it just the tasks that are due, without a failed ASSERT. Those
-- of them that slept are ready and in the ready list after it, and no other task changes its status, neither one that is
-- not due nor one that is due but does not sleep.
pub expire_timers-Fires :
    (s : Timers)
    → Ascends s.wait_until s.timer_list
    → Rested s.threads
    → Fires (λ s. s.timer_list) s.wait_until s.timer_list s (expire_timers s)
expire_timers-Fires s a rested =
    expire-Fires (λ s. s.wait_until) fire_timer (λ s. s.timer_list) timers-IsLoop s.timer_list s
      refl a rested

-- The same of the second loop for the alarms. It makes every due task ready that is blocked, waiting
-- or hanging, so also one that has exited and waits for its parent.
expire_alarms-Fires :
    (s : Timers)
    → Ascends s.alarm s.alarm_list
    → Rested s.threads
    → Fires (λ s. s.alarm_list) s.alarm s.alarm_list s (expire_alarms s)
expire_alarms-Fires s a rested =
    expire-Fires (λ s. s.alarm) fire_alarm (λ s. s.alarm_list) alarms-IsLoop s.alarm_list s refl a
      rested
