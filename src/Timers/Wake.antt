-- ===== src/Timers/Wake.antt =====
-- What a wake-up by the timer interrupt does to the tasks.
use magic_box.Prelude.{
  ◌≡◌, ◌≢◌, refl, sym, ◌∙◌, Bool, true, false, ◌==◌, if◌then◌else◌, arith, ◌∷◌, Bool-cases, inl,
  inr, ◌⊎◌, some, subst,
}
use magic_box.Scheduler.{Task, Threads, ready, update, in_list, is_asleep, thread_unblock}
use magic_box.Timers.{Timers, wake_task}
use magic_box.Timers.Ascends.{in_list-head, in_list-tail, in_list-ne}

-- No sleeping task is in the ready list.
abbrev pub Rested : Threads → Type 0
Rested s = (u : Task) → is_asleep (s.status u) ≡ true → in_list u s.ready_list ≡ false

-- What a wake-up of a task does to all tasks.
pub record Woken (t : Task) (s s' : Threads) : Type 0 where
  pub rested : Rested s'
  pub others : (u : Task) → u ≢ t → s'.status u ≡ s.status u
  pub awake :
      is_asleep (s.status t) ≡ true → (s'.status t ≡ ready) × (in_list t s'.ready_list ≡ true)
  pub members : (u : Task) → in_list u s.ready_list ≡ true → in_list u s'.ready_list ≡ true
  pub unasleep : is_asleep (s.status t) ≡ false → s'.status t ≡ s.status t

woken_threads : Task → Threads → Threads
woken_threads t s = record s { ready_list = t ∷ s.ready_list; status = update s.status t ready }

woken_threads-Woken :
    (t : Task) (s : Threads)
    → Rested s
    → is_asleep (s.status t) ≡ true
    → Woken t s (woken_threads t s)
unfolding woken_threads
woken_threads-Woken t s rested asleep = record {
  rested = λ u e. by_task u e (Bool-cases (u == t));
  others = λ u ne. let other : (u == t) ≡ false = ground (arith, ne) in rw other refl;
  awake =
      λ _. let self : (t == t) ≡ true = ground arith in (rw self refl, in_list-head t s.ready_list);
  members = λ u e. in_list-tail u t s.ready_list e;
  unasleep = λ no. absurd (ground (arith, asleep, no));
}
  where
    by_task :
        (u : Task)
        → is_asleep (if u == t then ready else s.status u) ≡ true
        → ((u == t) ≡ true) ⊎ ((u == t) ≡ false)
        → in_list u (t ∷ s.ready_list) ≡ false
    by_task u e (inl same) = absurd (
        ground (
          arith,
          sym (subst (λ (b : Bool). is_asleep (if b then ready else s.status u) ≡ true) same e),
        ))
    by_task u e (inr other) =
        in_list-ne u t s.ready_list (λ same. ground (arith, other, same))
        ∙ rested u
            (subst (λ (b : Bool). is_asleep (if b then ready else s.status u) ≡ true) other e)

pub wake_task-Woken :
    (t : Task) (s : Timers)
    → Rested s.threads
    → (threads : Threads) × (wake_task t s ≡ some (record s { threads = threads }))
      × Woken t s.threads threads
unfolding wake_task thread_unblock woken_threads
wake_task-Woken t s rested = elim (Bool-cases (is_asleep (s.threads.status t))) [
  | inl asleep ↦ (
    woken_threads t s.threads,
    rw (asleep, rested t asleep) refl,
    woken_threads-Woken t s.threads rested asleep,
  )
  | inr awake ↦ (
    s.threads,
    rw awake refl,
    record {
      rested = rested;
      others = λ u ne. refl;
      awake = λ asleep. absurd (ground (arith, asleep, awake));
      members = λ u e. e;
      unasleep = λ _. refl;
    },
  )
]
