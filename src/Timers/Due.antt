-- ===== src/Timers/Due.antt =====
-- The tasks of a list that are due, and what a loop over them does.
use magic_box.Prelude.{
  ℕ, ◌≤◌, ◌<◌, ◌≡◌, ◌≢◌, refl, ap, ap₂, sym, ◌∙◌, Bool, true, false, ◌==◌, ◌&&◌, if◌then◌else◌, leb,
  arith, List, [], ◌∷◌, Bool-cases, inl, inr, Option, some, ==_iff, subst,
}
use magic_box.Scheduler.{Task, Threads, ready, in_list, is_asleep}
use magic_box.Timers.{Timers, due}
use magic_box.Timers.Ascends.{in_list-head, in_list-tail, in_list-ne, in_list-cases, not_member}
use magic_box.Timers.Wake.{Rested, Woken}

-- Whether a time has come.
abbrev pub passed : ℕ → ℕ → Bool
passed time now = leb time now

pub fires_at : (time now : ℕ) → 0 < time → due time now ≡ passed time now
fires_at time now pos = ground (arith, pos)

-- The tasks whose time has not come.
unfoldable pub later : (Task → ℕ) → ℕ → List Task → List Task
later time now [] = []
later time now (t ∷ l) = if passed (time t) now then later time now l else t ∷ later time now l

later-ext :
    (time time' : Task → ℕ) (now : ℕ) (l : List Task)
    → ((u : Task) → in_list u l ≡ true → time' u ≡ time u)
    → later time' now l ≡ later time now l
unfolding later
later-ext time time' now [] same = refl
later-ext time time' now (t ∷ l) same =
    let rest = later-ext time time' now l (λ u e. same u (in_list-tail u t l e)) in
    ap₂ (λ (x : ℕ) (r : List Task). if passed x now then r else t ∷ r) (same t (in_list-head t l))
      rest

pub later-all :
    (time : Task → ℕ) (now : ℕ) (l : List Task)
    → ((u : Task) → in_list u l ≡ true → passed (time u) now ≡ false)
    → later time now l ≡ l
unfolding later
later-all time now [] none_due = refl
later-all time now (t ∷ l) none_due = rw (none_due t (in_list-head t l)) (
    ap (λ (r : List Task). t ∷ r) (later-all time now l (λ u e. none_due u (in_list-tail u t l e))))

-- Of one of the two loops: its list, the times in it, and what it does to a task that is due.
pub record IsLoop (time : Timers → Task → ℕ) (fire : Task → List Task → Timers → Timers)
    (queue : Timers → List Task) : Type 0 where
  pub fire-threads : (t : Task) (l : List Task) (s : Timers) → (fire t l s).threads ≡ s.threads
  pub fire-ticks : (t : Task) (l : List Task) (s : Timers) → (fire t l s).ticks ≡ s.ticks
  pub fire-queue : (t : Task) (l : List Task) (s : Timers) → queue (fire t l s) ≡ l
  pub fire-time : (t u : Task) (l : List Task) (s : Timers) → u ≢ t → time (fire t l s) u ≡ time s u
  pub threads-queue :
      (s : Timers) (threads : Threads) → queue (record s { threads = threads }) ≡ queue s
  pub threads-time :
      (s : Timers) (threads : Threads) (u : Task)
      → time (record s { threads = threads }) u ≡ time s u

abbrev is_due : (Task → ℕ) → ℕ → List Task → Task → Bool
is_due time now l u = in_list u l && passed (time u) now

-- What a loop over a list does: the tasks that are due leave it and no other; those that slept are
-- ready, and no other task changes its status.
abbrev pub Fires : (Timers → List Task) → (Task → ℕ) → List Task → Timers → Option Timers → Type 0
Fires queue time l s o =
    (s' : Timers) × (o ≡ some s')
    × (queue s' ≡ later time s.ticks l)
    × (s'.ticks ≡ s.ticks)
    × Rested s'.threads
    × ((u : Task)
        → is_due time s.ticks l u ≡ true
        → is_asleep (s.threads.status u) ≡ true
        → (s'.threads.status u ≡ ready) × (in_list u s'.threads.ready_list ≡ true))
    × ((u : Task) → is_due time s.ticks l u ≡ false → s'.threads.status u ≡ s.threads.status u)
    × ((u : Task) → in_list u s.threads.ready_list ≡ true → in_list u s'.threads.ready_list ≡ true)
    × ((u : Task)
        → is_asleep (s.threads.status u) ≡ false
        → s'.threads.status u ≡ s.threads.status u)

pub due-later :
    (time : Task → ℕ) (now : ℕ) (t u : Task)
    → passed (time t) now ≡ false
    → 0 < time t
    → time t ≤ time u
    → passed (time u) now ≡ false
due-later time now t u e pos le = ground (arith, e, pos, le)

is_due-tail :
    (time time' : Task → ℕ) (now : ℕ) (t u : Task) (l : List Task)
    → u ≢ t
    → time' u ≡ time u
    → is_due time' now l u ≡ is_due time now (t ∷ l) u
is_due-tail time time' now t u l ne same =
    ap₂ (λ (b : Bool) (n : ℕ). b && passed n now) (sym (in_list-ne u t l ne)) same

pub none_due_empty : (time : Task → ℕ) (now : ℕ) (u : Task) → is_due time now [] u ≡ true → ⊥
unfolding in_list
none_due_empty time now u e = ground (arith, e)

pub none_due_later :
    (time : Task → ℕ) (now : ℕ) (t u : Task) (l : List Task)
    → passed (time t) now ≡ false
    → ((x : Task) → in_list x l ≡ true → passed (time x) now ≡ false)
    → is_due time now (t ∷ l) u ≡ true
    → ⊥
none_due_later time now t u l first rest e = elim (in_list-cases u t l (ground (arith, e))) [
  | inl same ↦ ground (arith, e, first, ap (λ x. passed (time x) now) same)
  | inr member ↦ ground (arith, e, rest u member)
]

head_due :
    (time : Task → ℕ) (now : ℕ) (t : Task) (l : List Task)
    → passed (time t) now ≡ true
    → is_due time now (t ∷ l) t ≡ true
head_due time now t l d = ground (arith, in_list-head t l, d)

-- A task that is woken, and then the rest of the list.
pub and_rest :
    (queue : Timers → List Task) (time time₂ : Task → ℕ) (t : Task) (l : List Task) (s s₂ : Timers)
    (o : Option Timers)
    → passed (time t) s.ticks ≡ true
    → in_list t l ≡ false
    → s₂.ticks ≡ s.ticks
    → Woken t s.threads s₂.threads
    → ((u : Task) → u ≢ t → time₂ u ≡ time u)
    → Fires queue time₂ l s₂ o
    → Fires queue time (t ∷ l) s o
unfolding later
and_rest queue time time₂ t l s s₂ o d once same_ticks w same
      (s₃, e, left, ticks₃, rested, awake, alone, members, calm) =
    (
      s₃,
      e,
      left
          ∙ ap (λ n. later time₂ n l) same_ticks
          ∙ later-ext time time₂ s.ticks l (λ u m. same u (not_member u t l m once))
          ∙ rw d refl,
      ticks₃ ∙ same_ticks,
      rested,
      (λ u due_u asleep. elim (Bool-cases (u == t)) [
        | inl is_t ↦
            subst
              (λ x.
                is_asleep (s.threads.status x) ≡ true
                → (s₃.threads.status x ≡ ready) × (in_list x s₃.threads.ready_list ≡ true))
              (sym ((==_iff u t).0 is_t)) first asleep
        | inr ne ↦
            let other : u ≢ t = λ x. ground (arith, ne, x) in
            awake u (still u other ∙ due_u) (ap is_asleep (w.others u other) ∙ asleep)
      ]),
      (λ u not_due. elim (Bool-cases (u == t)) [
        | inl is_t ↦ absurd (
            ground (
              arith,
              sym (ap (is_due time s.ticks (t ∷ l)) ((==_iff u t).0 is_t)) ∙ not_due,
              head_due time s.ticks t l d,
            ))
        | inr ne ↦
            let other : u ≢ t = λ x. ground (arith, ne, x) in
            alone u (still u other ∙ not_due) ∙ w.others u other
      ]),
      (λ u m. members u (w.members u m)),
      λ u not_asleep. elim (Bool-cases (u == t)) [
        | inl is_t ↦
            subst
              (λ x.
                is_asleep (s.threads.status x) ≡ false → s₃.threads.status x ≡ s.threads.status x)
              (sym ((==_iff u t).0 is_t))
              (λ up. calm t (ap is_asleep (w.unasleep up) ∙ up) ∙ w.unasleep up) not_asleep
        | inr ne ↦
            let same_u = w.others u (λ x. ground (arith, ne, x)) in
            calm u (ap is_asleep same_u ∙ not_asleep) ∙ same_u
      ],
    )
  where
    still : (u : Task) → u ≢ t → is_due time₂ s₂.ticks l u ≡ is_due time s.ticks (t ∷ l) u
    still u other =
        ap (λ n. is_due time₂ n l u) same_ticks
        ∙ is_due-tail time time₂ s.ticks t u l other (same u other)

    first :
        is_asleep (s.threads.status t) ≡ true
        → (s₃.threads.status t ≡ ready) × (in_list t s₃.threads.ready_list ≡ true)
    first asleep =
        let (now_ready, member) = w.awake asleep in
        let not_due : is_due time₂ s₂.ticks l t ≡ false = rw once refl in
        (alone t not_due ∙ now_ready, members t member)
