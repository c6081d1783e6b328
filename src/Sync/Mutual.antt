-- ===== src/Sync/Mutual.antt =====
-- Mutual exclusion of the lock of thread/sync.c.
use magic_box.Prelude.{
  ◌+◌, ◌-◌, ◌%◌, ◌^◌, ◌<◌, ◌≤◌, ◌≡◌, ◌≢◌, ◌⊎◌, inl, inr, refl, ap, ◌∙◌, true, ltb, ◌==◌, arith,
  Option, none, some, Bool-cases, ==_iff,
}
use magic_box.Sync.{
  Task, Lock, sema_signal, lock_init, sema_init, counted, acquire_first, acquire_last, still_held,
  must_signal, release_asserts, lock_release, is_holder,
}
use magic_box.Sync.Exclusion.{
  Phase, outside, waiting, passed, holding, leaving, System, Step, asks, waits, passes_by, takes,
  takes_again, gives_once, gives_up, signals, Reach, here, next, inside, moved, FieldsOk,
  IsExclusive, wait_passes, wait_sleeps, only_me, moves_inside, stays_inside, all_outside,
}

FieldsOk-inside : (l : Lock) (me : Task) (p : Phase) → FieldsOk l me p → inside p ≡ 1
FieldsOk-inside l me outside f = absurd f
FieldsOk-inside l me waiting f = absurd f
FieldsOk-inside l me passed f = refl
FieldsOk-inside l me holding f = refl
FieldsOk-inside l me leaving f = refl

-- A task that is not inside moves on, and is still not inside.
moves_outside :
    (s : System) (me : Task) (p q : Phase)
    → IsExclusive s
    → s.phase me ≡ p
    → inside p ≡ 0
    → inside q ≡ 0
    → IsExclusive (record s { phase = moved s.phase me q })
moves_outside s me p q (inl (v, h, r, all)) e z z' =
    inl (v, h, r, all_outside s.phase me q z' (λ t ne. all t))
moves_outside s me p q (inr (u, v, f, others)) e z z' = elim (Bool-cases (u == me)) [
  | inl same ↦
      let e' : s.phase u ≡ p = ap s.phase ((==_iff u me).0 same) ∙ e in
      absurd (omega (arith, FieldsOk-inside s.lock u (s.phase u) f, ap inside e', z))
  | inr other ↦ inr (u, v, (rw other f), λ t ne. still t ne)
]
  where
    still : (t : Task) → t ≢ u → inside (moved s.phase me q t) ≡ 0
    still t ne = elim (Bool-cases (t == me)) [
      | inl at_me ↦ rw at_me z'
      | inr there ↦ rw there (others t ne)
    ]

acquired :
    (l l' : Lock) (me : Task)
    → acquire_last l me ≡ some l'
    → l' ≡ record l { holder = some me; holder_repeat_nr = 1 }
unfolding acquire_last
acquired l l' me h = elim (Bool-cases (l.holder_repeat_nr == 0)) [
  | inl zero ↦
      (let e : some (record l { holder = some me; holder_repeat_nr = 1 }) ≡ some l' =
          rw zero at h in
        cc)
  | inr more ↦ absurd (let e : none ≡ some l' = rw more at h in cc)
]

holds_lock : {o : Option Task} (me : Task) → o ≡ some me → is_holder o me ≡ true
holds_lock {o} me e = rw e (ground arith)

counted_lem :
    (l l' : Lock) (me : Task)
    → l.holder ≡ some me
    → acquire_first l me ≡ counted l'
    → l' ≡ record l { holder_repeat_nr = (l.holder_repeat_nr + 1) % 2 ^ 32 }
unfolding acquire_first
counted_lem l l' me mine h =
    let e : counted (record l { holder_repeat_nr = (l.holder_repeat_nr + 1) % 2 ^ 32 })
        ≡ counted l' =
      rw (holds_lock me mine) at h in
    cc

-- The two ends of `lock_release` by the holder, where no `ASSERT` fails.
release_lem :
    (l : Lock) (me : Task)
    → l.holder ≡ some me
    → 1 ≤ l.holder_repeat_nr
    → ((1 < l.holder_repeat_nr)
        × (lock_release l me ≡ still_held (record l { holder_repeat_nr = l.holder_repeat_nr - 1 })))
      ⊎ (lock_release l me ≡ must_signal (record l { holder = none; holder_repeat_nr = 0 }))
unfolding lock_release
release_lem l me mine pos = elim (Bool-cases (ltb 1 l.holder_repeat_nr)) [
  | inl several ↦ rw (holds_lock me mine, several) (inl (ground arith, refl))
  | inr once ↦
      let one : (l.holder_repeat_nr == 1) ≡ true = ground arith in
      rw (holds_lock me mine, once, one) (inr refl)
]

kept :
    (l l' : Lock) (me : Task)
    → l.holder ≡ some me
    → 1 ≤ l.holder_repeat_nr
    → lock_release l me ≡ still_held l'
    → (1 < l.holder_repeat_nr) × (l' ≡ record l { holder_repeat_nr = l.holder_repeat_nr - 1 })
kept l l' me mine pos h = decide (release_lem l me mine pos)
  where
    decide :
        ((1 < l.holder_repeat_nr)
            × (lock_release l me
                ≡ still_held (record l { holder_repeat_nr = l.holder_repeat_nr - 1 })))
          ⊎ (lock_release l me ≡ must_signal (record l { holder = none; holder_repeat_nr = 0 }))
        → (1 < l.holder_repeat_nr) × (l' ≡ record l { holder_repeat_nr = l.holder_repeat_nr - 1 })
    decide (inl (several, e)) = (several, cc)
    decide (inr e) = absurd cc

given :
    (l l' : Lock) (me : Task)
    → l.holder ≡ some me
    → 1 ≤ l.holder_repeat_nr
    → lock_release l me ≡ must_signal l'
    → l' ≡ record l { holder = none; holder_repeat_nr = 0 }
given l l' me mine pos h = decide (release_lem l me mine pos)
  where
    decide :
        ((1 < l.holder_repeat_nr)
            × (lock_release l me
                ≡ still_held (record l { holder_repeat_nr = l.holder_repeat_nr - 1 })))
          ⊎ (lock_release l me ≡ must_signal (record l { holder = none; holder_repeat_nr = 0 }))
        → l' ≡ record l { holder = none; holder_repeat_nr = 0 }
    decide (inl (several, e)) = absurd cc
    decide (inr e) = cc

Step-IsExclusive : {s t : System} → Step s t → IsExclusive s → IsExclusive t
unfolding sema_signal
Step-IsExclusive {s} (asks me e first) i = moves_outside s me outside waiting i e refl refl
Step-IsExclusive {s} (waits me sema e h) i = value_kept i
  where
    value_kept :
        IsExclusive s → IsExclusive (record s { lock = record s.lock { semaphore = sema } })
    value_kept (inl (v, free, r, all)) =
        inl (wait_sleeps s.lock.semaphore sema me h ∙ v, free, r, all)
    value_kept (inr (u, v, f, others)) =
        inr (u, wait_sleeps s.lock.semaphore sema me h ∙ v, fields (s.phase u) f, others)
      where
        fields :
            (p : Phase) → FieldsOk s.lock u p → FieldsOk (record s.lock { semaphore = sema }) u p
        fields outside f = f
        fields waiting f = f
        fields passed f = f
        fields holding f = f
        fields leaving f = f
Step-IsExclusive {s} (passes_by me sema e h) i = by_value i (wait_passes s.lock.semaphore sema me h)
  where
    by_value :
        IsExclusive s
        → (s.lock.semaphore.value ≢ 0) × (sema.value ≡ (s.lock.semaphore.value + 2 ^ 8 - 1) % 2 ^ 8)
        → IsExclusive
            (record { lock = record s.lock { semaphore = sema }; phase = moved s.phase me passed })
    by_value (inl (v, h, r, all)) (more, less) =
        moves_inside (record s.lock { semaphore = sema }) s.phase me passed (omega (arith, v, less))
          (h, r) (λ t ne. all t)
    by_value (inr (u, v, f, others)) (more, less) = absurd (more v)
Step-IsExclusive {s} (takes me l e h) i =
    let (v, f, others) = only_me s me passed i e refl in
    let l_is = acquired s.lock l me h in
    moves_inside l s.phase me holding (ap (λ (x : Lock). x.semaphore.value) l_is ∙ v)
      (ap (λ (x : Lock). x.holder) l_is, omega (arith, ap (λ (x : Lock). x.holder_repeat_nr) l_is))
      others
Step-IsExclusive {s} (takes_again me l e small h) i =
    let (v, f, others) = only_me s me holding i e refl in
    let l_is = counted_lem s.lock l me f.0 h in
    stays_inside l s.phase me holding e (ap (λ (x : Lock). x.semaphore.value) l_is ∙ v)
      (
        ap (λ (x : Lock). x.holder) l_is ∙ f.0,
        omega (arith, small, ap (λ (x : Lock). x.holder_repeat_nr) l_is),
      )
      others
Step-IsExclusive {s} (gives_once me l e h) i =
    let (v, f, others) = only_me s me holding i e refl in
    let (several, l_is) = kept s.lock l me f.0 f.1 h in
    stays_inside l s.phase me holding e (ap (λ (x : Lock). x.semaphore.value) l_is ∙ v)
      (
        ap (λ (x : Lock). x.holder) l_is ∙ f.0,
        omega (arith, several, ap (λ (x : Lock). x.holder_repeat_nr) l_is),
      )
      others
Step-IsExclusive {s} (gives_up me l e h) i =
    let (v, f, others) = only_me s me holding i e refl in
    let l_is = given s.lock l me f.0 f.1 h in
    moves_inside l s.phase me leaving (ap (λ (x : Lock). x.semaphore.value) l_is ∙ v)
      (ap (λ (x : Lock). x.holder) l_is, ap (λ (x : Lock). x.holder_repeat_nr) l_is) others
Step-IsExclusive {s} (signals me e) i =
    let (v, f, others) = only_me s me leaving i e refl in
    inl (omega (arith, v), f.0, f.1, all_outside s.phase me outside refl others)

-- No `ASSERT` of the lock fails next.
pub record IsSafe (s : System) : Type 0 where
  pub exclusive : (t u : Task) → inside (s.phase t) ≡ 1 → inside (s.phase u) ≡ 1 → t ≡ u
  pub may_take : (me : Task) → s.phase me ≡ passed → acquire_last s.lock me ≢ none
  pub may_give : (me : Task) → s.phase me ≡ holding → lock_release s.lock me ≢ release_asserts

IsExclusive-IsSafe : (s : System) → IsExclusive s → IsSafe s
unfolding acquire_last
IsExclusive-IsSafe s i = record {
  exclusive = λ t u p q. same t u p q;
  may_take = λ me e fails.
      let (v, f, others) = only_me s me passed i e refl in
      let zero : (s.lock.holder_repeat_nr == 0) ≡ true = ground (arith, f.1) in
      let e' : some _ ≡ none = rw zero at fails in cc;
  may_give = λ me e fails.
      let (v, f, others) = only_me s me holding i e refl in
      ends me fails (release_lem s.lock me f.0 f.1);
}
  where
    same : (t u : Task) → inside (s.phase t) ≡ 1 → inside (s.phase u) ≡ 1 → t ≡ u
    same t u p q = elim (Bool-cases (t == u)) [
      | inl eq ↦ (==_iff t u).0 eq
      | inr ne ↦
          let (v, f, others) = only_me s u (s.phase u) i refl q in
          absurd (omega (arith, p, others t (ground arith)))
    ]

    ends :
        (me : Task)
        → lock_release s.lock me ≡ release_asserts
        → ((1 < s.lock.holder_repeat_nr)
            × (lock_release s.lock me
                ≡ still_held (record s.lock { holder_repeat_nr = s.lock.holder_repeat_nr - 1 })))
          ⊎ (lock_release s.lock me
              ≡ must_signal (record s.lock { holder = none; holder_repeat_nr = 0 }))
        → ⊥
    ends me fails (inl (several, e)) = cc
    ends me fails (inr e) = cc

abbrev pub start : System
start = record { lock = lock_init; phase = λ t. outside }

Reach-IsExclusive : {s t : System} → Reach s t → IsExclusive s → IsExclusive t
Reach-IsExclusive here i = i
Reach-IsExclusive (next r st) i = Step-IsExclusive st (Reach-IsExclusive r i)

-- Whatever the interleaving of tasks that take, take again and release a lock made by `lock_init`: at
-- most one task is between its `sema_wait` and its `sema_signal`, and no `ASSERT` of the lock fails
-- in a task that has passed the semaphore or holds the lock. The repeat count does not wrap.
pub Reach-IsSafe : {s : System} → Reach start s → IsSafe s
unfolding lock_init sema_init
Reach-IsSafe {s} r = IsExclusive-IsSafe s (Reach-IsExclusive r (inl (refl, refl, refl, λ t. refl)))
