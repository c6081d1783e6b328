-- ===== src/Sync/Exclusion.antt =====
-- Any number of tasks that take and release one lock of thread/sync.c, in every interleaving.
use magic_box.Prelude.{
  ℕ, ◌+◌, ◌-◌, ◌%◌, ◌^◌, ◌<◌, ◌≤◌, ◌≡◌, ◌≢◌, ◌⊎◌, inl, inr, ap, sym, subst, ◌∙◌, true, false, ◌==◌,
  if◌then◌else◌, arith, none, some, [], ◌∷◌, ◌++◌, Bool-cases, ==_iff,
}
use magic_box.Sync.{
  Task, Semaphore, Lock, WaitRound, passes, sleeps, sema_wait, sema_signal, counted, must_wait,
  acquire_first, acquire_last, still_held, must_signal, lock_release,
}

-- Where a task stands: outside, in the loop of `sema_wait`, behind it, with the lock, or in
-- `lock_release` before `sema_signal`.
pub data Phase : Type 0 where
  outside : Phase
  waiting : Phase
  passed : Phase
  holding : Phase
  leaving : Phase

pub record System : Type 0 where
  pub lock : Lock
  pub phase : Task → Phase

abbrev pub moved : (Task → Phase) → Task → Phase → Task → Phase
moved phase me p t = if t == me then p else phase t

pub data Step (s : System) : System → Type 0 where
  asks :
      (me : Task)
      → s.phase me ≡ outside
      → acquire_first s.lock me ≡ must_wait
      → Step s (record s { phase = moved s.phase me waiting })
  waits :
      (me : Task) (sema : Semaphore)
      → s.phase me ≡ waiting
      → sema_wait s.lock.semaphore me ≡ sleeps sema
      → Step s (record s { lock = record s.lock { semaphore = sema } })
  passes_by :
      (me : Task) (sema : Semaphore)
      → s.phase me ≡ waiting
      → sema_wait s.lock.semaphore me ≡ passes sema
      → Step s
          (record { lock = record s.lock { semaphore = sema }; phase = moved s.phase me passed })
  takes :
      (me : Task) (l : Lock)
      → s.phase me ≡ passed
      → acquire_last s.lock me ≡ some l
      → Step s (record { lock = l; phase = moved s.phase me holding })
  takes_again :
      (me : Task) (l : Lock)
      → s.phase me ≡ holding
      → s.lock.holder_repeat_nr + 1 < 2 ^ 32
      → acquire_first s.lock me ≡ counted l
      → Step s (record s { lock = l })
  gives_once :
      (me : Task) (l : Lock)
      → s.phase me ≡ holding
      → lock_release s.lock me ≡ still_held l
      → Step s (record s { lock = l })
  gives_up :
      (me : Task) (l : Lock)
      → s.phase me ≡ holding
      → lock_release s.lock me ≡ must_signal l
      → Step s (record { lock = l; phase = moved s.phase me leaving })
  signals :
      (me : Task)
      → s.phase me ≡ leaving
      → Step s (record {
        lock = record s.lock { semaphore = (sema_signal s.lock.semaphore).0 };
        phase = moved s.phase me outside;
      })

pub data Reach (s : System) : System → Type 0 where
  here : Reach s s
  next : {t u : System} → Reach s t → Step t u → Reach s u

-- 1 for a task between its `sema_wait` and its `sema_signal`.
abbrev pub inside : Phase → ℕ
inside outside = 0
inside waiting = 0
inside passed = 1
inside holding = 1
inside leaving = 1

-- What the fields of the lock are while one task is inside.
abbrev pub FieldsOk : Lock → Task → Phase → Type 0
FieldsOk l me outside = ⊥
FieldsOk l me waiting = ⊥
FieldsOk l me passed = (l.holder ≡ none) × (l.holder_repeat_nr ≡ 0)
FieldsOk l me holding = (l.holder ≡ some me) × (1 ≤ l.holder_repeat_nr)
FieldsOk l me leaving = (l.holder ≡ none) × (l.holder_repeat_nr ≡ 0)

-- The lock is free and nobody is inside, or it is taken and exactly one task is.
abbrev pub IsExclusive : System → Type 0
IsExclusive s =
    ((s.lock.semaphore.value ≡ 1)
      × (s.lock.holder ≡ none)
      × (s.lock.holder_repeat_nr ≡ 0)
      × ((t : Task) → inside (s.phase t) ≡ 0))
    ⊎ ((me : Task) × (s.lock.semaphore.value ≡ 0)
        × FieldsOk s.lock me (s.phase me)
        × ((t : Task) → t ≢ me → inside (s.phase t) ≡ 0))

pub wait_passes :
    (s s' : Semaphore) (me : Task)
    → sema_wait s me ≡ passes s'
    → (s.value ≢ 0) × (s'.value ≡ (s.value + 2 ^ 8 - 1) % 2 ^ 8)
unfolding sema_wait
wait_passes s s' me h = elim (Bool-cases (s.value == 0)) [
  | inl zero ↦ absurd (let e : sleeps _ ≡ passes s' = rw zero at h in cc)
  | inr more ↦
      let e : passes (record s { value = (s.value + 2 ^ 8 - 1) % 2 ^ 8 }) ≡ passes s' =
        rw more at h in
      (ground arith, value_of e)
]
  where
    value_of : {a b : Semaphore} → passes a ≡ passes b → b.value ≡ a.value
    value_of {a} {b} e =
        ap (λ (w : WaitRound). elim w [ passes x ↦ x.value | sleeps x ↦ 0 ]) (sym e)

pub wait_sleeps : (s s' : Semaphore) (me : Task) → sema_wait s me ≡ sleeps s' → s'.value ≡ s.value
unfolding sema_wait
wait_sleeps s s' me h = elim (Bool-cases (s.value == 0)) [
  | inl zero ↦
      let e : sleeps (record s { waiters = s.waiters ++ (me ∷ []) }) ≡ sleeps s' = rw zero at h in
      ap (λ (w : WaitRound). elim w [ passes x ↦ 0 | sleeps x ↦ x.value ]) (sym e)
  | inr more ↦ absurd (let e : passes _ ≡ sleeps s' = rw more at h in cc)
]

-- A task that is inside is the only one.
pub only_me :
    (s : System) (me : Task) (p : Phase)
    → IsExclusive s
    → s.phase me ≡ p
    → inside p ≡ 1
    → (s.lock.semaphore.value ≡ 0)
      × FieldsOk s.lock me p
      × ((t : Task) → t ≢ me → inside (s.phase t) ≡ 0)
only_me s me p (inl (v, h, r, all)) e one = absurd (omega (arith, one, all me, ap inside e))
only_me s me p (inr (u, v, f, others)) e one = elim (Bool-cases (me == u)) [
  | inl same ↦
      let me≡u : me ≡ u = (==_iff me u).0 same in
      (
        v,
        subst (λ (x : Phase). FieldsOk s.lock me x) e
            (subst (λ (x : Task). FieldsOk s.lock x (s.phase x)) (sym me≡u) f),
        λ t ne. others t (λ e'. ne (e' ∙ sym me≡u)),
      )
  | inr other ↦ absurd (omega (arith, one, others me (ground arith), ap inside e))
]

-- The task inside moves on, and is still inside.
pub moves_inside :
    (l : Lock) (phase : Task → Phase) (me : Task) (p : Phase)
    → l.semaphore.value ≡ 0
    → FieldsOk l me p
    → ((t : Task) → t ≢ me → inside (phase t) ≡ 0)
    → IsExclusive (record { lock = l; phase = moved phase me p })
moves_inside l phase me p v f others =
    let self : (me == me) ≡ true = ground arith in
    inr (
      me,
      v,
      (rw self f),
      λ t ne. (let other : (t == me) ≡ false = ground arith in rw other (others t ne)),
    )

pub stays_inside :
    (l : Lock) (phase : Task → Phase) (me : Task) (p : Phase)
    → phase me ≡ p
    → l.semaphore.value ≡ 0
    → FieldsOk l me p
    → ((t : Task) → t ≢ me → inside (phase t) ≡ 0)
    → IsExclusive (record { lock = l; phase = phase })
stays_inside l phase me p e v f others =
    inr (me, v, subst (λ (x : Phase). FieldsOk l me x) (sym e) f, others)

pub all_outside :
    (phase : Task → Phase) (me : Task) (p : Phase)
    → inside p ≡ 0
    → ((t : Task) → t ≢ me → inside (phase t) ≡ 0)
    → (t : Task) → inside (moved phase me p t) ≡ 0
all_outside phase me p z others t = elim (Bool-cases (t == me)) [
  | inl same ↦ rw same z
  | inr other ↦ rw other (others t (ground arith))
]
