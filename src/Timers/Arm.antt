-- ===== src/Timers/Arm.antt =====
-- `sys_alarm` of device/timer.c keeps the list of alarms in order.
use magic_box.Prelude.{
  ℕ, ◌+◌, ◌-◌, ◌*◌, ◌/◌, ◌%◌, ◌^◌, ◌<◌, ◌≡◌, ◌≢◌, refl, ap, ◌∙◌, true, false, ltb, ◌==◌, ◌||◌,
  if◌then◌else◌, arith, List, [], ◌∷◌, Bool-cases, inl, inr, Option, some, ==_iff, subst,
}
use magic_box.Scheduler.{Task, update, in_list}
use magic_box.Timers.{
  Timers, insert_ascend, list_insert_ascend, without_task, sys_alarm, irq0_frequency,
}
use magic_box.Timers.Ascends.{
  Ascends, Ascends-ext, in_list-insert, insert_ascend-Ascends, in_list-head, in_list-ne, not_member,
}

-- What is in a list without a task was in the list.
member_before :
    (u t : Task) (l : List Task) → in_list u (without_task t l) ≡ true → in_list u l ≡ true
unfolding without_task in_list
member_before u t [] e = e
member_before u t (x ∷ l) e = ground (arith, member_before u t l)

absent_after :
    (t x : Task) (l : List Task) → in_list x l ≡ false → in_list x (without_task t l) ≡ false
absent_after t x l absent = elim (Bool-cases (in_list x (without_task t l))) [
  | inl e ↦ absurd (ground (arith, member_before x t l e, absent))
  | inr e ↦ e
]

without_task-Ascends :
    (time : Task → ℕ) (t : Task) (l : List Task) → Ascends time l → Ascends time (without_task t l)
unfolding without_task
without_task-Ascends time t [] a = a
without_task-Ascends time t (x ∷ l) (pos, once, least, rest) = elim (Bool-cases (x == t)) [
  | inl e ↦ rw e rest
  | inr e ↦ rw e (
    pos,
    absent_after t x l once,
    (λ u m. least u (member_before u t l m)),
    without_task-Ascends time t l rest,
  )
]

gone :
    (time : Task → ℕ) (t : Task) (l : List Task)
    → Ascends time l
    → in_list t (without_task t l) ≡ false
unfolding without_task in_list
gone time t [] a = refl
gone time t (x ∷ l) (pos, once, least, rest) = elim (Bool-cases (x == t)) [
  | inl e ↦ rw e (subst (λ y. in_list y l ≡ false) ((==_iff x t).0 e) once)
  | inr e ↦ rw (e, e) (gone time t l rest)
]

-- The list of alarms without the caller, with the caller's new time.
rearmed :
    (alarm : Task → ℕ) (cur : Task) (time : ℕ) (l : List Task)
    → Ascends alarm l
    → Ascends (update alarm cur time) (without_task cur l)
rearmed alarm cur time l a =
    Ascends-ext alarm (update alarm cur time) (without_task cur l)
      (λ u m.
        let ne : u ≢ cur = not_member u cur (without_task cur l) m (gone alarm cur l a) in
        let other : (u == cur) ≡ false = ground (arith, ne) in rw other refl)
      (without_task-Ascends alarm cur l a)

-- What `sys_alarm` leaves: the seconds that were left of the old alarm, the new one in its place, and
-- the list of alarms in order, with the caller on it exactly if it set an alarm.
abbrev pub AlarmOk : Task → ℕ → Timers → Option (ℕ × Timers) → Type 0
AlarmOk cur seconds s o =
    (s' : Timers) × (o ≡ some ((s.alarm cur - s.ticks) / irq0_frequency, s'))
    × Ascends s'.alarm s'.alarm_list
    × (in_list cur s'.alarm_list ≡ ltb 0 seconds)
    × ((u : Task)
        → u ≢ cur
        → (s'.alarm u ≡ s.alarm u) × (in_list u s'.alarm_list ≡ in_list u s.alarm_list))

kept_on : (u t : Task) (l : List Task) → u ≢ t → in_list u (without_task t l) ≡ in_list u l
unfolding without_task in_list
kept_on u t [] ne = refl
kept_on u t (x ∷ l) ne = elim (Bool-cases (x == t)) [
  | inl e ↦ let other : (x == u) ≡ false = ground (arith, e, ne) in rw (e, other) refl
  | inr e ↦ rw e (ap (λ b. (x == u) || b) (kept_on u t l ne))
]

-- Where the list of alarms rises in its times, and the sum that gives the new time is not 0 on 32
-- bits, `sys_alarm` returns the whole seconds that were left of the old alarm and does not fail. It
-- leaves the list in order, with the caller on it exactly if the seconds are not 0, and the alarm of
-- every other task as it was.
pub sys_alarm-AlarmOk :
    (cur : Task) (seconds : ℕ) (s : Timers)
    → Ascends s.alarm s.alarm_list
    → 0 < (s.ticks + seconds * irq0_frequency) % 2 ^ 32
    → AlarmOk cur seconds s (sys_alarm cur seconds s)
unfolding sys_alarm list_insert_ascend
sys_alarm-AlarmOk cur seconds s a later = elim (Bool-cases (ltb 0 seconds)) [
  | inl sets ↦
      let time = (s.ticks + seconds * irq0_frequency) % 2 ^ 32 in
      let l = without_task cur s.alarm_list in
      let absent = gone s.alarm cur s.alarm_list a in
      let alarm = update s.alarm cur time in
      let self : (cur == cur) ≡ true = ground arith in
      let pos : 0 < alarm cur = rw self later in
      rw (sets, absent)
        (
          record s { alarm = alarm; alarm_list = insert_ascend alarm cur l },
          ap (λ n. some (n, record s { alarm = alarm; alarm_list = insert_ascend alarm cur l }))
              left,
          insert_ascend-Ascends alarm cur l pos absent (rearmed s.alarm cur time s.alarm_list a),
          in_list-insert alarm cur cur l ∙ in_list-head cur l,
          (λ u ne. (
            others time u ne,
            in_list-insert alarm u cur l ∙ in_list-ne u cur l ne ∙ kept_on u cur s.alarm_list ne,
          )),
        )
  | inr clears ↦ rw clears (
    record s { alarm = update s.alarm cur 0; alarm_list = without_task cur s.alarm_list },
    ap
        (λ n. some (
          n,
          record s { alarm = update s.alarm cur 0; alarm_list = without_task cur s.alarm_list },
        ))
        left,
    rearmed s.alarm cur 0 s.alarm_list a,
    gone s.alarm cur s.alarm_list a,
    (λ u ne. (others 0 u ne, kept_on u cur s.alarm_list ne)),
  )
]
  where
    left :
        (if ltb s.ticks (s.alarm cur) then (s.alarm cur - s.ticks) / irq0_frequency else 0)
        ≡ (s.alarm cur - s.ticks) / irq0_frequency
    left = ground arith

    others : (time : ℕ) (u : Task) → u ≢ cur → update s.alarm cur time u ≡ s.alarm u
    others time u ne = let other : (u == cur) ≡ false = ground (arith, ne) in rw other refl
