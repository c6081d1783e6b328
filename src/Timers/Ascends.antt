-- ===== src/Timers/Ascends.antt =====
-- Lists of sleeping tasks in the order of their times, as device/timer.c keeps them.
use magic_box.Prelude.{
  ℕ, ◌≤◌, ◌<◌, ◌≡◌, ◌≢◌, refl, ap, sym, ◌∙◌, true, false, ltb, ◌==◌, arith, List, [], ◌∷◌,
  Bool-cases, inl, inr, ◌⊎◌, ==_iff,
}
use magic_box.Scheduler.{Task, in_list}
use magic_box.Timers.{insert_ascend}

-- The times rise and are not 0, and no task is there twice.
abbrev pub Ascends : (Task → ℕ) → List Task → Type 0
Ascends time [] = Unit
Ascends time (t ∷ l) =
    (0 < time t)
    × (in_list t l ≡ false)
    × ((u : Task) → in_list u l ≡ true → time t ≤ time u)
    × Ascends time l

pub in_list-tail : (u t : Task) (l : List Task) → in_list u l ≡ true → in_list u (t ∷ l) ≡ true
unfolding in_list
in_list-tail u t l e = ground (arith, e)

pub in_list-head : (t : Task) (l : List Task) → in_list t (t ∷ l) ≡ true
unfolding in_list
in_list-head t l = ground arith

pub in_list-ne : (u t : Task) (l : List Task) → u ≢ t → in_list u (t ∷ l) ≡ in_list u l
unfolding in_list
in_list-ne u t l ne = let other : (t == u) ≡ false = ground (arith, ne) in rw other refl

pub in_list-cases :
    (u t : Task) (l : List Task) → in_list u (t ∷ l) ≡ true → (u ≡ t) ⊎ (in_list u l ≡ true)
unfolding in_list
in_list-cases u t l e = elim (Bool-cases (t == u)) [
  | inl same ↦ inl (sym ((==_iff t u).0 same))
  | inr other ↦ inr (sym (rw other refl) ∙ e)
]

-- A member of a list without a task is not that task.
pub not_member : (u t : Task) (l : List Task) → in_list u l ≡ true → in_list t l ≡ false → u ≢ t
not_member u t l e ne same = ground (arith, sym e ∙ ap (λ x. in_list x l) same ∙ ne)

no_member : (u : Task) → in_list u [] ≡ true → ⊥
unfolding in_list
no_member u e = ground (arith, e)

not_head : (x t : Task) (l : List Task) → in_list t (x ∷ l) ≡ false → x ≢ t
not_head x t l new same =
    ground (arith, sym (in_list-head x l) ∙ ap (λ y. in_list y (x ∷ l)) same ∙ new)

pub Ascends-ext :
    (time time' : Task → ℕ) (l : List Task)
    → ((u : Task) → in_list u l ≡ true → time' u ≡ time u)
    → Ascends time l
    → Ascends time' l
Ascends-ext time time' [] same a = tt
Ascends-ext time time' (t ∷ l) same (pos, once, least, rest) = (
  omega (arith, pos, same t (in_list-head t l)),
  once,
  (λ u e. omega (arith, least u e, same t (in_list-head t l), same u (in_list-tail u t l e))),
  Ascends-ext time time' l (λ u e. same u (in_list-tail u t l e)) rest,
)

pub in_list-insert :
    (time : Task → ℕ) (u t : Task) (l : List Task)
    → in_list u (insert_ascend time t l) ≡ in_list u (t ∷ l)
unfolding insert_ascend in_list
in_list-insert time u t [] = refl
in_list-insert time u t (x ∷ l) = elim (Bool-cases (ltb (time t) (time x))) [
  | inl e ↦ rw e refl
  | inr e ↦ rw e (ground (arith, in_list-insert time u t l))
]

-- `list_insert_ascend` keeps the order.
pub insert_ascend-Ascends :
    (time : Task → ℕ) (t : Task) (l : List Task)
    → 0 < time t
    → in_list t l ≡ false
    → Ascends time l
    → Ascends time (insert_ascend time t l)
unfolding insert_ascend
insert_ascend-Ascends time t [] pos new a = (pos, new, (λ u e. absurd (no_member u e)), tt)
insert_ascend-Ascends time t (x ∷ l) pos new (pos', once, least, rest) =
    let other : x ≢ t = not_head x t l new in
    let new' : in_list t l ≡ false = sym (in_list-ne t x l (λ e. other (sym e))) ∙ new in
    elim (Bool-cases (ltb (time t) (time x))) [
      | inl e ↦ rw e (
        pos,
        new,
        (λ u m. elim (in_list-cases u x l m) [
          | inl same ↦ ground (arith, e, ap time same)
          | inr member ↦ ground (arith, e, least u member)
        ]),
        (pos', once, least, rest),
      )
      | inr e ↦ rw e (
        pos',
        in_list-insert time x t l ∙ in_list-ne x t l other ∙ once,
        (λ u m. elim (in_list-cases u t l (sym (in_list-insert time u t l) ∙ m)) [
          | inl same ↦ ground (arith, e, ap time same)
          | inr member ↦ least u member
        ]),
        insert_ascend-Ascends time t l pos new' rest,
      )
    ]
