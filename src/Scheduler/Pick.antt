-- ===== src/Scheduler/Pick.antt =====
-- Which task the loop of `schedule` of thread/thread.c chooses, and that it ends.
use magic_box.Prelude.{
  ℕ, suc, ◌<◌, ◌≤◌, ◌≡◌, ◌⊎◌, inl, inr, refl, ap, sym, subst, true, ltb, arith, Option, none, some,
  List, [], ◌∷◌, Bool-cases, ltb→lt, ltb-false,
}
use magic_box.Scheduler.{Task, Threads, in_list, pick, settle, refill, choose}

abbrev pub Among : Task → List Task → Type 0
Among t [] = ⊥
Among t (u ∷ l) = (u ≡ t) ⊎ Among t l

Among-in_list : (t : Task) (l : List Task) → Among t l → in_list t l ≡ true
unfolding in_list
Among-in_list t [] q = absurd q
Among-in_list t (u ∷ l) (inl e) = ground arith
Among-in_list t (u ∷ l) (inr q) = ground (arith, Among-in_list t l q)

-- A task of the list with the most ticks.
abbrev pub IsBest : (Task → ℕ) → List Task → Task → Type 0
IsBest ticks l t = Among t l × ((u : Task) → Among u l → ticks u ≤ ticks t)

pick-IsBest :
    (ticks : Task → ℕ) (b : Task) (l : List Task)
    → (t : Task) × (pick ticks (some b) l ≡ some t) × IsBest ticks (b ∷ l) t
unfolding pick
pick-IsBest ticks b [] = (b, refl, (inl refl, λ u q. only u q))
  where
    only : (u : Task) → (b ≡ u) ⊎ ⊥ → ticks u ≤ ticks b
    only u (inl e) = omega (arith, ap ticks e)
    only u (inr q) = absurd q
pick-IsBest ticks b (c ∷ l) = elim (Bool-cases (ltb (ticks b) (ticks c))) [
  | inl more ↦
      let (t, e, (q, best)) = pick-IsBest ticks c l in
      rw more (
        t,
        e,
        (
          inr q,
          λ u m.
              beats t u (omega (arith, ltb→lt (ticks b) (ticks c) more, best c (inl refl))) best m,
        ),
      )
  | inr less ↦
      let (t, e, (q, best)) = pick-IsBest ticks b l in
      rw less (t, e, (skip t q, λ u m. keeps t u (ltb-false (ticks b) (ticks c) less) best m))
]
  where
    beats :
        (t u : Task)
        → ticks b ≤ ticks t
        → ((v : Task) → Among v (c ∷ l) → ticks v ≤ ticks t)
        → Among u (b ∷ c ∷ l)
        → ticks u ≤ ticks t
    beats t u le best (inl e) = omega (arith, ap ticks e)
    beats t u le best (inr m) = best u m

    skip : (t : Task) → Among t (b ∷ l) → Among t (b ∷ c ∷ l)
    skip t (inl e) = inl e
    skip t (inr q) = inr (inr q)

    keeps :
        (t u : Task)
        → ticks c ≤ ticks b
        → ((v : Task) → Among v (b ∷ l) → ticks v ≤ ticks t)
        → Among u (b ∷ c ∷ l)
        → ticks u ≤ ticks t
    keeps t u le best (inl e) = best u (inl e)
    keeps t u le best (inr (inl e)) = omega (arith, ap ticks e, best b (inl refl))
    keeps t u le best (inr (inr m)) = best u (inr m)

-- The choice of the loop, in the state that it leaves: the idle task if no task is ready, else a ready
-- task with ticks left and with the most.
abbrev pub ChooseOk : Threads → Option (Task × Threads) → Type 0
ChooseOk s none = ⊥
ChooseOk s (some (t, s')) =
    (s'.ready_list ≡ s.ready_list)
    × (((s.ready_list ≡ []) × (t ≡ s.idle_thread) × (0 < s'.ticks t))
        ⊎ (IsBest s'.ticks s.ready_list t × (0 < s'.ticks t)))

-- What the search finds.
pick-ready :
    (ticks : Task → ℕ) (l : List Task)
    → ((l ≡ []) × (pick ticks none l ≡ none))
      ⊎ ((t : Task) × (pick ticks none l ≡ some t) × IsBest ticks l t)
unfolding pick
pick-ready ticks [] = inl (refl, refl)
pick-ready ticks (b ∷ l) = inr (pick-IsBest ticks b l)

-- A round on a list with a task that has ticks left, or on the empty list, settles the choice.
settled :
    (fuel : ℕ) (s : Threads)
    → ((t : Task) → Among t s.ready_list → (u : Task) × Among u s.ready_list × (0 < s.ticks u))
    → ChooseOk s (choose (suc fuel) s)
unfolding choose settle
settled fuel s some_ticks = by_pick (pick-ready s.ticks s.ready_list)
  where
    by_pick :
        ((s.ready_list ≡ []) × (pick s.ticks none s.ready_list ≡ none))
          ⊎ ((t : Task) × (pick s.ticks none s.ready_list ≡ some t) × IsBest s.ticks s.ready_list t)
        → ChooseOk s (settle (pick s.ticks none s.ready_list) s (choose fuel (refill s)))
    by_pick (inl (nil, e)) =
        subst (λ (x : Option Task). ChooseOk s (settle x s (choose fuel (refill s)))) (sym e)
          (refl, inl (nil, refl, ground arith))
    by_pick (inr (t, e, (q, best))) =
        let (u, m, pos) = some_ticks t q in
        let positive : ltb 0 (s.ticks t) ≡ true = ground (arith, best u m, pos) in
        subst (λ (x : Option Task). ChooseOk s (settle x s (choose fuel (refill s)))) (sym e)
          (rw positive (refl, inr ((q, best), omega (arith, best u m, pos))))

refill-ticks :
    (s : Threads) (t : Task)
    → in_list t s.all_list ≡ true
    → 0 < s.priority t
    → 0 < (refill s).ticks t
unfolding refill
refill-ticks s t listed pos = rw listed (omega arith)

refill-ready : (s : Threads) → (refill s).ready_list ≡ s.ready_list
unfolding refill
refill-ready s = refl

again-ChooseOk :
    (s : Threads) (r : Option (Task × Threads))
    → (refill s).idle_thread ≡ s.idle_thread
    → (refill s).ready_list ≡ s.ready_list
    → ChooseOk (refill s) r
    → ChooseOk s r
unfolding refill
again-ChooseOk s none i e ok = ok
again-ChooseOk s (some (t, s')) i e ok = ok

-- Where every ready task is among all tasks and has a priority above 0, the loop of `schedule` ends
-- after at most one refill of the ticks. It chooses the idle task if no task is ready, else a ready
-- task that has ticks left and the most of all ready tasks, by the ticks that it leaves.
pub choose-ChooseOk :
    (s : Threads)
    → ((t : Task) → Among t s.ready_list → Among t s.all_list × (0 < s.priority t))
    → ChooseOk s (choose 2 s)
unfolding choose settle refill
choose-ChooseOk s known = by_pick (pick-ready s.ticks s.ready_list)
  where
    second : ChooseOk s (choose 1 (refill s))
    second = again-ChooseOk s (choose 1 (refill s)) refl (refill-ready s) (
        settled 0 (refill s) (λ t q.
          let (listed, pos) = known t q in
          (t, q, refill-ticks s t (Among-in_list t s.all_list listed) pos)))

    by_pick :
        ((s.ready_list ≡ []) × (pick s.ticks none s.ready_list ≡ none))
          ⊎ ((t : Task) × (pick s.ticks none s.ready_list ≡ some t) × IsBest s.ticks s.ready_list t)
        → ChooseOk s (settle (pick s.ticks none s.ready_list) s (choose 1 (refill s)))
    by_pick (inl (nil, e)) =
        subst (λ (x : Option Task). ChooseOk s (settle x s (choose 1 (refill s)))) (sym e)
          (refl, inl (nil, refl, ground arith))
    by_pick (inr (t, e, (q, best))) =
        subst (λ (x : Option Task). ChooseOk s (settle x s (choose 1 (refill s)))) (sym e)
          (elim (Bool-cases (ltb 0 (s.ticks t))) [
            | inl pos ↦ rw pos (refl, inr ((q, best), ltb→lt 0 (s.ticks t) pos))
            | inr spent ↦ rw spent second
          ])
