-- ===== src/Vma/Sorted.antt =====
-- Lists of areas in order: each area is not empty and ends where the next begins, or before.
use magic_box.Prelude.{
  ℕ, ◌<◌, ◌≤◌, ◌≡◌, ◌⊎◌, inl, inr, refl, subst, true, false, ltb, arith, List, [], ◌∷◌, Bool-cases,
  ltb-false, ltb→lt,
}
use magic_box.Vma.{Vma, rev_onto, find_place}

abbrev pub Among : Vma → List Vma → Type 0
Among v [] = ⊥
Among v (w ∷ l) = (w ≡ v) ⊎ Among v l

abbrev pub IsSorted : List Vma → Type 0
IsSorted [] = Unit
IsSorted (v ∷ l) =
    (v.vma_start < v.vma_end) × ((w : Vma) → Among w l → v.vma_end ≤ w.vma_start) × IsSorted l

-- The areas from a place on.
pub suffix-IsSorted : (passed l : List Vma) → IsSorted (rev_onto passed l) → IsSorted l
unfolding rev_onto
suffix-IsSorted [] l s = s
suffix-IsSorted (v ∷ passed) l s = (suffix-IsSorted passed (v ∷ l) s).2

-- Each area before a place is in order with each area from it on.
pub passed_before :
    (passed l : List Vma)
    → IsSorted (rev_onto passed l)
    → (v w : Vma) → Among v passed
    → Among w l
    → v.vma_end ≤ w.vma_start
unfolding rev_onto
passed_before [] l s v w p q = absurd p
passed_before (u ∷ passed) l s v w (inl e) q =
    subst (λ (x : Vma). x.vma_end ≤ w.vma_start) e ((suffix-IsSorted passed (u ∷ l) s).1 w q)
passed_before (u ∷ passed) l s v w (inr p) q = passed_before passed (u ∷ l) s v w p (inr q)

-- Other areas in place of those from a place on.
pub replaced-IsSorted :
    (passed l l' : List Vma)
    → IsSorted (rev_onto passed l)
    → IsSorted l'
    → ((v w : Vma) → Among v passed → Among w l' → v.vma_end ≤ w.vma_start)
    → IsSorted (rev_onto passed l')
unfolding rev_onto
replaced-IsSorted [] l l' s s' before = s'
replaced-IsSorted (u ∷ passed) l l' s s' before =
    replaced-IsSorted passed (u ∷ l) (u ∷ l') s
      ((suffix-IsSorted passed (u ∷ l) s).0, (λ w q. before u w (inl refl) q), s') still
  where
    still : (v w : Vma) → Among v passed → Among w (u ∷ l') → v.vma_end ≤ w.vma_start
    still v w p (inl e) =
        subst (λ (x : Vma). v.vma_end ≤ x.vma_start) e
          (passed_before passed (u ∷ l) s v u p (inl refl))
    still v w p (inr q) = before v w (inr p) q

pub Among-nonempty : (l : List Vma) → IsSorted l → (w : Vma) → Among w l → w.vma_start < w.vma_end
Among-nonempty [] s w q = absurd q
Among-nonempty (v ∷ l) s w (inl e) = subst (λ (x : Vma). x.vma_start < x.vma_end) e s.0
Among-nonempty (v ∷ l) s w (inr q) = Among-nonempty l s.2 w q

-- The place that the traversal finds.
pub record IsPlace (start : ℕ) (passed l whole : List Vma) : Type 0 where
  pub parts : rev_onto passed l ≡ whole
  pub before : (v : Vma) → Among v passed → v.vma_start ≤ start
  pub behind : (w : Vma) → Among w l → start < w.vma_start

pub find_place-IsPlace :
    (start : ℕ) (passed l whole : List Vma)
    → rev_onto passed l ≡ whole
    → IsSorted (rev_onto passed l)
    → ((v : Vma) → Among v passed → v.vma_start ≤ start)
    → IsPlace start (find_place start passed l).0 (find_place start passed l).1 whole
unfolding find_place rev_onto
find_place-IsPlace start passed [] whole e s before = record {
  parts = e;
  before = before;
  behind = λ w q. absurd q;
}
find_place-IsPlace start passed (v ∷ l) whole e s before =
    elim (Bool-cases (ltb start v.vma_start)) [
      | inl stop ↦ rw stop (record { parts = e; before = before; behind = all_behind stop })
      | inr go ↦ rw go (find_place-IsPlace start (v ∷ passed) l whole e s (further go))
    ]
  where
    all_behind : ltb start v.vma_start ≡ true → (w : Vma) → Among w (v ∷ l) → start < w.vma_start
    all_behind stop w (inl e) =
        subst (λ (x : Vma). start < x.vma_start) e (ltb→lt start v.vma_start stop)
    all_behind stop w (inr q) =
        let ordered = suffix-IsSorted passed (v ∷ l) s in
        omega (arith, ltb→lt start v.vma_start stop, ordered.0, ordered.1 w q)

    further : ltb start v.vma_start ≡ false → (u : Vma) → Among u (v ∷ passed) → u.vma_start ≤ start
    further go u (inl e) =
        let le : v.vma_start ≤ start = ltb-false start v.vma_start go in
        subst (λ (x : Vma). x.vma_start ≤ start) e le
    further go u (inr p) = before u p
