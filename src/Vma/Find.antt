-- ===== src/Vma/Find.antt =====
-- `find_vma` of mm/vma.c.
use magic_box.Prelude.{
  ℕ, ◌<◌, ◌≤◌, ◌≡◌, inl, inr, refl, sym, subst, Bool, true, false, ltb, leb, ◌&&◌, arith, Option,
  none, some, List, [], ◌∷◌, Bool-cases,
}
use magic_box.Vma.{Vma, vma_contains_address, find_vma}
use magic_box.Vma.Sorted.{Among, IsSorted}

abbrev pub FindOk : List Vma → ℕ → Option Vma → Type 0
FindOk l vaddr none = (w : Vma) → Among w l → vma_contains_address w vaddr ≡ false
FindOk l vaddr (some v) =
    Among v l
    × (v.vma_start ≤ vaddr)
    × (vaddr < v.vma_end)
    × ((w : Vma) → Among w l → vma_contains_address w vaddr ≡ true → w ≡ v)

-- In a sorted list `find_vma` finds the only area that contains the address, and NULL only if no
-- area does.
pub find_vma-FindOk : (l : List Vma) (vaddr : ℕ) → IsSorted l → FindOk l vaddr (find_vma l vaddr)
unfolding find_vma vma_contains_address
find_vma-FindOk [] vaddr s = λ w q. absurd q
find_vma-FindOk (v ∷ l) vaddr s = elim (Bool-cases (leb v.vma_start vaddr && ltb vaddr v.vma_end)) [
  | inl here ↦ rw here (inl refl, ground arith, ground arith, only here)
  | inr elsewhere ↦ rw elsewhere (later elsewhere (find_vma l vaddr) (find_vma-FindOk l vaddr s.2))
]
  where
    only :
        (leb v.vma_start vaddr && ltb vaddr v.vma_end) ≡ true
        → (w : Vma) → Among w (v ∷ l)
        → (leb w.vma_start vaddr && ltb vaddr w.vma_end) ≡ true
        → w ≡ v
    only here w (inl e) h = sym e
    only here w (inr q) h = absurd (ground (arith, s.1 w q))

    later :
        (leb v.vma_start vaddr && ltb vaddr v.vma_end) ≡ false
        → (r : Option Vma) → FindOk l vaddr r
        → FindOk (v ∷ l) vaddr r
    later not_v none ok = λ w q. each w q
      where
        each : (w : Vma) → Among w (v ∷ l) → (leb w.vma_start vaddr && ltb vaddr w.vma_end) ≡ false
        each w (inl e) =
            subst (λ (x : Vma). (leb x.vma_start vaddr && ltb vaddr x.vma_end) ≡ false) e not_v
        each w (inr q) = ok w q
    later not_v (some u) ok = (inr ok.0, ok.1, ok.2, λ w q. each w q)
      where
        each :
            (w : Vma)
            → Among w (v ∷ l)
            → (leb w.vma_start vaddr && ltb vaddr w.vma_end) ≡ true
            → w ≡ u
        each w (inl e) h = absurd (
            clash
              (subst (λ (x : Vma). (leb x.vma_start vaddr && ltb vaddr x.vma_end) ≡ false) e not_v)
              h)
          where
            clash : {c : Bool} → c ≡ false → c ≡ true → ⊥
            clash p q = cc
        each w (inr q) h = ok.3 w q h
