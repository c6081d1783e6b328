-- ===== src/Vma/GapReverse.antt =====
-- `vma_find_gap_reverse` of mm/vma.c.
use mathlib.Core.List.{append-nil}
use magic_box.Prelude.{
  ℕ, ◌+◌, ◌-◌, ◌*◌, ◌%◌, ◌^◌, ◌<◌, ◌≤◌, ◌≡◌, ◌⊎◌, inl, inr, refl, sym, subst, ◌∙◌, false, ltb, leb,
  ◌&&◌, if◌then◌else◌, arith, List, [], ◌∷◌, ◌++◌, Bool-cases,
}
use magic_box.Vma.{
  Vma, rev_onto, user_vaddr_start, user_mmap_search_top, gap_reverse_loop, vma_find_gap_reverse,
}
use magic_box.Vma.Sorted.{Among, IsSorted, suffix-IsSorted, passed_before}
use magic_box.Vma.Gap.{IsClear, GapOk, IsClear-cons}

abbrev before : Vma → ℕ → ℕ
before v search_end = if ltb v.vma_start search_end then v.vma_start else search_end

step-GapOk :
    (v : Vma) (l : List Vma) (size end r : ℕ)
    → 0 < size
    → (ltb v.vma_end end && leb size (end - v.vma_end)) ≡ false
    → GapOk user_vaddr_start (before v end) size l r
    → GapOk user_vaddr_start end size (v ∷ l) r
step-GapOk v l size end r pos small (inl (e, no_room)) =
    inl (e, λ a low high clear. decide a low high (clear v (inl refl)) (λ w q. clear w (inr q)))
  where
    decide :
        (a : ℕ)
        → user_vaddr_start ≤ a
        → a + size ≤ end
        → (v.vma_end ≤ a) ⊎ (a + size ≤ v.vma_start)
        → IsClear l a size
        → ⊥
    decide a low high (inl below) clear = ground arith
    decide a low high (inr behind) clear = no_room a low (ground arith) clear
step-GapOk v l size end r pos small (inr (low, high, clear)) =
    inr (low, ground arith, IsClear-cons v l r size (inr (ground arith)) clear)

-- `l` are the areas still to visit, from the last on, and `visited` those behind them.
gap_reverse_loop-GapOk :
    (size end : ℕ) (l visited : List Vma)
    → IsSorted (rev_onto l visited)
    → ((v : Vma) → Among v l → user_vaddr_start ≤ v.vma_start)
    → 0 < size
    → GapOk user_vaddr_start end size l (gap_reverse_loop size end l)
unfolding gap_reverse_loop rev_onto
gap_reverse_loop-GapOk size end [] visited s above pos =
    elim (Bool-cases (ltb user_vaddr_start end && leb size (end - user_vaddr_start))) [
      | inl fits ↦ rw fits (inr (ground arith, ground arith, λ v q. absurd q))
      | inr full ↦ rw full (inl (refl, λ a low high clear. ground arith))
    ]
gap_reverse_loop-GapOk size end (v ∷ l) visited s above pos =
    elim (Bool-cases (ltb v.vma_end end && leb size (end - v.vma_end))) [
      | inl gap ↦
          let nonempty = (suffix-IsSorted l (v ∷ visited) s).0 in
          let room : v.vma_end ≤ end - size = ground arith in
          rw gap (
            inr (
              omega (arith, above v (inl refl)),
              ground arith,
              IsClear-cons v l (end - size) size (inl room)
                  (λ u q. inl (omega (arith, passed_before l (v ∷ visited) s u v q (inl refl)))),
            ))
      | inr none_here ↦ rw none_here (
          step-GapOk v l size end _ pos none_here (
            gap_reverse_loop-GapOk size (before v end) l (v ∷ visited) s (λ w q. above w (inr q))
              pos))
    ]

rev_onto-rev_onto : (p l m : List Vma) → rev_onto (rev_onto p l) m ≡ rev_onto l (p ++ m)
unfolding rev_onto
rev_onto-rev_onto [] l m = refl
rev_onto-rev_onto (v ∷ p) l m = rev_onto-rev_onto p (v ∷ l) m

twice_reversed : (l : List Vma) → rev_onto (rev_onto l []) [] ≡ l
unfolding rev_onto
twice_reversed l = rev_onto-rev_onto l [] [] ∙ append-nil l

-- The areas of a list, however it is turned.
rev_onto-Among : (p l : List Vma) (v : Vma) → Among v (rev_onto p l) → Among v p ⊎ Among v l
unfolding rev_onto
rev_onto-Among [] l v q = inr q
rev_onto-Among (u ∷ p) l v q = shift (rev_onto-Among p (u ∷ l) v q)
  where
    shift : Among v p ⊎ Among v (u ∷ l) → Among v (u ∷ p) ⊎ Among v l
    shift (inl a) = inl (inr a)
    shift (inr (inl e)) = inl (inl e)
    shift (inr (inr a)) = inr a

Among-reversed : (l : List Vma) (v : Vma) → Among v (rev_onto l []) → Among v l
Among-reversed l v q = only (rev_onto-Among l [] v q)
  where
    only : Among v l ⊎ ⊥ → Among v l
    only (inl a) = a
    only (inr a) = absurd a

turned :
    (low high size r : ℕ) (l : List Vma)
    → GapOk low high size (rev_onto l []) r
    → GapOk low high size l r
turned low high size r l (inl (e, no_room)) =
    inl (e, λ a p q clear. no_room a p q (λ v m. clear v (Among-reversed l v m)))
turned low high size r l (inr (p, q, clear)) = inr (p, q, λ v m. clear v (back v m))
  where
    back : (v : Vma) → Among v l → Among v (rev_onto l [])
    back v m = Among-reversed (rev_onto l []) v (subst (Among v) (sym (twice_reversed l)) m)

-- For a sorted list of areas from `USER_VADDR_START` on, and a request of at least one page that does
-- not wrap to 0 bytes, `vma_find_gap_reverse` returns the start of a range of the wanted size that
-- begins at `USER_VADDR_START` or above, ends below the stack and meets no area; it returns 0 only if
-- there is no such range.
pub vma_find_gap_reverse-GapOk :
    (l : List Vma) (pg_cnt : ℕ)
    → IsSorted l
    → ((w : Vma) → Among w l → user_vaddr_start ≤ w.vma_start)
    → 0 < pg_cnt * 4096 % 2 ^ 32
    → GapOk user_vaddr_start user_mmap_search_top
        (pg_cnt * 4096 % 2 ^ 32)
        l
        (vma_find_gap_reverse l pg_cnt)
unfolding vma_find_gap_reverse
vma_find_gap_reverse-GapOk l pg_cnt s above pos =
    elim (Bool-cases (ltb (user_mmap_search_top - user_vaddr_start) (pg_cnt * 4096 % 2 ^ 32))) [
      | inl too_large ↦ rw too_large (inl (refl, λ a low high clear. ground arith))
      | inr fits ↦ rw fits (
          turned user_vaddr_start user_mmap_search_top (pg_cnt * 4096 % 2 ^ 32) _ l (
            gap_reverse_loop-GapOk (pg_cnt * 4096 % 2 ^ 32) user_mmap_search_top (rev_onto l []) []
              (subst IsSorted (sym (twice_reversed l)) s) (λ w q. above w (Among-reversed l w q))
              pos))
    ]
