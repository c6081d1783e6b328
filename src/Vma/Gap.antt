-- ===== src/Vma/Gap.antt =====
-- `vma_find_gap` and `vma_find_gap_reverse` of mm/vma.c.
use magic_box.Prelude.{
  ℕ, ◌+◌, ◌-◌, ◌*◌, ◌%◌, ◌^◌, ◌<◌, ◌≤◌, ◌≡◌, ◌⊎◌, inl, inr, refl, subst, false, ltb, leb, ◌&&◌,
  if◌then◌else◌, arith, List, [], ◌∷◌, ◌++◌, Bool-cases, true,
}
use magic_box.Vma.{Vma, sub32, user_vaddr_start, user_mmap_search_top, gap_loop, vma_find_gap}
use magic_box.Vma.Sorted.{Among, IsSorted}

-- No area of the list meets the `size` bytes from `a` on.
abbrev pub IsClear : List Vma → (a size : ℕ) → Type 0
IsClear l a size = (v : Vma) → Among v l → (v.vma_end ≤ a) ⊎ (a + size ≤ v.vma_start)

-- A gap of the size between two limits, or 0 where there is none.
abbrev pub GapOk : (low high size : ℕ) → List Vma → ℕ → Type 0
GapOk low high size l r =
    ((r ≡ 0) × ((a : ℕ) → low ≤ a → a + size ≤ high → ¬ IsClear l a size))
    ⊎ ((low ≤ r) × (r + size ≤ high) × IsClear l r size)

-- One area more, on either side of the range.
pub IsClear-cons :
    (v : Vma) (l : List Vma) (a size : ℕ)
    → (v.vma_end ≤ a) ⊎ (a + size ≤ v.vma_start)
    → IsClear l a size
    → IsClear (v ∷ l) a size
IsClear-cons v l a size h clear w (inl e) =
    subst (λ (x : Vma). (x.vma_end ≤ a) ⊎ (a + size ≤ x.vma_start)) e h
IsClear-cons v l a size h clear w (inr q) = clear w q

-- The areas behind one that begins behind the range.
pub IsClear-front :
    (v : Vma) (l : List Vma) (a size : ℕ)
    → IsSorted (v ∷ l)
    → a + size ≤ v.vma_start
    → IsClear (v ∷ l) a size
IsClear-front v l a size s h =
    IsClear-cons v l a size (inr h) (λ w q. inr (omega (arith, s.0, s.1 w q)))

abbrev pub past : Vma → ℕ → ℕ
past v search_ptr = if ltb search_ptr v.vma_end then v.vma_end else search_ptr

-- No range of the size between two limits is clear.
abbrev pub NoGap : (low high size : ℕ) → List Vma → Type 0
NoGap low high size l = (a : ℕ) → low ≤ a → a + size ≤ high → ¬ IsClear l a size

-- A round of the loop that goes on.
NoGap-step :
    (v : Vma) (l : List Vma) (size ptr high : ℕ)
    → 0 < size
    → (ltb ptr v.vma_start && leb size (v.vma_start - ptr)) ≡ false
    → NoGap (past v ptr) high size l
    → NoGap ptr high size (v ∷ l)
NoGap-step v l size ptr high pos small no_room a low le clear =
    decide (clear v (inl refl)) (λ w q. clear w (inr q))
  where
    decide : (v.vma_end ≤ a) ⊎ (a + size ≤ v.vma_start) → IsClear l a size → ⊥
    decide (inl before) clear' = no_room a (ground arith) le clear'
    decide (inr behind) clear' = ground arith

pub Among-last : (l : List Vma) (v : Vma) → Among v (l ++ (v ∷ []))
Among-last [] v = inl refl
Among-last (w ∷ l) v = inr (Among-last l v)

-- What `vma_find_gap` gives in front of a stack: the start of a clear range below it or, where there is
-- none, 0 or the end of the stack.
abbrev pub GapBelow : (low size : ℕ) → List Vma → (stack : Vma) → ℕ → Type 0
GapBelow low size l stack r =
    (((r ≡ 0) ⊎ (r ≡ stack.vma_end)) × NoGap low user_mmap_search_top size l)
    ⊎ ((low ≤ r) × (r + size ≤ user_mmap_search_top) × IsClear l r size)

module _ (stack : Vma) (size : ℕ) (bottom : stack.vma_start ≡ user_mmap_search_top)
    (nonempty : stack.vma_start < stack.vma_end) (pos : 0 < size) where
  below_stack : (ptr : ℕ) → ptr + size ≤ stack.vma_start → IsClear (stack ∷ []) ptr size
  below_stack ptr room w (inl e) =
      subst (λ (x : Vma). (x.vma_end ≤ ptr) ⊎ (ptr + size ≤ x.vma_start)) e (inr room)
  below_stack ptr room w (inr q) = absurd q

  gap_loop-GapBelow :
      (l : List Vma) (ptr : ℕ)
      → IsSorted (l ++ (stack ∷ []))
      → ptr ≤ stack.vma_start
      → GapBelow ptr size (l ++ (stack ∷ [])) stack (gap_loop size ptr (l ++ (stack ∷ [])))
  unfolding gap_loop
  gap_loop-GapBelow [] ptr s le =
      elim (Bool-cases (ltb ptr stack.vma_start && leb size (stack.vma_start - ptr))) [
        | inl gap ↦
            let room : ptr + size ≤ stack.vma_start = ground arith in
            rw gap (inr (omega arith, omega (arith, bottom), below_stack ptr room))
        | inr none_here ↦
            let behind : ltb ptr stack.vma_end ≡ true = ground (arith, nonempty) in
            let none_at_all : NoGap ptr user_mmap_search_top size (stack ∷ []) =
              NoGap-step stack [] size ptr user_mmap_search_top pos none_here
                (λ a low high clear. ground (arith, bottom, nonempty)) in
            rw (none_here, behind)
              (elim (Bool-cases (leb size (sub32 user_mmap_search_top stack.vma_end))) [
                | inl wraps ↦ rw wraps (inl (inr refl, none_at_all))
                | inr large ↦ rw large (inl (inl refl, none_at_all))
              ])
      ]
  gap_loop-GapBelow (v ∷ l) ptr s le =
      elim (Bool-cases (ltb ptr v.vma_start && leb size (v.vma_start - ptr))) [
        | inl gap ↦
            let room : ptr + size ≤ v.vma_start = ground arith in
            let below = s.1 stack (Among-last l stack) in
            rw gap (
              inr (
                omega arith,
                omega (arith, below, s.0, bottom),
                IsClear-front v (l ++ (stack ∷ [])) ptr size s room,
              ))
        | inr none_here ↦ rw none_here (
            step none_here (gap_loop size (past v ptr) (l ++ (stack ∷ []))) (
              gap_loop-GapBelow l (past v ptr) s.2
                (ground (arith, s.1 stack (Among-last l stack)))))
      ]
    where
      step :
          (ltb ptr v.vma_start && leb size (v.vma_start - ptr)) ≡ false
          → (r : ℕ) → GapBelow (past v ptr) size (l ++ (stack ∷ [])) stack r
          → GapBelow ptr size (v ∷ (l ++ (stack ∷ []))) stack r
      step small r (inl (e, no_room)) =
          inl (e, NoGap-step v (l ++ (stack ∷ [])) size ptr user_mmap_search_top pos small no_room)
      step small r (inr (low, high, clear)) =
          inr (
            ground arith,
            high,
            IsClear-cons v (l ++ (stack ∷ [])) r size (inl (ground arith)) clear,
          )

-- For a sorted list whose last area is the stack, which begins at the limit of the search, as every user
-- process has it, and a request of at least one page that does not wrap to 0 bytes, `vma_find_gap`
-- returns the start of a range of the wanted size that begins at `USER_VADDR_START` or above, ends
-- below the stack and meets no area, whenever there is such a range. Only if there is none it returns
-- 0 or the end of the stack.
pub vma_find_gap-GapBelow :
    (l : List Vma) (stack : Vma) (pg_cnt : ℕ)
    → IsSorted (l ++ (stack ∷ []))
    → stack.vma_start ≡ user_mmap_search_top
    → stack.vma_start < stack.vma_end
    → 0 < pg_cnt * 4096 % 2 ^ 32
    → GapBelow user_vaddr_start
        (pg_cnt * 4096 % 2 ^ 32)
        (l ++ (stack ∷ []))
        stack
        (vma_find_gap (l ++ (stack ∷ [])) pg_cnt)
unfolding vma_find_gap
vma_find_gap-GapBelow [] stack pg_cnt s bottom nonempty pos =
    gap_loop-GapBelow stack (pg_cnt * 4096 % 2 ^ 32) bottom nonempty pos [] user_vaddr_start s
      (omega (arith, bottom))
vma_find_gap-GapBelow (v ∷ l) stack pg_cnt s bottom nonempty pos =
    gap_loop-GapBelow stack (pg_cnt * 4096 % 2 ^ 32) bottom nonempty pos (v ∷ l) user_vaddr_start s
      (omega (arith, bottom))
