-- ===== src/Vma/AboveStack.antt =====
-- `vma_find_gap` of mm/vma.c on a full address space with a stack: the last subtraction wraps.
use magic_box.Prelude.{
  ℕ, ◌+◌, ◌-◌, ◌*◌, ◌%◌, ◌^◌, ◌<◌, ◌≤◌, ◌≡◌, inl, inr, ltb, leb, ◌&&◌, arith, List, [], ◌∷◌, ◌++◌,
  Bool-cases,
}
use magic_box.Vma.{Vma, sub32, user_vaddr_start, user_mmap_search_top, gap_loop, vma_find_gap}
use magic_box.Vma.Sorted.{Among, IsSorted}
use magic_box.Vma.Gap.{IsClear, IsClear-cons, Among-last, past}

Among-append : (l m : List Vma) (v : Vma) → Among v l → Among v (l ++ m)
Among-append [] m v q = absurd q
Among-append (w ∷ l) m v (inl e) = inl e
Among-append (w ∷ l) m v (inr q) = inr (Among-append l m v q)

module _ (stack : Vma) (size : ℕ) (nonempty : stack.vma_start < stack.vma_end)
    (high : user_mmap_search_top < stack.vma_end) (word : stack.vma_end < 2 ^ 32) (pos : 0 < size)
    (wraps : size ≤ sub32 user_mmap_search_top stack.vma_end) where
  gap_loop-above :
      (l : List Vma) (ptr : ℕ)
      → IsSorted (l ++ (stack ∷ []))
      → ptr ≤ stack.vma_start
      → ((a : ℕ) → ptr ≤ a → a + size ≤ stack.vma_start → ¬ IsClear l a size)
      → gap_loop size ptr (l ++ (stack ∷ [])) ≡ stack.vma_end
  unfolding gap_loop
  gap_loop-above [] ptr s le full =
      let no_room : stack.vma_start < ptr + size =
        elim (Bool-cases (leb (ptr + size) stack.vma_start)) [
          | inl fits ↦ absurd (full ptr (omega arith) (ground arith) (λ v q. absurd q))
          | inr not_fits ↦ ground arith
        ] in
      ground arith
  gap_loop-above (v ∷ l) ptr s le full =
      elim (Bool-cases (ltb ptr v.vma_start && leb size (v.vma_start - ptr))) [
        | inl gap ↦
            let room : ptr + size ≤ v.vma_start = ground arith in
            absurd (
              full ptr (omega arith) (omega (arith, s.0, s.1 stack (Among-last l stack))) (
                IsClear-cons v l ptr size (inr room)
                  (λ w q. inr (omega (arith, s.0, s.1 w (Among-append l (stack ∷ []) w q))))))
        | inr none_here ↦ rw none_here (
            gap_loop-above l (past v ptr) s.2 (ground (arith, s.1 stack (Among-last l stack)))
              (λ a low room clear.
                full a (ground arith) room (IsClear-cons v l a size (inl (ground arith)) clear)))
      ]

-- Where the last area of a sorted list is a stack that ends above the limit of the search, as every
-- user stack does, and no range of the wanted size is clear below the stack, `vma_find_gap` does not
-- return 0 but the end of the stack, if the request is not larger than the wrapped difference.
pub vma_find_gap-above_stack :
    (v : Vma) (l : List Vma) (stack : Vma) (pg_cnt : ℕ)
    → IsSorted ((v ∷ l) ++ (stack ∷ []))
    → user_vaddr_start ≤ stack.vma_start
    → stack.vma_start < stack.vma_end
    → user_mmap_search_top < stack.vma_end
    → stack.vma_end < 2 ^ 32
    → 0 < pg_cnt * 4096 % 2 ^ 32
    → pg_cnt * 4096 % 2 ^ 32 ≤ sub32 user_mmap_search_top stack.vma_end
    → ((a : ℕ)
        → user_vaddr_start ≤ a
        → a + pg_cnt * 4096 % 2 ^ 32 ≤ stack.vma_start
        → ¬ IsClear (v ∷ l) a (pg_cnt * 4096 % 2 ^ 32))
    → vma_find_gap ((v ∷ l) ++ (stack ∷ [])) pg_cnt ≡ stack.vma_end
unfolding vma_find_gap
vma_find_gap-above_stack v l stack pg_cnt s low nonempty high word pos wraps full =
    gap_loop-above stack (pg_cnt * 4096 % 2 ^ 32) nonempty high word pos wraps (v ∷ l)
      user_vaddr_start s low full
