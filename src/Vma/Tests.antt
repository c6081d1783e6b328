-- ===== src/Vma/Tests.antt =====
-- The theorems on areas at a small address space: a mapped file of one page and a stack.
use magic_box.Prelude.{
  ℕ, ◌+◌, ◌-◌, ◌/◌, ◌<◌, ◌≤◌, ◌≡◌, ◌⊎◌, inl, inr, refl, subst, true, arith, none, some, [], ◌∷◌,
}
use magic_box.Vma.{
  Vma, Room, rev_onto, find_vma, vma_find_gap, vma_find_gap_reverse, vma_split, copy_vma_list,
  add_vma_sorted, user_vaddr_start, user_mmap_search_top, open_calls, in_file, shown_byte,
}
use magic_box.Vma.Sorted.{Among, IsSorted}
use magic_box.Vma.Join.{AddOk}
use magic_box.Vma.Add.{add_vma_sorted-AddOk}
use magic_box.Vma.Gap.{GapOk, IsClear, GapBelow, vma_find_gap-GapBelow}
use magic_box.Vma.GapReverse.{vma_find_gap_reverse-GapOk}
use magic_box.Vma.AboveStack.{vma_find_gap-above_stack}
use magic_box.Vma.Split.{SplitOk, CopyOk, vma_split-SplitOk, copy_vma_list-CopyOk}
use magic_box.Vma.Find.{FindOk, find_vma-FindOk}
use magic_box.Vma.Offset.{shown_byte-split}

-- Two pages of inode 12.
abbrev mapped_file : Vma
mapped_file = record {
  vma_start = 0x40001000;
  vma_end = 0x40003000;
  vma_flags = 1;
  vma_filesz = 8192;
  vma_pgoff = 0;
  vma_inode = some 12;
}

abbrev room : Room
room = record { block = true; part = true }

-- The page before them, of the same inode.
abbrev page_before : Vma
page_before = record mapped_file { vma_start = 0x40000000; vma_end = 0x40001000 }

alone_before :
    (v : Vma) → Among v (mapped_file ∷ []) → (v.vma_end ≤ 0x40000000) ⊎ (0x40001000 ≤ v.vma_start)
alone_before v (inl e) =
    subst (λ (x : Vma). (x.vma_end ≤ 0x40000000) ⊎ (0x40001000 ≤ x.vma_start)) e (inr (omega arith))
alone_before v (inr q) = absurd q

one-IsSorted : IsSorted (mapped_file ∷ [])
one-IsSorted = (omega arith, (λ w q. absurd q), tt)

one_below : (w : Vma) → Among w (mapped_file ∷ []) → w.vma_end ≤ user_mmap_search_top
one_below w (inl e) = subst (λ (x : Vma). x.vma_end ≤ user_mmap_search_top) e (omega arith)
one_below w (inr q) = absurd q

one_above : (w : Vma) → Among w (mapped_file ∷ []) → user_vaddr_start ≤ w.vma_start
one_above w (inl e) = subst (λ (x : Vma). user_vaddr_start ≤ x.vma_start) e (omega arith)
one_above w (inr q) = absurd q

add_vma_sorted-AddOk_example :
    AddOk room (mapped_file ∷ []) page_before (add_vma_sorted room (mapped_file ∷ []) page_before)
add_vma_sorted-AddOk_example =
    add_vma_sorted-AddOk room (mapped_file ∷ []) page_before one-IsSorted (omega arith) alone_before

find_vma-FindOk_example :
    FindOk (mapped_file ∷ []) 0x40001abc (find_vma (mapped_file ∷ []) 0x40001abc)
find_vma-FindOk_example = find_vma-FindOk (mapped_file ∷ []) 0x40001abc one-IsSorted

vma_find_gap_reverse-GapOk_example :
    GapOk user_vaddr_start user_mmap_search_top 12288
      (mapped_file ∷ [])
      (vma_find_gap_reverse (mapped_file ∷ []) 3)
vma_find_gap_reverse-GapOk_example =
    vma_find_gap_reverse-GapOk (mapped_file ∷ []) 3 one-IsSorted one_above (omega arith)

-- The rest of the address space is mapped but for one page, and the stack ends at 3 GB.
abbrev large_area : Vma
large_area = record mapped_file { vma_start = 0x8049000; vma_end = 0xbf800000; vma_inode = none }

abbrev stack : Vma
stack = record large_area { vma_start = 0xbf800000; vma_end = 0xc0000000 }

full-IsSorted : IsSorted (large_area ∷ stack ∷ [])
full-IsSorted = (omega arith, ordered, (omega arith, (λ w q. absurd q), tt))
  where
    ordered : (w : Vma) → Among w (stack ∷ []) → 0xbf800000 ≤ w.vma_start
    ordered w (inl e) = subst (λ (x : Vma). 0xbf800000 ≤ x.vma_start) e (omega arith)
    ordered w (inr q) = absurd q

file_IsSorted : IsSorted (mapped_file ∷ stack ∷ [])
file_IsSorted = (omega arith, ordered, (omega arith, (λ w q. absurd q), tt))
  where
    ordered : (w : Vma) → Among w (stack ∷ []) → 0x40003000 ≤ w.vma_start
    ordered w (inl e) = subst (λ (x : Vma). 0x40003000 ≤ x.vma_start) e (omega arith)
    ordered w (inr q) = absurd q

vma_find_gap-GapBelow_example :
    GapBelow user_vaddr_start 12288
      (mapped_file ∷ stack ∷ [])
      stack
      (vma_find_gap (mapped_file ∷ stack ∷ []) 3)
vma_find_gap-GapBelow_example =
    vma_find_gap-GapBelow (mapped_file ∷ []) stack 3 file_IsSorted (omega arith) (omega arith)
      (omega arith)

no_two_pages :
    (a : ℕ) → user_vaddr_start ≤ a → a + 8192 ≤ 0xbf800000 → ¬ IsClear (large_area ∷ []) a 8192
no_two_pages a low high clear = decide (clear large_area (inl refl))
  where
    decide : (0xbf800000 ≤ a) ⊎ (a + 8192 ≤ 0x8049000) → ⊥
    decide (inl h) = omega arith
    decide (inr h) = omega arith

vma_find_gap-above_stack_example : vma_find_gap (large_area ∷ stack ∷ []) 2 ≡ 0xc0000000
vma_find_gap-above_stack_example =
    vma_find_gap-above_stack large_area [] stack 2 full-IsSorted (omega arith) (omega arith)
      (omega arith) (omega arith) (omega arith) (omega arith) no_two_pages

unturned : IsSorted (rev_onto [] (mapped_file ∷ []))
unfolding rev_onto
unturned = one-IsSorted

vma_split-SplitOk_example :
    SplitOk true [] mapped_file []
      (rev_onto [] (mapped_file ∷ []))
      0x40002000
      (vma_split true [] mapped_file [] 0x40002000)
vma_split-SplitOk_example =
    vma_split-SplitOk true [] mapped_file [] 0x40002000 unturned (omega arith) (omega arith)
      (omega arith)

copy_vma_list-CopyOk_example :
    CopyOk (large_area ∷ mapped_file ∷ []) [] (copy_vma_list 1 (large_area ∷ mapped_file ∷ []) [])
    × (2 ≤ 1 → (copy_vma_list 1 (large_area ∷ mapped_file ∷ []) []).0 ≡ true)
copy_vma_list-CopyOk_example = copy_vma_list-CopyOk 1 (large_area ∷ mapped_file ∷ []) []

shown_byte-split_example :
    (lower : Vma) × (upper : Vma) × (vma_split true [] mapped_file [] 0x40002000
      ≡ some (rev_onto [] (lower ∷ upper ∷ []), open_calls (some 12)))
    × (upper.vma_start ≡ 0x40002000)
    × (old : ℕ) × (new : ℕ) × (shown_byte mapped_file 0x40002010 ≡ in_file (some 12) old)
    × (shown_byte upper 0x40002010 ≡ in_file (some 12) new)
    × (old ≡ 0 + (0x40002010 - 0x40001000))
    × (new + (0x40002000 - 0x40001000) ≡ old + (0x40002000 - 0x40001000) / 4096)
    × (new < old)
shown_byte-split_example =
    shown_byte-split [] mapped_file [] 0x40002000 0x40002010 (omega arith) (omega arith)
      (omega arith) (omega arith) (omega arith) (omega arith) (omega arith) (omega arith)
