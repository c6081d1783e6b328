-- ===== src/Vma/Split.antt =====
-- `vma_split` and `copy_vma_list` of mm/vma.c.
use mathlib.Core.List.{append-nil, append_assoc}
use magic_box.Prelude.{
  ℕ, zero, suc, ◌+◌, ◌-◌, ◌/◌, ◌%◌, ◌^◌, ◌<◌, ◌≤◌, ◌≡◌, inl, inr, refl, ap, sym, subst, ◌∙◌, Bool,
  true, false, arith, Option, none, some, List, [], ◌∷◌, ◌++◌, length,
}
use magic_box.Vma.{
  Vma, InodeCall, opens, closes, rev_onto, sub32, open_calls, Added, vma_split, copy_vma_list,
}
use magic_box.Vma.Sorted.{Among, IsSorted, suffix-IsSorted, passed_before, replaced-IsSorted}
use magic_box.Vma.View.{
  view, holds, refs, opened, closed, view-rev_onto, refs-rev_onto, opened-open_calls,
  closed-open_calls, joined,
}

-- The two areas that an area becomes: they meet at the address, and the upper one has its `vma_pgoff`
-- raised by the pages between.
pub record Halves (v : Vma) (addr : ℕ) (lower upper : Vma) : Type 0 where
  pub starts : (lower.vma_start ≡ v.vma_start) × (upper.vma_start ≡ addr)
  pub ends : (lower.vma_end ≡ addr) × (upper.vma_end ≡ v.vma_end)
  pub pgoff_lower : lower.vma_pgoff ≡ v.vma_pgoff
  pub pgoff_upper : upper.vma_pgoff ≡ (v.vma_pgoff + (addr - v.vma_start) / 4096) % 2 ^ 32
  pub filesz : (lower.vma_filesz ≡ v.vma_filesz) × (upper.vma_filesz ≡ v.vma_filesz)

-- What splitting an area at a place promises of the list and of the calls.
abbrev pub SplitOk :
    Bool → (passed : List Vma) → Vma → (rest l : List Vma) → (addr : ℕ) → Added → Type 0
SplitOk room passed v rest l addr none = room ≡ false
SplitOk room passed v rest l addr (some (l', calls)) =
    ((lower upper : Vma) × (l' ≡ rev_onto passed (lower ∷ upper ∷ rest))
      × Halves v addr lower upper)
    × IsSorted l'
    × ((addr flags : ℕ) (inode : Option ℕ) → view l' addr flags inode ≡ view l addr flags inode)
    × ((i : ℕ) → opened calls i + refs l i ≡ closed calls i + refs l' i)

-- Splitting an area of a sorted list inside it puts two areas in its place that meet at the address,
-- both with its `vma_filesz`, the upper one with `vma_pgoff` raised by the number of pages between. It
-- keeps the list sorted and the flags and inode that each address is mapped with, and opens the inode
-- once for the new area. It gives NULL only if `kmalloc` gives no block.
pub vma_split-SplitOk :
    (room : Bool) (passed : List Vma) (v : Vma) (rest : List Vma) (addr : ℕ)
    → IsSorted (rev_onto passed (v ∷ rest))
    → v.vma_start < addr
    → addr < v.vma_end
    → v.vma_end < 2 ^ 32
    → SplitOk room passed v rest
        (rev_onto passed (v ∷ rest))
        addr
        (vma_split room passed v rest addr)
unfolding vma_split view refs holds
vma_split-SplitOk false passed v rest addr s low high word = refl
vma_split-SplitOk true passed v rest addr s low high word = (
  (
    lower,
    upper,
    refl,
    record {
      starts = (refl, refl);
      ends = (refl, refl);
      pgoff_lower = refl;
      pgoff_upper = omega arith;
      filesz = (refl, refl);
    },
  ),
  replaced-IsSorted passed (v ∷ rest) (lower ∷ upper ∷ rest) s
      (low, behind_lower, (high, from_v.1, from_v.2)) before,
  (λ a flags inode. omega (
    arith,
    view-rev_onto passed (v ∷ rest) a flags inode,
    view-rev_onto passed (lower ∷ upper ∷ rest) a flags inode,
    joined lower upper v a flags inode (omega arith) (omega arith) refl (refl, refl) (refl, refl)
        (refl, refl),
  )),
  λ i. omega (
    arith,
    refs-rev_onto passed (v ∷ rest) i,
    refs-rev_onto passed (lower ∷ upper ∷ rest) i,
    opened-open_calls v i,
    closed-open_calls v.vma_inode i,
  ),
)
  where
    lower : Vma
    lower = record v { vma_end = addr }

    upper : Vma
    upper = record v {
      vma_start = addr;
      vma_pgoff = (v.vma_pgoff + sub32 addr v.vma_start / 4096) % 2 ^ 32;
    }

    from_v : IsSorted (v ∷ rest)
    from_v = suffix-IsSorted passed (v ∷ rest) s

    behind_lower : (w : Vma) → Among w (upper ∷ rest) → addr ≤ w.vma_start
    behind_lower w (inl e) = subst (λ (x : Vma). addr ≤ x.vma_start) e (omega arith)
    behind_lower w (inr q) = omega (arith, from_v.1 w q)

    before : (u w : Vma) → Among u passed → Among w (lower ∷ upper ∷ rest) → u.vma_end ≤ w.vma_start
    before u w p (inl e) =
        subst (λ (x : Vma). u.vma_end ≤ x.vma_start) e
          (passed_before passed (v ∷ rest) s u v p (inl refl))
    before u w p (inr (inl e)) =
        subst (λ (x : Vma). u.vma_end ≤ x.vma_start) e
          (omega (arith, passed_before passed (v ∷ rest) s u v p (inl refl)))
    before u w p (inr (inr q)) = passed_before passed (v ∷ rest) s u w p (inr q)

-- What `copy_vma_list` promises: the areas of the parent behind those of the child, all of them or,
-- where `kmalloc` fails, the first ones, with one `inode_open` for each area that was copied and
-- has an inode.
abbrev pub CopyOk : (parent child : List Vma) → Bool × List Vma × List InodeCall → Type 0
CopyOk parent child (done, child', calls) =
    (copied : List Vma) × (rest : List Vma) × (copied ++ rest ≡ parent)
    × (child' ≡ child ++ copied)
    × (done ≡ true → rest ≡ [])
    × ((i : ℕ) → (opened calls i ≡ refs copied i) × (closed calls i ≡ 0))

opened-append : (c d : List InodeCall) (i : ℕ) → opened (c ++ d) i ≡ opened c i + opened d i
unfolding opened
opened-append [] d i = omega arith
opened-append (opens j ∷ c) d i = omega (arith, opened-append c d i)
opened-append (closes j ∷ c) d i = omega (arith, opened-append c d i)

closed-append : (c d : List InodeCall) (i : ℕ) → closed (c ++ d) i ≡ closed c i + closed d i
unfolding closed
closed-append [] d i = omega arith
closed-append (opens j ∷ c) d i = omega (arith, closed-append c d i)
closed-append (closes j ∷ c) d i = omega (arith, closed-append c d i)

-- `copy_vma_list` copies the areas of the parent in order to the end of the child's list, and opens
-- the inode of each once. If it returns true it has copied them all; it stops and returns false only
-- at an area for which `kmalloc` gives no block, with the areas before it copied.
pub copy_vma_list-CopyOk :
    (blocks : ℕ) (parent child : List Vma)
    → CopyOk parent child (copy_vma_list blocks parent child)
      × (length parent ≤ blocks → (copy_vma_list blocks parent child).0 ≡ true)
unfolding copy_vma_list opened closed refs
copy_vma_list-CopyOk blocks [] child =
    (([], [], refl, sym (append-nil child), (λ e. refl), λ i. (refl, refl)), λ h. refl)
copy_vma_list-CopyOk zero (v ∷ parent) child = (
  ([], v ∷ parent, refl, sym (append-nil child), (λ e. cc), λ i. (refl, refl)),
  λ h. absurd (omega arith),
)
copy_vma_list-CopyOk (suc blocks) (v ∷ parent) child =
    let ((copied, rest, parts, there, all, counts), enough) =
      copy_vma_list-CopyOk blocks parent (child ++ (v ∷ [])) in
    (
      (
        v ∷ copied,
        rest,
        ap (λ xs. v ∷ xs) parts,
        there ∙ append_assoc child (v ∷ []) copied,
        all,
        λ i.
            let (o, c) = counts i in
            (
              opened-append (open_calls v.vma_inode) _ i ∙ omega (arith, o, opened-open_calls v i),
              closed-append (open_calls v.vma_inode) _ i
                  ∙ omega (arith, c, closed-open_calls v.vma_inode i),
            ),
      ),
      λ h. enough (omega arith),
    )
