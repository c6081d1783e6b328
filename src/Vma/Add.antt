-- ===== src/Vma/Add.antt =====
-- `add_vma_sorted` of mm/vma.c, with its merges.
use magic_box.Prelude.{◌<◌, ◌≤◌, ◌⊎◌, inl, inr, refl, sym, subst, arith, List, [], ◌∷◌, Bool-cases}
use magic_box.Vma.{Vma, Room, rev_onto, find_place, extends_prev, add_at, add_vma_sorted}
use magic_box.Vma.Sorted.{Among, IsSorted, Among-nonempty, IsPlace, find_place-IsPlace}
use magic_box.Vma.Join.{AddOk, IsFree, without_prev, with_prev}

add_at-AddOk :
    (room : Room) (passed l : List Vma) (new : Vma)
    → IsSorted (rev_onto passed l)
    → new.vma_start < new.vma_end
    → ((v : Vma) → Among v passed → v.vma_end ≤ new.vma_start)
    → ((w : Vma) → Among w l → new.vma_end ≤ w.vma_start)
    → AddOk room (rev_onto passed l) new (add_at room passed l new)
unfolding add_at rev_onto
add_at-AddOk room [] l new s pos before behind =
    without_prev [] l new s pos before behind room l refl
add_at-AddOk room (prev ∷ passed) l new s pos before behind =
    elim (Bool-cases (extends_prev prev new)) [
      | inl fits ↦ rw fits (with_prev passed prev l new s pos behind fits room l refl)
      | inr apart ↦ rw apart (without_prev (prev ∷ passed) l new s pos before behind room l refl)
    ]

Among-rev_onto :
    (passed l : List Vma) (v : Vma) → Among v passed ⊎ Among v l → Among v (rev_onto passed l)
unfolding rev_onto
Among-rev_onto [] l v (inl p) = absurd p
Among-rev_onto [] l v (inr q) = q
Among-rev_onto (u ∷ passed) l v (inl (inl e)) = Among-rev_onto passed (u ∷ l) v (inr (inl e))
Among-rev_onto (u ∷ passed) l v (inl (inr p)) = Among-rev_onto passed (u ∷ l) v (inl p)
Among-rev_onto (u ∷ passed) l v (inr q) = Among-rev_onto passed (u ∷ l) v (inr (inr q))

-- Adding an area that is not empty and meets no area of a sorted list: the list is sorted
-- afterwards, each address is in an area with the flags and the inode that it was in one with before, or
-- that the new area has, whichever of its neighbours the new area is joined with, and the calls of
-- `inode_open` and `inode_close` make up for the areas that hold an inode. It panics only if `kmalloc`
-- gives no block, or the partition of the new area's inode is not found. The places in the file are
-- no part of this.
pub add_vma_sorted-AddOk :
    (room : Room) (l : List Vma) (new : Vma)
    → IsSorted l
    → new.vma_start < new.vma_end
    → IsFree l new
    → AddOk room l new (add_vma_sorted room l new)
unfolding add_vma_sorted rev_onto
add_vma_sorted-AddOk room l new s pos free =
    subst (λ (x : List Vma). AddOk room x new (add_at room passed behind new)) place.parts
      (add_at-AddOk room passed behind new whole pos
        (λ v p. earlier v p (free v (member v (inl p))))
        (λ w q. later w q (free w (member w (inr q)))))
  where
    passed : List Vma
    passed = (find_place new.vma_start [] l).0

    behind : List Vma
    behind = (find_place new.vma_start [] l).1

    place : IsPlace new.vma_start passed behind l
    place = find_place-IsPlace new.vma_start [] l l refl s (λ v p. absurd p)

    whole : IsSorted (rev_onto passed behind)
    whole = subst IsSorted (sym place.parts) s

    member : (v : Vma) → Among v passed ⊎ Among v behind → Among v l
    member v p = subst (Among v) place.parts (Among-rev_onto passed behind v p)

    earlier :
        (v : Vma)
        → Among v passed
        → (v.vma_end ≤ new.vma_start) ⊎ (new.vma_end ≤ v.vma_start)
        → v.vma_end ≤ new.vma_start
    earlier v p (inl e) = e
    earlier v p (inr e) = absurd (omega (arith, place.before v p))

    later :
        (w : Vma)
        → Among w behind
        → (w.vma_end ≤ new.vma_start) ⊎ (new.vma_end ≤ w.vma_start)
        → new.vma_end ≤ w.vma_start
    later w q (inl e) =
        absurd (omega (arith, place.behind w q, Among-nonempty l s w (member w (inr q))))
    later w q (inr e) = e
