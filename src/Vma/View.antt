-- ===== src/Vma/View.antt =====
-- What a list of areas of mm/vma.c stands for: what each address is mapped to, and which inodes are held open.
use magic_box.Prelude.{
  ℕ, ◌+◌, ◌≤◌, ◌≡◌, refl, ap, true, ltb, leb, ◌==◌, ◌&&◌, if◌then◌else◌, arith, Option, none, some,
  List, [], ◌∷◌, ==_iff,
}
use magic_box.Vma.{
  Vma, InodeCall, opens, closes, rev_onto, same_inode, open_calls, close_calls, extends_prev,
  extends_next,
}

-- 1 if the area maps the address with these flags to this inode.
unfoldable pub maps : Vma → (addr flags : ℕ) → Option ℕ → ℕ
maps v addr flags inode =
    if leb v.vma_start addr
      && ltb addr v.vma_end
      && (v.vma_flags == flags)
      && same_inode v.vma_inode inode
    then 1
    else 0

-- How many areas of a list do.
unfoldable pub view : List Vma → (addr flags : ℕ) → Option ℕ → ℕ
view [] addr flags inode = 0
view (v ∷ l) addr flags inode = maps v addr flags inode + view l addr flags inode

unfoldable pub holds : Vma → ℕ → ℕ
holds v i = if same_inode v.vma_inode (some i) then 1 else 0

-- How many areas of a list hold an inode open.
unfoldable pub refs : List Vma → ℕ → ℕ
refs [] i = 0
refs (v ∷ l) i = holds v i + refs l i

unfoldable pub opened : List InodeCall → ℕ → ℕ
opened [] i = 0
opened (opens j ∷ calls) i = (if j == i then 1 else 0) + opened calls i
opened (closes j ∷ calls) i = opened calls i

unfoldable pub closed : List InodeCall → ℕ → ℕ
closed [] i = 0
closed (opens j ∷ calls) i = closed calls i
closed (closes j ∷ calls) i = (if j == i then 1 else 0) + closed calls i

pub view-rev_onto :
    (passed l : List Vma) (addr flags : ℕ) (inode : Option ℕ)
    → view (rev_onto passed l) addr flags inode
      ≡ view passed addr flags inode + view l addr flags inode
unfolding view rev_onto
view-rev_onto [] l addr flags inode = omega arith
view-rev_onto (v ∷ passed) l addr flags inode =
    omega (arith, view-rev_onto passed (v ∷ l) addr flags inode)

pub refs-rev_onto :
    (passed l : List Vma) (i : ℕ) → refs (rev_onto passed l) i ≡ refs passed i + refs l i
unfolding refs rev_onto
refs-rev_onto [] l i = omega arith
refs-rev_onto (v ∷ passed) l i = omega (arith, refs-rev_onto passed (v ∷ l) i)

pub opened-open_calls : (v : Vma) (i : ℕ) → opened (open_calls v.vma_inode) i ≡ holds v i
unfolding opened holds
opened-open_calls v i = by_inode v.vma_inode
  where
    by_inode :
        (inode : Option ℕ)
        → opened (open_calls inode) i ≡ (if same_inode inode (some i) then 1 else 0)
    by_inode none = refl
    by_inode (some j) = omega arith

pub closed-open_calls : (inode : Option ℕ) (i : ℕ) → closed (open_calls inode) i ≡ 0
unfolding closed
closed-open_calls none i = refl
closed-open_calls (some j) i = refl

pub closed-close_calls : (v : Vma) (i : ℕ) → closed (close_calls v.vma_inode) i ≡ holds v i
unfolding closed holds
closed-close_calls v i = by_inode v.vma_inode
  where
    by_inode :
        (inode : Option ℕ)
        → closed (close_calls inode) i ≡ (if same_inode inode (some i) then 1 else 0)
    by_inode none = refl
    by_inode (some j) = omega arith

pub opened-close_calls : (inode : Option ℕ) (i : ℕ) → opened (close_calls inode) i ≡ 0
unfolding opened
opened-close_calls none i = refl
opened-close_calls (some j) i = refl

same_inode-eq : (x y : Option ℕ) → same_inode x y ≡ true → x ≡ y
same_inode-eq none none h = refl
same_inode-eq none (some j) h = cc
same_inode-eq (some i) none h = cc
same_inode-eq (some i) (some j) h = ap (λ (n : ℕ). some n) ((==_iff i j).0 h)

pub prev_facts :
    (prev new : Vma)
    → extends_prev prev new ≡ true
    → (prev.vma_end ≡ new.vma_start)
      × (prev.vma_flags ≡ new.vma_flags)
      × (prev.vma_inode ≡ new.vma_inode)
unfolding extends_prev
prev_facts prev new h =
    (ground arith, ground arith, same_inode-eq prev.vma_inode new.vma_inode (ground arith))

pub next_facts :
    (next new : Vma)
    → extends_next next new ≡ true
    → (next.vma_start ≡ new.vma_end)
      × (next.vma_flags ≡ new.vma_flags)
      × (next.vma_inode ≡ new.vma_inode)
unfolding extends_next
next_facts next new h =
    (ground arith, ground arith, same_inode-eq next.vma_inode new.vma_inode (ground arith))

-- Two areas that meet, with the same flags and inode, map what one over both maps.
pub joined :
    (v w both : Vma) (addr flags : ℕ) (inode : Option ℕ)
    → v.vma_start ≤ v.vma_end
    → w.vma_start ≤ w.vma_end
    → v.vma_end ≡ w.vma_start
    → (both.vma_start ≡ v.vma_start) × (both.vma_end ≡ w.vma_end)
    → (both.vma_flags ≡ v.vma_flags) × (both.vma_flags ≡ w.vma_flags)
    → (both.vma_inode ≡ v.vma_inode) × (both.vma_inode ≡ w.vma_inode)
    → maps both addr flags inode ≡ maps v addr flags inode + maps w addr flags inode
unfolding maps
joined v w both addr flags inode le le' meet ends same_flags inodes = ground (
  arith,
  ends.0,
  ends.1,
  same_flags.0,
  same_flags.1,
  ap (λ x. same_inode x inode) inodes.0,
  ap (λ x. same_inode x inode) inodes.1,
)
