-- ===== src/Vma.antt =====
-- mm/vma.c and include/magicbox/vma.h: the areas of a process's address space. The list of a process
-- is a list of areas; an inode is its number, and what a function does to inodes is the list of its
-- calls of `inode_open` and `inode_close`. A place in a list is the areas before it, last first, and
-- the areas from it on. Each function holds `mm_lock` throughout.
pub mod Sorted
pub mod View
pub mod Join
pub mod Add
pub mod Gap
pub mod GapReverse
pub mod AboveStack
pub mod Split
pub mod Find
pub mod Offset
mod Tests
use magic_box.Prelude.{
  ℕ, zero, suc, ◌+◌, ◌-◌, ◌*◌, ◌/◌, ◌%◌, ◌^◌, Bool, true, false, ltb, leb, ◌==◌, ◌&&◌, ◌||◌, not,
  if◌then◌else◌, Option, none, some, List, [], ◌∷◌, ◌++◌,
}

pub record Vma : Type 0 where
  pub vma_start : ℕ
  pub vma_end : ℕ
  pub vma_flags : ℕ
  pub vma_filesz : ℕ
  pub vma_pgoff : ℕ
  pub vma_inode : Option ℕ

pub data InodeCall : Type 0 where
  opens : ℕ → InodeCall
  closes : ℕ → InodeCall

abbrev pub user_vaddr_start : ℕ
user_vaddr_start = 0x8048000

-- `USER_STACK_BASE - USER_STACK_SIZE`
abbrev pub user_mmap_search_top : ℕ
user_mmap_search_top = 0xbf800000

-- Subtraction of `uint32_t`.
abbrev pub sub32 : ℕ → ℕ → ℕ
sub32 a b = (a + 2 ^ 32 - b) % 2 ^ 32

unfoldable pub vma_contains_address : Vma → ℕ → Bool
vma_contains_address v vaddr = leb v.vma_start vaddr && ltb vaddr v.vma_end

unfoldable pub find_vma : List Vma → ℕ → Option Vma
find_vma [] vaddr = none
find_vma (v ∷ l) vaddr = if vma_contains_address v vaddr then some v else find_vma l vaddr

-- The areas before a place, last first, put back in front of the others.
unfoldable pub rev_onto : List Vma → List Vma → List Vma
rev_onto [] l = l
rev_onto (v ∷ passed) l = rev_onto passed (v ∷ l)

-- The traversal with `vma_after_address`.
unfoldable pub find_place : ℕ → (passed l : List Vma) → List Vma × List Vma
find_place start passed [] = (passed, [])
find_place start passed (v ∷ l) =
    if ltb start v.vma_start then (passed, v ∷ l) else find_place start (v ∷ passed) l

abbrev pub same_inode : Option ℕ → Option ℕ → Bool
same_inode none none = true
same_inode none (some j) = false
same_inode (some i) none = false
same_inode (some i) (some j) = i == j

abbrev pub open_calls : Option ℕ → List InodeCall
open_calls none = []
open_calls (some i) = opens i ∷ []

abbrev pub close_calls : Option ℕ → List InodeCall
close_calls none = []
close_calls (some i) = closes i ∷ []

abbrev pub is_anonymous : Option ℕ → Bool
is_anonymous none = true
is_anonymous (some i) = false

-- Whether the new area goes on from the area before it, or leads up to the one behind it.
unfoldable pub extends_prev : Vma → Vma → Bool
extends_prev prev new =
    (prev.vma_end == new.vma_start)
    && (prev.vma_flags == new.vma_flags)
    && same_inode prev.vma_inode new.vma_inode
    && (is_anonymous new.vma_inode
        || (prev.vma_pgoff + sub32 prev.vma_end prev.vma_start / 4096) % 2 ^ 32 == new.vma_pgoff)

unfoldable pub extends_next : Vma → Vma → Bool
extends_next next new =
    (next.vma_start == new.vma_end)
    && (next.vma_flags == new.vma_flags)
    && same_inode next.vma_inode new.vma_inode

-- `remove_vma` of the area at a place.
unfoldable pub remove_vma :
    (passed : List Vma) → Vma → (rest : List Vma) → List Vma × List InodeCall
remove_vma passed v rest = (rev_onto passed rest, close_calls v.vma_inode)

abbrev pub Added : Type 0
Added = Option (List Vma × List InodeCall)

-- What `create_vma` is given: whether `kmalloc` gives a block, and whether `get_part_by_rdev` finds the
-- partition of the inode.
pub record Room : Type 0 where
  pub block : Bool
  pub part : Bool

-- The last part of `add_vma_sorted`.
unfoldable pub create_vma : Room → (passed l : List Vma) → Vma → Added
create_vma room passed l new =
    if not room.block
    then none
    else if not (is_anonymous new.vma_inode) && not room.part
    then none
    else some (rev_onto passed (new ∷ l), open_calls new.vma_inode)

unfoldable pub try_next : Room → (passed l : List Vma) → Vma → Added
try_next room passed [] new = create_vma room passed [] new
try_next room passed (next ∷ l) new =
    if extends_next next new
    then some (rev_onto passed (record next { vma_start = new.vma_start } ∷ l), [])
    else create_vma room passed (next ∷ l) new

-- The new area joins the one before it, and perhaps also the one behind it.
unfoldable pub join_prev : (passed : List Vma) → Vma → (l : List Vma) → Vma → Added
join_prev passed prev [] new =
    some (rev_onto passed (record prev { vma_end = new.vma_end } ∷ []), [])
join_prev passed prev (next ∷ l) new =
    if extends_next next new
    then some (remove_vma (record prev { vma_end = next.vma_end } ∷ passed) next l)
    else some (rev_onto passed (record prev { vma_end = new.vma_end } ∷ next ∷ l), [])

unfoldable pub add_at : Room → (passed l : List Vma) → Vma → Added
add_at room [] l new = try_next room [] l new
add_at room (prev ∷ passed) l new =
    if extends_prev prev new
    then join_prev passed prev l new
    else try_next room (prev ∷ passed) l new

-- `add_vma_sorted`, with its arguments as the area that they describe; none is a panic.
unfoldable pub add_vma_sorted : Room → List Vma → Vma → Added
add_vma_sorted room l new =
    let place = find_place new.vma_start [] l in add_at room place.0 place.1 new

unfoldable pub clear_vma_list : List Vma → List InodeCall
clear_vma_list [] = []
clear_vma_list (v ∷ l) = (remove_vma [] v l).1 ++ clear_vma_list l

-- `copy_vma_list`: `blocks` is how often `kmalloc` succeeds.
unfoldable pub copy_vma_list :
    (blocks : ℕ) → (parent child : List Vma) → Bool × List Vma × List InodeCall
copy_vma_list blocks [] child = (true, child, [])
copy_vma_list zero (v ∷ parent) child = (false, child, [])
copy_vma_list (suc blocks) (v ∷ parent) child =
    let (done, child', calls) = copy_vma_list blocks parent (child ++ (v ∷ [])) in
    (done, child', open_calls v.vma_inode ++ calls)

-- The loop of `vma_find_gap` with the check behind it; 0 if there is no gap.
unfoldable pub gap_loop : (size search_ptr : ℕ) → List Vma → ℕ
gap_loop size search_ptr [] =
    if leb size (sub32 user_mmap_search_top search_ptr) then search_ptr else 0
gap_loop size search_ptr (v ∷ l) =
    let rest = gap_loop size (if ltb search_ptr v.vma_end then v.vma_end else search_ptr) l in
    if ltb search_ptr v.vma_start && leb size (v.vma_start - search_ptr) then search_ptr else rest

unfoldable pub vma_find_gap : List Vma → ℕ → ℕ
vma_find_gap [] pg_cnt = user_vaddr_start
vma_find_gap (v ∷ l) pg_cnt = gap_loop (pg_cnt * 4096 % 2 ^ 32) user_vaddr_start (v ∷ l)

-- The loop of `vma_find_gap_reverse`, over the areas from the last to the first.
unfoldable pub gap_reverse_loop : (size search_end : ℕ) → List Vma → ℕ
gap_reverse_loop size search_end [] =
    if ltb user_vaddr_start search_end && leb size (search_end - user_vaddr_start)
    then search_end - size
    else 0
gap_reverse_loop size search_end (v ∷ l) =
    let rest =
      gap_reverse_loop size (if ltb v.vma_start search_end then v.vma_start else search_end) l in
    if ltb v.vma_end search_end && leb size (search_end - v.vma_end)
    then search_end - size
    else rest

-- The early return of an empty list is the end of the loop at once: the check before it is the same.
unfoldable pub vma_find_gap_reverse : List Vma → ℕ → ℕ
vma_find_gap_reverse l pg_cnt =
    let size = pg_cnt * 4096 % 2 ^ 32 in
    if leb user_mmap_search_top user_vaddr_start
      || ltb (user_mmap_search_top - user_vaddr_start) size
    then 0
    else gap_reverse_loop size user_mmap_search_top (rev_onto l [])

-- What the page fault in mm/swap.c reads of the file for a page at an offset in the area: a page, or
-- less at the end of `vma_filesz`.
unfoldable pub read_size : Vma → ℕ → ℕ
read_size v offset_in_vma =
    if ltb offset_in_vma v.vma_filesz
    then (if ltb v.vma_filesz (offset_in_vma + 4096) then v.vma_filesz - offset_in_vma else 4096)
    else 0

abbrev pub in_file : Option ℕ → ℕ → Option (ℕ × ℕ)
in_file none pos = none
in_file (some inode) pos = some (inode, pos)

-- The byte that an address of an area gets from the page fault: an inode and a place in its file, or
-- none for a zero.
unfoldable pub shown_byte : Vma → ℕ → Option (ℕ × ℕ)
shown_byte v vaddr =
    let offset_in_vma = sub32 (vaddr - vaddr % 4096) v.vma_start in
    if ltb (vaddr % 4096) (read_size v offset_in_vma)
    then in_file v.vma_inode ((v.vma_pgoff + offset_in_vma) % 2 ^ 32 + vaddr % 4096)
    else none

-- `vma_split` of the area at a place, with the list afterwards; none where `kmalloc` gives no block.
-- The partition of its inode is there.
unfoldable pub vma_split : (room : Bool) → (passed : List Vma) → Vma → (rest : List Vma) → ℕ → Added
vma_split room passed v rest addr =
    let new_vma = record v {
      vma_start = addr;
      vma_pgoff = (v.vma_pgoff + sub32 addr v.vma_start / 4096) % 2 ^ 32;
    } in
    if room
    then some
        (rev_onto passed (record v { vma_end = addr } ∷ new_vma ∷ rest), open_calls v.vma_inode)
    else none
