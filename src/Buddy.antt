-- ===== src/Buddy.antt =====
-- mm/buddy.c and include/magicbox/buddy.h: the allocator of physical pages. A page is its frame
-- number, the index into `page_base`; the fields of `struct page` that the allocator uses are
-- functions of it. A free list is the list of the frame numbers of its blocks, first to last. The
-- pool's lock and its list of active pages are left out: each function holds the lock from its first
-- statement to its last, and none touches that list.
pub mod Blocks
pub mod Cover
pub mod Owned
pub mod Moves
pub mod Alloc
pub mod Partner
pub mod Merging
pub mod Merged
pub mod Free
pub mod Init
mod Tests
use magic_box.Prelude.{
  ℕ, zero, suc, ◌+◌, ◌-◌, ◌*◌, ◌/◌, ◌%◌, ◌^◌, Bool, true, false, ltb, leb, ◌==◌, ◌&&◌, ◌||◌, not,
  if◌then◌else◌, Option, none, some, List, [], ◌∷◌, ◌++◌, bit_and, bit_or, bit_xor,
}

abbrev pub max_order : ℕ
max_order = 11

pub record Pool : Type 0 where
  pub free_list : ℕ → List ℕ
  pub nr_free : ℕ → ℕ
  pub order : ℕ → ℕ
  pub flags : ℕ → ℕ
  pub phy_addr_start : ℕ
  pub pool_size : ℕ

abbrev pub update {ℓ} : {A : Type ℓ} → (ℕ → A) → ℕ → A → ℕ → A
update f i v j = if j == i then v else f j

abbrev pub page_to_addr : ℕ → ℕ
page_to_addr pfn = pfn * 4096 % 2 ^ 32

abbrev pub start_pfn : Pool → ℕ
start_pfn b = b.phy_addr_start / 4096

abbrev pub end_pfn : Pool → ℕ
end_pfn b = (b.phy_addr_start + b.pool_size) % 2 ^ 32 / 4096

abbrev pub pool_end : Pool → ℕ
pool_end b = (b.phy_addr_start + b.pool_size) % 2 ^ 32

-- `nr_free++` and `nr_free--` of a `uint32_t`.
abbrev pub incr : ℕ → ℕ
incr n = (n + 1) % 2 ^ 32

abbrev pub decr : ℕ → ℕ
decr n = (n + 2 ^ 32 - 1) % 2 ^ 32

-- `dlist_push_back` and `dlist_push_front` of a page on an area, with its count.
unfoldable pub push_back : Pool → ℕ → ℕ → Pool
push_back b k pg = record b {
  free_list = update b.free_list k (b.free_list k ++ (pg ∷ []));
  nr_free = update b.nr_free k (incr (b.nr_free k));
}

unfoldable pub push_front : Pool → ℕ → ℕ → Pool
push_front b k pg = record b {
  free_list = update b.free_list k (pg ∷ b.free_list k);
  nr_free = update b.nr_free k (incr (b.nr_free k));
}

unfoldable pub set_page : Pool → ℕ → ℕ → ℕ → Pool
set_page b pg order flags = record b {
  order = update b.order pg order;
  flags = update b.flags pg flags;
}

-- The inner loop of `buddy_init`: the largest order, from `order` down, at which the block is aligned
-- and fits.
unfoldable pub find_order : ℕ → ℕ → ℕ → ℕ
find_order zero curr_pfn end = 0
find_order (suc order) curr_pfn end =
    let rest = find_order order curr_pfn end in
    if (curr_pfn % 2 ^ suc order == 0) && leb (curr_pfn + 2 ^ suc order) end
    then suc order
    else rest

-- The outer loop; `fuel` is at least the number of pages left.
unfoldable pub init_loop : ℕ → Pool → ℕ → ℕ → Pool
init_loop zero b curr_pfn end = b
init_loop (suc fuel) b curr_pfn end =
    let order = find_order 10 curr_pfn end in
    let rest =
      init_loop fuel (push_back (set_page b curr_pfn order 0) order curr_pfn) (curr_pfn + 2 ^ order)
        end in
    if ltb curr_pfn end then rest else b

-- `order` and `flags` are what the page array holds before.
unfoldable pub buddy_init : (order flags : ℕ → ℕ) → (start_addr size : ℕ) → Pool
buddy_init order flags start_addr size =
    let empty : Pool = record {
      free_list = λ k. [];
      nr_free = λ k. 0;
      order = order;
      flags = flags;
      phy_addr_start = start_addr;
      pool_size = size;
    } in
    init_loop (end_pfn empty - start_pfn empty) empty (start_pfn empty) (end_pfn empty)

abbrev is_nil : List ℕ → Bool
is_nil [] = true
is_nil (x ∷ xs) = false

-- The first loop of `palloc_pages`, by the orders left below `max_order`.
unfoldable pub find_area : ℕ → Pool → ℕ → ℕ
find_area zero b k = k
find_area (suc left) b k =
    let rest = find_area left b (k + 1) in if is_nil (b.free_list k) then rest else k

-- The splitting loop: the block at `pg` has order `order + d`.
unfoldable pub split : ℕ → Pool → (order pg : ℕ) → Pool
split zero b order pg = b
split (suc d) b order pg =
    let k = order + d in
    let buddy = pg + 2 ^ k in
    split d
      (if leb (pool_end b) (page_to_addr buddy)
        then b
        else push_back (set_page b buddy k 0) k buddy)
      order pg

-- Mark the block that goes out.
unfoldable pub mark_allocated : Pool → ℕ → ℕ → Pool
mark_allocated b order pg = set_page b pg order (bit_or (b.flags pg) 1)

abbrev pub take_block : Pool → (order k : ℕ) → List ℕ → Option (ℕ × Pool)
take_block b order k [] = none
take_block b order k (pg ∷ rest) =
    let taken = record b {
      free_list = update b.free_list k rest;
      nr_free = update b.nr_free k (decr (b.nr_free k));
    } in
    some (pg, mark_allocated (split (k - order) taken order pg) order pg)

-- `none` is NULL, with the pool as it was. The `ASSERT` at the start is a condition of the theorems.
unfoldable pub palloc_pages : Pool → ℕ → Option (ℕ × Pool)
palloc_pages b order =
    let k = find_area (max_order - order) b order in
    if k == max_order then none else take_block b order k (b.free_list k)

-- `none` is NULL.
unfoldable pub get_buddy_page : Pool → ℕ → ℕ → Option ℕ
get_buddy_page b pg order =
    let buddy_idx = bit_xor pg (2 ^ order) in
    if ltb buddy_idx (start_pfn b) || leb (end_pfn b) buddy_idx then none else some buddy_idx

unfoldable pub page_is_allocated : Pool → ℕ → Bool
page_is_allocated b pg = not (bit_and (b.flags pg) 1 == 0)

unfoldable pub erase : ℕ → List ℕ → List ℕ
erase a [] = []
erase a (x ∷ xs) = if x == a then xs else x ∷ erase a xs

unfoldable pub elem : ℕ → List ℕ → Bool
elem a [] = false
elem a (x ∷ xs) = (x == a) || elem a xs

-- Whether one of the areas below order `n` links a page.
unfoldable pub linked : ℕ → Pool → ℕ → Bool
linked zero b pg = false
linked (suc n) b pg = elem pg (b.free_list n) || linked n b pg

-- How `pfree_pages` ends: it returns, an `ASSERT` fails, or it follows a NULL pointer.
pub data Freed : Type 0 where
  freed : Pool → Freed
  assert_failed : Freed
  null_access : Freed

-- The merge, when the buddy's order and flags allow it: `dlist_remove` takes the buddy out of the
-- list that links it, and `order` becomes that of the larger block.
unfoldable pub merge : Pool → (k curr buddy : ℕ) → Pool
merge b k curr buddy =
    let curr' = if ltb buddy curr then buddy else curr in
    record b {
      free_list = λ j. erase buddy (b.free_list j);
      nr_free = update b.nr_free k (decr (b.nr_free k));
      order = update b.order curr' (k + 1);
    }

-- The end of `pfree_pages`: `flags &= ~1`, and the block goes to the front of its area.
unfoldable pub put_back : Pool → (k curr : ℕ) → Freed
put_back b k curr =
    if elem curr (b.free_list k)
    then assert_failed
    else freed (push_front (set_page b curr k (bit_and (b.flags curr) (2 ^ 32 - 2))) k curr)

-- The merging loop, by the orders left below `max_order - 1`. `null_addr` is what `PAGE_TO_ADDR`
-- computes of the NULL that `get_buddy_page` may give.
unfoldable pub free_loop : (left null_addr : ℕ) → Pool → (k curr : ℕ) → Freed
free_loop zero null_addr b k curr = put_back b k curr
free_loop (suc left) null_addr b k curr = elim (get_buddy_page b curr k) [
  | none ↦
      if ltb null_addr b.phy_addr_start || leb (pool_end b) null_addr
      then put_back b k curr
      else null_access
  | some buddy ↦
      let phy = page_to_addr buddy in
      let curr' = if ltb buddy curr then buddy else curr in
      let rest = free_loop left null_addr (merge b k curr buddy) (k + 1) curr' in
      if ltb phy b.phy_addr_start || leb (pool_end b) phy
      then put_back b k curr
      else if page_is_allocated b buddy || not (b.order buddy == k)
      then put_back b k curr
      else if linked max_order b buddy
      then rest
      else null_access
]

unfoldable pub pfree_pages : (null_addr : ℕ) → Pool → (pg order : ℕ) → Freed
pfree_pages null_addr b pg order =
    if ltb order max_order
    then free_loop (max_order - 1 - order) null_addr b order pg
    else assert_failed
