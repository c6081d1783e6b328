-- ===== src/Buddy/Free.antt =====
-- `pfree_pages` of mm/buddy.c.
use magic_box.Prelude.{
  ℕ, zero, suc, ◌+◌, ◌-◌, ◌%◌, ◌^◌, ◌<◌, ◌≤◌, ◌≡◌, inl, inr, refl, sym, subst, Bool, true, false,
  ltb, leb, ◌==◌, ◌||◌, not, arith, ◌∷◌, Bool-cases, Option, none, some, bit_and, bit_xor,
}
use magic_box.Prelude.Bits.{one_le_pow, test_bit-bit_and}
use magic_box.Buddy.{
  Pool, max_order, start_pfn, end_pfn, pool_end, page_to_addr, set_page, push_front, elem,
  get_buddy_page, page_is_allocated, merge, put_back, Freed, freed, assert_failed, null_access,
  free_loop, pfree_pages,
}
use magic_box.Buddy.Blocks.{in_block, in_block_self, Pair, buddy-Pair, lower}
use magic_box.Buddy.Cover.{Elem, elem-Elem}
use magic_box.Buddy.Owned.{Inv, InPool, Owned, owned_cover, hand_not_free}
use magic_box.Buddy.Moves.{put-Inv, Grown-front}
use magic_box.Buddy.Partner.{buddy_listed}
use magic_box.Buddy.Merged.{
  IsPaged, Holds, Alone, Merged, Holds-lower, merge-IsPaged, push_front-Merged, Alone-no_buddy,
  Alone-outside, Alone-busy,
}
use magic_box.Buddy.Merging.{Elem-linked, merge-Inv, merged_place}

-- What `pfree_pages` promises: it returns, with the pool in order and the block merged.
abbrev pub FreedOk : Owned → (pg order : ℕ) → Freed → Type 0
FreedOk owned pg order (freed b) = Inv b owned (λ p. 0) × Merged pg order b
FreedOk owned pg order assert_failed = ⊥
FreedOk owned pg order null_access = ⊥

even : (f : ℕ) → bit_and f (2 ^ 32 - 2) % 2 ≡ 0
even f = ground (arith, test_bit-bit_and f (2 ^ 32 - 2) 0)

put_back-FreedOk :
    (b : Pool) (owned : Owned) (pg order k curr : ℕ)
    → InPool b k curr
    → Inv b owned (in_block curr k)
    → Holds pg order curr k
    → Alone b k curr
    → FreedOk owned pg order (put_back b k curr)
unfolding put_back push_front set_page
put_back-FreedOk b owned pg order k curr place i held alone =
    elim (Bool-cases (elem curr (b.free_list k))) [
      | inl there ↦ absurd (
          hand_not_free i curr k place.low (omega (arith, place.high, one_le_pow k))
            (omega (arith, in_block_self curr k)) place.order_lt
            (elem-Elem curr (b.free_list k) there))
      | inr absent ↦ rw absent (
        put-Inv b owned (in_block curr k) (λ p. 0) i k curr (bit_and (b.flags curr) (2 ^ 32 - 2))
            (curr ∷ b.free_list k) place (even _) (λ p. omega arith)
            (Grown-front k curr (b.free_list k)),
        push_front-Merged b pg order k curr (bit_and (b.flags curr) (2 ^ 32 - 2)) place.order_lt
            held alone,
      )
    ]

-- What the address of NULL has to be: outside the pool.
abbrev pub NullOutside : Pool → ℕ → Type 0
NullOutside b null_addr = (ltb null_addr b.phy_addr_start || leb (pool_end b) null_addr) ≡ true

merge-NullOutside :
    (b : Pool) (k curr buddy null_addr : ℕ)
    → NullOutside b null_addr
    → NullOutside (merge b k curr buddy) null_addr
unfolding merge
merge-NullOutside b k curr buddy null_addr out = out

buddy_found :
    (b : Pool) (curr k buddy : ℕ)
    → get_buddy_page b curr k ≡ some buddy
    → (bit_xor curr (2 ^ k) ≡ buddy) × (start_pfn b ≤ buddy) × (buddy < end_pfn b)
unfolding get_buddy_page
buddy_found b curr k buddy h = elim (Bool-cases outside) [
  | inl out ↦ absurd (let e : none ≡ some buddy = rw out at h in cc)
  | inr within ↦
      let e : some (bit_xor curr (2 ^ k)) ≡ some buddy = rw within at h in
      let same : bit_xor curr (2 ^ k) ≡ buddy = cc in rw (← same) (refl, ground arith, ground arith)
]
  where
    outside : Bool
    outside = ltb (bit_xor curr (2 ^ k)) (start_pfn b) || leb (end_pfn b) (bit_xor curr (2 ^ k))

free_page : (b : Pool) (pg : ℕ) → page_is_allocated b pg ≡ false → b.flags pg % 2 ≡ 0
unfolding page_is_allocated
free_page b pg h = ground (arith, test_bit-bit_and (b.flags pg) 1 0)

-- A round of the loop, given what the rounds after it do.
module _ (left null_addr : ℕ) (b : Pool) (owned : Owned) (pg order k curr : ℕ)
    (null_out : NullOutside b null_addr) (paged : IsPaged b) (place : InPool b k curr)
    (i : Inv b owned (in_block curr k)) (held : Holds pg order curr k) (k_lt : suc k < max_order)
    (next : (b' : Pool) (curr' : ℕ)
      → NullOutside b' null_addr
      → IsPaged b'
      → InPool b' (k + 1) curr'
      → Inv b' owned (in_block curr' (k + 1))
      → Holds pg order curr' (k + 1)
      → FreedOk owned pg order (free_loop left null_addr b' (k + 1) curr')) where
  stop : Alone b k curr → FreedOk owned pg order (put_back b k curr)
  stop alone = put_back-FreedOk b owned pg order k curr place i held alone

  round :
      (found : Option ℕ)
      → get_buddy_page b curr k ≡ found
      → FreedOk owned pg order (free_loop (suc left) null_addr b k curr)
  unfolding free_loop
  round none e =
      rw (free_loop, e, null_out) (stop (Alone-no_buddy b owned (in_block curr k) k curr i e))
  round (some buddy) e =
      rw (free_loop, e)
        (elim (Bool-cases
          (ltb (page_to_addr buddy) b.phy_addr_start || leb (pool_end b) (page_to_addr buddy))) [
            | inl out ↦ rw out (stop (outside out))
            | inr within ↦
                rw within
                  (elim (Bool-cases (page_is_allocated b buddy || not (b.order buddy == k))) [
                    | inl busy ↦ rw busy (stop (still_busy busy))
                    | inr free ↦
                        rw (free, Elem-linked max_order b buddy k place.order_lt (listed free))
                          (merged (listed free))
                  ])
          ])
    where
      where_it_is : (bit_xor curr (2 ^ k) ≡ buddy) × (start_pfn b ≤ buddy) × (buddy < end_pfn b)
      where_it_is = buddy_found b curr k buddy e

      outside :
          (ltb (page_to_addr buddy) b.phy_addr_start || leb (pool_end b) (page_to_addr buddy))
            ≡ true
          → Alone b k curr
      outside out = Alone-outside b owned (in_block curr k) k curr i paged (
          subst
            (λ x.
              (ltb (page_to_addr x) b.phy_addr_start || leb (pool_end b) (page_to_addr x)) ≡ true)
            (sym where_it_is.0) out)

      still_busy : (page_is_allocated b buddy || not (b.order buddy == k)) ≡ true → Alone b k curr
      still_busy busy = Alone-busy b owned (in_block curr k) k curr i (
          subst (λ x. (page_is_allocated b x || not (b.order x == k)) ≡ true) (sym where_it_is.0)
            busy)

      pair : Pair k curr buddy
      pair = subst (Pair k curr) where_it_is.0 (buddy-Pair k curr)

      listed :
          (page_is_allocated b buddy || not (b.order buddy == k)) ≡ false
          → Elem buddy (b.free_list k)
      listed free =
          buddy_listed b owned k curr buddy i place pair where_it_is.1 where_it_is.2
            (free_page b buddy (ground arith)) (ground arith)

      merged :
          Elem buddy (b.free_list k)
          → FreedOk owned pg order
              (free_loop left null_addr (merge b k curr buddy) (k + 1) (lower curr buddy))
      merged e =
          let e' : suc k ≡ k + 1 = omega arith in
          next (merge b k curr buddy) (lower curr buddy)
            (merge-NullOutside b k curr buddy null_addr null_out)
            (merge-IsPaged b k curr buddy paged)
            (subst (λ x. InPool (merge b k curr buddy) x (lower curr buddy)) e'
              (merged_place b owned k curr buddy i place pair e k_lt))
            (subst (λ x. Inv (merge b k curr buddy) owned (in_block (lower curr buddy) x)) e'
              (merge-Inv b owned k curr buddy i place pair e))
            (subst (Holds pg order (lower curr buddy)) e'
              (Holds-lower pg order k curr buddy pair held))

free_loop-FreedOk :
    (left null_addr : ℕ) (b : Pool) (owned : Owned) (pg order k curr : ℕ)
    → k + left ≡ 10
    → NullOutside b null_addr
    → IsPaged b
    → InPool b k curr
    → Inv b owned (in_block curr k)
    → Holds pg order curr k
    → FreedOk owned pg order (free_loop left null_addr b k curr)
unfolding free_loop
free_loop-FreedOk zero null_addr b owned pg order k curr e out paged place i held =
    put_back-FreedOk b owned pg order k curr place i held (λ more. absurd (omega arith))
free_loop-FreedOk (suc left) null_addr b owned pg order k curr e out paged place i held =
    round left null_addr b owned pg order k curr out paged place i held (omega arith)
      (λ b' curr' out' paged' place' i' held'.
        free_loop-FreedOk left null_addr b' owned pg order (k + 1) curr' (omega arith) out' paged'
          place' i' held')
      (get_buddy_page b curr k) refl

-- On a pool in order, `pfree_pages` of a block that a client owns returns: no `ASSERT` fails and no
-- NULL link is followed. The pool is in order again, and every other owned block stays owned. A block on
-- the free lists holds the freed pages, and it is merged as far as it can be: it has the largest order
-- or its buddy of that order is not free. The pool has to begin at a page and to end below 4 GB, and the
-- address that `PAGE_TO_ADDR` computes of a NULL page has to lie outside it.
pub pfree_pages-FreedOk :
    (null_addr : ℕ) (b : Pool) (owned : Owned) (pg order : ℕ)
    → NullOutside b null_addr
    → IsPaged b
    → Inv b ((pg, order) ∷ owned) (λ p. 0)
    → FreedOk owned pg order (pfree_pages null_addr b pg order)
unfolding pfree_pages owned_cover
pfree_pages-FreedOk null_addr b owned pg order out paged i =
    let mine = i.owned_ok order pg (inl (refl, refl)) in
    let in_hand : Inv b owned (in_block pg order) = record {
      free_ok = i.free_ok;
      owned_ok = λ j a e. i.owned_ok j a (inr e);
      partition = λ p lo hi. omega (arith, i.partition p lo hi);
      counted = i.counted;
    } in
    let valid : ltb order max_order ≡ true = ground (arith, mine.place.order_lt) in
    rw valid (
      free_loop-FreedOk (max_order - 1 - order) null_addr b owned pg order order pg
        (omega (arith, mine.place.order_lt)) out paged mine.place in_hand
        (record { larger = omega arith; begins = omega arith; ends = omega arith }))
