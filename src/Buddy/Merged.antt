-- ===== src/Buddy/Merged.antt =====
-- The block that `pfree_pages` of mm/buddy.c puts back: the freed pages, merged with free buddies as far
-- as there are any.
use magic_box.Prelude.{
  ℕ, suc, ◌+◌, ◌%◌, ◌^◌, ◌<◌, ◌≤◌, ◌≡◌, ◌≢◌, inl, inr, refl, true, false, ltb, leb, ◌==◌, ◌||◌, not,
  arith, ◌∷◌, none, some, bit_xor,
}
use magic_box.Prelude.Bits.{one_le_pow, test_bit-bit_and, bit_and-le}
use magic_box.Buddy.{
  Pool, max_order, start_pfn, end_pfn, pool_end, page_to_addr, push_front, set_page, get_buddy_page,
  page_is_allocated, merge,
}
use magic_box.Buddy.Blocks.{Pair, buddy-Pair, lower}
use magic_box.Buddy.Cover.{Elem}
use magic_box.Buddy.Owned.{Inv, FreeOk, Owned}

-- The pool begins at a page and ends below 4 GB.
pub record IsPaged (b : Pool) : Type 0 where
  pub no_wrap : b.phy_addr_start + b.pool_size < 2 ^ 32
  pub at_page : b.phy_addr_start % 4096 ≡ 0

-- The block of order `k` at `a` holds that of the given order at `pg`.
pub record Holds (pg order a k : ℕ) : Type 0 where
  pub larger : order ≤ k
  pub begins : a ≤ pg
  pub ends : pg + 2 ^ order ≤ a + 2 ^ k

-- The buddy of a block is not free, if the block can be merged at all.
abbrev pub Alone : Pool → (k a : ℕ) → Type 0
Alone b k a = suc k < max_order → ¬ Elem (bit_xor a (2 ^ k)) (b.free_list k)

-- A free block that holds the freed pages and has no free buddy.
pub record Merged (pg order : ℕ) (b : Pool) : Type 0 where
  pub k : ℕ
  pub block : ℕ
  pub k_lt : k < max_order
  pub listed : Elem block (b.free_list k)
  pub holds : Holds pg order block k
  pub alone : Alone b k block

pub Holds-lower :
    (pg order k curr buddy : ℕ)
    → Pair k curr buddy
    → Holds pg order curr k
    → Holds pg order (lower curr buddy) (suc k)
Holds-lower pg order k curr buddy (inl (e, even)) h = record {
  larger = omega (arith, h.larger);
  begins = ground (arith, h.begins, e);
  ends = ground (arith, h.ends, e);
}
Holds-lower pg order k curr buddy (inr (e, even)) h = record {
  larger = omega (arith, h.larger);
  begins = ground (arith, h.begins, e);
  ends = ground (arith, h.ends, e);
}

pub merge-IsPaged : (b : Pool) (k curr buddy : ℕ) → IsPaged b → IsPaged (merge b k curr buddy)
unfolding merge
merge-IsPaged b k curr buddy g = record { no_wrap = g.no_wrap; at_page = g.at_page }

buddy_ne : (k a : ℕ) → a ≢ bit_xor a (2 ^ k)
buddy_ne k a same = by_pair (buddy-Pair k a)
  where
    by_pair : Pair k a (bit_xor a (2 ^ k)) → ⊥
    by_pair (inl (e, even)) = omega (arith, e, same, one_le_pow k)
    by_pair (inr (e, even)) = omega (arith, e, same, one_le_pow k)

pub push_front-Merged :
    (b : Pool) (pg order k curr f : ℕ)
    → k < max_order
    → Holds pg order curr k
    → Alone b k curr
    → Merged pg order (push_front (set_page b curr k f) k curr)
unfolding push_front set_page
push_front-Merged b pg order k curr f lt h alone =
    let self : (k == k) ≡ true = ground arith in
    record {
      k = k;
      block = curr;
      k_lt = lt;
      listed = rw self (inl refl);
      holds = h;
      alone = rw self (λ more. by_place (alone more));
    }
  where
    by_place :
        ¬ Elem (bit_xor curr (2 ^ k)) (b.free_list k)
        → ¬ Elem (bit_xor curr (2 ^ k)) (curr ∷ b.free_list k)
    by_place absent (inl e) = buddy_ne k curr e
    by_place absent (inr e) = absent e

-- Each way out of the merging loop has no free buddy.
module _ (b : Pool) (owned : Owned) (hand : ℕ → ℕ) (k curr : ℕ) (i : Inv b owned hand) where
  buddy_ok :
      suc k < max_order
      → Elem (bit_xor curr (2 ^ k)) (b.free_list k)
      → FreeOk b k (bit_xor curr (2 ^ k))
  buddy_ok lt e = i.free_ok k (bit_xor curr (2 ^ k)) (omega arith) e

  pub Alone-no_buddy : get_buddy_page b curr k ≡ none → Alone b k curr
  unfolding get_buddy_page
  Alone-no_buddy h lt e =
      let place = (buddy_ok lt e).place in
      let within : (ltb (bit_xor curr (2 ^ k)) (start_pfn b)
            || leb (end_pfn b) (bit_xor curr (2 ^ k)))
          ≡ false =
        ground (arith, place.low, place.high, one_le_pow k) in
      let found : some (bit_xor curr (2 ^ k)) ≡ none = rw within at h in cc

  pub Alone-outside :
      IsPaged b
      → (ltb (page_to_addr (bit_xor curr (2 ^ k))) b.phy_addr_start
          || leb (pool_end b) (page_to_addr (bit_xor curr (2 ^ k))))
        ≡ true
      → Alone b k curr
  Alone-outside g h lt e =
      let place = (buddy_ok lt e).place in
      ground (arith, h, g.no_wrap, g.at_page, place.low, place.high, one_le_pow k)

  pub Alone-busy :
      (page_is_allocated b (bit_xor curr (2 ^ k)) || not (b.order (bit_xor curr (2 ^ k)) == k))
        ≡ true
      → Alone b k curr
  unfolding page_is_allocated
  Alone-busy h lt e =
      let ok = buddy_ok lt e in
      ground (
        arith,
        h,
        ok.flag_ok,
        ok.order_ok,
        test_bit-bit_and (b.flags (bit_xor curr (2 ^ k))) 1 0,
        bit_and-le 1 (b.flags (bit_xor curr (2 ^ k))) 1 (omega arith),
      )
