-- ===== src/Buddy/Merging.antt =====
-- A merge in the loop of `pfree_pages` of mm/buddy.c keeps the invariant of the pool.
use magic_box.Prelude.{
  ℕ, zero, suc, ◌+◌, ◌^◌, ◌<◌, ◌≤◌, ◌≡◌, ◌≢◌, inl, inr, sym, subst, ◌∙◌, true, ◌==◌, arith,
  Bool-cases, ==_iff,
}
use magic_box.Prelude.Bits.{one_le_pow}
use magic_box.Buddy.{Pool, max_order, update, start_pfn, end_pfn, erase, linked, merge, decr}
use magic_box.Buddy.Blocks.{in_block, in_block_self, Pair, Pair-block, lower}
use magic_box.Buddy.Cover.{
  Elem, Elem-elem, erase-not_Elem, cover_list-erase, length-erase, Elem-erase,
}
use magic_box.Buddy.Owned.{Inv, InPool, FreeOk, Owned, Inv-hand, hand_not_free}
use magic_box.Buddy.Moves.{took-Inv}

-- The order of a page in hand is free to change.
Inv-order :
    (b : Pool) (owned : Owned) (hand : ℕ → ℕ) (c v : ℕ)
    → Inv b owned hand
    → start_pfn b ≤ c
    → c < end_pfn b
    → 0 < hand c
    → Inv (record b { order = update b.order c v }) owned hand
Inv-order b owned hand c v i lo hi held = record {
  free_ok = λ j a lt e.
      let ok = i.free_ok j a lt e in
      let ne : a ≢ c =
        λ same. hand_not_free i c j lo hi held lt (subst (λ x. Elem x (b.free_list j)) same e) in
      record { place = ok.place; order_ok = ground (arith, ok.order_ok); flag_ok = ok.flag_ok };
  owned_ok =
      λ j a e. let ok = i.owned_ok j a e in record { place = ok.place; flag_ok = ok.flag_ok };
  partition = i.partition;
  counted = i.counted;
}

pub Elem-linked :
    (n : ℕ) (b : Pool) (pg k : ℕ) → k < n → Elem pg (b.free_list k) → linked n b pg ≡ true
unfolding linked
Elem-linked zero b pg k lt e = absurd (omega arith)
Elem-linked (suc n) b pg k lt e = elim (Bool-cases (k == n)) [
  | inl here ↦
      let e' = subst (λ x. Elem pg (b.free_list x)) ((==_iff k n).0 here) e in
      ground (arith, Elem-elem pg (b.free_list n) e')
  | inr below ↦ ground (arith, Elem-linked n b pg k (ground arith) e)
]

-- The merge of a block in hand with its free buddy.
module _ (b : Pool) (owned : Owned) (k curr buddy : ℕ) (i : Inv b owned (in_block curr k))
    (place : InPool b k curr) (pair : Pair k curr buddy) (listed : Elem buddy (b.free_list k)) where
  buddy_ok : FreeOk b k buddy
  buddy_ok = i.free_ok k buddy place.order_lt listed

  abbrev erased : Pool
  erased = record b {
    free_list = λ j. erase buddy (b.free_list j);
    nr_free = update b.nr_free k (decr (b.nr_free k));
  }

  -- No other area links the buddy.
  only_here : (j : ℕ) → j < max_order → j ≢ k → erase buddy (b.free_list j) ≡ b.free_list j
  only_here j lt ne =
      erase-not_Elem buddy (b.free_list j)
        (λ e. ne (sym (i.free_ok j buddy lt e).order_ok ∙ buddy_ok.order_ok))

  erased-Inv : Inv erased owned (λ p. in_block curr k p + in_block buddy k p)
  erased-Inv =
      took-Inv b owned (in_block curr k) i k buddy (λ j. erase buddy (b.free_list j)) place.order_lt
        only_here
        (record {
          members = λ a e. Elem-erase buddy a (b.free_list k) e;
          pages = λ p. cover_list-erase k buddy (b.free_list k) p listed;
          size = length-erase buddy (b.free_list k) listed;
        })

  lower_in : (start_pfn b ≤ lower curr buddy) × (lower curr buddy + 2 ^ suc k ≤ end_pfn b)
  lower_in = bounds pair
    where
      bounds :
          Pair k curr buddy
          → (start_pfn b ≤ lower curr buddy) × (lower curr buddy + 2 ^ suc k ≤ end_pfn b)
      bounds (inl (e, q)) =
          ground (arith, e, place.low, place.high, buddy_ok.place.low, buddy_ok.place.high)
      bounds (inr (e, q)) =
          ground (arith, e, place.low, place.high, buddy_ok.place.low, buddy_ok.place.high)

  pub merged_place : suc k < max_order → InPool (merge b k curr buddy) (suc k) (lower curr buddy)
  unfolding merge
  merged_place lt = record {
    order_lt = lt;
    aligned = (Pair-block k curr buddy pair place.aligned).0;
    low = lower_in.0;
    high = lower_in.1;
  }

  pub merge-Inv : Inv (merge b k curr buddy) owned (in_block (lower curr buddy) (suc k))
  unfolding merge
  merge-Inv =
      let whole : Inv erased owned (in_block (lower curr buddy) (suc k)) =
        Inv-hand (in_block (lower curr buddy) (suc k)) erased-Inv
          (Pair-block k curr buddy pair place.aligned).1 in
      Inv-order erased owned (in_block (lower curr buddy) (suc k)) (lower curr buddy) (k + 1) whole
        lower_in.0 (omega (arith, lower_in.1, one_le_pow (suc k)))
        (omega (arith, in_block_self (lower curr buddy) (suc k)))
