-- ===== src/Buddy/Tests.antt =====
-- The theorems on the allocator at small pools.
use magic_box.Prelude.{ℕ, ◌<◌, ◌≡◌, ◌⊎◌, inl, inr, refl, ◌==◌, arith, [], ◌∷◌, Bool-cases, ==_iff}
use magic_box.Buddy.{
  Pool, max_order, update, buddy_init, init_loop, find_order, push_back, set_page, palloc_pages,
  pfree_pages,
}
use magic_box.Buddy.Blocks.{in_block}
use magic_box.Buddy.Cover.{Elem, cover, cover_list}
use magic_box.Buddy.Owned.{Inv, Geometry, FreeOk, OwnedOk, Owns, owned_cover}
use magic_box.Buddy.Alloc.{AllocOk, palloc_pages-AllocOk}
use magic_box.Buddy.Free.{FreedOk, pfree_pages-FreedOk}
use magic_box.Buddy.Init.{buddy_init-Inv}

-- Six pages from page 4 on.
abbrev six_pages : Pool
six_pages = buddy_init (λ p. 0) (λ p. 0) 16384 24576

six_pages-Geometry : Geometry six_pages
unfolding buddy_init init_loop find_order push_back set_page
six_pages-Geometry = record { no_wrap = omega arith }

buddy_init-Inv_example : Inv (buddy_init (λ p. 0) (λ p. 0) 16384 24576) [] (λ p. 0)
buddy_init-Inv_example = buddy_init-Inv (λ p. 0) (λ p. 0) 16384 24576

palloc_pages-AllocOk_example : AllocOk six_pages [] 0 (palloc_pages six_pages 0)
palloc_pages-AllocOk_example =
    palloc_pages-AllocOk six_pages [] 0 six_pages-Geometry
      (buddy_init-Inv (λ p. 0) (λ p. 0) 16384 24576) (omega arith)

-- Two pages: page 0 is owned, page 1 is free.
abbrev half_owned : Pool
half_owned = record {
  free_list = update (λ k. []) 0 (1 ∷ []);
  nr_free = update (λ k. 0) 0 1;
  order = λ p. 0;
  flags = update (λ p. 0) 0 1;
  phy_addr_start = 0;
  pool_size = 8192;
}

free_page_ok : (j a : ℕ) → j < max_order → Elem a (half_owned.free_list j) → FreeOk half_owned j a
free_page_ok j a lt e = elim (Bool-cases (j == 0)) [
  | inl here ↦ first ((==_iff j 0).0 here) (rw here at e)
  | inr other ↦ absurd (rw other at e)
]
  where
    first : j ≡ 0 → (1 ≡ a) ⊎ ⊥ → FreeOk half_owned j a
    first e (inl p) = record {
      place = record {
        order_lt = lt;
        aligned = rw e (omega arith);
        low = omega arith;
        high = rw e (omega arith);
      };
      order_ok = omega arith;
      flag_ok = ground arith;
    }
    first e (inr p) = absurd p

owned_page_ok : (j a : ℕ) → Owns a j ((0, 0) ∷ []) → OwnedOk half_owned j a
owned_page_ok j a (inl (p, q)) = record {
  place = record {
    order_lt = omega arith;
    aligned = rw (← p) (ground arith);
    low = omega arith;
    high = rw (← q) (omega arith);
  };
  flag_ok = ground arith;
}
owned_page_ok j a (inr e) = absurd e

half_owned-Inv : Inv half_owned ((0, 0) ∷ []) (λ p. 0)
unfolding cover cover_list owned_cover in_block
half_owned-Inv = record {
  free_ok = free_page_ok;
  owned_ok = owned_page_ok;
  partition = λ p lo hi. ground arith;
  counted = λ k lt. ground arith;
}

pfree_pages-FreedOk_example : FreedOk [] 0 0 (pfree_pages 0x40000000 half_owned 0 0)
pfree_pages-FreedOk_example =
    pfree_pages-FreedOk 0x40000000 half_owned [] 0 0 refl
      (record { no_wrap = omega arith; at_page = omega arith }) half_owned-Inv
