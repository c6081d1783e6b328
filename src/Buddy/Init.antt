-- ===== src/Buddy/Init.antt =====
-- `buddy_init` of mm/buddy.c.
use magic_box.Prelude.{
  ℕ, zero, suc, ◌+◌, ◌-◌, ◌%◌, ◌^◌, ◌<◌, ◌≤◌, ◌≡◌, refl, ltb, leb, ◌==◌, ◌&&◌, if◌then◌else◌, arith,
  [], ◌∷◌, ◌++◌, inl, inr, Bool-cases,
}
use magic_box.Prelude.Bits.{one_le_pow}
use magic_box.Buddy.{
  Pool, max_order, start_pfn, end_pfn, set_page, push_back, find_order, init_loop, buddy_init,
}
use magic_box.Buddy.Blocks.{in_block, IsAligned}
use magic_box.Buddy.Cover.{cover, cover_list}
use magic_box.Buddy.Owned.{Inv, InPool, owned_cover, Inv-hand}
use magic_box.Buddy.Moves.{put-Inv, Grown-back}

-- The order that the inner loop settles on: aligned, inside, and no larger than it started.
find_order-fits :
    (n curr end : ℕ)
    → curr < end
    → IsAligned (find_order n curr end) curr
      × (curr + 2 ^ find_order n curr end ≤ end)
      × (find_order n curr end ≤ n)
unfolding find_order
find_order-fits zero curr end lt = (omega arith, omega arith, omega arith)
find_order-fits (suc n) curr end lt =
    elim (Bool-cases ((curr % 2 ^ suc n == 0) && leb (curr + 2 ^ suc n) end)) [
      | inl fits ↦ rw fits (ground arith, ground arith, omega arith)
      | inr larger ↦
          let ih = find_order-fits n curr end lt in rw larger (ih.0, ih.1, omega (arith, ih.2))
    ]

-- The pages that the outer loop has still to list.
abbrev pending : ℕ → ℕ → ℕ → ℕ
pending curr end p = if leb curr p && ltb p end then 1 else 0

pending-block :
    (curr k end p : ℕ)
    → curr + 2 ^ k ≤ end
    → pending curr end p ≡ in_block curr k p + pending (curr + 2 ^ k) end p
unfolding in_block
pending-block curr k end p le = ground (arith, one_le_pow k)

listed-Inv :
    (b : Pool) (curr end k : ℕ)
    → InPool b k curr
    → curr + 2 ^ k ≤ end
    → Inv b [] (pending curr end)
    → Inv (push_back (set_page b curr k 0) k curr) [] (pending (curr + 2 ^ k) end)
unfolding push_back set_page
listed-Inv b curr end k place le i =
    put-Inv b [] (pending curr end) (pending (curr + 2 ^ k) end) i k curr 0
      (b.free_list k ++ (curr ∷ [])) place refl (λ p. pending-block curr k end p le)
      (Grown-back k curr (b.free_list k))

same_bounds :
    (b : Pool) (curr k f : ℕ)
    → (start_pfn (push_back (set_page b curr k f) k curr) ≡ start_pfn b)
      × (end_pfn (push_back (set_page b curr k f) k curr) ≡ end_pfn b)
unfolding push_back set_page
same_bounds b curr k f = (refl, refl)

init_loop-Inv :
    (fuel : ℕ) (b : Pool) (curr : ℕ)
    → start_pfn b ≤ curr
    → end_pfn b ≤ curr + fuel
    → Inv b [] (pending curr (end_pfn b))
    → Inv (init_loop fuel b curr (end_pfn b)) [] (λ p. 0)
unfolding init_loop
init_loop-Inv zero b curr lo enough i = Inv-hand (λ p. 0) i (λ p. ground arith)
init_loop-Inv (suc fuel) b curr lo enough i = elim (Bool-cases (ltb curr (end_pfn b))) [
  | inl more ↦
      let k : ℕ = find_order 10 curr (end_pfn b) in
      let fits = find_order-fits 10 curr (end_pfn b) (ground arith) in
      let b' : Pool = push_back (set_page b curr k 0) k curr in
      let bounds = same_bounds b curr k 0 in
      let place : InPool b k curr = record {
        order_lt = omega (arith, fits.2);
        aligned = fits.0;
        low = lo;
        high = fits.1;
      } in
      let ih =
        init_loop-Inv fuel b' (curr + 2 ^ k) (omega (arith, bounds.0))
          (omega (arith, bounds.1, one_le_pow k))
          (rw (bounds.1) (listed-Inv b curr (end_pfn b) k place fits.1 i)) in
      rw more (rw (bounds.1) at ih)
  | inr done ↦ rw done (Inv-hand (λ p. 0) i (λ p. ground arith))
]

pub cover-none : (n : ℕ) (p : ℕ) → cover n (λ k. []) p ≡ 0
unfolding cover cover_list
cover-none zero p = refl
cover-none (suc n) p = omega (arith, cover-none n p)

-- `buddy_init` leaves the pool in order with no block owned: each page of the pool stands in exactly
-- one free block, and each block is aligned, inside the pool and of the order that its page records.
pub buddy_init-Inv :
    (order flags : ℕ → ℕ) (start_addr size : ℕ)
    → Inv (buddy_init order flags start_addr size) [] (λ p. 0)
unfolding buddy_init owned_cover
buddy_init-Inv order flags start_addr size =
    init_loop-Inv (end_pfn empty - start_pfn empty) empty (start_pfn empty) (omega arith)
      (omega arith)
      (record {
        free_ok = λ j a lt e. absurd e;
        owned_ok = λ j a e. absurd e;
        partition = λ p lo hi. ground (arith, cover-none max_order p);
        counted = λ k lt. refl;
      })
  where
    empty : Pool
    empty = record {
      free_list = λ k. [];
      nr_free = λ k. 0;
      order = order;
      flags = flags;
      phy_addr_start = start_addr;
      pool_size = size;
    }
