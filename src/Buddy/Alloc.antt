-- ===== src/Buddy/Alloc.antt =====
-- `palloc_pages` of mm/buddy.c.
use native.Mathlib.Nat.{pow-suc, add-mod_right}
use magic_box.Prelude.{
  ℕ, zero, suc, ◌+◌, ◌-◌, ◌%◌, ◌^◌, ◌<◌, ◌≤◌, ◌≡◌, ◌≢◌, inl, inr, refl, ap, subst, ◌∙◌, true, false,
  leb, ◌==◌, arith, List, [], ◌∷◌, ◌++◌, Bool-cases, ==_iff, Option, none, some, bit_or,
}
use magic_box.Prelude.Bits.{one_le_pow, pow-le, test_bit-bit_or}
use magic_box.Buddy.{
  Pool, max_order, update, start_pfn, end_pfn, pool_end, page_to_addr, decr, set_page, push_back,
  find_area, split, mark_allocated, take_block, palloc_pages,
}
use magic_box.Buddy.Blocks.{in_block, in_block-halves, finer-IsAligned, IsAligned}
use magic_box.Buddy.Cover.{cover_list}
use magic_box.Buddy.Owned.{Inv, InPool, InRange, Geometry, Owned, Inv-hand}
use magic_box.Buddy.Moves.{put-Inv, took-Inv, own-Inv, Grown-back, Shrunk}

-- The search for an area stops at the first one, from `k` up, that is not empty.
record Searched (b : Pool) (k r : ℕ) : Type 0 where
  from : k ≤ r
  upto : r ≤ max_order
  empty_below : (j : ℕ) → k ≤ j → j < r → b.free_list j ≡ []
  found : r < max_order → b.free_list r ≢ []

search_step :
    (left : ℕ) (b : Pool) (k : ℕ) (l : List ℕ)
    → b.free_list k ≡ l
    → k < max_order
    → Searched b (k + 1) (find_area left b (k + 1))
    → Searched b k (find_area (suc left) b k)
unfolding find_area
search_step left b k [] nil lt next = rw nil (record {
  from = omega (arith, next.from);
  upto = next.upto;
  empty_below = λ j p q. below j p q;
  found = next.found;
})
  where
    below : (j : ℕ) → k ≤ j → j < find_area left b (k + 1) → b.free_list j ≡ []
    below j p q = elim (Bool-cases (j == k)) [
      | inl here ↦ ap b.free_list ((==_iff j k).0 here) ∙ nil
      | inr later ↦ next.empty_below j (ground arith) q
    ]
search_step left b k (x ∷ xs) cons lt next = rw cons (record {
  from = omega arith;
  upto = omega arith;
  empty_below = λ j p q. absurd (omega arith);
  found = λ p nil. cc;
})

find_area-Searched :
    (left : ℕ) (b : Pool) (k : ℕ) → k + left ≡ max_order → Searched b k (find_area left b k)
unfolding find_area
find_area-Searched zero b k e = record {
  from = omega arith;
  upto = omega arith;
  empty_below = λ j p q. absurd (omega arith);
  found = λ p. absurd (omega arith);
}
find_area-Searched (suc left) b k e =
    search_step left b k (b.free_list k) refl (omega arith)
      (find_area-Searched left b (k + 1) (omega arith))

-- The two halves of a block in the pool.
InRange-halves :
    (start end k pg : ℕ)
    → InRange start end (suc k) pg
    → InRange start end k pg × InRange start end k (pg + 2 ^ k)
InRange-halves start end k pg place =
    let al : IsAligned k pg =
      finer-IsAligned 1 k pg (let e : k + 1 ≡ suc k = omega arith in rw e place.aligned) in
    let room = pow-suc 2 k in
    (
      record {
        order_lt = omega (arith, place.order_lt);
        aligned = al;
        low = place.low;
        high = omega (arith, place.high);
      },
      record {
        order_lt = omega (arith, place.order_lt);
        aligned = add-mod_right pg (2 ^ k) ∙ al;
        low = omega (arith, place.low);
        high = omega (arith, place.high);
      },
    )

-- What the splitting loop leaves: the block in hand has the wanted order, the rest is on the lists.
record SplitOk (b b' : Pool) (owned : Owned) (order pg : ℕ) : Type 0 where
  inv : Inv b' owned (in_block pg order)
  same_start : b'.phy_addr_start ≡ b.phy_addr_start
  same_size : b'.pool_size ≡ b.pool_size

module _ (b : Pool) (m pg : ℕ) where
  -- The pool after the upper half of a block went onto its list.
  abbrev halved : Pool
  halved = push_back (set_page b (pg + 2 ^ m) m 0) m (pg + 2 ^ m)

  inside : Geometry b → InPool b (suc m) pg → leb (pool_end b) (page_to_addr (pg + 2 ^ m)) ≡ false
  inside g place =
      let half = (InRange-halves (start_pfn b) (end_pfn b) m pg place).1 in
      ground (arith, g.no_wrap, half.high, one_le_pow m)

halved-Inv :
    (b : Pool) (owned : Owned) (m pg : ℕ)
    → InPool b (suc m) pg
    → Inv b owned (in_block pg (suc m))
    → Inv (halved b m pg) owned (in_block pg m)
unfolding push_back set_page
halved-Inv b owned m pg place i =
    put-Inv b owned (in_block pg (suc m)) (in_block pg m) i m (pg + 2 ^ m) 0
      (b.free_list m ++ ((pg + 2 ^ m) ∷ [])) (InRange-halves (start_pfn b) (end_pfn b) m pg place).1
      refl (λ p. omega (arith, in_block-halves pg m p)) (Grown-back m (pg + 2 ^ m) (b.free_list m))

odd : (f : ℕ) → bit_or f 1 % 2 ≡ 1
odd f = ground (arith, test_bit-bit_or f 1 0)

split-SplitOk :
    (d : ℕ) (b : Pool) (owned : Owned) (order pg k : ℕ)
    → k ≡ order + d
    → Geometry b
    → InPool b k pg
    → Inv b owned (in_block pg k)
    → SplitOk b (split d b order pg) owned order pg
unfolding split push_back set_page
split-SplitOk zero b owned order pg k e g place i = record {
  inv = let e' : k ≡ order = omega arith in subst (λ x. Inv b owned (in_block pg x)) e' i;
  same_start = refl;
  same_size = refl;
}
split-SplitOk (suc d) b owned order pg k e g place i =
    let k_suc : k ≡ suc (order + d) = omega arith in
    let place' = subst (λ x. InPool b x pg) k_suc place in
    let i' = subst (λ x. Inv b owned (in_block pg x)) k_suc i in
    let rest =
      split-SplitOk d (halved b (order + d) pg) owned order pg (order + d) refl
        (record { no_wrap = g.no_wrap })
        (InRange-halves (start_pfn b) (end_pfn b) (order + d) pg place').0
        (halved-Inv b owned (order + d) pg place' i') in
    rw (inside b (order + d) pg g place')
      (record { inv = rest.inv; same_start = rest.same_start; same_size = rest.same_size })

-- The block that the search found, taken from its list.
module _ (b : Pool) (owned : Owned) (order k pg : ℕ) (xs : List ℕ) (g : Geometry b)
    (i : Inv b owned (λ p. 0)) (k_lt : k < max_order) (le : order ≤ k)
    (cons : b.free_list k ≡ pg ∷ xs) where
  abbrev without : Pool
  without = record b {
    free_list = update b.free_list k xs;
    nr_free = update b.nr_free k (decr (b.nr_free k));
  }

  first : Shrunk k pg (b.free_list k) (update b.free_list k xs k)
  unfolding cover_list
  first =
      let same : k == k ≡ true = ground arith in
      rw (same, cons) (record { members = λ a e. inr e; pages = λ p. omega arith; size = refl })

  without-Inv : Inv without owned (in_block pg k)
  without-Inv =
      Inv-hand (in_block pg k)
        (took-Inv b owned (λ p. 0) i k pg (update b.free_list k xs) k_lt (λ j lt ne. ground arith)
          first)
        (λ p. omega arith)

  place : InPool b k pg
  place = (i.free_ok k pg k_lt (rw cons (inl refl))).place

  done : SplitOk without (split (k - order) without order pg) owned order pg
  done =
      split-SplitOk (k - order) without owned order pg k (omega arith)
        (record { no_wrap = g.no_wrap }) place without-Inv

  -- The block that goes out is aligned and lies in the pool.
  small : InPool b order pg
  small = record {
    order_lt = omega arith;
    aligned =
        finer-IsAligned (k - order) order pg
          (subst (λ x. IsAligned x pg) (omega arith) place.aligned);
    low = place.low;
    high = omega (arith, place.high, pow-le order k le);
  }

  marked-Inv :
      Inv
        (mark_allocated (split (k - order) without order pg) order pg)
        ((pg, order) ∷ owned)
        (λ p. 0)
  unfolding mark_allocated set_page
  marked-Inv =
      own-Inv (split (k - order) without order pg) owned (in_block pg order) (λ p. 0) done.inv order
        pg (bit_or ((split (k - order) without order pg).flags pg) 1)
        (rw (done.same_start, done.same_size) small) (odd _) (λ p. omega arith)

-- What `palloc_pages` promises, by its result.
abbrev pub AllocOk : Pool → Owned → ℕ → Option (ℕ × Pool) → Type 0
AllocOk b owned order none = (j : ℕ) → order ≤ j → j < max_order → b.free_list j ≡ []
AllocOk b owned order (some (pg, b')) = Inv b' ((pg, order) ∷ owned) (λ p. 0)

-- On a pool in order, `palloc_pages` gives out a block of the wanted order that is aligned, lies in
-- the pool and shares no page with a block that is owned or free, and keeps the pool in order with
-- this block among the owned ones; it gives NULL only if no area holds a block that is large enough.
pub palloc_pages-AllocOk :
    (b : Pool) (owned : Owned) (order : ℕ)
    → Geometry b
    → Inv b owned (λ p. 0)
    → order < max_order
    → AllocOk b owned order (palloc_pages b order)
unfolding palloc_pages
palloc_pages-AllocOk b owned order g i lt = elim (Bool-cases (k == max_order)) [
  | inl out ↦
      rw out
        λ j le j_lt. searched.empty_below j le (omega (arith, j_lt, (==_iff k max_order).0 out))
  | inr there ↦ rw there (from_list (b.free_list k) refl (ground (arith, searched.upto)))
]
  where
    k : ℕ
    k = find_area (max_order - order) b order

    searched : Searched b order k
    searched = find_area-Searched (max_order - order) b order (omega arith)

    from_list :
        (l : List ℕ)
        → b.free_list k ≡ l
        → k < max_order
        → AllocOk b owned order (take_block b order k l)
    from_list [] nil k_lt = absurd (searched.found k_lt nil)
    from_list (pg ∷ xs) cons k_lt = marked-Inv b owned order k pg xs g i k_lt searched.from cons
