-- ===== src/Buddy/Owned.antt =====
-- The invariant of a pool, with the blocks that its clients own and one that is in hand.
use magic_box.Prelude.{ℕ, ◌+◌, ◌%◌, ◌^◌, ◌<◌, ◌≤◌, ◌≡◌, ◌⊎◌, inl, inr, arith, List, [], ◌∷◌, length}
use magic_box.Buddy.{Pool, max_order, start_pfn, end_pfn}
use magic_box.Buddy.Blocks.{IsAligned, in_block, in_block_self}
use magic_box.Buddy.Cover.{Elem, cover, cover-Elem}

-- The pool ends below 4 GB.
pub record Geometry (b : Pool) : Type 0 where
  pub no_wrap : b.phy_addr_start + b.pool_size < 2 ^ 32

-- A block of order `j` at `a` lies in the pool.
pub record InRange (start end j a : ℕ) : Type 0 where
  pub order_lt : j < max_order
  pub aligned : IsAligned j a
  pub low : start ≤ a
  pub high : a + 2 ^ j ≤ end

abbrev pub InPool : Pool → ℕ → ℕ → Type 0
InPool b j a = InRange (start_pfn b) (end_pfn b) j a

-- A block of a free list has its order and a clear flag.
pub record FreeOk (b : Pool) (j a : ℕ) : Type 0 where
  pub place : InPool b j a
  pub order_ok : b.order a ≡ j
  pub flag_ok : b.flags a % 2 ≡ 0

-- A block that a client owns has its flag set.
pub record OwnedOk (b : Pool) (j a : ℕ) : Type 0 where
  pub place : InPool b j a
  pub flag_ok : b.flags a % 2 ≡ 1

-- A block is its first page and its order.
abbrev pub Owned : Type 0
Owned = List (ℕ × ℕ)

abbrev pub Owns : ℕ → ℕ → Owned → Type 0
Owns a j [] = ⊥
Owns a j ((x, i) ∷ o) = ((x ≡ a) × (i ≡ j)) ⊎ Owns a j o

unfoldable pub owned_cover : Owned → ℕ → ℕ
owned_cover [] p = 0
owned_cover ((a, j) ∷ o) p = in_block a j p + owned_cover o p

-- `hand p` is 1 for the pages of the block in hand.
pub record Inv (b : Pool) (owned : Owned) (hand : ℕ → ℕ) : Type 0 where
  pub free_ok : (j a : ℕ) → j < max_order → Elem a (b.free_list j) → FreeOk b j a
  pub owned_ok : (j a : ℕ) → Owns a j owned → OwnedOk b j a
  pub partition :
      (p : ℕ)
      → start_pfn b ≤ p
      → p < end_pfn b
      → cover max_order b.free_list p + owned_cover owned p + hand p ≡ 1
  pub counted : (k : ℕ) → k < max_order → b.nr_free k ≡ length (b.free_list k) % 2 ^ 32

pub owned_cover-Owns : (o : Owned) (a j p : ℕ) → Owns a j o → in_block a j p ≤ owned_cover o p
unfolding owned_cover
owned_cover-Owns [] a j p e = absurd e
owned_cover-Owns ((x, i) ∷ o) a j p (inl e) = rw (e.0, e.1) (omega arith)
owned_cover-Owns ((x, i) ∷ o) a j p (inr e) = omega (arith, owned_cover-Owns o a j p e)

-- A page in hand starts no free block and no owned block.
module _ {b : Pool} {owned : Owned} {hand : ℕ → ℕ} (i : Inv b owned hand) where
  pub hand_not_free :
      (a j : ℕ)
      → start_pfn b ≤ a
      → a < end_pfn b
      → 0 < hand a
      → j < max_order
      → ¬ Elem a (b.free_list j)
  hand_not_free a j lo hi h lt e =
      omega
        (arith, i.partition a lo hi, cover-Elem max_order b.free_list j a a lt e, in_block_self a j)

  pub hand_not_owned : (a j : ℕ) → start_pfn b ≤ a → a < end_pfn b → 0 < hand a → ¬ Owns a j owned
  hand_not_owned a j lo hi h e =
      omega (arith, i.partition a lo hi, owned_cover-Owns owned a j a e, in_block_self a j)

pub Inv-hand :
    {b : Pool} {owned : Owned} {hand : ℕ → ℕ} (hand' : ℕ → ℕ)
    → Inv b owned hand
    → ((p : ℕ) → hand' p ≡ hand p)
    → Inv b owned hand'
Inv-hand hand' i same = record {
  free_ok = i.free_ok;
  owned_ok = i.owned_ok;
  partition = λ p lo hi. omega (arith, i.partition p lo hi, same p);
  counted = i.counted;
}
