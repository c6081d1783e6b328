-- ===== src/Buddy/Partner.antt =====
-- Why the buddy that `pfree_pages` of mm/buddy.c finds free stands on the list of its order: a stale
-- `order` in the middle of a larger block cannot mislead it.
use magic_box.Prelude.{
  ℕ, suc, ◌+◌, ◌-◌, ◌*◌, ◌/◌, ◌%◌, ◌^◌, ◌<◌, ◌≤◌, ◌≡◌, ◌⊎◌, inl, inr, refl, ap, sym, subst, ◌∙◌,
  ltb, leb, arith, [], ◌∷◌, Bool-cases,
}
use magic_box.Prelude.Bits.{one_le_pow}
use magic_box.Buddy.{Pool, max_order, start_pfn, end_pfn}
use magic_box.Buddy.Blocks.{
  in_block, in_block_self, in_block-quotient, in_block-le, quotient-in_block, IsAligned,
  aligned_mul, finer-IsAligned, coarser, Pair, Pair-quotient, Pair-IsAligned,
}
use magic_box.Buddy.Cover.{Elem, cover, cover-find, cover-Elem}
use magic_box.Buddy.Owned.{Inv, InPool, Owned, Owns, owned_cover, owned_cover-Owns}

-- A block that holds the buddy begins there or holds the block itself too.
holds_both :
    (k j a curr buddy : ℕ)
    → IsAligned j a
    → IsAligned k curr
    → Pair k curr buddy
    → 0 < in_block a j buddy
    → (a ≡ buddy) ⊎ (in_block a j curr ≡ 1)
holds_both k j a curr buddy al al' pair h =
    let one : in_block a j buddy ≡ 1 = omega (arith, h, in_block-le a j buddy) in
    let q = in_block-quotient a j buddy al one in
    elim (Bool-cases (leb j k)) [
      | inl small ↦
          let e : k ≡ j + (k - j) = ground arith in
          let al_b =
            finer-IsAligned (k - j) j buddy
              (subst (λ x. IsAligned x buddy) e (Pair-IsAligned k curr buddy pair al')) in
          inl (
            aligned_mul j a al
            ∙ (ap (λ (t : ℕ). t * 2 ^ j) (sym q) ∙ sym (aligned_mul j buddy al_b)))
      | inr large ↦
          let e : suc k + (j - suc k) ≡ j = ground arith in
          let shared = coarser (j - suc k) (suc k) buddy curr (Pair-quotient k curr buddy pair) in
          let shared' = subst (λ x. buddy / 2 ^ x ≡ curr / 2 ^ x) e shared in
          inr (quotient-in_block a j curr al (sym shared' ∙ q))
    ]

owned-find :
    (o : Owned) (p : ℕ) → 0 < owned_cover o p → (a j : ℕ) × Owns a j o × (0 < in_block a j p)
unfolding owned_cover
owned-find [] p h = absurd (omega arith)
owned-find ((a, j) ∷ o) p h = elim (Bool-cases (ltb 0 (in_block a j p))) [
  | inl here ↦ (a, j, inl (refl, refl), ground arith)
  | inr later ↦ let (a', j', e, i) = owned-find o p (ground arith) in (a', j', inr e, i)
]

apart : (k curr buddy : ℕ) → Pair k curr buddy → in_block curr k buddy ≡ 0
unfolding in_block
apart k curr buddy (inl (e, even)) = ground (arith, one_le_pow k)
apart k curr buddy (inr (e, even)) = ground arith

module _ (b : Pool) (owned : Owned) (k curr buddy : ℕ) (i : Inv b owned (in_block curr k))
    (place : InPool b k curr) (pair : Pair k curr buddy) (low : start_pfn b ≤ buddy)
    (high : buddy < end_pfn b) (clear : b.flags buddy % 2 ≡ 0)
    (same_order : b.order buddy ≡ k) where
  total : cover max_order b.free_list curr + owned_cover owned curr ≡ 0
  total = omega (
    arith,
    i.partition curr place.low (omega (arith, place.high, one_le_pow k)),
    in_block_self curr k,
  )

  pub buddy_listed : Elem buddy (b.free_list k)
  buddy_listed = elim (Bool-cases (ltb 0 (cover max_order b.free_list buddy))) [
    | inl free ↦
        let (j, a, lt, e, h) = cover-find max_order b.free_list buddy (ground arith) in
        on_list j a lt e
          (holds_both k j a curr buddy (i.free_ok j a lt e).place.aligned place.aligned pair h)
    | inr not_free ↦
        let some_owned : 0 < owned_cover owned buddy =
          ground (arith, i.partition buddy low high, apart k curr buddy pair) in
        let (a, j, o, h) = owned-find owned buddy some_owned in
        owned_clash j a o
          (holds_both k j a curr buddy (i.owned_ok j a o).place.aligned place.aligned pair h)
  ]
    where
      on_list :
          (j a : ℕ)
          → j < max_order
          → Elem a (b.free_list j)
          → (a ≡ buddy) ⊎ (in_block a j curr ≡ 1)
          → Elem buddy (b.free_list k)
      on_list j a lt e (inl here) =
          let j≡k : j ≡ k = sym (i.free_ok j a lt e).order_ok ∙ (ap b.order here ∙ same_order) in
          subst (λ x. Elem buddy (b.free_list x)) j≡k (subst (λ x. Elem x (b.free_list j)) here e)
      on_list j a lt e (inr both) =
          absurd (omega (arith, total, cover-Elem max_order b.free_list j a curr lt e))

      owned_clash :
          (j a : ℕ)
          → Owns a j owned
          → (a ≡ buddy) ⊎ (in_block a j curr ≡ 1)
          → Elem buddy (b.free_list k)
      owned_clash j a o (inl here) =
          absurd (omega (arith, (i.owned_ok j a o).flag_ok, clear, ap (λ x. b.flags x) here))
      owned_clash j a o (inr both) =
          absurd (omega (arith, total, owned_cover-Owns owned a j curr o))
