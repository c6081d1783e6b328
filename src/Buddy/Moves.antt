-- ===== src/Buddy/Moves.antt =====
-- The moves of a block that the allocator makes: from the hand onto a list, from a list into the
-- hand, and from the hand to a client. Each keeps the invariant.
use magic_box.Prelude.{
  ℕ, suc, ◌+◌, ◌%◌, ◌^◌, ◌<◌, ◌≡◌, ◌≢◌, ◌⊎◌, inl, inr, refl, ap, sym, subst, ◌∙◌, ◌==◌, arith, List,
  [], ◌∷◌, ◌++◌, length, Bool-cases, ==_iff, length-append,
}
use magic_box.Prelude.Bits.{one_le_pow}
use magic_box.Buddy.{Pool, max_order, update, incr, decr}
use magic_box.Buddy.Blocks.{in_block, in_block_self}
use magic_box.Buddy.Cover.{
  Elem, cover, cover_list, cover-update, cover-agree, cover_list-snoc, Elem-snoc,
}
use magic_box.Buddy.Owned.{
  Inv, InPool, InRange, FreeOk, OwnedOk, Owned, Owns, owned_cover, hand_not_free, hand_not_owned,
}

-- Fields of a page that is no head keep every other page's facts.
module _ (b : Pool) (pg order flags : ℕ) where
  abbrev marked : Pool
  marked = record b { order = update b.order pg order; flags = update b.flags pg flags }

  FreeOk-marked : (j a : ℕ) → a ≢ pg → FreeOk b j a → FreeOk marked j a
  FreeOk-marked j a ne ok = record {
    place = ok.place;
    order_ok = ground (arith, ok.order_ok);
    flag_ok = ground (arith, ok.flag_ok);
  }

  OwnedOk-marked : (j a : ℕ) → a ≢ pg → OwnedOk b j a → OwnedOk marked j a
  OwnedOk-marked j a ne ok = record { place = ok.place; flag_ok = ground (arith, ok.flag_ok) }

head_in : {start end k pg : ℕ} → InRange start end k pg → pg < end
head_in {k = k} place = omega (arith, place.high, one_le_pow k)

-- A list with one block more.
pub record Grown (k pg : ℕ) (old new : List ℕ) : Type 0 where
  pub members : (a : ℕ) → Elem a new → (pg ≡ a) ⊎ Elem a old
  pub pages : (p : ℕ) → cover_list k new p ≡ in_block pg k p + cover_list k old p
  pub size : length new ≡ suc (length old)

-- From the hand onto a list.
module _ (b : Pool) (owned : Owned) (hand rest : ℕ → ℕ) (i : Inv b owned hand) (k pg f : ℕ)
    (l : List ℕ) (place : InPool b k pg) (clear : f % 2 ≡ 0)
    (in_hand : (p : ℕ) → hand p ≡ in_block pg k p + rest p)
    (grown : Grown k pg (b.free_list k) l) where
  abbrev put : Pool
  put = record b {
    free_list = update b.free_list k l;
    nr_free = update b.nr_free k (incr (b.nr_free k));
    order = update b.order pg k;
    flags = update b.flags pg f;
  }

  held_here : 0 < hand pg
  held_here = omega (arith, in_hand pg, in_block_self pg k)

  other : (j a : ℕ) → j < max_order → Elem a (b.free_list j) → a ≢ pg
  other j a lt e same =
      hand_not_free i pg j place.low (head_in place) held_here lt
        (subst (λ x. Elem x (b.free_list j)) same e)

  other_owned : (j a : ℕ) → Owns a j owned → a ≢ pg
  other_owned j a e same =
      hand_not_owned i pg j place.low (head_in place) held_here (subst (λ x. Owns x j owned) same e)

  new_head : FreeOk put k pg
  new_head = record { place = place; order_ok = ground arith; flag_ok = ground (arith, clear) }

  put-FreeOk : (j a : ℕ) → j < max_order → Elem a (update b.free_list k l j) → FreeOk put j a
  put-FreeOk j a lt e = elim (Bool-cases (j == k)) [
    | inl here ↦ at_k ((==_iff j k).0 here) (grown.members a (rw here at e))
    | inr elsewhere ↦
        let e' : Elem a (b.free_list j) = rw elsewhere at e in
        let ok = FreeOk-marked b pg k f j a (other j a lt e') (i.free_ok j a lt e') in
        record { place = ok.place; order_ok = ok.order_ok; flag_ok = ok.flag_ok }
  ]
    where
      at_k : j ≡ k → (pg ≡ a) ⊎ Elem a (b.free_list k) → FreeOk put j a
      at_k e (inl same) =
          subst (λ x. FreeOk put x a) (sym e) (subst (λ x. FreeOk put k x) same new_head)
      at_k e (inr old) =
          let e' : Elem a (b.free_list j) = subst (λ x. Elem a (b.free_list x)) (sym e) old in
          let ok = FreeOk-marked b pg k f j a (other j a lt e') (i.free_ok j a lt e') in
          record { place = ok.place; order_ok = ok.order_ok; flag_ok = ok.flag_ok }

  pub put-Inv : Inv put owned rest
  put-Inv = record {
    free_ok = put-FreeOk;
    owned_ok = λ j a e.
        let ok = OwnedOk-marked b pg k f j a (other_owned j a e) (i.owned_ok j a e) in
        record { place = ok.place; flag_ok = ok.flag_ok };
    partition = λ p lo hi. omega (
      arith,
      i.partition p lo hi,
      in_hand p,
      grown.pages p,
      cover-update max_order b.free_list k l p place.order_lt,
    );
    counted = λ j lt. ground (arith, i.counted j lt, i.counted k place.order_lt, grown.size);
  }

pub Grown-front : (k pg : ℕ) (l : List ℕ) → Grown k pg l (pg ∷ l)
unfolding cover_list
Grown-front k pg l = record { members = λ a e. e; pages = λ p. refl; size = refl }

pub Grown-back : (k pg : ℕ) (l : List ℕ) → Grown k pg l (l ++ (pg ∷ []))
Grown-back k pg l = record {
  members = λ a e. Elem-snoc pg a l e;
  pages = λ p. cover_list-snoc k l pg p;
  size = omega (arith, length-append l (pg ∷ []));
}

-- A list with one block less.
pub record Shrunk (k pg : ℕ) (old new : List ℕ) : Type 0 where
  pub members : (a : ℕ) → Elem a new → Elem a old
  pub pages : (p : ℕ) → cover_list k new p + in_block pg k p ≡ cover_list k old p
  pub size : length old ≡ suc (length new)

-- From a list into the hand.
module _ (b : Pool) (owned : Owned) (hand : ℕ → ℕ) (i : Inv b owned hand) (k pg : ℕ)
    (fl : ℕ → List ℕ) (k_lt : k < max_order)
    (same : (j : ℕ) → j < max_order → j ≢ k → fl j ≡ b.free_list j)
    (shrunk : Shrunk k pg (b.free_list k) (fl k)) where
  abbrev took : Pool
  took = record b { free_list = fl; nr_free = update b.nr_free k (decr (b.nr_free k)) }

  still : (j a : ℕ) → j < max_order → Elem a (fl j) → Elem a (b.free_list j)
  still j a lt e = elim (Bool-cases (j == k)) [
    | inl here ↦
        let e' : j ≡ k = (==_iff j k).0 here in
        subst (λ x. Elem a (b.free_list x)) (sym e')
          (shrunk.members a (subst (λ x. Elem a (fl x)) e' e))
    | inr elsewhere ↦ subst (Elem a) (same j lt (ground arith)) e
  ]

  took_pages : (p : ℕ) → cover max_order fl p + in_block pg k p ≡ cover max_order b.free_list p
  took_pages p = omega (
    arith,
    shrunk.pages p,
    cover-update max_order b.free_list k (fl k) p k_lt,
    cover-agree max_order fl (update b.free_list k (fl k)) p (λ j lt. agree j lt),
  )
    where
      agree : (j : ℕ) → j < max_order → fl j ≡ update b.free_list k (fl k) j
      agree j lt = elim (Bool-cases (j == k)) [
        | inl here ↦ rw here (ap fl ((==_iff j k).0 here))
        | inr elsewhere ↦ rw elsewhere (same j lt (ground arith))
      ]

  pub took-Inv : Inv took owned (λ p. hand p + in_block pg k p)
  took-Inv = record {
    free_ok = λ j a lt e.
        let ok = i.free_ok j a lt (still j a lt e) in
        record { place = ok.place; order_ok = ok.order_ok; flag_ok = ok.flag_ok };
    owned_ok =
        λ j a e. let ok = i.owned_ok j a e in record { place = ok.place; flag_ok = ok.flag_ok };
    partition = λ p lo hi. omega (arith, i.partition p lo hi, took_pages p);
    counted = λ j lt. took_counted j lt;
  }
    where
      took_counted : (j : ℕ) → j < max_order → took.nr_free j ≡ length (fl j) % 2 ^ 32
      took_counted j lt = elim (Bool-cases (j == k)) [
        | inl here ↦
            let e : j ≡ k = (==_iff j k).0 here in
            rw here (omega (arith, i.counted k k_lt, shrunk.size, ap (λ x. length (fl x)) e))
        | inr elsewhere ↦ rw elsewhere (
            i.counted j lt
            ∙ ap (λ (l : List ℕ). length l % 2 ^ 32) (sym (same j lt (ground arith))))
      ]

-- From the hand to a client.
module _ (b : Pool) (owned : Owned) (hand rest : ℕ → ℕ) (i : Inv b owned hand) (k pg f : ℕ)
    (place : InPool b k pg) (odd : f % 2 ≡ 1)
    (in_hand : (p : ℕ) → hand p ≡ in_block pg k p + rest p) where
  pub own-Inv : Inv (marked b pg k f) ((pg, k) ∷ owned) rest
  unfolding owned_cover
  own-Inv = record {
    free_ok = λ j a lt e. FreeOk-marked b pg k f j a (other j a lt e) (i.free_ok j a lt e);
    owned_ok = λ j a e. owned_all j a e;
    partition = λ p lo hi. omega (arith, i.partition p lo hi, in_hand p);
    counted = i.counted;
  }
    where
      held_here : 0 < hand pg
      held_here = omega (arith, in_hand pg, in_block_self pg k)

      other : (j a : ℕ) → j < max_order → Elem a (b.free_list j) → a ≢ pg
      other j a lt e same =
          hand_not_free i pg j place.low (head_in place) held_here lt
            (subst (λ x. Elem x (b.free_list j)) same e)

      owned_all : (j a : ℕ) → Owns a j ((pg, k) ∷ owned) → OwnedOk (marked b pg k f) j a
      owned_all j a (inl e) =
          subst (λ x. OwnedOk (marked b pg k f) j x) e.0
            (subst (λ x. OwnedOk (marked b pg k f) x pg) e.1
              (record { place = place; flag_ok = ground (arith, odd) }))
      owned_all j a (inr e) = OwnedOk-marked b pg k f j a (apart a e) (i.owned_ok j a e)
        where
          apart : (a : ℕ) → Owns a j owned → a ≢ pg
          apart a e same =
              hand_not_owned i pg j place.low (head_in place) held_here
                (subst (λ x. Owns x j owned) same e)
