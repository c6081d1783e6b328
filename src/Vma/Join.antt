-- ===== src/Vma/Join.antt =====
-- The ends of `add_vma_sorted` of mm/vma.c: a new area, or one joined with its neighbours.
use magic_box.Prelude.{
  ℕ, ◌+◌, ◌<◌, ◌≤◌, ◌≡◌, ◌⊎◌, inl, inr, refl, ap, sym, subst, ◌∙◌, true, false, arith, Option, none,
  some, List, [], ◌∷◌, Bool-cases, not, ◌&&◌,
}
use magic_box.Vma.{
  Vma, Room, InodeCall, is_anonymous, rev_onto, open_calls, close_calls, extends_prev, extends_next,
  remove_vma, Added, create_vma, try_next, join_prev,
}
use magic_box.Vma.Sorted.{Among, IsSorted, suffix-IsSorted, passed_before, replaced-IsSorted}
use magic_box.Vma.View.{
  maps, view, holds, refs, opened, closed, view-rev_onto, refs-rev_onto, opened-open_calls,
  closed-open_calls, closed-close_calls, opened-close_calls, prev_facts, next_facts, joined,
}

-- What adding an area to a list promises. The inodes that the areas hold change with the calls.
pub record IsAdded (l : List Vma) (new : Vma) (l' : List Vma) (calls : List InodeCall)
    : Type 0 where
  pub sorted : IsSorted l'
  pub mapped :
      (addr flags : ℕ) (inode : Option ℕ)
      → view l' addr flags inode ≡ view l addr flags inode + maps new addr flags inode
  pub balanced : (i : ℕ) → opened calls i + refs l i ≡ closed calls i + refs l' i

abbrev pub AddOk : Room → List Vma → Vma → Added → Type 0
AddOk room l new none =
    (room.block ≡ false) ⊎ ((room.part ≡ false) × (is_anonymous new.vma_inode ≡ false))
AddOk room l new (some (l', calls)) = IsAdded l new l' calls

-- No area of the list meets the new one.
abbrev pub IsFree : List Vma → Vma → Type 0
IsFree l new = (v : Vma) → Among v l → (v.vma_end ≤ new.vma_start) ⊎ (new.vma_end ≤ v.vma_start)

module _ (passed l : List Vma) (new : Vma) (s : IsSorted (rev_onto passed l)) where
  -- Areas in place of those from the place on, which map what those and the new one mapped.
  placed :
      (l' : List Vma) (calls : List InodeCall)
      → IsSorted l'
      → ((v w : Vma) → Among v passed → Among w l' → v.vma_end ≤ w.vma_start)
      → ((addr flags : ℕ) (inode : Option ℕ)
          → view l' addr flags inode ≡ view l addr flags inode + maps new addr flags inode)
      → ((i : ℕ) → opened calls i + refs l i ≡ closed calls i + refs l' i)
      → IsAdded (rev_onto passed l) new (rev_onto passed l') calls
  placed l' calls s' before view_l' refs_l' = record {
    sorted = replaced-IsSorted passed l l' s s' before;
    mapped = λ addr flags inode. omega (
      arith,
      view-rev_onto passed l addr flags inode,
      view-rev_onto passed l' addr flags inode,
      view_l' addr flags inode,
    );
    balanced = λ i. omega (arith, refs-rev_onto passed l i, refs-rev_onto passed l' i, refs_l' i);
  }

-- At a place between the areas that end before the new one and those that begin behind it.
module _ (passed l : List Vma) (new : Vma) (s : IsSorted (rev_onto passed l))
    (pos : new.vma_start < new.vma_end)
    (free_before : (v : Vma) → Among v passed → v.vma_end ≤ new.vma_start)
    (free_behind : (w : Vma) → Among w l → new.vma_end ≤ w.vma_start) where
  created : (room : Room) → AddOk room (rev_onto passed l) new (create_vma room passed l new)
  unfolding create_vma view refs
  created room = elim (Bool-cases room.block) [
    | inr no_block ↦
        let panics : create_vma room passed l new ≡ none = rw no_block refl in
        subst (AddOk room (rev_onto passed l) new) (sym panics) (inl no_block)
    | inl block ↦ elim (Bool-cases (not (is_anonymous new.vma_inode) && not room.part)) [
      | inl lost ↦
          let panics : create_vma room passed l new ≡ none = rw (block, lost) refl in
          subst (AddOk room (rev_onto passed l) new) (sym panics)
            (inr (ground (arith, lost), ground (arith, lost)))
      | inr found ↦
          let adds : create_vma room passed l new
              ≡ some (rev_onto passed (new ∷ l), open_calls new.vma_inode) =
            rw (block, found) refl in
          subst (AddOk room (rev_onto passed l) new) (sym adds) there
    ]
  ]
    where
      before : (v w : Vma) → Among v passed → Among w (new ∷ l) → v.vma_end ≤ w.vma_start
      before v w p (inl e) = subst (λ (x : Vma). v.vma_end ≤ x.vma_start) e (free_before v p)
      before v w p (inr q) = passed_before passed l s v w p q

      there : IsAdded (rev_onto passed l) new (rev_onto passed (new ∷ l)) (open_calls new.vma_inode)
      there =
          placed passed l new s (new ∷ l) (open_calls new.vma_inode)
            (pos, free_behind, suffix-IsSorted passed l s) before (λ addr flags inode. omega arith)
            (λ i. omega (arith, opened-open_calls new i, closed-open_calls new.vma_inode i))

  -- The new area joins the one behind it.
  joins_next :
      (next : Vma) (rest : List Vma)
      → l ≡ next ∷ rest
      → extends_next next new ≡ true
      → IsAdded
          (rev_onto passed l)
          new
          (rev_onto passed (record next { vma_start = new.vma_start } ∷ rest))
          []
  unfolding view refs opened closed holds
  joins_next next rest e fits =
      let facts = next_facts next new fits in
      let tail_sorted : IsSorted (next ∷ rest) = subst IsSorted e (suffix-IsSorted passed l s) in
      let both : Vma = record next { vma_start = new.vma_start } in
      placed passed l new s (both ∷ rest) []
        (omega (arith, tail_sorted.0, facts.0), tail_sorted.1, tail_sorted.2) before
        (λ addr flags inode. omega (
          arith,
          ap (λ (x : List Vma). view x addr flags inode) e,
          joined new next both addr flags inode (omega arith) (omega (arith, tail_sorted.0))
              (sym facts.0) (refl, refl) (facts.1, refl) (facts.2, refl),
        ))
        (λ i. omega (arith, ap (λ (x : List Vma). refs x i) e))
    where
      before :
          (v w : Vma)
          → Among v passed
          → Among w (record next { vma_start = new.vma_start } ∷ rest)
          → v.vma_end ≤ w.vma_start
      before v w p (inl e') = subst (λ (x : Vma). v.vma_end ≤ x.vma_start) e' (free_before v p)
      before v w p (inr q) =
          passed_before passed l s v w p (subst (λ (x : List Vma). Among w x) (sym e) (inr q))

  pub without_prev :
      (room : Room) (l' : List Vma)
      → l ≡ l'
      → AddOk room (rev_onto passed l) new (try_next room passed l' new)
  unfolding try_next
  without_prev room [] e =
      subst (λ x. AddOk room (rev_onto passed l) new (create_vma room passed x new)) e
        (created room)
  without_prev room (next ∷ rest) e = elim (Bool-cases (extends_next next new)) [
    | inl fits ↦ rw fits (joins_next next rest e fits)
    | inr apart ↦ rw apart (
        subst (λ x. AddOk room (rev_onto passed l) new (create_vma room passed x new)) e
          (created room))
  ]

-- The new area joins the one before it.
module _ (passed : List Vma) (prev : Vma) (l : List Vma) (new : Vma)
    (s : IsSorted (rev_onto passed (prev ∷ l))) (pos : new.vma_start < new.vma_end)
    (free_behind : (w : Vma) → Among w l → new.vma_end ≤ w.vma_start)
    (fits : extends_prev prev new ≡ true) where
  abbrev longer : Vma
  longer = record prev { vma_end = new.vma_end }

  from_prev : IsSorted (prev ∷ l)
  from_prev = suffix-IsSorted passed (prev ∷ l) s

  meets :
      (prev.vma_end ≡ new.vma_start)
      × (prev.vma_flags ≡ new.vma_flags)
      × (prev.vma_inode ≡ new.vma_inode)
  meets = prev_facts prev new fits

  still_before :
      (rest : List Vma) (end : ℕ)
      → ((w : Vma) → Among w rest → Among w l)
      → (v w : Vma) → Among v passed
      → Among w (record prev { vma_end = end } ∷ rest)
      → v.vma_end ≤ w.vma_start
  still_before rest end within v w p (inl e) =
      subst (λ (x : Vma). v.vma_end ≤ x.vma_start) e
        (passed_before passed (prev ∷ l) s v prev p (inl refl))
  still_before rest end within v w p (inr q) =
      passed_before passed (prev ∷ l) s v w p (inr (within w q))

  joins_prev : IsAdded (rev_onto passed (prev ∷ l)) new (rev_onto passed (longer ∷ l)) []
  unfolding view refs opened closed holds
  joins_prev =
      placed passed (prev ∷ l) new s (longer ∷ l) []
        (omega (arith, from_prev.0, meets.0), free_behind, from_prev.2)
        (still_before l new.vma_end (λ w q. q))
        (λ addr flags inode. omega (
          arith,
          joined prev new longer addr flags inode (omega (arith, from_prev.0)) (omega arith) meets.0
              (refl, refl) (refl, meets.1) (refl, meets.2),
        ))
        (λ i. omega arith)

  -- And the one behind it, which goes.
  joins_both :
      (next : Vma) (rest : List Vma)
      → l ≡ next ∷ rest
      → extends_next next new ≡ true
      → IsAdded
          (rev_onto passed (prev ∷ l))
          new
          (rev_onto passed (record prev { vma_end = next.vma_end } ∷ rest))
          (close_calls next.vma_inode)
  unfolding view refs holds
  joins_both next rest e fits' =
      let facts = next_facts next new fits' in
      let whole : Vma = record prev { vma_end = next.vma_end } in
      let behind : IsSorted (next ∷ rest) = subst IsSorted e from_prev.2 in
      placed passed (prev ∷ l) new s (whole ∷ rest) (close_calls next.vma_inode)
        (omega (arith, from_prev.0, meets.0, facts.0, behind.0), behind.1, behind.2)
        (still_before rest next.vma_end
          (λ w q. subst (λ (x : List Vma). Among w x) (sym e) (inr q)))
        (λ addr flags inode. omega (
          arith,
          ap (λ (x : List Vma). view x addr flags inode) e,
          joined prev new longer addr flags inode (omega (arith, from_prev.0)) (omega arith) meets.0
              (refl, refl) (refl, meets.1) (refl, meets.2),
          joined longer next whole addr flags inode (omega (arith, from_prev.0, meets.0))
              (omega (arith, behind.0)) (sym facts.0) (refl, refl) (refl, meets.1 ∙ sym facts.1)
              (refl, meets.2 ∙ sym facts.2),
        ))
        (λ i. omega (
          arith,
          ap (λ (x : List Vma). refs x i) e,
          closed-close_calls next i,
          opened-close_calls next.vma_inode i,
        ))

  pub with_prev :
      (room : Room) (l' : List Vma)
      → l ≡ l'
      → AddOk room (rev_onto passed (prev ∷ l)) new (join_prev passed prev l' new)
  unfolding join_prev remove_vma rev_onto
  with_prev room [] e =
      subst
        (λ (x : List Vma).
          IsAdded (rev_onto passed (prev ∷ l)) new (rev_onto passed (longer ∷ x)) [])
        e joins_prev
  with_prev room (next ∷ rest) e = elim (Bool-cases (extends_next next new)) [
    | inl fits' ↦ rw fits' (joins_both next rest e fits')
    | inr apart ↦ rw apart (
        subst
          (λ (x : List Vma).
            IsAdded (rev_onto passed (prev ∷ l)) new (rev_onto passed (longer ∷ x)) [])
          e joins_prev)
  ]
