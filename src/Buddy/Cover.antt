-- ===== src/Buddy/Cover.antt =====
-- How many free blocks of a pool hold a page, and how that changes with the lists.
use magic_box.Prelude.{
  ℕ, zero, suc, ◌+◌, ◌<◌, ◌≤◌, ◌≡◌, ◌⊎◌, inl, inr, refl, ap, true, false, ltb, ◌==◌, arith, List,
  [], ◌∷◌, ◌++◌, length, Bool-cases, ==_iff,
}
use magic_box.Buddy.{erase, elem, update}
use magic_box.Buddy.Blocks.{in_block}

-- `a` stands in the list.
abbrev pub Elem : ℕ → List ℕ → Type 0
Elem a [] = ⊥
Elem a (x ∷ xs) = (x ≡ a) ⊎ Elem a xs

unfoldable pub cover_list : ℕ → List ℕ → ℕ → ℕ
cover_list k [] p = 0
cover_list k (a ∷ l) p = in_block a k p + cover_list k l p

-- Over the areas of the orders below `n`.
unfoldable pub cover : ℕ → (ℕ → List ℕ) → ℕ → ℕ
cover zero fl p = 0
cover (suc n) fl p = cover_list n (fl n) p + cover n fl p

pub cover_list-snoc :
    (k : ℕ) (l : List ℕ) (a p : ℕ)
    → cover_list k (l ++ (a ∷ [])) p ≡ in_block a k p + cover_list k l p
unfolding cover_list
cover_list-snoc k [] a p = refl
cover_list-snoc k (x ∷ l) a p = omega (arith, cover_list-snoc k l a p)

pub cover_list-Elem : (k : ℕ) (l : List ℕ) (a p : ℕ) → Elem a l → in_block a k p ≤ cover_list k l p
unfolding cover_list
cover_list-Elem k [] a p e = absurd e
cover_list-Elem k (x ∷ l) a p (inl e) = rw e (omega arith)
cover_list-Elem k (x ∷ l) a p (inr e) = omega (arith, cover_list-Elem k l a p e)

pub cover_list-find :
    (k : ℕ) (l : List ℕ) (p : ℕ) → 0 < cover_list k l p → (a : ℕ) × Elem a l × (0 < in_block a k p)
unfolding cover_list
cover_list-find k [] p h = absurd (omega arith)
cover_list-find k (x ∷ l) p h = elim (Bool-cases (ltb 0 (in_block x k p))) [
  | inl here ↦ (x, inl refl, ground arith)
  | inr later ↦ let (a, e, i) = cover_list-find k l p (ground arith) in (a, inr e, i)
]

pub cover-find :
    (n : ℕ) (fl : ℕ → List ℕ) (p : ℕ)
    → 0 < cover n fl p
    → (k a : ℕ) × (k < n) × Elem a (fl k) × (0 < in_block a k p)
unfolding cover
cover-find zero fl p h = absurd (omega arith)
cover-find (suc n) fl p h = elim (Bool-cases (ltb 0 (cover_list n (fl n) p))) [
  | inl here ↦
      let (a, e, i) = cover_list-find n (fl n) p (ground arith) in (n, a, omega arith, e, i)
  | inr later ↦
      let (k, a, lt, e, i) = cover-find n fl p (ground arith) in (k, a, omega (arith, lt), e, i)
]

pub cover-Elem :
    (n : ℕ) (fl : ℕ → List ℕ) (k a p : ℕ) → k < n → Elem a (fl k) → in_block a k p ≤ cover n fl p
unfolding cover
cover-Elem zero fl k a p lt e = absurd (omega arith)
cover-Elem (suc n) fl k a p lt e = elim (Bool-cases (k == n)) [
  | inl here ↦
      let k≡n : k ≡ n = (==_iff k n).0 here in
      omega (arith, cover_list-Elem k (fl k) a p e, ap (λ (j : ℕ). cover_list j (fl j) p) k≡n)
  | inr below ↦ omega (arith, cover-Elem n fl k a p (ground arith) e)
]

cover-update_above :
    (n : ℕ) (fl : ℕ → List ℕ) (k : ℕ) (l : List ℕ) (p : ℕ)
    → n ≤ k
    → cover n (update fl k l) p ≡ cover n fl p
unfolding cover
cover-update_above zero fl k l p h = refl
cover-update_above (suc n) fl k l p h = ground (arith, cover-update_above n fl k l p)

-- Another list for one area.
pub cover-update :
    (n : ℕ) (fl : ℕ → List ℕ) (k : ℕ) (l : List ℕ) (p : ℕ)
    → k < n
    → cover n (update fl k l) p + cover_list k (fl k) p ≡ cover n fl p + cover_list k l p
unfolding cover
cover-update zero fl k l p h = absurd (omega arith)
cover-update (suc n) fl k l p h = elim (Bool-cases (n == k)) [
  | inl here ↦
      let e : n ≡ k = (==_iff n k).0 here in
      rw here (
        omega (
          arith,
          cover-update_above n fl k l p (omega (arith, e)),
          ap (λ (j : ℕ). cover_list j (fl j) p) e,
          ap (λ (j : ℕ). cover_list j l p) e,
        ))
  | inr below ↦ rw below (omega (arith, cover-update n fl k l p (ground arith)))
]

pub erase-not_Elem : (a : ℕ) (l : List ℕ) → ¬ Elem a l → erase a l ≡ l
unfolding erase
erase-not_Elem a [] h = refl
erase-not_Elem a (x ∷ l) h = elim (Bool-cases (x == a)) [
  | inl here ↦ absurd (h (inl ((==_iff x a).0 here)))
  | inr other ↦ rw (other, erase-not_Elem a l (λ e. h (inr e)))
]

pub cover_list-erase :
    (k a : ℕ) (l : List ℕ) (p : ℕ)
    → Elem a l
    → cover_list k (erase a l) p + in_block a k p ≡ cover_list k l p
unfolding erase cover_list
cover_list-erase k a [] p e = absurd e
cover_list-erase k a (x ∷ l) p e = elim (Bool-cases (x == a)) [
  | inl here ↦ rw (here, (==_iff x a).0 here) (omega arith)
  | inr other ↦ rw other (omega (arith, cover_list-erase k a l p (skip e other)))
]
  where
    skip : (x ≡ a) ⊎ Elem a l → (x == a) ≡ false → Elem a l
    skip (inl e) no_match = ground arith
    skip (inr e) no_match = e

pub length-erase : (a : ℕ) (l : List ℕ) → Elem a l → length l ≡ suc (length (erase a l))
unfolding erase
length-erase a [] e = absurd e
length-erase a (x ∷ l) (inl e) = ground arith
length-erase a (x ∷ l) (inr e) = ground (arith, length-erase a l e)

pub Elem-erase : (a b : ℕ) (l : List ℕ) → Elem b (erase a l) → Elem b l
unfolding erase
Elem-erase a b [] e = e
Elem-erase a b (x ∷ l) e = elim (Bool-cases (x == a)) [
  | inl here ↦ inr (rw here at e)
  | inr other ↦ keep (rw other at e) (λ e'. Elem-erase a b l e')
]
  where
    keep : (x ≡ b) ⊎ Elem b (erase a l) → (Elem b (erase a l) → Elem b l) → (x ≡ b) ⊎ Elem b l
    keep (inl e) ih = inl e
    keep (inr e) ih = inr (ih e)

pub Elem-snoc : (a b : ℕ) (l : List ℕ) → Elem b (l ++ (a ∷ [])) → (a ≡ b) ⊎ Elem b l
Elem-snoc a b [] (inl e) = inl e
Elem-snoc a b [] (inr e) = absurd e
Elem-snoc a b (x ∷ l) (inl e) = inr (inl e)
Elem-snoc a b (x ∷ l) (inr e) = shift (Elem-snoc a b l e)
  where
    shift : (a ≡ b) ⊎ Elem b l → (a ≡ b) ⊎ (x ≡ b) ⊎ Elem b l
    shift (inl e) = inl e
    shift (inr e) = inr (inr e)

pub elem-Elem : (a : ℕ) (l : List ℕ) → elem a l ≡ true → Elem a l
unfolding elem
elem-Elem a [] h = cc
elem-Elem a (x ∷ l) h = elim (Bool-cases (x == a)) [
  | inl here ↦ inl ((==_iff x a).0 here)
  | inr other ↦ inr (elem-Elem a l (ground arith))
]

pub Elem-elem : (a : ℕ) (l : List ℕ) → Elem a l → elem a l ≡ true
unfolding elem
Elem-elem a [] e = absurd e
Elem-elem a (x ∷ l) (inl e) = ground arith
Elem-elem a (x ∷ l) (inr e) = ground (arith, Elem-elem a l e)

pub cover-agree :
    (n : ℕ) (fl fl' : ℕ → List ℕ) (p : ℕ)
    → ((j : ℕ) → j < n → fl j ≡ fl' j)
    → cover n fl p ≡ cover n fl' p
unfolding cover
cover-agree zero fl fl' p h = refl
cover-agree (suc n) fl fl' p h = omega (
  arith,
  ap (λ (l : List ℕ). cover_list n l p) (h n (omega arith)),
  cover-agree n fl fl' p (λ j lt. h j (omega arith)),
)
