-- ===== src/BlockCache/Lookup.antt =====
-- The search of a buffer in lists that `ide_buffer.c` changes, and the numbers on a dirty list.
use magic_box.Prelude.{
  ℕ, suc, ◌-◌, ◌≡◌, inl, inr, refl, ap, sym, subst, ap₂, ◌∙◌, ◌==◌, ◌&&◌, Bool, true, false, arith,
  none, some, List, [], ◌∷◌, ◌++◌, Bool-cases, length, if◌then◌else◌,
}
use magic_box.BlockCache.{
  BufferHead, buffer_condition, hash_find, remove_block, update_block, unlink,
}

-- No two buffers hold the same block.
abbrev pub Distinct : List BufferHead → Type 0
Distinct [] = Unit
Distinct (bh ∷ l) = (hash_find bh.b_dev bh.b_blocknr l ≡ none) × Distinct l

pub same_dev : (dev lba : ℕ) (bh : BufferHead) → buffer_condition dev lba bh ≡ true → bh.b_dev ≡ dev
same_dev dev lba bh e = ground arith

pub same_block :
    (dev lba : ℕ) (bh : BufferHead) → buffer_condition dev lba bh ≡ true → bh.b_blocknr ≡ lba
same_block dev lba bh e = ground arith

-- Whether two pairs of a disk and a block number are the same.
abbrev pub eq_block : ℕ → ℕ → ℕ → ℕ → Bool
eq_block dev lba d b = (d == dev) && (b == lba)

pub eq_block→dev : (dev lba d b : ℕ) → eq_block dev lba d b ≡ true → d ≡ dev
eq_block→dev dev lba d b e = ground arith

pub eq_block→lba : (dev lba d b : ℕ) → eq_block dev lba d b ≡ true → b ≡ lba
eq_block→lba dev lba d b e = ground arith

pub eq_block_refl : (dev lba : ℕ) → eq_block dev lba dev lba ≡ true
eq_block_refl dev lba = ground arith

-- A case split on whether a block is a given one.
pub by_block {ℓ} :
    (P : ℕ → ℕ → Type ℓ) (dev lba d b : ℕ)
    → P dev lba
    → (eq_block dev lba d b ≡ false → P d b)
    → P d b
by_block P dev lba d b self others = elim (Bool-cases (eq_block dev lba d b)) [
  | inl same ↦
      subst (λ x. P x b) (sym (eq_block→dev dev lba d b same))
        (subst (λ y. P dev y) (sym (eq_block→lba dev lba d b same)) self)
  | inr ne ↦ others ne
]

pub hash_find-condition :
    (dev lba : ℕ) (l : List BufferHead) (bh : BufferHead)
    → hash_find dev lba l ≡ some bh
    → buffer_condition dev lba bh ≡ true
unfolding hash_find
hash_find-condition dev lba [] bh e = ground arith
hash_find-condition dev lba (x ∷ l) bh e = ground (arith, hash_find-condition dev lba l bh)

pub same_key :
    (dev lba : ℕ) (bh : BufferHead) (l : List BufferHead)
    → buffer_condition dev lba bh ≡ true
    → hash_find bh.b_dev bh.b_blocknr l ≡ hash_find dev lba l
same_key dev lba bh l here =
    ap₂ (λ (d b : ℕ). hash_find d b l) (same_dev dev lba bh here) (same_block dev lba bh here)

pub hash_find-remove_self :
    (dev lba : ℕ) (l : List BufferHead)
    → Distinct l
    → hash_find dev lba (remove_block dev lba l) ≡ none
unfolding hash_find remove_block
hash_find-remove_self dev lba [] distinct = refl
hash_find-remove_self dev lba (bh ∷ l) (fresh, distinct) =
    elim (Bool-cases (buffer_condition dev lba bh)) [
      | inl e ↦ rw e (sym (same_key dev lba bh l e) ∙ fresh)
      | inr other ↦ rw (other, other) (hash_find-remove_self dev lba l distinct)
    ]

other_block :
    (dev lba d b : ℕ) (bh : BufferHead)
    → eq_block dev lba d b ≡ false
    → buffer_condition dev lba bh ≡ true
    → buffer_condition d b bh ≡ false
other_block dev lba d b bh ne e = ground arith

pub hash_find-remove_ne :
    (dev lba d b : ℕ) (l : List BufferHead)
    → eq_block dev lba d b ≡ false
    → hash_find d b (remove_block dev lba l) ≡ hash_find d b l
unfolding hash_find remove_block
hash_find-remove_ne dev lba d b [] ne = refl
hash_find-remove_ne dev lba d b (bh ∷ l) ne = elim (Bool-cases (buffer_condition dev lba bh)) [
  | inl e ↦ rw (e, other_block dev lba d b bh ne e) refl
  | inr other ↦ rw other (
      ap (λ o. if buffer_condition d b bh then some bh else o)
        (hash_find-remove_ne dev lba d b l ne))
]

pub hash_find-append_absent :
    (dev lba : ℕ) (l : List BufferHead) (bh : BufferHead)
    → hash_find dev lba l ≡ none
    → hash_find dev lba (l ++ bh ∷ []) ≡ (if buffer_condition dev lba bh then some bh else none)
unfolding hash_find
hash_find-append_absent dev lba [] bh absent = refl
hash_find-append_absent dev lba (x ∷ l) bh absent =
    ground (arith, hash_find-append_absent dev lba l bh)

pub hash_find-append_other :
    (dev lba : ℕ) (l : List BufferHead) (bh : BufferHead)
    → buffer_condition dev lba bh ≡ false
    → hash_find dev lba (l ++ bh ∷ []) ≡ hash_find dev lba l
unfolding hash_find
hash_find-append_other dev lba [] bh other = rw other refl
hash_find-append_other dev lba (x ∷ l) bh other =
    ap (λ o. if buffer_condition dev lba x then some x else o)
      (hash_find-append_other dev lba l bh other)

-- An update that keeps the block that a buffer holds.
abbrev pub KeepsBlock : (BufferHead → BufferHead) → Type 0
KeepsBlock f = (bh : BufferHead) → ((f bh).b_dev ≡ bh.b_dev) × ((f bh).b_blocknr ≡ bh.b_blocknr)

pub keeps-condition :
    (f : BufferHead → BufferHead) (dev lba : ℕ) (bh : BufferHead)
    → KeepsBlock f
    → buffer_condition dev lba (f bh) ≡ buffer_condition dev lba bh
keeps-condition f dev lba bh keeps =
    let (e, e') = keeps bh in ap₂ (λ (d b : ℕ). (d == dev) && (b == lba)) e e'

pub hash_find-update_self :
    (f : BufferHead → BufferHead) (dev lba : ℕ) (l : List BufferHead) (bh : BufferHead)
    → KeepsBlock f
    → hash_find dev lba l ≡ some bh
    → hash_find dev lba (update_block f dev lba l) ≡ some (f bh)
unfolding hash_find update_block
hash_find-update_self f dev lba [] bh keeps e = ground arith
hash_find-update_self f dev lba (x ∷ l) bh keeps e =
    ground (arith, hash_find-update_self f dev lba l bh keeps, keeps-condition f dev lba x keeps)

pub hash_find-update_ne :
    (f : BufferHead → BufferHead) (dev lba d b : ℕ) (l : List BufferHead)
    → KeepsBlock f
    → eq_block dev lba d b ≡ false
    → hash_find d b (update_block f dev lba l) ≡ hash_find d b l
unfolding hash_find update_block
hash_find-update_ne f dev lba d b [] keeps ne = refl
hash_find-update_ne f dev lba d b (x ∷ l) keeps ne =
    elim (Bool-cases (buffer_condition dev lba x)) [
      | inl e ↦ rw (e, keeps-condition f d b x keeps, other_block dev lba d b x ne e) refl
      | inr other ↦ rw other (
          ap (λ o. if buffer_condition d b x then some x else o)
            (hash_find-update_ne f dev lba d b l keeps ne))
    ]

pub hash_find-remove_absent :
    (dev lba d b : ℕ) (l : List BufferHead)
    → hash_find d b l ≡ none
    → hash_find d b (remove_block dev lba l) ≡ none
unfolding hash_find remove_block
hash_find-remove_absent dev lba d b [] absent = refl
hash_find-remove_absent dev lba d b (x ∷ l) absent =
    ground (arith, hash_find-remove_absent dev lba d b l)

pub remove_block-Distinct :
    (dev lba : ℕ) (l : List BufferHead) → Distinct l → Distinct (remove_block dev lba l)
unfolding remove_block
remove_block-Distinct dev lba [] distinct = distinct
remove_block-Distinct dev lba (bh ∷ l) (fresh, distinct) =
    elim (Bool-cases (buffer_condition dev lba bh)) [
      | inl e ↦ rw e distinct
      | inr other ↦ rw other (
        hash_find-remove_absent dev lba bh.b_dev bh.b_blocknr l fresh,
        remove_block-Distinct dev lba l distinct,
      )
    ]

pub append-Distinct :
    (l : List BufferHead) (bh : BufferHead)
    → Distinct l
    → hash_find bh.b_dev bh.b_blocknr l ≡ none
    → Distinct (l ++ bh ∷ [])
unfolding hash_find
append-Distinct [] bh distinct absent = (refl, distinct)
append-Distinct (x ∷ l) bh (fresh, distinct) absent =
    let other : buffer_condition x.b_dev x.b_blocknr bh ≡ false = ground (arith, absent) in
    let absent_l : hash_find bh.b_dev bh.b_blocknr l ≡ none = ground (arith, absent) in
    (
      hash_find-append_other x.b_dev x.b_blocknr l bh other ∙ fresh,
      append-Distinct l bh distinct absent_l,
    )

pub hash_find-update_absent :
    (f : BufferHead → BufferHead) (dev lba d b : ℕ) (l : List BufferHead)
    → KeepsBlock f
    → hash_find d b l ≡ none
    → hash_find d b (update_block f dev lba l) ≡ none
unfolding hash_find update_block
hash_find-update_absent f dev lba d b [] keeps absent = refl
hash_find-update_absent f dev lba d b (x ∷ l) keeps absent =
    ground (arith, hash_find-update_absent f dev lba d b l keeps, keeps-condition f d b x keeps)

pub update_block-Distinct :
    (f : BufferHead → BufferHead) (dev lba : ℕ) (l : List BufferHead)
    → KeepsBlock f
    → Distinct l
    → Distinct (update_block f dev lba l)
unfolding update_block
update_block-Distinct f dev lba [] keeps distinct = distinct
update_block-Distinct f dev lba (bh ∷ l) keeps (fresh, distinct) =
    let (e, e') = keeps bh in
    elim (Bool-cases (buffer_condition dev lba bh)) [
      | inl here_it ↦ rw here_it (ap₂ (λ (d b : ℕ). hash_find d b l) e e' ∙ fresh, distinct)
      | inr other ↦ rw other (
        hash_find-update_absent f dev lba bh.b_dev bh.b_blocknr l keeps fresh,
        update_block-Distinct f dev lba l keeps distinct,
      )
    ]

pub length-remove_block :
    (dev lba : ℕ) (l : List BufferHead) (bh : BufferHead)
    → hash_find dev lba l ≡ some bh
    → length l ≡ suc (length (remove_block dev lba l))
unfolding hash_find remove_block
length-remove_block dev lba [] bh e = ground arith
length-remove_block dev lba (x ∷ l) bh e = ground (arith, length-remove_block dev lba l bh)

pub length-update_block :
    (f : BufferHead → BufferHead) (dev lba : ℕ) (l : List BufferHead)
    → length (update_block f dev lba l) ≡ length l
unfolding update_block
length-update_block f dev lba [] = refl
length-update_block f dev lba (x ∷ l) = ground (arith, length-update_block f dev lba l)

-- How often a block number is on a dirty list.
abbrev pub count : ℕ → List ℕ → ℕ
count lba [] = 0
count lba (x ∷ l) = if x == lba then suc (count lba l) else count lba l

pub count-append :
    (lba x : ℕ) (l : List ℕ)
    → count lba (l ++ x ∷ []) ≡ (if x == lba then suc (count lba l) else count lba l)
count-append lba x [] = refl
count-append lba x (y ∷ l) = ground (arith, count-append lba x l)

pub count-unlink_self : (lba : ℕ) (l : List ℕ) → count lba (unlink lba l) ≡ count lba l - 1
unfolding unlink
count-unlink_self lba [] = refl
count-unlink_self lba (y ∷ l) = ground (arith, count-unlink_self lba l)

pub count-unlink_ne :
    (lba x : ℕ) (l : List ℕ) → (x == lba) ≡ false → count lba (unlink x l) ≡ count lba l
unfolding unlink
count-unlink_ne lba x [] ne = refl
count-unlink_ne lba x (y ∷ l) ne = ground (arith, count-unlink_ne lba x l ne)
