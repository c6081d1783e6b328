-- ===== src/BlockCache/Syncing.antt =====
-- The invariant of `sync_ide_buffer`, and the write of one block.
use magic_box.Prelude.{
  ℕ, suc, ◌-◌, ◌%◌, ◌^◌, ◌≡◌, ◌≤◌, refl, sym, ap, ap₂, ◌∙◌, true, false, Option, none, some, length,
  arith, Bool-cases, ==_iff, Option-cases, inl, inr, List, [], ◌∷◌, ◌==◌, subst,
}
use magic_box.BlockCache.{BufferHead, IdeBuffer, hash_find, update_block, put_sector}
use magic_box.BlockCache.Victim.{clean}
use magic_box.BlockCache.Flush.{update_blocks, data_at, data_of}
use magic_box.BlockCache.Lookup.{
  Distinct, KeepsBlock, by_block, eq_block, eq_block_refl, count, hash_find-update_self,
  hash_find-update_ne, hash_find-update_absent, update_block-Distinct, length-update_block,
}
use magic_box.BlockCache.Coherent.{SameContents, contents, dirty, Agrees, AgreesWith, flag, stored}
use magic_box.BlockCache.Get.{Alike, Alike-contents, Alike-dirty, Alike-agrees}

-- The cache while a disk is brought up to date: the dirty buffers of the disk are the listed ones, and
-- its own lists are empty.
pub record Syncing (dev : ℕ) (todo : List ℕ) (c : IdeBuffer) : Type 0 where
  pub distinct : Distinct c.lru_list
  pub agrees : Agrees c
  pub listed : (lba : ℕ) → count lba todo ≡ flag (dirty (hash_find dev lba c.lru_list))
  pub emptied : (lba idx : ℕ) → idx ≤ 1 → count lba (c.dirty_lists dev idx) ≡ 0
  pub others :
      (d lba : ℕ)
      → (d == dev) ≡ false
      → (count lba (c.dirty_lists d (c.active_dirty_idx d))
          ≡ flag (dirty (hash_find d lba c.lru_list)))
        × (count lba (c.dirty_lists d (1 - c.active_dirty_idx d)) ≡ 0)
  pub counted : c.cur_blk_num ≡ length c.lru_list % 2 ^ 32
  pub two_lists : (d : ℕ) → c.active_dirty_idx d ≤ 1

-- A change of the reference count alone.
abbrev pub RefsOnly : (BufferHead → BufferHead) → Type 0
RefsOnly f = KeepsBlock f × ((bh : BufferHead) → Alike (some bh) (some (f bh)))

Alike-refl : (o : Option BufferHead) → Alike o o
Alike-refl none = tt
Alike-refl (some x) = (refl, refl, refl)

update_block-Alike :
    (f : BufferHead → BufferHead) (dev lba d b : ℕ) (l : List BufferHead)
    → RefsOnly f
    → Alike (hash_find d b l) (hash_find d b (update_block f dev lba l))
update_block-Alike f dev lba d b l (keeps, alike) =
    by_block (λ d b. Alike (hash_find d b l) (hash_find d b (update_block f dev lba l))) dev lba d b
      (elim (Option-cases (hash_find dev lba l)) [
        | inl e ↦ rw (e, hash_find-update_absent f dev lba dev lba l keeps e) tt
        | inr (bh, e) ↦ rw (e, hash_find-update_self f dev lba l bh keeps e) (alike bh)
      ])
      (λ ne. rw (hash_find-update_ne f dev lba d b l keeps ne) (Alike-refl (hash_find d b l)))

unfoldable pub with_refs : (BufferHead → BufferHead) → ℕ → List ℕ → IdeBuffer → IdeBuffer
with_refs f dev batch c = record c { lru_list = update_blocks f dev batch c.lru_list }

abbrev pub Goes : ℕ → List ℕ → IdeBuffer → IdeBuffer → Type 0
Goes dev todo c c' = Syncing dev todo c' × SameContents c c'

one_ref :
    (f : BufferHead → BufferHead) (dev lba : ℕ) (todo : List ℕ) (c : IdeBuffer)
    → RefsOnly f
    → Syncing dev todo c
    → Goes dev todo c (record c { lru_list = update_block f dev lba c.lru_list })
one_ref f dev lba todo c refs s =
    let alike = (λ (d b : ℕ). update_block-Alike f dev lba d b c.lru_list refs) in
    let after = update_block f dev lba c.lru_list in
    (
      record {
        distinct = update_block-Distinct f dev lba c.lru_list refs.0 s.distinct;
        agrees = λ d b.
            Alike-agrees (hash_find d b c.lru_list) (hash_find d b after) (c.disks d b) (alike d b)
              (s.agrees d b);
        listed = λ b.
            s.listed b
            ∙ ap flag (
                sym
                  (Alike-dirty (hash_find dev b c.lru_list) (hash_find dev b after) (alike dev b)));
        emptied = s.emptied;
        others = λ d b ne. (
          (s.others d b ne).0
              ∙ ap flag
                  (sym (Alike-dirty (hash_find d b c.lru_list) (hash_find d b after) (alike d b))),
          (s.others d b ne).1,
        );
        counted = s.counted ∙ ap (λ n. n % 2 ^ 32) (sym (length-update_block f dev lba c.lru_list));
        two_lists = s.two_lists;
      },
      λ d b.
          Alike-contents (hash_find d b c.lru_list) (hash_find d b after) (alike d b) (c.disks d b),
    )

pub with_refs-Goes :
    (f : BufferHead → BufferHead) (dev : ℕ) (batch todo : List ℕ) (c : IdeBuffer)
    → RefsOnly f
    → Syncing dev todo c
    → Goes dev todo c (with_refs f dev batch c)
unfolding with_refs update_blocks
with_refs-Goes f dev [] todo c refs s = (s, λ d b. refl)
with_refs-Goes f dev (lba ∷ batch) todo c refs s =
    let (s₁, same₁) = one_ref f dev lba todo c refs s in
    let (s₂, same₂) =
      with_refs-Goes f dev batch todo (record c { lru_list = update_block f dev lba c.lru_list })
        refs s₁ in
    (s₂, λ d b. same₂ d b ∙ same₁ d b)

-- One dirty block is written and clean.
abbrev pub flushed : ℕ → ℕ → IdeBuffer → IdeBuffer
flushed dev lba c = record c {
  disks = put_sector c.disks dev lba (data_of dev c.lru_list lba);
  lru_list = update_block clean dev lba c.lru_list;
}

dirty_one :
    (o : Option BufferHead) (n : ℕ)
    → suc n ≡ flag (dirty o)
    → (bh : BufferHead) × (o ≡ some bh) × (bh.b_dirty ≡ true) × (n ≡ 0)
dirty_one none n e = absurd (omega (arith, e))
dirty_one (some bh) n e = elim (Bool-cases bh.b_dirty) [
  | inl d ↦ (bh, refl, d, omega (arith, e, ap flag d))
  | inr d ↦ absurd (omega (arith, e, ap flag d))
]

module _ (dev lba : ℕ) (todo : List ℕ) (c : IdeBuffer) (s : Syncing dev (lba ∷ todo) c) where
  the_one :
      (bh : BufferHead) × (hash_find dev lba c.lru_list ≡ some bh)
      × (bh.b_dirty ≡ true)
      × (count lba todo ≡ 0)
  the_one =
      let self : (lba == lba) ≡ true = ground arith in
      dirty_one (hash_find dev lba c.lru_list) (count lba todo) (sym (rw self refl) ∙ s.listed lba)

  valid_one : (the_one.0).b_valid ≡ true
  valid_one =
      let (bh, e, d, left) = the_one in
      let (invalid, kept) = subst (AgreesWith (c.disks dev lba)) e (s.agrees dev lba) in
      elim (Bool-cases bh.b_valid) [ inl v ↦ v | inr v ↦ absurd (ground (arith, invalid v, d)) ]

  found_clean : hash_find dev lba (update_block clean dev lba c.lru_list) ≡ some (clean the_one.0)
  found_clean =
      hash_find-update_self clean dev lba c.lru_list the_one.0 (λ x. (refl, refl)) the_one.1

  elsewhere :
      (d b : ℕ)
      → eq_block dev lba d b ≡ false
      → hash_find d b (update_block clean dev lba c.lru_list) ≡ hash_find d b c.lru_list
  elsewhere d b ne = hash_find-update_ne clean dev lba d b c.lru_list (λ x. (refl, refl)) ne

  written : data_of dev c.lru_list lba ≡ (the_one.0).b_data
  written = ap data_at the_one.1

  disk_here : (flushed dev lba c).disks dev lba ≡ (the_one.0).b_data
  disk_here = rw (eq_block_refl dev lba) written

  flushed-stored : SameContents c (flushed dev lba c)
  flushed-stored d b =
      by_block (λ d b. stored (flushed dev lba c) d b ≡ stored c d b) dev lba d b
        (rw (found_clean, the_one.1) (rw valid_one refl))
        (λ ne. ap₂ contents (elsewhere d b ne) (rw ne refl))

  pub flushed-Goes : Goes dev todo c (flushed dev lba c)
  flushed-Goes = (
    record {
      distinct = update_block-Distinct clean dev lba c.lru_list (λ x. (refl, refl)) s.distinct;
      agrees = λ d b.
          by_block
            (λ d b.
              AgreesWith ((flushed dev lba c).disks d b)
                (hash_find d b (update_block clean dev lba c.lru_list)))
            dev lba d b (rw (found_clean, disk_here) (λ _. refl, λ _ _. refl))
            (λ ne. rw (elsewhere d b ne, ne) (s.agrees d b));
      listed = λ b. elim (Bool-cases (lba == b)) [
        | inl e ↦
            subst
              (λ x.
                count x todo
                ≡ flag (dirty (hash_find dev x (update_block clean dev lba c.lru_list))))
              ((==_iff lba b).0 e) (rw found_clean the_one.3)
        | inr e ↦ rw (elsewhere dev b (ground (arith, e))) (sym (rw e refl) ∙ s.listed b)
      ];
      emptied = s.emptied;
      others = λ d b ne. rw (elsewhere d b (ground (arith, ne))) (s.others d b ne);
      counted =
          s.counted ∙ ap (λ n. n % 2 ^ 32) (sym (length-update_block clean dev lba c.lru_list));
      two_lists = s.two_lists;
    },
    flushed-stored,
  )
