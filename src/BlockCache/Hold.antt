-- ===== src/BlockCache/Hold.antt =====
-- The buffer that `getblk` returned, held by its caller.
use magic_box.Prelude.{
  ℕ, ◌-◌, ◌+◌, ◌%◌, ◌^◌, ◌≡◌, ◌<◌, ◌⊎◌, refl, sym, ap, ◌∙◌, true, false, if◌then◌else◌, none, some,
  arith, inl, inr, List, [], ◌∷◌, ◌++◌,
}
use magic_box.BlockCache.{
  BufferHead, IdeBuffer, Sector, hash_find, limit, update_block, buffer_condition, add_ref, getblk,
}
use magic_box.BlockCache.Lookup.{eq_block, hash_find-append_absent, hash_find-append_other, count}
use magic_box.BlockCache.Coherent.{Coherent, SameContents, flag, stored, Backed, Backed-NoneDirtied}
use magic_box.BlockCache.Reclaim.{pinned}
use magic_box.BlockCache.Get.{Got, getblk-Got}

-- No buffer is in use, the eviction loop allows one at least, `kmalloc` gives blocks and no dirty buffer
-- is of a block behind the end of the disk.
pub record Ready (c : IdeBuffer) : Type 0 where
  pub coherent : Coherent c
  pub backed : Backed c
  pub idle : pinned c.lru_list ≡ 0
  pub allows : 0 < limit c

-- One buffer is in use, once: the last, which is the one of the block.
pub record Holds (dev lba : ℕ) (bh : BufferHead) (c : IdeBuffer) : Type 0 where
  pub coherent : Coherent c
  pub backed : Backed c
  pub front : List BufferHead
  pub last : c.lru_list ≡ front ++ bh ∷ []
  pub of_block : buffer_condition dev lba bh ≡ true
  pub alone : hash_find dev lba front ≡ none
  pub idle : pinned front ≡ 0
  pub once : bh.b_ref_count ≡ 1
  pub allows : 0 < limit c

pinned-hash_find :
    (dev lba : ℕ) (l : List BufferHead) (bh : BufferHead)
    → pinned l ≡ 0
    → hash_find dev lba l ≡ some bh
    → bh.b_ref_count ≡ 0
unfolding hash_find
pinned-hash_find dev lba [] bh idle e = ground arith
pinned-hash_find dev lba (x ∷ l) bh idle e = ground (arith, pinned-hash_find dev lba l bh)

Got-once :
    (dev lba : ℕ) (c c' : IdeBuffer) → Ready c → (got : Got dev lba c c') → got.bh.b_ref_count ≡ 1
Got-once dev lba c c' ready got = by_refs got.refs
  where
    by_refs :
        ((hash_find dev lba c.lru_list ≡ none)
            × (got.bh.b_ref_count ≡ 1)
            × (got.bh.b_valid ≡ false))
          ⊎ ((old : BufferHead) × (hash_find dev lba c.lru_list ≡ some old)
              × (got.bh ≡ add_ref old))
        → got.bh.b_ref_count ≡ 1
    by_refs (inl (absent, one, invalid)) = one
    by_refs (inr (old, found, e)) =
        ap (λ x. x.b_ref_count) e
        ∙ ap (λ n. (n + 1) % 2 ^ 32) (pinned-hash_find dev lba c.lru_list old ready.idle found)

-- `getblk` from a cache without buffers in use.
pub getblk-Holds :
    (dev lba : ℕ) (c : IdeBuffer)
    → Ready c
    → (c' : IdeBuffer) × (bh : BufferHead) × (getblk dev lba c ≡ some c')
      × Holds dev lba bh c'
      × SameContents c c'
getblk-Holds dev lba c ready =
    let (c', e, got) =
      getblk-Got dev lba c ready.coherent ready.backed (omega (arith, ready.idle, ready.allows)) in
    (
      c',
      got.bh,
      e,
      record {
        coherent = got.coherent;
        backed = Backed-NoneDirtied c c' ready.backed got.kept;
        front = got.front;
        last = got.last;
        of_block = got.of_block;
        alone = got.alone;
        idle = omega (arith, got.in_use, ready.idle);
        once = Got-once dev lba c c' ready got;
        allows = rw got.max ready.allows;
      },
      got.same,
    )

-- The buffer that is held is the one that the search finds.
pub Holds-hash_find :
    (dev lba : ℕ) (bh : BufferHead) (c : IdeBuffer)
    → Holds dev lba bh c
    → hash_find dev lba c.lru_list ≡ some bh
Holds-hash_find dev lba bh c held =
    rw held.last (hash_find-append_absent dev lba held.front bh held.alone ∙ rw held.of_block refl)

pub update_block-last :
    (f : BufferHead → BufferHead) (dev lba : ℕ) (front : List BufferHead) (bh : BufferHead)
    → hash_find dev lba front ≡ none
    → buffer_condition dev lba bh ≡ true
    → update_block f dev lba (front ++ bh ∷ []) ≡ front ++ f bh ∷ []
unfolding hash_find update_block
update_block-last f dev lba [] bh alone of_block = rw of_block refl
update_block-last f dev lba (x ∷ front) bh alone of_block =
    ground (arith, update_block-last f dev lba front bh, alone, of_block)

-- A change of the block's buffer and of the dirty lists.
abbrev pub changed : (BufferHead → BufferHead) → ℕ → ℕ → (ℕ → ℕ → List ℕ) → IdeBuffer → IdeBuffer
changed f dev lba lists c = record c {
  lru_list = update_block f dev lba c.lru_list;
  dirty_lists = lists;
}

abbrev pub Relists : ℕ → ℕ → BufferHead → (ℕ → ℕ → List ℕ) → IdeBuffer → Type 0
Relists dev lba bh' lists c =
    (d b : ℕ)
    → (count b (lists d (c.active_dirty_idx d)) ≡ (
        if eq_block dev lba d b
        then flag bh'.b_dirty
        else count b (c.dirty_lists d (c.active_dirty_idx d))))
      × (count b (lists d (1 - c.active_dirty_idx d))
          ≡ count b (c.dirty_lists d (1 - c.active_dirty_idx d)))

-- The contents with the block's data replaced.
abbrev pub Replaces : ℕ → ℕ → Sector → IdeBuffer → IdeBuffer → Type 0
Replaces dev lba s c c' =
    (d b : ℕ) → stored c' d b ≡ (if eq_block dev lba d b then s else stored c d b)

hash_find-held_other :
    (dev lba d b : ℕ) (front : List BufferHead) (bh bh' : BufferHead)
    → buffer_condition dev lba bh ≡ true
    → buffer_condition dev lba bh' ≡ true
    → eq_block dev lba d b ≡ false
    → hash_find d b (front ++ bh ∷ []) ≡ hash_find d b (front ++ bh' ∷ [])
hash_find-held_other dev lba d b front bh bh' e e' ne =
    hash_find-append_other d b front bh (ground (arith, e, ne))
    ∙ sym (hash_find-append_other d b front bh' (ground (arith, e', ne)))
