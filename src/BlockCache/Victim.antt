-- ===== src/BlockCache/Victim.antt =====
-- What an eviction of `getblk` changes, one part of the state at a time.
use magic_box.Prelude.{
  ℕ, suc, ◌-◌, ◌+◌, ◌%◌, ◌^◌, ◌≡◌, ◌≤◌, refl, sym, ap, ◌∙◌, Bool, true, false, if◌then◌else◌, none,
  some, length, arith, Bool-cases, inl, inr, List, ◌==◌, ◌&&◌,
}
use magic_box.BlockCache.{
  BufferHead, IdeBuffer, hash_find, blk_evict, write_back, ide_write, unlink_dirty,
}
use magic_box.BlockCache.Lookup.{
  Distinct, count, eq_block, hash_find-remove_self, hash_find-remove_ne, hash_find-update_ne,
  update_block-Distinct, remove_block-Distinct, length-remove_block, length-update_block,
  count-unlink_self, count-unlink_ne, hash_find-update_self,
}
use magic_box.BlockCache.Coherent.{flag}

abbrev pub evicted : BufferHead → IdeBuffer → IdeBuffer
evicted v c = blk_evict v (write_back v c)

abbrev pub clean : BufferHead → BufferHead
clean bh = record bh { b_dirty = false }

pub write_back-Distinct :
    (v : BufferHead) (c : IdeBuffer) → Distinct c.lru_list → Distinct (write_back v c).lru_list
unfolding write_back
write_back-Distinct v c distinct = elim (Bool-cases v.b_dirty) [
  | inl d ↦
      rw d
        (update_block-Distinct clean v.b_dev v.b_blocknr c.lru_list (λ bh. (refl, refl)) distinct)
  | inr d ↦ rw d distinct
]

write_back-others :
    (v : BufferHead) (c : IdeBuffer) (d b : ℕ)
    → eq_block v.b_dev v.b_blocknr d b ≡ false
    → hash_find d b (write_back v c).lru_list ≡ hash_find d b c.lru_list
unfolding write_back
write_back-others v c d b other = elim (Bool-cases v.b_dirty) [
  | inl e ↦
      rw e (hash_find-update_ne clean v.b_dev v.b_blocknr d b c.lru_list (λ bh. (refl, refl)) other)
  | inr e ↦ rw e refl
]

-- An eviction takes the victim out and leaves the other buffers.
pub hash_find-evicted_self :
    (v : BufferHead) (c : IdeBuffer)
    → Distinct c.lru_list
    → hash_find v.b_dev v.b_blocknr (evicted v c).lru_list ≡ none
unfolding blk_evict
hash_find-evicted_self v c distinct =
    hash_find-remove_self v.b_dev v.b_blocknr (write_back v c).lru_list
      (write_back-Distinct v c distinct)

pub hash_find-evicted_other :
    (v : BufferHead) (c : IdeBuffer) (d b : ℕ)
    → eq_block v.b_dev v.b_blocknr d b ≡ false
    → hash_find d b (evicted v c).lru_list ≡ hash_find d b c.lru_list
unfolding blk_evict
hash_find-evicted_other v c d b other =
    hash_find-remove_ne v.b_dev v.b_blocknr d b (write_back v c).lru_list other
    ∙ write_back-others v c d b other

pub disks-evicted :
    (v : BufferHead) (c : IdeBuffer) (d b : ℕ)
    → (evicted v c).disks d b
      ≡ (if v.b_dirty && eq_block v.b_dev v.b_blocknr d b then v.b_data else c.disks d b)
unfolding blk_evict write_back ide_write
disks-evicted v c d b = ground arith

pub active-evicted :
    (v : BufferHead) (c : IdeBuffer) → (evicted v c).active_dirty_idx ≡ c.active_dirty_idx
unfolding blk_evict write_back
active-evicted v c = elim (Bool-cases v.b_dirty) [ inl e ↦ rw e refl | inr e ↦ rw e refl ]

count-unlink_dirty_self :
    (v : BufferHead) (lists : ℕ → ℕ → List ℕ) (idx : ℕ)
    → count v.b_blocknr (unlink_dirty v lists v.b_dev idx)
      ≡ count v.b_blocknr (lists v.b_dev idx) - 1
count-unlink_dirty_self v lists idx =
    let same : (v.b_dev == v.b_dev) ≡ true = ground arith in
    rw same (count-unlink_self v.b_blocknr (lists v.b_dev idx))

count-unlink_dirty_other :
    (v : BufferHead) (lists : ℕ → ℕ → List ℕ) (d b idx : ℕ)
    → eq_block v.b_dev v.b_blocknr d b ≡ false
    → count b (unlink_dirty v lists d idx) ≡ count b (lists d idx)
count-unlink_dirty_other v lists d b idx other = elim (Bool-cases (d == v.b_dev)) [
  | inl same ↦ rw same (count-unlink_ne b v.b_blocknr (lists d idx) (ground arith))
  | inr e ↦ rw e refl
]

pub count-evicted_self :
    (v : BufferHead) (c : IdeBuffer) (idx : ℕ)
    → count v.b_blocknr ((evicted v c).dirty_lists v.b_dev idx)
      ≤ count v.b_blocknr (c.dirty_lists v.b_dev idx) - 1
unfolding blk_evict write_back
count-evicted_self v c idx =
    let once = count-unlink_dirty_self v c.dirty_lists idx in
    elim (Bool-cases v.b_dirty) [
      | inl e ↦
          simp e (omega (arith, once, count-unlink_dirty_self v (unlink_dirty v c.dirty_lists) idx))
      | inr e ↦ simp e (omega (arith, once))
    ]

pub count-evicted_other :
    (v : BufferHead) (c : IdeBuffer) (d b idx : ℕ)
    → eq_block v.b_dev v.b_blocknr d b ≡ false
    → count b ((evicted v c).dirty_lists d idx) ≡ count b (c.dirty_lists d idx)
unfolding blk_evict write_back
count-evicted_other v c d b idx other =
    let once = count-unlink_dirty_other v c.dirty_lists d b idx other in
    elim (Bool-cases v.b_dirty) [
      | inl e ↦
          simp e (count-unlink_dirty_other v (unlink_dirty v c.dirty_lists) d b idx other ∙ once)
      | inr e ↦ simp e once
    ]

length-write_back :
    (v : BufferHead) (c : IdeBuffer) → length (write_back v c).lru_list ≡ length c.lru_list
unfolding write_back
length-write_back v c = elim (Bool-cases v.b_dirty) [
  | inl e ↦ rw e (length-update_block clean v.b_dev v.b_blocknr c.lru_list)
  | inr e ↦ rw e refl
]

pub still_there :
    (v : BufferHead) (c : IdeBuffer)
    → hash_find v.b_dev v.b_blocknr c.lru_list ≡ some v
    → (bh : BufferHead) × (hash_find v.b_dev v.b_blocknr (write_back v c).lru_list ≡ some bh)
unfolding write_back
still_there v c e = elim (Bool-cases v.b_dirty) [
  | inl d ↦
      rw d (
        clean v,
        hash_find-update_self clean v.b_dev v.b_blocknr c.lru_list v (λ bh. (refl, refl)) e,
      )
  | inr d ↦ rw d (v, e)
]

cur-write_back : (v : BufferHead) (c : IdeBuffer) → (write_back v c).cur_blk_num ≡ c.cur_blk_num
unfolding write_back
cur-write_back v c = elim (Bool-cases v.b_dirty) [ inl e ↦ rw e refl | inr e ↦ rw e refl ]

pub length-evicted :
    (v : BufferHead) (c : IdeBuffer)
    → hash_find v.b_dev v.b_blocknr c.lru_list ≡ some v
    → suc (length (evicted v c).lru_list) ≡ length c.lru_list
unfolding blk_evict
length-evicted v c e =
    let (bh, e') = still_there v c e in
    sym (length-remove_block v.b_dev v.b_blocknr (write_back v c).lru_list bh e')
    ∙ length-write_back v c

pub cur-evicted :
    (v : BufferHead) (c : IdeBuffer)
    → (evicted v c).cur_blk_num ≡ (c.cur_blk_num + (2 ^ 32 - 1)) % 2 ^ 32
unfolding blk_evict
cur-evicted v c = ap (λ n. (n + (2 ^ 32 - 1)) % 2 ^ 32) (cur-write_back v c)

pub blk_evict-Distinct :
    (v : BufferHead) (c : IdeBuffer) → Distinct c.lru_list → Distinct (blk_evict v c).lru_list
unfolding blk_evict
blk_evict-Distinct v c distinct = remove_block-Distinct v.b_dev v.b_blocknr c.lru_list distinct

pub flag-le : (b : Bool) → flag b ≤ 1
flag-le true = omega arith
flag-le false = omega arith
