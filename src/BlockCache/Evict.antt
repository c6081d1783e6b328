-- ===== src/BlockCache/Evict.antt =====
-- The eviction loop of `getblk` keeps the contents of every block and ends.
use magic_box.Prelude.{
  ℕ, ◌-◌, ◌≡◌, sym, ap, ap₂, ◌∙◌, Bool, false, if◌then◌else◌, some, arith, ◌&&◌, subst,
}
use magic_box.BlockCache.{BufferHead, IdeBuffer, hash_find, write_back}
use magic_box.BlockCache.Lookup.{Distinct, count, eq_block, by_block, eq_block_refl}
use magic_box.BlockCache.Coherent.{
  contents, stored, dirty, flag, AgreesWith, Coherent, SameContents, Queued,
}
use magic_box.BlockCache.Victim.{
  active-evicted, blk_evict-Distinct, count-evicted_other, count-evicted_self, cur-evicted,
  disks-evicted, evicted, flag-le, hash_find-evicted_other, hash_find-evicted_self, length-evicted,
  write_back-Distinct,
}

-- The victim's contents are on the disk after its eviction.
stored-evicted_self :
    (v : BufferHead) (c : IdeBuffer)
    → Coherent c
    → hash_find v.b_dev v.b_blocknr c.lru_list ≡ some v
    → (evicted v c).disks v.b_dev v.b_blocknr ≡ contents (some v) (c.disks v.b_dev v.b_blocknr)
stored-evicted_self v c coherent e =
    disks-evicted v c v.b_dev v.b_blocknr
    ∙ on_disk
        (subst (AgreesWith (c.disks v.b_dev v.b_blocknr)) e (coherent.agrees v.b_dev v.b_blocknr))
  where
    on_disk :
        AgreesWith (c.disks v.b_dev v.b_blocknr) (some v)
        → (if v.b_dirty && eq_block v.b_dev v.b_blocknr v.b_dev v.b_blocknr
            then v.b_data
            else c.disks v.b_dev v.b_blocknr)
          ≡ contents (some v) (c.disks v.b_dev v.b_blocknr)
    on_disk (invalid, cleaned) = ground (arith, eq_block_refl v.b_dev v.b_blocknr, invalid, cleaned)

abbrev Evicts : BufferHead → IdeBuffer → ℕ → ℕ → Type 0
Evicts v c d b =
    (stored (evicted v c) d b ≡ stored c d b)
    × AgreesWith ((evicted v c).disks d b) (hash_find d b (evicted v c).lru_list)

evicted-Evicts :
    (v : BufferHead) (c : IdeBuffer) (d b : ℕ)
    → Coherent c
    → hash_find v.b_dev v.b_blocknr c.lru_list ≡ some v
    → Evicts v c d b
evicted-Evicts v c d b coherent e =
    by_block (Evicts v c) v.b_dev v.b_blocknr d b
      (
        rw (hash_find-evicted_self v c coherent.distinct, e) (stored-evicted_self v c coherent e),
        rw (hash_find-evicted_self v c coherent.distinct) tt,
      )
      other
  where
    other : eq_block v.b_dev v.b_blocknr d b ≡ false → Evicts v c d b
    other ne =
        let disk : (evicted v c).disks d b ≡ c.disks d b =
          disks-evicted v c d b ∙ ground (arith, ne) in
        (
          ap₂ contents (hash_find-evicted_other v c d b ne) disk,
          rw (hash_find-evicted_other v c d b ne, disk) (coherent.agrees d b),
        )

evicted-Queued :
    (v : BufferHead) (c : IdeBuffer)
    → Coherent c
    → hash_find v.b_dev v.b_blocknr c.lru_list ≡ some v
    → Queued (evicted v c)
evicted-Queued v c coherent e d b =
    by_block QueuedAt v.b_dev v.b_blocknr d b
      (by_cases v.b_dirty (
        subst
          (λ o.
            count v.b_blocknr (c.dirty_lists v.b_dev (c.active_dirty_idx v.b_dev)) ≡ flag (dirty o))
          e (coherent.queued v.b_dev v.b_blocknr).0))
      (λ ne. rw (active-evicted v c) (
        count-evicted_other v c d b (c.active_dirty_idx d) ne
            ∙ (coherent.queued d b).0
            ∙ ap (λ o. flag (dirty o)) (sym (hash_find-evicted_other v c d b ne)),
        count-evicted_other v c d b (1 - c.active_dirty_idx d) ne ∙ (coherent.queued d b).1,
      ))
  where
    QueuedAt : ℕ → ℕ → Type 0
    QueuedAt d b =
        (count b ((evicted v c).dirty_lists d ((evicted v c).active_dirty_idx d))
          ≡ flag (dirty (hash_find d b (evicted v c).lru_list)))
        × (count b ((evicted v c).dirty_lists d (1 - (evicted v c).active_dirty_idx d)) ≡ 0)

    by_cases :
        (x : Bool)
        → count v.b_blocknr (c.dirty_lists v.b_dev (c.active_dirty_idx v.b_dev)) ≡ flag x
        → QueuedAt v.b_dev v.b_blocknr
    by_cases x once =
        rw (active-evicted v c, hash_find-evicted_self v c coherent.distinct)
          (
            omega (arith, once, flag-le x, count-evicted_self v c (c.active_dirty_idx v.b_dev)),
            omega (
              arith,
              (coherent.queued v.b_dev v.b_blocknr).1,
              count-evicted_self v c (1 - c.active_dirty_idx v.b_dev),
            ),
          )

-- An eviction keeps the invariant and the contents of every block.
pub evicted-Coherent :
    (v : BufferHead) (c : IdeBuffer)
    → Coherent c
    → hash_find v.b_dev v.b_blocknr c.lru_list ≡ some v
    → Coherent (evicted v c) × SameContents c (evicted v c)
evicted-Coherent v c coherent e = (
  record {
    distinct = evicted-Distinct;
    agrees = λ d b. (evicted-Evicts v c d b coherent e).1;
    queued = evicted-Queued v c coherent e;
    counted = omega (arith, cur-evicted v c, coherent.counted, length-evicted v c e);
    two_lists = λ d. rw (active-evicted v c) (coherent.two_lists d);
  },
  λ d b. (evicted-Evicts v c d b coherent e).0,
)
  where
    evicted-Distinct : Distinct (evicted v c).lru_list
    evicted-Distinct =
        blk_evict-Distinct v (write_back v c) (write_back-Distinct v c coherent.distinct)
