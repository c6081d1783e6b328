-- ===== src/BlockCache/Flush.antt =====
-- `sync_ide_buffer` of device/block/ide_buffer.c for one disk: the dirty blocks are sorted, written in
-- runs of up to 16, and clean after. A dirty list and the sorted list are lists of block numbers.
use magic_box.Prelude.{
  ℕ, zero, suc, ◌-◌, ltb, if◌then◌else◌, ◌==◌, ◌&&◌, Option, none, some, List, [], ◌∷◌, map, length,
}
use magic_box.BlockCache.{
  BufferHead, IdeBuffer, Sector, hash_find, update_block, ide_write, add_ref, drop_ref,
}
use magic_box.BlockCache.Victim.{clean}

-- `dlist_insert_order` with `_cb_bh_lba_condition`: before the first larger number.
unfoldable pub insert_order : ℕ → List ℕ → List ℕ
insert_order lba [] = lba ∷ []
insert_order lba (x ∷ l) = if ltb lba x then lba ∷ x ∷ l else x ∷ insert_order lba l

-- A change of the buffers of several blocks, one after the other.
unfoldable pub update_blocks :
    (BufferHead → BufferHead) → ℕ → List ℕ → List BufferHead → List BufferHead
update_blocks f dev [] l = l
update_blocks f dev (lba ∷ rest) l = update_blocks f dev rest (update_block f dev lba l)

unfoldable pub sort_dirty : List ℕ → List ℕ → List ℕ
sort_dirty [] sorted = sorted
sort_dirty (lba ∷ l) sorted = sort_dirty l (insert_order lba sorted)

-- The buffers that follow a block without a gap, `room` at most, and the others.
abbrev pub with_first : ℕ → List ℕ × List ℕ → List ℕ × List ℕ
with_first x (run, rest) = (x ∷ run, rest)

unfoldable pub take_run : ℕ → ℕ → List ℕ → List ℕ × List ℕ
take_run prev zero l = ([], l)
take_run prev (suc room) [] = ([], [])
take_run prev (suc room) (x ∷ l) =
    if x == suc prev then with_first x (take_run x room l) else ([], x ∷ l)

abbrev pub data_at : Option BufferHead → Sector
data_at none = []
data_at (some bh) = bh.b_data

abbrev pub data_of : ℕ → List BufferHead → ℕ → Sector
data_of dev l lba = data_at (hash_find dev lba l)

-- The buffers of a batch are marked clean, their data is put together and written, and their
-- references are given back.
unfoldable pub write_batch : ℕ → ℕ → List ℕ → IdeBuffer → IdeBuffer
write_batch dev start batch c =
    let cleaned = update_blocks clean dev batch c.lru_list in
    record c {
      disks = ide_write c.disks dev start (map (data_of dev cleaned) batch);
      lru_list = update_blocks drop_ref dev batch cleaned;
    }

-- The loop over the sorted list, on fuel. Each turn takes a block at least.
unfoldable pub write_sorted : ℕ → ℕ → List ℕ → IdeBuffer → IdeBuffer
write_sorted fuel dev [] c = c
write_sorted zero dev (x ∷ l) c = c
write_sorted (suc fuel) dev (x ∷ l) c =
    write_sorted fuel dev (take_run x 15 l).1 (write_batch dev x (x ∷ (take_run x 15 l).0) c)

-- The lists are switched, so that `bwrite` adds to the other one, and the old one is emptied with a
-- reference to each of its buffers.
unfoldable pub switch_lists : ℕ → IdeBuffer → IdeBuffer
switch_lists dev c =
    let old = c.active_dirty_idx dev in
    record c {
      active_dirty_idx = λ d. if d == dev then 1 - old else c.active_dirty_idx d;
      dirty_lists = λ d idx. if (d == dev) && (idx == old) then [] else c.dirty_lists d idx;
      lru_list = update_blocks add_ref dev (c.dirty_lists dev old) c.lru_list;
    }

unfoldable pub sync_list : ℕ → List ℕ → IdeBuffer → IdeBuffer
sync_list dev [] c = c
sync_list dev (x ∷ l) c =
    let sorted = sort_dirty (x ∷ l) [] in
    write_sorted (length sorted) dev sorted (switch_lists dev c)

abbrev pub sync_disk : ℕ → IdeBuffer → IdeBuffer
sync_disk dev c = sync_list dev (c.dirty_lists dev (c.active_dirty_idx dev)) c
