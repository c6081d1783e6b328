-- ===== src/BlockCache.antt =====
-- The block cache of device/block/ide_buffer.c: lookup, eviction, reading and writing of blocks.
-- The state holds what the file's functions share: the buffers in the order of `lru_list`, the two
-- dirty lists of each disk as lists of block numbers, and the contents of the disks, which `ide_read`
-- and `ide_write` transfer. The hash table holds the buffers of `lru_list`, so `hash_find` is a search
-- there. A disk is named by a number. The functions run one after the other. `none` is a PANIC.
mod Transfer
mod Lookup
mod Coherent
mod Victim
mod Evict
mod Reclaim
mod Get
mod Hold
mod Update
mod Fill
mod Multi
mod Writes
mod Flush
mod Syncing
mod Batch
mod Synced
mod Tests
use magic_box.Prelude.{
  ℕ, zero, suc, ◌+◌, ◌-◌, ◌*◌, ◌/◌, ◌%◌, ◌^◌, Bool, true, false, not, ◌&&◌, ◌==◌, leb, ltb,
  if◌then◌else◌, Option, none, some, ◌>>=◌, List, [], ◌∷◌, ◌++◌,
}

-- The bytes of a sector.
abbrev pub Sector : Type 0
Sector = List ℕ

pub record BufferHead : Type 0 where
  pub b_blocknr : ℕ
  pub b_dev : ℕ
  pub b_dirty : Bool
  pub b_valid : Bool
  pub b_ref_count : ℕ
  pub b_data : Sector

pub record IdeBuffer : Type 0 where
  pub max_blk_num : ℕ
  pub cur_blk_num : ℕ
  pub lru_list : List BufferHead
  pub dirty_lists : ℕ → ℕ → List ℕ
  pub active_dirty_idx : ℕ → ℕ
  pub disks : ℕ → ℕ → Sector
  -- What `kmalloc` leaves in a new data area, whether its n-th call gives a block, and how many calls
  -- there were.
  pub fresh_data : Sector
  pub kmalloc : ℕ → Bool
  pub kmallocs : ℕ

-- `ide_read` and `ide_write` fail an ASSERT behind this block.
abbrev pub max_lba : ℕ
max_lba = 80 * 1024 * 1024 / 512 - 1

-- `ide_buffer_init`: the limit is a tenth of the memory, in sectors of 512 bytes.
unfoldable pub ide_buffer_init :
    ℕ → (ℕ → ℕ → Sector) → (fresh : Sector) → (kmalloc : ℕ → Bool) → IdeBuffer
ide_buffer_init mem_bytes_total disks fresh kmalloc = record {
  max_blk_num = mem_bytes_total / 10 / 512;
  cur_blk_num = 0;
  lru_list = [];
  dirty_lists = λ dev idx. [];
  active_dirty_idx = λ dev. 0;
  disks = disks;
  fresh_data = fresh;
  kmalloc = kmalloc;
  kmallocs = 0;
}

-- `buffer_condition`.
abbrev pub buffer_condition : ℕ → ℕ → BufferHead → Bool
buffer_condition dev lba bh = (bh.b_dev == dev) && (bh.b_blocknr == lba)

unfoldable pub hash_find : ℕ → ℕ → List BufferHead → Option BufferHead
hash_find dev lba [] = none
hash_find dev lba (bh ∷ l) = if buffer_condition dev lba bh then some bh else hash_find dev lba l

-- The list without the buffer of a block, as `dlist_remove` leaves it.
unfoldable pub remove_block : ℕ → ℕ → List BufferHead → List BufferHead
remove_block dev lba [] = []
remove_block dev lba (bh ∷ l) =
    if buffer_condition dev lba bh then l else bh ∷ remove_block dev lba l

-- A change of the buffer of a block in place.
unfoldable pub update_block : (BufferHead → BufferHead) → ℕ → ℕ → List BufferHead → List BufferHead
update_block f dev lba [] = []
update_block f dev lba (bh ∷ l) =
    if buffer_condition dev lba bh then f bh ∷ l else bh ∷ update_block f dev lba l

unfoldable pub unlink : ℕ → List ℕ → List ℕ
unlink lba [] = []
unlink lba (x ∷ l) = if x == lba then l else x ∷ unlink lba l

-- `b_ref_count++` and `b_ref_count--` on 32 bits.
abbrev pub add_ref : BufferHead → BufferHead
add_ref bh = record bh { b_ref_count = (bh.b_ref_count + 1) % 2 ^ 32 }

abbrev pub drop_ref : BufferHead → BufferHead
drop_ref bh = record bh { b_ref_count = (bh.b_ref_count + (2 ^ 32 - 1)) % 2 ^ 32 }

-- `ide_read` and `ide_write`, by what they transfer where the hardware gives no error. Their ASSERT on
-- the block is in the functions that call them.
unfoldable pub ide_read : (ℕ → ℕ → Sector) → ℕ → ℕ → ℕ → List Sector
ide_read disks dev lba zero = []
ide_read disks dev lba (suc n) = disks dev lba ∷ ide_read disks dev (suc lba) n

abbrev pub put_sector : (ℕ → ℕ → Sector) → ℕ → ℕ → Sector → ℕ → ℕ → Sector
put_sector disks dev lba s d b = if (d == dev) && (b == lba) then s else disks d b

unfoldable pub ide_write : (ℕ → ℕ → Sector) → ℕ → ℕ → List Sector → ℕ → ℕ → Sector
ide_write disks dev lba [] = disks
ide_write disks dev lba (s ∷ rest) = ide_write (put_sector disks dev lba s) dev (suc lba) rest

unfoldable pub find_victim : List BufferHead → Option BufferHead
find_victim [] = none
find_victim (bh ∷ l) = if bh.b_ref_count == 0 then some bh else find_victim l

-- `dlist_remove` of the dirty tag of a buffer, from the list of its disk that holds it.
abbrev pub unlink_dirty : BufferHead → (ℕ → ℕ → List ℕ) → ℕ → ℕ → List ℕ
unlink_dirty bh lists dev idx =
    if dev == bh.b_dev then unlink bh.b_blocknr (lists dev idx) else lists dev idx

-- `blk_evict`, where a buffer on no dirty list is left on none.
unfoldable pub blk_evict : BufferHead → IdeBuffer → IdeBuffer
blk_evict victim c = record c {
  lru_list = remove_block victim.b_dev victim.b_blocknr c.lru_list;
  dirty_lists = unlink_dirty victim c.dirty_lists;
  cur_blk_num = (c.cur_blk_num + (2 ^ 32 - 1)) % 2 ^ 32;
}

-- What the loop in `getblk` does to a dirty victim before `blk_evict`.
unfoldable pub write_back : BufferHead → IdeBuffer → IdeBuffer
write_back victim c =
    if victim.b_dirty
    then record c {
      dirty_lists = unlink_dirty victim c.dirty_lists;
      disks = ide_write c.disks victim.b_dev victim.b_blocknr (victim.b_data ∷ []);
      lru_list =
          update_block (λ bh. record bh { b_dirty = false }) victim.b_dev victim.b_blocknr
            c.lru_list;
    }
    else c

-- From this number of buffers on `getblk` evicts.
abbrev pub limit : IdeBuffer → ℕ
limit c = c.max_blk_num * 9 / 10

-- The loop of `getblk`, on fuel. A dirty victim behind the end of the disk fails the driver's ASSERT. Each
-- turn takes a buffer away, so their number is enough.
unfoldable pub reclaim_turn :
    (IdeBuffer → Option IdeBuffer) → IdeBuffer → Option BufferHead → Option IdeBuffer
reclaim_turn again c none = none
reclaim_turn again c (some victim) =
    if victim.b_dirty && ltb max_lba victim.b_blocknr
    then none
    else again (blk_evict victim (write_back victim c))

unfoldable pub reclaim : ℕ → IdeBuffer → Option IdeBuffer
reclaim zero c = if leb (limit c) c.cur_blk_num then none else some c
reclaim (suc fuel) c =
    if leb (limit c) c.cur_blk_num
    then reclaim_turn (reclaim fuel) c (find_victim c.lru_list)
    else some c

abbrev pub add_buffer : ℕ → ℕ → IdeBuffer → IdeBuffer
add_buffer dev lba c = record c {
  lru_list =
      c.lru_list
      ++ record {
        b_blocknr = lba;
        b_dev = dev;
        b_dirty = false;
        b_valid = false;
        b_ref_count = 1;
        b_data = c.fresh_data;
      }
        ∷ [];
  cur_blk_num = (c.cur_blk_num + 1) % 2 ^ 32;
  kmallocs = c.kmallocs + 2;
}

-- The second critical section of `getblk`: the block is looked up again before a new buffer is added.
abbrev pub add_or_find : ℕ → ℕ → IdeBuffer → Option BufferHead → IdeBuffer
add_or_find dev lba c (some bh) = record c {
  lru_list = update_block add_ref dev lba c.lru_list;
  kmallocs = c.kmallocs + 2;
}
add_or_find dev lba c none = add_buffer dev lba c

-- The new buffer takes two blocks of `kmalloc`.
unfoldable pub insert_new : ℕ → ℕ → IdeBuffer → Option BufferHead → Option IdeBuffer
insert_new dev lba c found =
    if c.kmalloc c.kmallocs && c.kmalloc (c.kmallocs + 1)
    then some (add_or_find dev lba c found)
    else none

unfoldable pub getblk_found : ℕ → ℕ → IdeBuffer → Option BufferHead → Option IdeBuffer
getblk_found dev lba c (some bh) =
    some (record c { lru_list = remove_block dev lba c.lru_list ++ add_ref bh ∷ [] })
getblk_found dev lba c none = do
  c' ← reclaim c.cur_blk_num c
  insert_new dev lba c' (hash_find dev lba c'.lru_list)

-- `getblk`. The buffer that it returns is the one of the block in the new state.
unfoldable pub getblk : ℕ → ℕ → IdeBuffer → Option IdeBuffer
getblk dev lba c = getblk_found dev lba c (hash_find dev lba c.lru_list)

unfoldable pub brelse_found : ℕ → ℕ → IdeBuffer → BufferHead → Option IdeBuffer
brelse_found dev lba c bh =
    if ltb 0 bh.b_ref_count
    then some (record c { lru_list = update_block drop_ref dev lba c.lru_list })
    else none

abbrev pub brelse : ℕ → ℕ → IdeBuffer → Option IdeBuffer
brelse dev lba c = hash_find dev lba c.lru_list >>= brelse_found dev lba c
