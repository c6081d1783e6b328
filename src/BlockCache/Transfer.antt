-- ===== src/BlockCache/Transfer.antt =====
-- Reading and writing through the cache: `_bread`, `bread_multi`, `bwrite` and `bwrite_multi` of
-- device/block/ide_buffer.c. A buffer of several sectors is the list of them.
-- A number of a block is below 2 ^ 32.
use magic_box.Prelude.{
  ℕ, zero, suc, ◌+◌, ◌-◌, true, false, leb, if◌then◌else◌, ◌==◌, ◌&&◌, Option, none, some, ◌>>=◌,
  List, [], ◌∷◌, ◌++◌,
}
use magic_box.BlockCache.{
  BufferHead, IdeBuffer, Sector, hash_find, update_block, getblk, brelse, ide_read, max_lba,
}

abbrev pub filled : Sector → BufferHead → BufferHead
filled s bh = record bh { b_data = s; b_valid = true }

abbrev pub fresh_from : Sector → BufferHead → BufferHead
fresh_from s bh = record bh { b_data = s; b_valid = true; b_dirty = false }

-- `_bread`, whose buffer is the one of the block in the new state.
unfoldable pub bread_found : ℕ → ℕ → IdeBuffer → BufferHead → Option IdeBuffer
bread_found dev lba c bh =
    if bh.b_valid
    then some c
    else if leb lba max_lba
    then some
        (record c { lru_list = update_block (fresh_from (c.disks dev lba)) dev lba c.lru_list })
    else none

unfoldable pub bread : ℕ → ℕ → IdeBuffer → Option IdeBuffer
bread dev lba c = do c' ← getblk dev lba c; hash_find dev lba c'.lru_list >>= bread_found dev lba c'

-- The inner loop of `bread_multi` that looks ahead: how many blocks are read at once, of those that
-- remain after the first `k`.
unfoldable pub look_ahead_on : ℕ → ℕ → Option BufferHead → ℕ
look_ahead_on k more (some bh) = k
look_ahead_on k more none = if leb 16 (suc k) then suc k else more

unfoldable pub look_ahead : ℕ → ℕ → IdeBuffer → ℕ → ℕ → ℕ
look_ahead dev lba c k zero = k
look_ahead dev lba c k (suc rest) =
    look_ahead_on k (look_ahead dev lba c (suc k) rest) (hash_find dev (lba + k) c.lru_list)

-- The loop of `bread_multi` that copies what was read into the cache.
unfoldable pub copy_in : ℕ → ℕ → Sector → IdeBuffer → BufferHead → IdeBuffer
copy_in dev lba s c bh =
    if bh.b_valid then c else record c { lru_list = update_block (filled s) dev lba c.lru_list }

unfoldable pub fill_one : ℕ → ℕ → Sector → IdeBuffer → Option IdeBuffer
fill_one dev lba s c = do
  c' ← getblk dev lba c
  bh ← hash_find dev lba c'.lru_list
  brelse dev lba (copy_in dev lba s c' bh)

unfoldable pub fill : ℕ → ℕ → List Sector → IdeBuffer → Option IdeBuffer
fill dev lba [] c = some c
fill dev lba (s ∷ rest) c = fill_one dev lba s c >>= fill dev (suc lba) rest

-- The rest of the loop of `bread_multi`, as a function of the block and of the number left.
abbrev pub Reader : Type 0
Reader = ℕ → ℕ → IdeBuffer → Option (List Sector × IdeBuffer)

abbrev pub with_run : List Sector → List Sector × IdeBuffer → List Sector × IdeBuffer
with_run run (rest, c) = (run ++ rest, c)

unfoldable pub read_run : ℕ → ℕ → ℕ → ℕ → Reader → IdeBuffer → Option (List Sector × IdeBuffer)
read_run dev lba k left again c = do
  c' ← fill dev lba (ide_read c.disks dev lba k) c
  r ← again (lba + k) (left - k) c'
  some (with_run (ide_read c.disks dev lba k) r)

unfoldable pub read_hit :
    ℕ → ℕ → ℕ → Reader → BufferHead → IdeBuffer → Option (List Sector × IdeBuffer)
read_hit dev lba left again bh c = do
  r ← again (suc lba) (left - 1) c
  some (with_run (bh.b_data ∷ []) r)

unfoldable pub read_turn :
    ℕ → ℕ → ℕ → Reader → IdeBuffer → BufferHead → Option (List Sector × IdeBuffer)
read_turn dev lba left again c bh =
    if bh.b_valid
    then brelse dev lba c >>= read_hit dev lba left again bh
    else brelse dev lba c >>= λ c'.
        let run = read_run dev lba (look_ahead dev lba c' 1 (left - 1)) left again c' in
        if leb lba max_lba then run else none

-- The loop of `bread_multi`, on fuel: `left` blocks are still to be read. Each turn reads one at
-- least, so their number is enough.
unfoldable pub read_blocks : ℕ → ℕ → Reader
read_blocks fuel dev lba zero c = some ([], c)
read_blocks zero dev lba (suc left) c = none
read_blocks (suc fuel) dev lba (suc left) c = do
  c' ← getblk dev lba c
  bh ← hash_find dev lba c'.lru_list
  read_turn dev lba (suc left) (read_blocks fuel dev) c' bh

abbrev pub bread_multi : ℕ → ℕ → ℕ → IdeBuffer → Option (List Sector × IdeBuffer)
bread_multi dev start_lba sec_cnt c = read_blocks sec_cnt dev start_lba sec_cnt c

-- `bwrite`: a clean buffer is made dirty and joins the active dirty list of its disk.
abbrev pub make_dirty : BufferHead → BufferHead
make_dirty bh = record bh { b_dirty = true }

abbrev pub push_dirty : ℕ → ℕ → IdeBuffer → ℕ → ℕ → List ℕ
push_dirty dev lba c d idx =
    if (d == dev) && (idx == c.active_dirty_idx dev)
    then c.dirty_lists d idx ++ lba ∷ []
    else c.dirty_lists d idx

unfoldable pub bwrite : ℕ → ℕ → IdeBuffer → BufferHead → IdeBuffer
bwrite dev lba c bh = if bh.b_dirty then c else record c {
  lru_list = update_block make_dirty dev lba c.lru_list;
  dirty_lists = push_dirty dev lba c;
}

-- A turn of the loop of `bwrite_multi`, with the part that it shares with `bwrite`.
unfoldable pub write_one : ℕ → ℕ → Sector → IdeBuffer → Option IdeBuffer
write_one dev lba s c = do
  c' ← getblk dev lba c
  bh ← hash_find dev lba c'.lru_list
  brelse dev lba
      (bwrite dev lba (record c' { lru_list = update_block (filled s) dev lba c'.lru_list }) bh)

unfoldable pub bwrite_multi : ℕ → ℕ → List Sector → IdeBuffer → Option IdeBuffer
bwrite_multi dev lba [] c = some c
bwrite_multi dev lba (s ∷ rest) c = write_one dev lba s c >>= bwrite_multi dev (suc lba) rest
