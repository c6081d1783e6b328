-- ===== src/BlockCache/Tests.antt =====
-- The block cache at concrete inputs: two sectors written to disk 0, and read with their neighbours.
use magic_box.Prelude.{ℕ, ◌+◌, ◌*◌, ◌≡◌, refl, List, [], ◌∷◌, arith, true}
use magic_box.BlockCache.{IdeBuffer, Sector, ide_buffer_init}
use magic_box.BlockCache.Transfer.{bread_multi, bwrite_multi}
use magic_box.BlockCache.Flush.{sort_dirty, insert_order}
use magic_box.BlockCache.Coherent.{init-Coherent, init-Backed}
use magic_box.BlockCache.Hold.{Ready}
use magic_box.BlockCache.Multi.{Reads, bread_multi-Reads}
use magic_box.BlockCache.Writes.{Writes, bwrite_multi-Writes}

abbrev sectors : ℕ → ℕ → Sector
sectors dev lba = (dev * 100 + lba) ∷ []

abbrev empty_cache : IdeBuffer
empty_cache = ide_buffer_init 102400 sectors [] (λ n. true)

empty_cache-Ready : Ready empty_cache
unfolding ide_buffer_init
empty_cache-Ready = record {
  coherent = init-Coherent 102400 sectors [] (λ n. true);
  backed = init-Backed 102400 sectors [];
  idle = refl;
  allows = omega arith;
}

abbrev data_written : List Sector
data_written = (7 ∷ []) ∷ (8 ∷ []) ∷ []

bwrite_multi-Writes_example :
    Writes 0 5 data_written empty_cache (bwrite_multi 0 5 data_written empty_cache)
bwrite_multi-Writes_example =
    bwrite_multi-Writes 0 5 data_written empty_cache empty_cache-Ready (omega arith)

-- The cache after the write, with two dirty buffers.
abbrev written_cache : IdeBuffer
written_cache = (bwrite_multi-Writes 0 5 data_written empty_cache empty_cache-Ready (omega arith)).0

written_cache-Ready : Ready written_cache
written_cache-Ready =
    (bwrite_multi-Writes 0 5 data_written empty_cache empty_cache-Ready (omega arith)).2

bread_multi-Reads_example : Reads 0 4 4 written_cache (bread_multi 0 4 4 written_cache)
bread_multi-Reads_example = bread_multi-Reads 0 4 4 written_cache written_cache-Ready (omega arith)

sort_dirty_example : sort_dirty (9 ∷ 4 ∷ 6 ∷ []) [] ≡ 4 ∷ 6 ∷ 9 ∷ []
unfolding sort_dirty insert_order
sort_dirty_example = refl
