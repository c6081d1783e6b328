-- ===== src/BlockCache/Synced.antt =====
-- `sync_ide_buffer` brings a disk up to date.
use magic_box.Prelude.{ℕ, ◌-◌, ◌≡◌, false, if◌then◌else◌, [], ◌==◌, ◌&&◌}
use magic_box.BlockCache.{IdeBuffer, hash_find}
use magic_box.BlockCache.Coherent.{Coherent, SameContents, dirty, stored}
use magic_box.BlockCache.Syncing.{Syncing}

emptied_lists : ℕ → IdeBuffer → IdeBuffer
emptied_lists dev c = record c {
  active_dirty_idx = λ d. if d == dev then 1 - c.active_dirty_idx dev else c.active_dirty_idx d;
  dirty_lists =
      λ d idx. if (d == dev) && (idx == c.active_dirty_idx dev) then [] else c.dirty_lists d idx;
}

-- The disk is up to date: its blocks hold what the cache stands for, and no buffer of it is dirty.
abbrev pub UpToDate : ℕ → IdeBuffer → IdeBuffer → Type 0
UpToDate dev c c' =
    Coherent c'
    × SameContents c c'
    × ((lba : ℕ)
        → (c'.disks dev lba ≡ stored c dev lba) × (dirty (hash_find dev lba c'.lru_list) ≡ false))
