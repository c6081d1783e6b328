-- ===== src/BlockCache/Coherent.antt =====
-- What the cache of `ide_buffer.c` holds of the disks, and the invariant of its state.
use magic_box.Prelude.{
  ℕ, ◌-◌, ◌%◌, ◌^◌, ◌≡◌, ◌≤◌, refl, Bool, true, false, if◌then◌else◌, Option, none, some, length,
  arith, ap, ◌∙◌,
}
use magic_box.BlockCache.{BufferHead, IdeBuffer, Sector, max_lba, hash_find, ide_buffer_init}
use magic_box.BlockCache.Lookup.{Distinct, count}

-- The contents of a block, as its readers are to see it: the data of a valid buffer, else the disk's.
abbrev pub contents : Option BufferHead → Sector → Sector
contents none s = s
contents (some bh) s = if bh.b_valid then bh.b_data else s

abbrev pub stored : IdeBuffer → ℕ → ℕ → Sector
stored c dev lba = contents (hash_find dev lba c.lru_list) (c.disks dev lba)

abbrev pub dirty : Option BufferHead → Bool
dirty none = false
dirty (some bh) = bh.b_dirty

abbrev pub flag : Bool → ℕ
flag true = 1
flag false = 0

-- A dirty buffer is valid, and a clean valid one agrees with the disk.
abbrev pub AgreesWith : Sector → Option BufferHead → Type 0
AgreesWith s none = Unit
AgreesWith s (some bh) =
    (bh.b_valid ≡ false → bh.b_dirty ≡ false)
    × (bh.b_valid ≡ true → bh.b_dirty ≡ false → bh.b_data ≡ s)

-- A buffer is on the active dirty list of its disk, once, exactly if it is dirty, and no buffer is on
-- the other list.
abbrev pub Queued : IdeBuffer → Type 0
Queued c =
    (dev lba : ℕ)
    → (count lba (c.dirty_lists dev (c.active_dirty_idx dev))
        ≡ flag (dirty (hash_find dev lba c.lru_list)))
      × (count lba (c.dirty_lists dev (1 - c.active_dirty_idx dev)) ≡ 0)

abbrev pub Agrees : IdeBuffer → Type 0
Agrees c = (dev lba : ℕ) → AgreesWith (c.disks dev lba) (hash_find dev lba c.lru_list)

pub record Coherent (c : IdeBuffer) : Type 0 where
  pub distinct : Distinct c.lru_list
  pub agrees : Agrees c
  pub queued : Queued c
  pub counted : c.cur_blk_num ≡ length c.lru_list % 2 ^ 32
  pub two_lists : (dev : ℕ) → c.active_dirty_idx dev ≤ 1

abbrev pub SameContents : IdeBuffer → IdeBuffer → Type 0
SameContents c c' = (dev lba : ℕ) → stored c' dev lba ≡ stored c dev lba

-- `kmalloc` gives a block at each call, and no dirty buffer is of a block behind the end of the disk.
pub record Backed (c : IdeBuffer) : Type 0 where
  pub supplied : (n : ℕ) → c.kmalloc n ≡ true
  pub on_disk : (dev lba : ℕ) → dirty (hash_find dev lba c.lru_list) ≡ true → lba ≤ max_lba

-- No other buffer is dirty than before.
pub record NoneDirtied (c c' : IdeBuffer) : Type 0 where
  pub kmalloc : c'.kmalloc ≡ c.kmalloc
  pub dirtied :
      (dev lba : ℕ)
      → dirty (hash_find dev lba c'.lru_list) ≡ true
      → dirty (hash_find dev lba c.lru_list) ≡ true

pub Backed-NoneDirtied : (c c' : IdeBuffer) → Backed c → NoneDirtied c c' → Backed c'
Backed-NoneDirtied c c' backed kept = record {
  supplied = λ n. ap (λ f. f n) kept.kmalloc ∙ backed.supplied n;
  on_disk = λ d b e. backed.on_disk d b (kept.dirtied d b e);
}

pub NoneDirtied-refl : (c : IdeBuffer) → NoneDirtied c c
NoneDirtied-refl c = record { kmalloc = refl; dirtied = λ d b e. e }

pub NoneDirtied-trans :
    (c c' c'' : IdeBuffer) → NoneDirtied c c' → NoneDirtied c' c'' → NoneDirtied c c''
NoneDirtied-trans c c' c'' k k' = record {
  kmalloc = k'.kmalloc ∙ k.kmalloc;
  dirtied = λ d b e. k.dirtied d b (k'.dirtied d b e);
}

pub init-Backed :
    (mem : ℕ) (disks : ℕ → ℕ → Sector) (fresh : Sector)
    → Backed (ide_buffer_init mem disks fresh (λ n. true))
unfolding ide_buffer_init hash_find
init-Backed mem disks fresh = record {
  supplied = λ n. refl;
  on_disk = λ d b e. absurd (ground (arith, e));
}

pub init-Coherent :
    (mem : ℕ) (disks : ℕ → ℕ → Sector) (fresh : Sector) (kmalloc : ℕ → Bool)
    → Coherent (ide_buffer_init mem disks fresh kmalloc)
unfolding ide_buffer_init hash_find
init-Coherent mem disks fresh kmalloc = record {
  distinct = tt;
  agrees = λ dev lba. tt;
  queued = λ dev lba. (refl, refl);
  counted = refl;
  two_lists = λ dev. omega arith;
}
