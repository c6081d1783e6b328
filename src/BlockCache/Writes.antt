-- ===== src/BlockCache/Writes.antt =====
-- `bwrite_multi` and `_bread` of `ide_buffer.c`: delayed writes, and the buffer of a block.
use magic_box.Prelude.{
  ℕ, suc, ◌+◌, ◌-◌, length, leb, ◌≡◌, ◌≤◌, ◌⊎◌, refl, sym, ap, ◌∙◌, true, false, if◌then◌else◌,
  Option, some, arith, Bool-cases, ==_iff, inl, inr, List, [], ◌∷◌, ◌==◌, ◌&&◌, subst,
}
use magic_box.BlockCache.{
  BufferHead, IdeBuffer, Sector, max_lba, buffer_condition, update_block, ide_write, put_sector,
}
use magic_box.BlockCache.Transfer.{
  filled, fresh_from, bread, bread_found, make_dirty, push_dirty, bwrite, write_one, bwrite_multi,
}
use magic_box.BlockCache.Lookup.{KeepsBlock, keeps-condition, eq_block, count, count-append}
use magic_box.BlockCache.Coherent.{SameContents, dirty, flag, stored}
use magic_box.BlockCache.Hold.{
  Ready, Holds, getblk-Holds, Holds-hash_find, Replaces, Relists, changed,
}
use magic_box.BlockCache.Update.{changed-Holds, same-Relists, brelse-Ready, Replaces-same}
use magic_box.BlockCache.Fill.{agrees_at, stored_at}

update-update :
    (f g : BufferHead → BufferHead) (dev lba : ℕ) (l : List BufferHead)
    → KeepsBlock f
    → update_block g dev lba (update_block f dev lba l) ≡ update_block (λ x. g (f x)) dev lba l
unfolding update_block
update-update f g dev lba [] keeps = refl
update-update f g dev lba (x ∷ l) keeps = elim (Bool-cases (buffer_condition dev lba x)) [
  | inl e ↦ rw (e, keeps-condition f dev lba x keeps, e) refl
  | inr e ↦ rw (e, e) (ap (λ (r : List BufferHead). x ∷ r) (update-update f g dev lba l keeps))
]

on_active :
    (dev lba b : ℕ) (c : IdeBuffer)
    → count b (push_dirty dev lba c dev (c.active_dirty_idx dev)) ≡ (
        if lba == b
        then suc (count b (c.dirty_lists dev (c.active_dirty_idx dev)))
        else count b (c.dirty_lists dev (c.active_dirty_idx dev)))
on_active dev lba b c =
    let both : ((dev == dev) && (c.active_dirty_idx dev == c.active_dirty_idx dev)) ≡ true =
      ground arith in
    rw both (count-append b lba (c.dirty_lists dev (c.active_dirty_idx dev)))

on_other :
    (dev lba b : ℕ) (c : IdeBuffer)
    → c.active_dirty_idx dev ≤ 1
    → count b (push_dirty dev lba c dev (1 - c.active_dirty_idx dev))
      ≡ count b (c.dirty_lists dev (1 - c.active_dirty_idx dev))
on_other dev lba b c two =
    let no : ((dev == dev) && ((1 - c.active_dirty_idx dev) == c.active_dirty_idx dev)) ≡ false =
      ground (arith, two) in
    rw no refl

-- A clean buffer that is written joins the active list of its disk.
push_dirty-Relists :
    (dev lba : ℕ) (bh bh' : BufferHead) (c : IdeBuffer)
    → Holds dev lba bh c
    → bh.b_dirty ≡ false
    → bh'.b_dirty ≡ true
    → Relists dev lba bh' (push_dirty dev lba c) c
push_dirty-Relists dev lba bh bh' c held clean_one written d b = elim (Bool-cases (d == dev)) [
  | inl e ↦
      subst (λ x. RelistsAt x b) (sym ((==_iff d dev).0 e))
        (by_number (Bool-cases (lba == b)), on_other dev lba b c (held.coherent.two_lists dev))
  | inr e ↦ rw e (refl, refl)
]
  where
    RelistsAt : ℕ → ℕ → Type 0
    RelistsAt d b =
        (count b (push_dirty dev lba c d (c.active_dirty_idx d)) ≡ (
          if eq_block dev lba d b
          then flag bh'.b_dirty
          else count b (c.dirty_lists d (c.active_dirty_idx d))))
        × (count b (push_dirty dev lba c d (1 - c.active_dirty_idx d))
            ≡ count b (c.dirty_lists d (1 - c.active_dirty_idx d)))

    queued : count lba (c.dirty_lists dev (c.active_dirty_idx dev)) ≡ 0
    queued =
        (held.coherent.queued dev lba).0
        ∙ ap (λ o. flag (dirty o)) (Holds-hash_find dev lba bh c held)
        ∙ ap flag clean_one

    by_number :
        ((lba == b) ≡ true) ⊎ ((lba == b) ≡ false)
        → count b (push_dirty dev lba c dev (c.active_dirty_idx dev)) ≡ (
            if eq_block dev lba dev b
            then flag bh'.b_dirty
            else count b (c.dirty_lists dev (c.active_dirty_idx dev)))
    by_number (inl e) =
        let same : eq_block dev lba dev b ≡ true = ground (arith, e) in
        on_active dev lba b c
        ∙ rw (e, same, written)
            (ap suc (
              ap (λ x. count x (c.dirty_lists dev (c.active_dirty_idx dev)))
                (sym ((==_iff lba b).0 e))
              ∙ queued))
    by_number (inr e) =
        let other : eq_block dev lba dev b ≡ false = ground (arith, e) in
        on_active dev lba b c ∙ rw (e, other) refl

-- The buffer after `memcpy`, the valid flag and `bwrite`.
bwritten : Sector → BufferHead → BufferHead
bwritten s bh = make_dirty (filled s bh)

bwrite-Holds :
    (dev lba : ℕ) (s : Sector) (bh : BufferHead) (c : IdeBuffer)
    → Holds dev lba bh c
    → lba ≤ max_lba
    → (bh' : BufferHead) × Holds dev lba bh'
        (bwrite dev lba (record c { lru_list = update_block (filled s) dev lba c.lru_list }) bh)
      × Replaces dev lba s c
          (bwrite dev lba (record c { lru_list = update_block (filled s) dev lba c.lru_list }) bh)
unfolding bwrite bwritten
bwrite-Holds dev lba s bh c held on_disk = elim (Bool-cases bh.b_dirty) [
  | inl d ↦
      let (held', replaces) =
        changed-Holds (filled s) dev lba bh c.dirty_lists c held (λ x. (refl, refl))
          ((λ no. absurd (ground (arith, no))), λ _ no. absurd (ground (arith, no, d)))
          (same-Relists dev lba bh (filled s bh) c held refl) refl (λ _. on_disk) in
      simp d (filled s bh, held', replaces)
  | inr d ↦
      let (held', replaces) =
        changed-Holds (bwritten s) dev lba bh (push_dirty dev lba c) c held (λ x. (refl, refl))
          ((λ no. absurd (ground (arith, no))), λ _ no. absurd (ground (arith, no)))
          (push_dirty-Relists dev lba bh (bwritten s bh) c held d refl) refl (λ _. on_disk) in
      simp (d, update-update (filled s) make_dirty dev lba c.lru_list (λ x. (refl, refl)))
        (bwritten s bh, held', replaces)
]

write_one-Replaces :
    (dev lba : ℕ) (s : Sector) (c : IdeBuffer)
    → Ready c
    → lba ≤ max_lba
    → (c' : IdeBuffer) × (write_one dev lba s c ≡ some c') × Ready c' × Replaces dev lba s c c'
unfolding write_one
write_one-Replaces dev lba s c ready on_disk =
    let (c₁, bh, e, held, same) = getblk-Holds dev lba c ready in
    let (bh₂, held₂, replaces) = bwrite-Holds dev lba s bh c₁ held on_disk in
    let (c₃, e₃, ready₃, same₃, disks, lists) =
      brelse-Ready dev lba bh₂
        (bwrite dev lba (record c₁ { lru_list = update_block (filled s) dev lba c₁.lru_list }) bh)
        held₂ in
    (
      c₃,
      rw (e, Holds-hash_find dev lba bh c₁ held) e₃,
      ready₃,
      λ d b. same₃ d b ∙ replaces d b ∙ ap (λ x. if eq_block dev lba d b then s else x) (same d b),
    )

-- Writes of several sectors, on the contents of disks.
abbrev pub Writes : ℕ → ℕ → List Sector → IdeBuffer → Option IdeBuffer → Type 0
Writes dev lba l c o =
    (c' : IdeBuffer) × (o ≡ some c')
    × Ready c'
    × ((d b : ℕ) → stored c' d b ≡ ide_write (stored c) dev lba l d b)

ide_write-ext :
    (f g : ℕ → ℕ → Sector) (dev lba : ℕ) (l : List Sector)
    → ((d b : ℕ) → f d b ≡ g d b)
    → (d b : ℕ) → ide_write f dev lba l d b ≡ ide_write g dev lba l d b
unfolding ide_write
ide_write-ext f g dev lba [] same d b = same d b
ide_write-ext f g dev lba (s ∷ l) same d b =
    ide_write-ext (put_sector f dev lba s) (put_sector g dev lba s) dev (suc lba) l
      (λ d b. ap (λ x. if eq_block dev lba d b then s else x) (same d b)) d b

-- From a coherent cache without buffers in use, where `kmalloc` gives a block at each call, `bwrite_multi`
-- of blocks on the disk returns. After it the cache stands for
-- the contents with the sectors written, and the invariant holds with no buffer in use.
pub bwrite_multi-Writes :
    (dev lba : ℕ) (l : List Sector) (c : IdeBuffer)
    → Ready c
    → lba + length l ≤ suc max_lba
    → Writes dev lba l c (bwrite_multi dev lba l c)
unfolding bwrite_multi ide_write
bwrite_multi-Writes dev lba [] c ready bound = (c, refl, ready, λ d b. refl)
bwrite_multi-Writes dev lba (s ∷ l) c ready bound =
    let (c₁, e, ready₁, replaces) = write_one-Replaces dev lba s c ready (omega (arith, bound)) in
    let (c₂, e₂, ready₂, writes) =
      bwrite_multi-Writes dev (suc lba) l c₁ ready₁ (omega (arith, bound)) in
    (
      c₂,
      rw e e₂,
      ready₂,
      λ d b.
          writes d b
          ∙ ide_write-ext (stored c₁) (put_sector (stored c) dev lba s) dev (suc lba) l replaces d
              b,
    )

-- From a coherent cache without buffers in use, where `kmalloc` gives a block at each call, `_bread` of a
-- block on the disk returns the buffer of the block, valid and
-- with the block's contents, and keeps the contents of every block.
pub bread-Holds :
    (dev lba : ℕ) (c : IdeBuffer)
    → Ready c
    → lba ≤ max_lba
    → (c' : IdeBuffer) × (bh : BufferHead) × (bread dev lba c ≡ some c')
      × Holds dev lba bh c'
      × (bh.b_valid ≡ true)
      × (bh.b_data ≡ stored c dev lba)
      × SameContents c c'
unfolding bread bread_found
bread-Holds dev lba c ready on_disk =
    let (c₁, bh, e, held, same) = getblk-Holds dev lba c ready in
    let found = Holds-hash_find dev lba bh c₁ held in
    let at = sym (same dev lba) ∙ stored_at dev lba bh c₁ held in
    elim (Bool-cases bh.b_valid) [
      | inl valid ↦
          (c₁, bh, rw (e, found, valid) refl, held, valid, sym (at ∙ simp valid refl), same)
      | inr invalid ↦
          let reachable : leb lba max_lba ≡ true = ground (arith, on_disk) in
          let s = c₁.disks dev lba in
          let clean_one : bh.b_dirty ≡ false = (agrees_at dev lba bh c₁ held).0 invalid in
          let (held', replaces) =
            changed-Holds (fresh_from s) dev lba bh c₁.dirty_lists c₁ held (λ x. (refl, refl))
              ((λ _. refl), λ _ _. refl)
              (same-Relists dev lba bh (fresh_from s bh) c₁ held (sym clean_one)) refl
              (λ _. on_disk) in
          (
            changed (fresh_from s) dev lba c₁.dirty_lists c₁,
            fresh_from s bh,
            rw (e, found, invalid, reachable) refl,
            held',
            refl,
            sym (at ∙ simp invalid refl),
            λ d b.
                Replaces-same dev lba s c₁ (changed (fresh_from s) dev lba c₁.dirty_lists c₁)
                  (stored_at dev lba bh c₁ held ∙ simp invalid refl) replaces d b
                ∙ same d b,
          )
    ]
