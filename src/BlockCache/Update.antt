-- ===== src/BlockCache/Update.antt =====
-- A change of the buffer that `getblk` returned, and `brelse` of it.
use magic_box.Prelude.{
  ℕ, ◌-◌, ◌+◌, ◌%◌, ◌^◌, ◌≡◌, ◌≤◌, refl, sym, ap, ◌∙◌, true, false, if◌then◌else◌, some, arith,
  List, [], ◌∷◌, ◌++◌, ltb, subst,
}
use magic_box.BlockCache.{
  BufferHead, IdeBuffer, Sector, hash_find, brelse, brelse_found, update_block, drop_ref, max_lba,
}
use magic_box.BlockCache.Lookup.{
  KeepsBlock, keeps-condition, eq_block, by_block, hash_find-update_self, hash_find-update_ne,
  eq_block_refl, count, update_block-Distinct, length-update_block,
}
use magic_box.BlockCache.Coherent.{
  Coherent, SameContents, contents, dirty, AgreesWith, flag, stored, Backed,
}
use magic_box.BlockCache.Reclaim.{pinned}
use magic_box.BlockCache.Hold.{
  Holds, Holds-hash_find, Ready, Relists, Replaces, changed, update_block-last,
}

module _ (f : BufferHead → BufferHead) (dev lba : ℕ) (bh : BufferHead) (lists : ℕ → ℕ → List ℕ)
    (c : IdeBuffer) (held : Holds dev lba bh c) (keeps : KeepsBlock f)
    (agrees : AgreesWith (c.disks dev lba) (some (f bh)))
    (relists : Relists dev lba (f bh) lists c) where
  here_now : hash_find dev lba (update_block f dev lba c.lru_list) ≡ some (f bh)
  here_now = hash_find-update_self f dev lba c.lru_list bh keeps (Holds-hash_find dev lba bh c held)

  elsewhere :
      (d b : ℕ)
      → eq_block dev lba d b ≡ false
      → hash_find d b (update_block f dev lba c.lru_list) ≡ hash_find d b c.lru_list
  elsewhere d b ne = hash_find-update_ne f dev lba d b c.lru_list keeps ne

  changed-Coherent : Coherent (changed f dev lba lists c)
  changed-Coherent = record {
    distinct = update_block-Distinct f dev lba c.lru_list keeps held.coherent.distinct;
    agrees = λ d b.
        by_block
          (λ d b. AgreesWith (c.disks d b) (hash_find d b (update_block f dev lba c.lru_list))) dev
          lba d b (rw here_now agrees) (λ ne. rw (elsewhere d b ne) (held.coherent.agrees d b));
    queued = λ d b.
        by_block
          (λ d b.
            (count b (lists d (c.active_dirty_idx d))
              ≡ flag (dirty (hash_find d b (update_block f dev lba c.lru_list))))
            × (count b (lists d (1 - c.active_dirty_idx d)) ≡ 0))
          dev lba d b
          (rw here_now (
            (relists dev lba).0 ∙ rw (eq_block_refl dev lba) refl,
            (relists dev lba).1 ∙ (held.coherent.queued dev lba).1,
          ))
          (λ ne. rw (elsewhere d b ne) (
            (relists d b).0 ∙ rw ne (held.coherent.queued d b).0,
            (relists d b).1 ∙ (held.coherent.queued d b).1,
          ));
    counted =
        held.coherent.counted
        ∙ ap (λ n. n % 2 ^ 32) (sym (length-update_block f dev lba c.lru_list));
    two_lists = held.coherent.two_lists;
  }

  changed-Backed : ((f bh).b_dirty ≡ true → lba ≤ max_lba) → Backed (changed f dev lba lists c)
  changed-Backed on_disk = record {
    supplied = held.backed.supplied;
    on_disk = λ d b e.
        by_block
          (λ d b. dirty (hash_find d b (update_block f dev lba c.lru_list)) ≡ true → b ≤ max_lba)
          dev lba d b (λ now. on_disk (sym (ap dirty here_now) ∙ now))
          (λ ne now. held.backed.on_disk d b (sym (ap dirty (elsewhere d b ne)) ∙ now)) e;
  }

  changed-Replaces :
      Replaces dev lba (contents (some (f bh)) (c.disks dev lba)) c (changed f dev lba lists c)
  changed-Replaces d b =
      by_block
        (λ d b. stored (changed f dev lba lists c) d b ≡ (
          if eq_block dev lba d b then contents (some (f bh)) (c.disks dev lba) else stored c d b))
        dev lba d b (rw (here_now, eq_block_refl dev lba) refl)
        (λ ne. rw (elsewhere d b ne, ne) refl)

  pub changed-Holds :
      (f bh).b_ref_count ≡ bh.b_ref_count
      → ((f bh).b_dirty ≡ true → lba ≤ max_lba)
      → Holds dev lba (f bh) (changed f dev lba lists c)
        × Replaces dev lba (contents (some (f bh)) (c.disks dev lba)) c (changed f dev lba lists c)
  changed-Holds refs on_disk = (
    record {
      coherent = changed-Coherent;
      backed = changed-Backed on_disk;
      front = held.front;
      last = rw held.last (update_block-last f dev lba held.front bh held.alone held.of_block);
      of_block = keeps-condition f dev lba bh keeps ∙ held.of_block;
      alone = held.alone;
      idle = held.idle;
      once = refs ∙ held.once;
      allows = held.allows;
    },
    changed-Replaces,
  )

pinned-append :
    (l : List BufferHead) (bh : BufferHead)
    → pinned l ≡ 0
    → bh.b_ref_count ≡ 0
    → pinned (l ++ bh ∷ []) ≡ 0
pinned-append [] bh idle free = ground arith
pinned-append (x ∷ l) bh idle free = ground (arith, pinned-append l bh)

-- Lists that are left as they are.
pub same-Relists :
    (dev lba : ℕ) (bh bh' : BufferHead) (c : IdeBuffer)
    → Holds dev lba bh c
    → bh'.b_dirty ≡ bh.b_dirty
    → Relists dev lba bh' c.dirty_lists c
same-Relists dev lba bh bh' c held e d b =
    by_block
      (λ d b.
        (count b (c.dirty_lists d (c.active_dirty_idx d)) ≡ (
          if eq_block dev lba d b
          then flag bh'.b_dirty
          else count b (c.dirty_lists d (c.active_dirty_idx d))))
        × (count b (c.dirty_lists d (1 - c.active_dirty_idx d))
            ≡ count b (c.dirty_lists d (1 - c.active_dirty_idx d))))
      dev lba d b
      (rw (eq_block_refl dev lba) (
        (held.coherent.queued dev lba).0
            ∙ ap (λ o. flag (dirty o)) (Holds-hash_find dev lba bh c held)
            ∙ ap flag (sym e),
        refl,
      ))
      (λ ne. rw ne (refl, refl))

pub Replaces-same :
    (dev lba : ℕ) (s : Sector) (c c' : IdeBuffer)
    → stored c dev lba ≡ s
    → Replaces dev lba s c c'
    → SameContents c c'
Replaces-same dev lba s c c' e replaces d b =
    replaces d b
    ∙ by_block (λ d b. (if eq_block dev lba d b then s else stored c d b) ≡ stored c d b) dev lba d
        b (rw (eq_block_refl dev lba) (sym e)) (λ ne. rw ne refl)

pub Holds-on_disk :
    (dev lba : ℕ) (bh : BufferHead) (c : IdeBuffer)
    → Holds dev lba bh c
    → bh.b_dirty ≡ true
    → lba ≤ max_lba
Holds-on_disk dev lba bh c held e =
    held.backed.on_disk dev lba (ap dirty (Holds-hash_find dev lba bh c held) ∙ e)

-- `brelse` of the buffer that is held returns, and leaves no buffer in use.
pub brelse-Ready :
    (dev lba : ℕ) (bh : BufferHead) (c : IdeBuffer)
    → Holds dev lba bh c
    → (c' : IdeBuffer) × (brelse dev lba c ≡ some c')
      × Ready c'
      × SameContents c c'
      × (c'.disks ≡ c.disks)
      × (c'.lru_list ≡ update_block drop_ref dev lba c.lru_list)
unfolding brelse_found
brelse-Ready dev lba bh c held =
    let found = Holds-hash_find dev lba bh c held in
    let used : ltb 0 bh.b_ref_count ≡ true = ground (arith, held.once) in
    let agrees = subst (AgreesWith (c.disks dev lba)) found (held.coherent.agrees dev lba) in
    let relists = same-Relists dev lba bh (drop_ref bh) c held refl in
    let keeps : KeepsBlock drop_ref = λ x. (refl, refl) in
    (
      changed drop_ref dev lba c.dirty_lists c,
      rw (found, used) refl,
      record {
        coherent = changed-Coherent drop_ref dev lba bh c.dirty_lists c held keeps agrees relists;
        backed =
            changed-Backed drop_ref dev lba bh c.dirty_lists c held keeps agrees relists
              (Holds-on_disk dev lba bh c held);
        idle =
            rw
              (held.last, update_block-last drop_ref dev lba held.front bh held.alone held.of_block)
              (pinned-append held.front (drop_ref bh) held.idle
                (ap (λ n. (n + (2 ^ 32 - 1)) % 2 ^ 32) held.once));
        allows = held.allows;
      },
      Replaces-same dev lba (contents (some bh) (c.disks dev lba)) c
          (changed drop_ref dev lba c.dirty_lists c) (ap (λ o. contents o (c.disks dev lba)) found)
          (changed-Replaces drop_ref dev lba bh c.dirty_lists c held keeps agrees relists),
      refl,
      refl,
    )
