-- ===== src/BlockCache/Get.antt =====
-- `getblk` of `ide_buffer.c`: it returns where a buffer can be had, and keeps every block's contents.
use magic_box.Prelude.{
  ℕ, ◌+◌, ◌%◌, ◌^◌, ◌≡◌, ◌≤◌, ◌<◌, ◌⊎◌, refl, sym, ap, ◌∙◌, true, false, Option, none, some, length,
  arith, Option-cases, inl, inr, List, [], ◌∷◌, ◌++◌, length-append,
}
use magic_box.BlockCache.{
  BufferHead, IdeBuffer, hash_find, getblk, getblk_found, insert_new, limit, remove_block,
  buffer_condition, add_ref,
}
use magic_box.BlockCache.Lookup.{
  Distinct, same_key, eq_block, by_block, hash_find-condition, hash_find-remove_self,
  hash_find-remove_ne, hash_find-append_absent, hash_find-append_other, append-Distinct,
  remove_block-Distinct, length-remove_block,
}
use magic_box.BlockCache.Coherent.{
  Coherent, SameContents, contents, dirty, AgreesWith, flag, Backed, NoneDirtied, NoneDirtied-trans,
  Backed-NoneDirtied,
}
use magic_box.BlockCache.Reclaim.{Reclaimed, reclaim-Reclaimed, pinned}

-- What `getblk` leaves: the buffer of the block is last in the LRU order, with a reference more than
-- before, or with one if it is new.
pub record Got (dev lba : ℕ) (c c' : IdeBuffer) : Type 0 where
  pub coherent : Coherent c'
  pub same : SameContents c c'
  pub kept : NoneDirtied c c'
  pub max : c'.max_blk_num ≡ c.max_blk_num
  pub front : List BufferHead
  pub bh : BufferHead
  pub last : c'.lru_list ≡ front ++ bh ∷ []
  pub of_block : buffer_condition dev lba bh ≡ true
  pub alone : hash_find dev lba front ≡ none
  pub in_use : pinned front ≤ pinned c.lru_list
  pub refs :
      ((hash_find dev lba c.lru_list ≡ none) × (bh.b_ref_count ≡ 1) × (bh.b_valid ≡ false))
      ⊎ ((old : BufferHead) × (hash_find dev lba c.lru_list ≡ some old) × (bh ≡ add_ref old))

pinned-remove_le : (dev lba : ℕ) (l : List BufferHead) → pinned (remove_block dev lba l) ≤ pinned l
unfolding remove_block
pinned-remove_le dev lba [] = omega arith
pinned-remove_le dev lba (bh ∷ l) = ground (arith, pinned-remove_le dev lba l)

-- A state that differs in the LRU list alone, and there in no contents and no dirty flag.
abbrev pub Alike : Option BufferHead → Option BufferHead → Type 0
Alike none none = Unit
Alike none (some bh) = (bh.b_valid ≡ false) × (bh.b_dirty ≡ false)
Alike (some old) none = ⊥
Alike (some old) (some bh) =
    (bh.b_valid ≡ old.b_valid) × (bh.b_dirty ≡ old.b_dirty) × (bh.b_data ≡ old.b_data)

pub Alike-contents :
    (o o' : Option BufferHead) → Alike o o' → (s : List ℕ) → contents o' s ≡ contents o s
Alike-contents none none alike s = refl
Alike-contents none (some bh) (v, d) s = rw v refl
Alike-contents (some old) none alike s = absurd alike
Alike-contents (some old) (some bh) (v, d, e) s = rw (v, e) refl

pub Alike-dirty : (o o' : Option BufferHead) → Alike o o' → dirty o' ≡ dirty o
Alike-dirty none none alike = refl
Alike-dirty none (some bh) (v, d) = d
Alike-dirty (some old) none alike = absurd alike
Alike-dirty (some old) (some bh) (v, d, e) = d

pub Alike-agrees :
    (o o' : Option BufferHead) (s : List ℕ) → Alike o o' → AgreesWith s o → AgreesWith s o'
Alike-agrees none none s alike a = tt
Alike-agrees none (some bh) s (v, d) a = (λ _. d, λ valid. absurd (ground (arith, v, valid)))
Alike-agrees (some old) none s alike a = absurd alike
Alike-agrees (some old) (some bh) s (v, d, e) (a, a') =
    (λ x. d ∙ a (sym v ∙ x), λ x y. e ∙ a' (sym v ∙ x) (sym d ∙ y))

-- Such a change of the list keeps the invariant and the contents.
pub relisted :
    (c : IdeBuffer) (l : List BufferHead) (n m : ℕ)
    → Coherent c
    → Distinct l
    → n ≡ length l % 2 ^ 32
    → ((d b : ℕ) → Alike (hash_find d b c.lru_list) (hash_find d b l))
    → Coherent (record c { lru_list = l; cur_blk_num = n; kmallocs = m })
      × SameContents c (record c { lru_list = l; cur_blk_num = n; kmallocs = m })
      × NoneDirtied c (record c { lru_list = l; cur_blk_num = n; kmallocs = m })
relisted c l n m coherent distinct counted alike = (
  record {
    distinct = distinct;
    agrees = λ d b.
        Alike-agrees (hash_find d b c.lru_list) (hash_find d b l) (c.disks d b) (alike d b)
          (coherent.agrees d b);
    queued = λ d b.
        let (e, e') = coherent.queued d b in
        (
          e ∙ ap flag (sym (Alike-dirty (hash_find d b c.lru_list) (hash_find d b l) (alike d b))),
          e',
        );
    counted = counted;
    two_lists = coherent.two_lists;
  },
  (λ d b. Alike-contents (hash_find d b c.lru_list) (hash_find d b l) (alike d b) (c.disks d b)),
  record {
    kmalloc = refl;
    dirtied =
        λ d b e. sym (Alike-dirty (hash_find d b c.lru_list) (hash_find d b l) (alike d b)) ∙ e;
  },
)

-- A buffer at the end of a list without its block.
append-Alike :
    (dev lba : ℕ) (l front : List BufferHead) (bh : BufferHead)
    → buffer_condition dev lba bh ≡ true
    → hash_find dev lba front ≡ none
    → ((d b : ℕ) → eq_block dev lba d b ≡ false → hash_find d b front ≡ hash_find d b l)
    → Alike (hash_find dev lba l) (some bh)
    → (d b : ℕ) → Alike (hash_find d b l) (hash_find d b (front ++ bh ∷ []))
append-Alike dev lba l front bh of_block alone others alike d b =
    by_block (λ d b. Alike (hash_find d b l) (hash_find d b (front ++ bh ∷ []))) dev lba d b
      (rw (hash_find-append_absent dev lba front bh alone, of_block) alike)
      (λ ne.
        rw (hash_find-append_other d b front bh (not_it ne), others d b ne)
          (same (hash_find d b l)))
  where
    not_it : eq_block dev lba d b ≡ false → buffer_condition d b bh ≡ false
    not_it ne = ground (arith, ne, of_block)

    same : (o : Option BufferHead) → Alike o o
    same none = tt
    same (some x) = (refl, refl, refl)

hit-Got :
    (dev lba : ℕ) (c : IdeBuffer) (old : BufferHead)
    → Coherent c
    → hash_find dev lba c.lru_list ≡ some old
    → Got dev lba c (record c { lru_list = remove_block dev lba c.lru_list ++ add_ref old ∷ [] })
hit-Got dev lba c old coherent found = record {
  coherent = kept.0;
  same = kept.1;
  kept = kept.2;
  max = refl;
  front = front;
  bh = add_ref old;
  last = refl;
  of_block = of_block;
  alone = alone;
  in_use = pinned-remove_le dev lba c.lru_list;
  refs = inr (old, found, refl);
}
  where
    front : List BufferHead
    front = remove_block dev lba c.lru_list

    alone : hash_find dev lba front ≡ none
    alone = hash_find-remove_self dev lba c.lru_list coherent.distinct

    of_block : buffer_condition dev lba old ≡ true
    of_block = hash_find-condition dev lba c.lru_list old found

    kept :
        Coherent (record c { lru_list = front ++ add_ref old ∷ [] })
        × SameContents c (record c { lru_list = front ++ add_ref old ∷ [] })
        × NoneDirtied c (record c { lru_list = front ++ add_ref old ∷ [] })
    kept =
        relisted c (front ++ add_ref old ∷ []) c.cur_blk_num c.kmallocs coherent
          (append-Distinct front (add_ref old)
            (remove_block-Distinct dev lba c.lru_list coherent.distinct)
            (same_key dev lba (add_ref old) front of_block ∙ alone))
          (omega (
            arith,
            coherent.counted,
            length-append front (add_ref old ∷ []),
            length-remove_block dev lba c.lru_list old found,
          ))
          (append-Alike dev lba c.lru_list front (add_ref old) of_block alone
            (λ d b ne. hash_find-remove_ne dev lba d b c.lru_list ne) (rw found (refl, refl, refl)))

new_buffer : ℕ → ℕ → IdeBuffer → BufferHead
new_buffer dev lba c = record {
  b_blocknr = lba;
  b_dev = dev;
  b_dirty = false;
  b_valid = false;
  b_ref_count = 1;
  b_data = c.fresh_data;
}

added : ℕ → ℕ → IdeBuffer → IdeBuffer
added dev lba c = record c {
  lru_list = c.lru_list ++ new_buffer dev lba c ∷ [];
  cur_blk_num = (c.cur_blk_num + 1) % 2 ^ 32;
  kmallocs = c.kmallocs + 2;
}

miss-Got :
    (dev lba : ℕ) (c c' : IdeBuffer)
    → hash_find dev lba c.lru_list ≡ none
    → Reclaimed c c'
    → Got dev lba c (added dev lba c')
unfolding added new_buffer
miss-Got dev lba c c' absent r = record {
  coherent = kept.0;
  same = λ d b. kept.1 d b ∙ r.same d b;
  kept = NoneDirtied-trans c c' (added dev lba c') r.kept kept.2;
  max = r.max;
  front = c'.lru_list;
  bh = new_buffer dev lba c';
  last = refl;
  of_block = ground arith;
  alone = r.absent dev lba absent;
  in_use = omega (arith, r.in_use);
  refs = inl (absent, refl, refl);
}
  where
    still : hash_find dev lba c'.lru_list ≡ none
    still = r.absent dev lba absent

    alike : Alike (hash_find dev lba c'.lru_list) (some (new_buffer dev lba c'))
    alike = rw still (refl, refl)

    kept :
        Coherent (added dev lba c')
        × SameContents c' (added dev lba c')
        × NoneDirtied c' (added dev lba c')
    kept =
        relisted c' (c'.lru_list ++ new_buffer dev lba c' ∷ []) ((c'.cur_blk_num + 1) % 2 ^ 32)
          (c'.kmallocs + 2) r.coherent
          (append-Distinct c'.lru_list (new_buffer dev lba c') r.coherent.distinct still)
          (omega
            (arith, r.coherent.counted, length-append c'.lru_list (new_buffer dev lba c' ∷ [])))
          (append-Alike dev lba c'.lru_list c'.lru_list (new_buffer dev lba c') (ground arith) still
            (λ d b ne. refl) alike)

pub getblk-Got :
    (dev lba : ℕ) (c : IdeBuffer)
    → Coherent c
    → Backed c
    → pinned c.lru_list < limit c
    → (c' : IdeBuffer) × (getblk dev lba c ≡ some c') × Got dev lba c c'
unfolding getblk getblk_found insert_new added new_buffer
getblk-Got dev lba c coherent backed few = elim (Option-cases (hash_find dev lba c.lru_list)) [
  | inl absent ↦
      let (c', e, r) = reclaim-Reclaimed c.cur_blk_num c coherent backed few (omega arith) in
      let supplied = (Backed-NoneDirtied c c' backed r.kept).supplied in
      (
        added dev lba c',
        rw (absent, e)
            (rw (r.absent dev lba absent, supplied c'.kmallocs, supplied (c'.kmallocs + 1)) refl),
        miss-Got dev lba c c' absent r,
      )
  | inr (old, found) ↦ (
    record c { lru_list = remove_block dev lba c.lru_list ++ add_ref old ∷ [] },
    rw found refl,
    hit-Got dev lba c old coherent found,
  )
]
