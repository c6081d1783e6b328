-- ===== src/BlockCache/Reclaim.antt =====
-- The loop of `getblk` that makes room: it ends, and keeps the contents of every block.
use magic_box.Prelude.{
  ℕ, zero, suc, ◌≡◌, ◌≤◌, ◌<◌, refl, ap, ◌∙◌, Bool, true, false, if◌then◌else◌, none, some, length,
  arith, Bool-cases, some-injective, Option-cases, inl, inr, List, [], ◌∷◌, ◌==◌, ◌&&◌, leb, ltb,
  sym, subst,
}
use magic_box.BlockCache.{
  BufferHead, IdeBuffer, hash_find, blk_evict, write_back, find_victim, reclaim, reclaim_turn,
  limit, max_lba, remove_block, update_block, buffer_condition,
}
use magic_box.BlockCache.Lookup.{
  Distinct, same_key, by_block, hash_find-remove_absent, hash_find-update_absent,
  hash_find-update_self,
}
use magic_box.BlockCache.Coherent.{
  Coherent, SameContents, dirty, Backed, NoneDirtied, Backed-NoneDirtied, NoneDirtied-refl,
  NoneDirtied-trans,
}
use magic_box.BlockCache.Victim.{
  evicted, clean, cur-evicted, hash_find-evicted_self, hash_find-evicted_other,
}
use magic_box.BlockCache.Evict.{evicted-Coherent}

-- The number of buffers in use.
abbrev pub pinned : List BufferHead → ℕ
pinned [] = 0
pinned (bh ∷ l) = if bh.b_ref_count == 0 then pinned l else suc (pinned l)

find_victim-none : (l : List BufferHead) → find_victim l ≡ none → pinned l ≡ length l
unfolding find_victim
find_victim-none [] e = refl
find_victim-none (bh ∷ l) e = ground (arith, find_victim-none l)

find_victim-free :
    (l : List BufferHead) (v : BufferHead) → find_victim l ≡ some v → v.b_ref_count ≡ 0
unfolding find_victim
find_victim-free [] v e = ground arith
find_victim-free (bh ∷ l) v e = ground (arith, find_victim-free l v)

absent_here :
    (dev lba : ℕ) (bh : BufferHead) (l : List BufferHead) (v : BufferHead)
    → buffer_condition dev lba bh ≡ true
    → hash_find bh.b_dev bh.b_blocknr l ≡ none
    → hash_find dev lba l ≡ some v
    → ⊥
absent_here dev lba bh l v e fresh found = ground (arith, same_key dev lba bh l e)

own_condition : (bh : BufferHead) → buffer_condition bh.b_dev bh.b_blocknr bh ≡ true
own_condition bh = ground arith

find_victim-first :
    (bh v : BufferHead) (l : List BufferHead)
    → (bh.b_ref_count == 0) ≡ true
    → find_victim (bh ∷ l) ≡ some v
    → bh ≡ v
unfolding find_victim
find_victim-first bh v l free e =
    some-injective (subst (λ (b : Bool). (if b then some bh else find_victim l) ≡ some v) free e)

hash_find-first :
    (dev lba : ℕ) (bh v : BufferHead) (l : List BufferHead)
    → buffer_condition dev lba bh ≡ true
    → hash_find dev lba (bh ∷ l) ≡ some v
    → bh ≡ v
unfolding hash_find
hash_find-first dev lba bh v l same e =
    some-injective
      (subst (λ (b : Bool). (if b then some bh else hash_find dev lba l) ≡ some v) same e)

find_victim-found :
    (l : List BufferHead) (v : BufferHead)
    → Distinct l
    → find_victim l ≡ some v
    → hash_find v.b_dev v.b_blocknr l ≡ some v
unfolding find_victim hash_find
find_victim-found [] v distinct e = ground arith
find_victim-found (bh ∷ l) v (fresh, distinct) e = elim (Bool-cases (bh.b_ref_count == 0)) [
  | inl free ↦
      subst (λ x. hash_find x.b_dev x.b_blocknr (bh ∷ l) ≡ some x) (find_victim-first bh v l free e)
        (rw (own_condition bh) refl)
  | inr used ↦
      let later = find_victim-found l v distinct (ground (arith, e, used)) in
      elim (Bool-cases (buffer_condition v.b_dev v.b_blocknr bh)) [
        | inl same ↦ absurd (absent_here v.b_dev v.b_blocknr bh l v same fresh later)
        | inr ne ↦ rw ne later
      ]
]

pinned-remove_block :
    (dev lba : ℕ) (l : List BufferHead) (v : BufferHead)
    → hash_find dev lba l ≡ some v
    → v.b_ref_count ≡ 0
    → pinned (remove_block dev lba l) ≡ pinned l
unfolding hash_find remove_block
pinned-remove_block dev lba [] v e free = refl
pinned-remove_block dev lba (bh ∷ l) v e free = elim (Bool-cases (buffer_condition dev lba bh)) [
  | inl same ↦
      let zero_refs : bh.b_ref_count ≡ 0 =
        ap (λ x. x.b_ref_count) (hash_find-first dev lba bh v l same e) ∙ free in
      rw same (ground (arith, zero_refs))
  | inr ne ↦ rw ne (ground (arith, pinned-remove_block dev lba l v))
]

pub pinned-update_block :
    (f : BufferHead → BufferHead) (dev lba : ℕ) (l : List BufferHead)
    → ((bh : BufferHead) → (f bh).b_ref_count ≡ bh.b_ref_count)
    → pinned (update_block f dev lba l) ≡ pinned l
unfolding update_block
pinned-update_block f dev lba [] keeps = refl
pinned-update_block f dev lba (bh ∷ l) keeps =
    ground (arith, pinned-update_block f dev lba l keeps, keeps bh)

pinned-evicted :
    (v : BufferHead) (c : IdeBuffer)
    → hash_find v.b_dev v.b_blocknr c.lru_list ≡ some v
    → v.b_ref_count ≡ 0
    → pinned (evicted v c).lru_list ≡ pinned c.lru_list
unfolding blk_evict write_back
pinned-evicted v c e free = elim (Bool-cases v.b_dirty) [
  | inl d ↦ simp d (
      pinned-remove_block v.b_dev v.b_blocknr (update_block clean v.b_dev v.b_blocknr c.lru_list)
        (clean v)
        (hash_find-update_self clean v.b_dev v.b_blocknr c.lru_list v (λ bh. (refl, refl)) e) free
      ∙ pinned-update_block clean v.b_dev v.b_blocknr c.lru_list (λ bh. refl))
  | inr d ↦ simp d (pinned-remove_block v.b_dev v.b_blocknr c.lru_list v e free)
]

hash_find-evicted_absent :
    (v : BufferHead) (c : IdeBuffer) (d b : ℕ)
    → hash_find d b c.lru_list ≡ none
    → hash_find d b (evicted v c).lru_list ≡ none
unfolding blk_evict write_back
hash_find-evicted_absent v c d b absent = elim (Bool-cases v.b_dirty) [
  | inl e ↦ simp e (
      hash_find-remove_absent v.b_dev v.b_blocknr d b
        (update_block clean v.b_dev v.b_blocknr c.lru_list)
        (hash_find-update_absent clean v.b_dev v.b_blocknr d b c.lru_list (λ bh. (refl, refl))
          absent))
  | inr e ↦ simp e (hash_find-remove_absent v.b_dev v.b_blocknr d b c.lru_list absent)
]

kmalloc-evicted : (v : BufferHead) (c : IdeBuffer) → (evicted v c).kmalloc ≡ c.kmalloc
unfolding blk_evict write_back
kmalloc-evicted v c = elim (Bool-cases v.b_dirty) [ inl e ↦ rw e refl | inr e ↦ rw e refl ]

-- An eviction makes no buffer dirty.
NoneDirtied-evicted : (v : BufferHead) (c : IdeBuffer) → Coherent c → NoneDirtied c (evicted v c)
NoneDirtied-evicted v c coherent = record {
  kmalloc = kmalloc-evicted v c;
  dirtied = λ d b e.
      by_block
        (λ d b.
          dirty (hash_find d b (evicted v c).lru_list) ≡ true
          → dirty (hash_find d b c.lru_list) ≡ true)
        v.b_dev v.b_blocknr d b
        (λ now.
          absurd
            (ground (arith, sym (ap dirty (hash_find-evicted_self v c coherent.distinct)) ∙ now)))
        (λ ne now. sym (ap dirty (hash_find-evicted_other v c d b ne)) ∙ now) e;
}

max-evicted : (v : BufferHead) (c : IdeBuffer) → (evicted v c).max_blk_num ≡ c.max_blk_num
unfolding blk_evict write_back
max-evicted v c = elim (Bool-cases v.b_dirty) [ inl e ↦ rw e refl | inr e ↦ rw e refl ]

-- What the loop leaves when it ends with room for a buffer.
pub record Reclaimed (c c' : IdeBuffer) : Type 0 where
  pub coherent : Coherent c'
  pub same : SameContents c c'
  pub in_use : pinned c'.lru_list ≡ pinned c.lru_list
  pub max : c'.max_blk_num ≡ c.max_blk_num
  pub kept : NoneDirtied c c'
  pub absent : (d b : ℕ) → hash_find d b c.lru_list ≡ none → hash_find d b c'.lru_list ≡ none
  pub room : c'.cur_blk_num < limit c'

enough : (c : IdeBuffer) → Coherent c → c.cur_blk_num < limit c → Reclaimed c c
enough c coherent room = record {
  coherent = coherent;
  same = λ d b. refl;
  in_use = refl;
  max = refl;
  kept = NoneDirtied-refl c;
  absent = λ d b absent. absent;
  room = room;
}

one_more :
    (v : BufferHead) (c c' : IdeBuffer)
    → Coherent c
    → hash_find v.b_dev v.b_blocknr c.lru_list ≡ some v
    → v.b_ref_count ≡ 0
    → Reclaimed (evicted v c) c'
    → Reclaimed c c'
one_more v c c' coherent found free r = record {
  coherent = r.coherent;
  same = λ d b. r.same d b ∙ (evicted-Coherent v c coherent found).1 d b;
  in_use = r.in_use ∙ pinned-evicted v c found free;
  max = r.max ∙ max-evicted v c;
  kept = NoneDirtied-trans c (evicted v c) c' (NoneDirtied-evicted v c coherent) r.kept;
  absent = λ d b absent. r.absent d b (hash_find-evicted_absent v c d b absent);
  room = r.room;
}

a_victim :
    (c : IdeBuffer)
    → Coherent c
    → pinned c.lru_list < limit c
    → limit c ≤ c.cur_blk_num
    → (v : BufferHead) × (find_victim c.lru_list ≡ some v)
a_victim c coherent few full = elim (Option-cases (find_victim c.lru_list)) [
  | inl e ↦ absurd (omega (arith, find_victim-none c.lru_list e, few, full, coherent.counted))
  | inr found ↦ found
]

few_left :
    (v : BufferHead) (c : IdeBuffer)
    → hash_find v.b_dev v.b_blocknr c.lru_list ≡ some v
    → v.b_ref_count ≡ 0
    → pinned c.lru_list < limit c
    → pinned (evicted v c).lru_list < limit (evicted v c)
few_left v c found free few = rw (pinned-evicted v c found free, max-evicted v c) few

fuel_left :
    (v : BufferHead) (c : IdeBuffer) (fuel : ℕ)
    → pinned c.lru_list < limit c
    → limit c ≤ c.cur_blk_num
    → c.cur_blk_num ≤ suc fuel
    → (evicted v c).cur_blk_num ≤ fuel
fuel_left v c fuel few full e =
    let cur : 0 < c.cur_blk_num = omega (arith, few, full) in omega (arith, cur-evicted v c, cur, e)

-- The driver takes the victim, if it is dirty.
writable :
    (v : BufferHead) (c : IdeBuffer)
    → Backed c
    → hash_find v.b_dev v.b_blocknr c.lru_list ≡ some v
    → (v.b_dirty && ltb max_lba v.b_blocknr) ≡ false
writable v c backed found = elim (Bool-cases v.b_dirty) [
  | inl d ↦
      let on_disk = backed.on_disk v.b_dev v.b_blocknr (ap dirty found ∙ d) in
      ground (arith, d, on_disk)
  | inr d ↦ rw d refl
]

-- Where fewer buffers are in use than the loop allows to be cached, it ends with room.
pub reclaim-Reclaimed :
    (fuel : ℕ) (c : IdeBuffer)
    → Coherent c
    → Backed c
    → pinned c.lru_list < limit c
    → c.cur_blk_num ≤ fuel
    → (c' : IdeBuffer) × (reclaim fuel c ≡ some c') × Reclaimed c c'
unfolding reclaim reclaim_turn
reclaim-Reclaimed zero c coherent backed few enough_fuel =
    let room : c.cur_blk_num < limit c = omega (arith, few, enough_fuel) in
    let below : leb (limit c) c.cur_blk_num ≡ false = ground (arith, room) in
    rw below (c, refl, enough c coherent room)
reclaim-Reclaimed (suc fuel) c coherent backed few enough_fuel =
    elim (Bool-cases (leb (limit c) c.cur_blk_num)) [
      | inl full ↦
          let (v, e) = a_victim c coherent few (ground (arith, full)) in
          let found = find_victim-found c.lru_list v coherent.distinct e in
          let free = find_victim-free c.lru_list v e in
          let (c', e', r) =
            reclaim-Reclaimed fuel (evicted v c) (evicted-Coherent v c coherent found).0
              (Backed-NoneDirtied c (evicted v c) backed (NoneDirtied-evicted v c coherent))
              (few_left v c found free few)
              (fuel_left v c fuel few (ground (arith, full)) enough_fuel) in
          rw (full, e, writable v c backed found) (c', e', one_more v c c' coherent found free r)
      | inr below ↦ rw below (c, refl, enough c coherent (ground (arith, below)))
    ]
