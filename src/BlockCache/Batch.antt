-- ===== src/BlockCache/Batch.antt =====
-- A batch of `sync_ide_buffer` writes its blocks as if one by one.
use magic_box.Prelude.{
  ℕ, zero, suc, ◌≡◌, ◌≤◌, refl, sym, ap, ap₂, ◌∙◌, length, arith, Bool-cases, Option-cases, inl,
  inr, List, [], ◌∷◌, ◌++◌, ◌==◌, subst, map,
}
use magic_box.BlockCache.{
  BufferHead, IdeBuffer, Sector, hash_find, update_block, add_ref, drop_ref, ide_write, put_sector,
}
use magic_box.BlockCache.Victim.{clean}
use magic_box.BlockCache.Flush.{update_blocks, take_run, data_at, data_of, write_batch}
use magic_box.BlockCache.Lookup.{
  by_block, hash_find-update_self, hash_find-update_ne, hash_find-update_absent,
}
use magic_box.BlockCache.Syncing.{
  Syncing, RefsOnly, with_refs, with_refs-Goes, Goes, flushed, flushed-Goes,
}

flush_all : ℕ → List ℕ → IdeBuffer → IdeBuffer
flush_all dev [] c = c
flush_all dev (lba ∷ batch) c = flush_all dev batch (flushed dev lba c)

flush_all-Goes :
    (dev : ℕ) (batch todo : List ℕ) (c : IdeBuffer)
    → Syncing dev (batch ++ todo) c
    → Goes dev todo c (flush_all dev batch c)
unfolding flush_all
flush_all-Goes dev [] todo c s = (s, λ d b. refl)
flush_all-Goes dev (lba ∷ batch) todo c s =
    let (s₁, same₁) = flushed-Goes dev lba (batch ++ todo) c s in
    let (s₂, same₂) = flush_all-Goes dev batch todo (flushed dev lba c) s₁ in
    (s₂, λ d b. same₂ d b ∙ same₁ d b)

-- Block numbers without a gap.
abbrev Run : ℕ → List ℕ → Type 0
Run start [] = Unit
Run start (x ∷ l) = (x ≡ start) × Run (suc start) l

data_of-clean :
    (dev lba x : ℕ) (l : List BufferHead)
    → data_of dev (update_block clean dev lba l) x ≡ data_of dev l x
data_of-clean dev lba x l =
    by_block (λ d b. data_of d (update_block clean dev lba l) b ≡ data_of d l b) dev lba dev x
      (elim (Option-cases (hash_find dev lba l)) [
        | inl e ↦
            ap data_at
              (hash_find-update_absent clean dev lba dev lba l (λ x. (refl, refl)) e ∙ sym e)
        | inr (bh, e) ↦
            ap data_at (hash_find-update_self clean dev lba l bh (λ x. (refl, refl)) e)
            ∙ sym (ap data_at e)
      ])
      (λ ne. ap data_at (hash_find-update_ne clean dev lba dev x l (λ x. (refl, refl)) ne))

map-ext : (f g : ℕ → Sector) (l : List ℕ) → ((x : ℕ) → f x ≡ g x) → map f l ≡ map g l
map-ext f g [] same = refl
map-ext f g (x ∷ l) same =
    ap₂ (λ (y : Sector) (r : List Sector). y ∷ r) (same x) (map-ext f g l same)

data_of-clean_all :
    (dev x : ℕ) (batch : List ℕ) (l : List BufferHead)
    → data_of dev (update_blocks clean dev batch l) x ≡ data_of dev l x
unfolding update_blocks
data_of-clean_all dev x [] l = refl
data_of-clean_all dev x (lba ∷ batch) l =
    data_of-clean_all dev x batch (update_block clean dev lba l) ∙ data_of-clean dev lba x l

-- The clean buffers of a batch, and its data on the disk.
abbrev at_once : ℕ → ℕ → List ℕ → IdeBuffer → IdeBuffer
at_once dev start batch c = record c {
  disks = ide_write c.disks dev start (map (data_of dev c.lru_list) batch);
  lru_list = update_blocks clean dev batch c.lru_list;
}

flush_all-at_once :
    (dev start : ℕ) (batch : List ℕ) (c : IdeBuffer)
    → Run start batch
    → flush_all dev batch c ≡ at_once dev start batch c
unfolding flush_all update_blocks ide_write
flush_all-at_once dev start [] c run = refl
flush_all-at_once dev start (lba ∷ batch) c (e, run) =
    flush_all-at_once dev (suc start) batch (flushed dev lba c) run
    ∙ ap
        (λ (data_list : List Sector). record c {
          disks =
              ide_write (put_sector c.disks dev lba (data_of dev c.lru_list lba)) dev (suc start)
                data_list;
          lru_list = update_blocks clean dev batch (update_block clean dev lba c.lru_list);
        })
        (map-ext (data_of dev (update_block clean dev lba c.lru_list)) (data_of dev c.lru_list)
          batch (λ x. data_of-clean dev lba x c.lru_list))
    ∙ ap
        (λ n. record c {
          disks =
              ide_write (put_sector c.disks dev n (data_of dev c.lru_list lba)) dev (suc start)
                (map (data_of dev c.lru_list) batch);
          lru_list = update_blocks clean dev batch (update_block clean dev lba c.lru_list);
        })
        e

write_batch-flush_all :
    (dev start : ℕ) (batch : List ℕ) (c : IdeBuffer)
    → Run start batch
    → write_batch dev start batch c ≡ with_refs drop_ref dev batch (flush_all dev batch c)
unfolding write_batch with_refs
write_batch-flush_all dev start batch c run =
    ap
      (λ (data_list : List Sector). record c {
        disks = ide_write c.disks dev start data_list;
        lru_list = update_blocks drop_ref dev batch (update_blocks clean dev batch c.lru_list);
      })
      (map-ext (data_of dev (update_blocks clean dev batch c.lru_list)) (data_of dev c.lru_list)
        batch (λ x. data_of-clean_all dev x batch c.lru_list))
    ∙ ap (with_refs drop_ref dev batch) (sym (flush_all-at_once dev start batch c run))

drop_ref-RefsOnly : RefsOnly drop_ref
drop_ref-RefsOnly = ((λ x. (refl, refl)), λ x. (refl, refl, refl))

pub add_ref-RefsOnly : RefsOnly add_ref
add_ref-RefsOnly = ((λ x. (refl, refl)), λ x. (refl, refl, refl))

pub write_batch-Goes :
    (dev start : ℕ) (batch todo : List ℕ) (c : IdeBuffer)
    → Run start batch
    → Syncing dev (batch ++ todo) c
    → Goes dev todo c (write_batch dev start batch c)
write_batch-Goes dev start batch todo c run s =
    let (s₁, same₁) = flush_all-Goes dev batch todo c s in
    let (s₂, same₂) =
      with_refs-Goes drop_ref dev batch todo (flush_all dev batch c) drop_ref-RefsOnly s₁ in
    rw (write_batch-flush_all dev start batch c run) (s₂, λ d b. same₂ d b ∙ same₁ d b)

pub take_run-Run :
    (prev room : ℕ) (l : List ℕ)
    → Run (suc prev) (take_run prev room l).0
      × ((take_run prev room l).0 ++ (take_run prev room l).1 ≡ l)
      × (length (take_run prev room l).1 ≤ length l)
unfolding take_run
take_run-Run prev zero l = (tt, refl, omega arith)
take_run-Run prev (suc room) [] = (tt, refl, omega arith)
take_run-Run prev (suc room) (x ∷ l) = elim (Bool-cases (x == suc prev)) [
  | inl e ↦
      let (run, whole, shorter) = take_run-Run x room l in
      let next : x ≡ suc prev = ground (arith, e) in
      rw e (
        (next, subst (λ n. Run (suc n) (take_run x room l).0) next run),
        ap (λ (r : List ℕ). x ∷ r) whole,
        omega (arith, shorter),
      )
  | inr e ↦ rw e (tt, refl, omega arith)
]
