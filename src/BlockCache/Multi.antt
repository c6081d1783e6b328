-- ===== src/BlockCache/Multi.antt =====
-- `bread_multi` and `bwrite_multi` of `ide_buffer.c` read and write what the cache stands for.
use magic_box.Prelude.{
  ℕ, zero, suc, ◌-◌, ◌+◌, ◌≡◌, ◌≤◌, ◌<◌, refl, ap, ap₂, ◌∙◌, false, Option, none, some, arith,
  Bool-cases, inl, inr, List, ◌∷◌, ◌++◌, leb, true, subst,
}
use magic_box.BlockCache.{
  BufferHead, IdeBuffer, Sector, hash_find, update_block, drop_ref, ide_read, max_lba,
}
use magic_box.BlockCache.Transfer.{
  look_ahead, Reader, read_run, read_hit, read_turn, read_blocks, bread_multi,
}
use magic_box.BlockCache.Lookup.{hash_find-update_self}
use magic_box.BlockCache.Coherent.{SameContents, stored}
use magic_box.BlockCache.Hold.{Ready, Holds, getblk-Holds, Holds-hash_find}
use magic_box.BlockCache.Update.{brelse-Ready}
use magic_box.BlockCache.Fill.{fill-Keeps, ide_read-below, look_ahead-absent}

ide_read-append :
    (f : ℕ → ℕ → Sector) (dev lba m n : ℕ)
    → ide_read f dev lba m ++ ide_read f dev (lba + m) n ≡ ide_read f dev lba (m + n)
unfolding ide_read
ide_read-append f dev lba zero n =
    let first : lba + 0 ≡ lba = omega arith in
    let none_read : n ≡ 0 + n = omega arith in ap₂ (λ (x m : ℕ). ide_read f dev x m) first none_read
ide_read-append f dev lba (suc m) n =
    let count : suc (m + n) ≡ suc m + n = omega arith in
    let next : lba + suc m ≡ suc lba + m = omega arith in
    ap (λ (l : List Sector). f dev lba ∷ l)
      (ap (λ x. ide_read f dev (suc lba) m ++ ide_read f dev x n) next
        ∙ ide_read-append f dev (suc lba) m n)
    ∙ ap (ide_read f dev lba) count

-- A read of `n` sectors that returns what the cache stands for, and keeps it.
abbrev pub Reads : ℕ → ℕ → ℕ → IdeBuffer → Option (List Sector × IdeBuffer) → Type 0
Reads dev lba n c o =
    (c' : IdeBuffer) × (o ≡ some (ide_read (stored c) dev lba n, c')) × Ready c' × SameContents c c'

Reads-before :
    (dev lba n : ℕ) (c c' : IdeBuffer) (o : Option (List Sector × IdeBuffer))
    → SameContents c c'
    → Reads dev lba n c' o
    → Reads dev lba n c o
Reads-before dev lba n c c' o same (c₂, e, ready, same₂) = (
  c₂,
  e
      ∙ ap (λ l. some (l, c₂))
          (ide_read-below (stored c') (stored c) dev lba n (λ j _. same dev (lba + j))),
  ready,
  λ d b. same₂ d b ∙ same d b,
)

-- The blocks of a run are read from the disk, which holds what the cache stands for.
run-stored :
    (dev lba : ℕ) (bh : BufferHead) (c : IdeBuffer) (rest : ℕ)
    → hash_find dev lba c.lru_list ≡ some bh
    → bh.b_valid ≡ false
    → ide_read c.disks dev lba (look_ahead dev lba c 1 rest)
      ≡ ide_read (stored c) dev lba (look_ahead dev lba c 1 rest)
run-stored dev lba bh c rest e invalid =
    let (low, high, absent) = look_ahead-absent dev lba c 1 rest in
    ide_read-below c.disks (stored c) dev lba (look_ahead dev lba c 1 rest)
      (λ j lt. by_first absent j lt)
  where
    by_first :
        ((j : ℕ)
          → 1 ≤ j
          → j < look_ahead dev lba c 1 rest
          → hash_find dev (lba + j) c.lru_list ≡ none)
        → (j : ℕ) → j < look_ahead dev lba c 1 rest
        → c.disks dev (lba + j) ≡ stored c dev (lba + j)
    by_first absent zero lt =
        let first : lba ≡ lba + 0 = omega arith in
        subst (λ x. c.disks dev x ≡ stored c dev x) first (rw (e, invalid) refl)
    by_first absent (suc j) lt = rw (absent (suc j) (omega arith) lt) refl

read_run-Reads :
    (dev lba k left : ℕ) (again : Reader) (c : IdeBuffer)
    → Ready c
    → k ≤ left
    → ide_read c.disks dev lba k ≡ ide_read (stored c) dev lba k
    → ((c' : IdeBuffer)
        → Ready c'
        → Reads dev (lba + k) (left - k) c' (again (lba + k) (left - k) c'))
    → Reads dev lba left c (read_run dev lba k left again c)
unfolding read_run
read_run-Reads dev lba k left again c ready le from_disk reads =
    let (c₁, e, ready₁, same) = fill-Keeps dev lba k c ready in
    let (c₂, e₂, ready₂, same₂) = reads c₁ ready₁ in
    let rest : ide_read (stored c₁) dev (lba + k) (left - k)
        ≡ ide_read (stored c) dev (lba + k) (left - k) =
      ide_read-below (stored c₁) (stored c) dev (lba + k) (left - k)
        (λ j _. same dev ((lba + k) + j)) in
    (
      c₂,
      rw (from_disk, e, e₂, rest, ide_read-append (stored c) dev lba k (left - k))
          (ap (λ n. some (ide_read (stored c) dev lba n, c₂)) (omega (arith, le))),
      ready₂,
      λ d b. same₂ d b ∙ same d b,
    )

read_hit-Reads :
    (dev lba left : ℕ) (again : Reader) (bh : BufferHead) (c : IdeBuffer)
    → Ready c
    → bh.b_data ≡ stored c dev lba
    → Reads dev (suc lba) left c (again (suc lba) left c)
    → Reads dev lba (suc left) c (read_hit dev lba (suc left) again bh c)
unfolding read_hit ide_read
read_hit-Reads dev lba left again bh c ready e (c', e', ready', same) =
    let less : suc left - 1 ≡ left = omega arith in (c', rw less (rw (e', e) refl), ready', same)

invalid_now :
    (dev lba : ℕ) (bh : BufferHead) (c c' : IdeBuffer)
    → hash_find dev lba c.lru_list ≡ some bh
    → c'.lru_list ≡ update_block drop_ref dev lba c.lru_list
    → hash_find dev lba c'.lru_list ≡ some (drop_ref bh)
invalid_now dev lba bh c c' found lists =
    rw lists (hash_find-update_self drop_ref dev lba c.lru_list bh (λ x. (refl, refl)) found)

-- What the loop does from its second turn on.
abbrev pub AgainReads : ℕ → ℕ → Reader → Type 0
AgainReads dev bound again =
    (lba left : ℕ) (c : IdeBuffer)
    → Ready c
    → left ≤ bound
    → lba + left ≤ suc max_lba
    → Reads dev lba left c (again lba left c)

read_turn-Reads :
    (dev lba left : ℕ) (again : Reader) (c : IdeBuffer) (bh : BufferHead)
    → Holds dev lba bh c
    → AgainReads dev left again
    → lba + suc left ≤ suc max_lba
    → Reads dev lba (suc left) c (read_turn dev lba (suc left) again c bh)
unfolding read_turn
read_turn-Reads dev lba left again c bh held reads bound =
    let (c₁, e, ready, same, disks, lists) = brelse-Ready dev lba bh c held in
    let found = invalid_now dev lba bh c c₁ (Holds-hash_find dev lba bh c held) lists in
    let reads_c : (o : Option (List Sector × IdeBuffer))
        → Reads dev lba (suc left) c₁ o
        → Reads dev lba (suc left) c o =
      λ o r. Reads-before dev lba (suc left) c c₁ o same r in
    elim (Bool-cases bh.b_valid) [
      | inl valid ↦
          simp (valid, e)
            (reads_c (read_hit dev lba (suc left) again bh c₁) (
              read_hit-Reads dev lba left again bh c₁ ready (rw (found, valid) refl)
                (reads (suc lba) left c₁ ready (omega arith) (omega (arith, bound)))))
      | inr invalid ↦
          let (low, high, absent) = look_ahead-absent dev lba c₁ 1 (suc left - 1) in
          let k = look_ahead dev lba c₁ 1 (suc left - 1) in
          let reachable : leb lba max_lba ≡ true = ground (arith, bound) in
          simp (invalid, e, reachable)
            (reads_c (read_run dev lba k (suc left) again c₁) (
              read_run-Reads dev lba k (suc left) again c₁ ready (omega (arith, high))
                (run-stored dev lba (drop_ref bh) c₁ (suc left - 1) found invalid)
                (λ c' ready'.
                  reads (lba + k) (suc left - k) c' ready' (omega (arith, low))
                    (omega (arith, low, high, bound)))))
    ]

read_blocks-Reads : (dev fuel : ℕ) → AgainReads dev fuel (read_blocks fuel dev)
unfolding read_blocks ide_read
read_blocks-Reads dev fuel lba zero c ready le bound = (c, refl, ready, λ d b. refl)
read_blocks-Reads dev zero lba (suc left) c ready le bound = absurd (omega (arith, le))
read_blocks-Reads dev (suc fuel) lba (suc left) c ready le bound =
    let (c₁, bh, e, held, same) = getblk-Holds dev lba c ready in
    rw (e, Holds-hash_find dev lba bh c₁ held)
      (Reads-before dev lba (suc left) c c₁
        (read_turn dev lba (suc left) (read_blocks fuel dev) c₁ bh) same
        (read_turn-Reads dev lba left (read_blocks fuel dev) c₁ bh held
          (λ lba' left' c' ready' le' bound'.
            read_blocks-Reads dev fuel lba' left' c' ready' (omega (arith, le, le')) bound')
          bound))

-- From a coherent cache without buffers in use, where `kmalloc` gives a block at each call, `bread_multi` of
-- blocks on the disk returns, whatever is cached and whatever
-- it evicts. It reads what the cache stands for, and leaves that, the invariant and no buffer in use.
pub bread_multi-Reads :
    (dev lba n : ℕ) (c : IdeBuffer)
    → Ready c
    → lba + n ≤ suc max_lba
    → Reads dev lba n c (bread_multi dev lba n c)
bread_multi-Reads dev lba n c ready bound =
    read_blocks-Reads dev n lba n c ready (omega arith) bound
