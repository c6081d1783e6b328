-- ===== src/BlockCache/Fill.antt =====
-- Filling the cache with what was read, and how far `bread_multi` reads at once.
use magic_box.Prelude.{
  ℕ, zero, suc, ◌+◌, ◌≡◌, ◌≤◌, ◌<◌, refl, sym, ap, ap₂, ◌∙◌, false, Option, none, some, arith,
  Bool-cases, Option-cases, inl, inr, List, ◌∷◌, ◌==◌, leb, subst,
}
use magic_box.BlockCache.{BufferHead, IdeBuffer, Sector, hash_find, ide_read}
use magic_box.BlockCache.Transfer.{filled, look_ahead, look_ahead_on, copy_in, fill_one, fill}
use magic_box.BlockCache.Lookup.{KeepsBlock}
use magic_box.BlockCache.Coherent.{SameContents, contents, AgreesWith, stored}
use magic_box.BlockCache.Hold.{Ready, Holds, getblk-Holds, Holds-hash_find, changed}
use magic_box.BlockCache.Update.{
  changed-Holds, same-Relists, brelse-Ready, Replaces-same, Holds-on_disk,
}

pub agrees_at :
    (dev lba : ℕ) (bh : BufferHead) (c : IdeBuffer)
    → Holds dev lba bh c
    → AgreesWith (c.disks dev lba) (some bh)
agrees_at dev lba bh c held =
    subst (AgreesWith (c.disks dev lba)) (Holds-hash_find dev lba bh c held)
      (held.coherent.agrees dev lba)

pub stored_at :
    (dev lba : ℕ) (bh : BufferHead) (c : IdeBuffer)
    → Holds dev lba bh c
    → stored c dev lba ≡ contents (some bh) (c.disks dev lba)
stored_at dev lba bh c held =
    ap (λ o. contents o (c.disks dev lba)) (Holds-hash_find dev lba bh c held)

copy_in-Holds :
    (dev lba : ℕ) (s : Sector) (bh : BufferHead) (c : IdeBuffer)
    → Holds dev lba bh c
    → stored c dev lba ≡ s
    → (bh' : BufferHead) × Holds dev lba bh' (copy_in dev lba s c bh)
      × SameContents c (copy_in dev lba s c bh)
unfolding copy_in
copy_in-Holds dev lba s bh c held e = elim (Bool-cases bh.b_valid) [
  | inl valid ↦ simp valid (bh, held, λ d b. refl)
  | inr invalid ↦
      let disk : s ≡ c.disks dev lba = sym e ∙ stored_at dev lba bh c held ∙ simp invalid refl in
      let clean_one : bh.b_dirty ≡ false = (agrees_at dev lba bh c held).0 invalid in
      let keeps : KeepsBlock (filled s) = λ x. (refl, refl) in
      let (held', replaces) =
        changed-Holds (filled s) dev lba bh c.dirty_lists c held keeps
          ((λ _. clean_one), λ _ _. disk) (same-Relists dev lba bh (filled s bh) c held refl) refl
          (Holds-on_disk dev lba bh c held) in
      simp invalid (
        filled s bh,
        held',
        Replaces-same dev lba s c (changed (filled s) dev lba c.dirty_lists c) e replaces,
      )
]

-- A step on a cache without buffers in use that keeps the contents.
abbrev pub Keeps : IdeBuffer → Option IdeBuffer → Type 0
Keeps c o = (c' : IdeBuffer) × (o ≡ some c') × Ready c' × SameContents c c'

fill_one-Keeps :
    (dev lba : ℕ) (s : Sector) (c : IdeBuffer)
    → Ready c
    → stored c dev lba ≡ s
    → Keeps c (fill_one dev lba s c)
unfolding fill_one
fill_one-Keeps dev lba s c ready e =
    let (c₁, bh, got, held, same) = getblk-Holds dev lba c ready in
    let (bh₂, held₂, same₂) = copy_in-Holds dev lba s bh c₁ held (same dev lba ∙ e) in
    let (c₃, released, ready₃, same₃, disks, lists) =
      brelse-Ready dev lba bh₂ (copy_in dev lba s c₁ bh) held₂ in
    (
      c₃,
      rw (got, Holds-hash_find dev lba bh c₁ held) released,
      ready₃,
      λ d b. same₃ d b ∙ same₂ d b ∙ same d b,
    )

pub ide_read-below :
    (f g : ℕ → ℕ → Sector) (dev lba n : ℕ)
    → ((j : ℕ) → j < n → f dev (lba + j) ≡ g dev (lba + j))
    → ide_read f dev lba n ≡ ide_read g dev lba n
unfolding ide_read
ide_read-below f g dev lba zero same = refl
ide_read-below f g dev lba (suc n) same =
    ap₂ (λ (x : Sector) (l : List Sector). x ∷ l)
      (subst (λ x. f dev x ≡ g dev x) (omega arith) (same 0 (omega arith)))
      (ide_read-below f g dev (suc lba) n
        (λ j lt. subst (λ x. f dev x ≡ g dev x) (omega arith) (same (suc j) (omega arith))))

pub fill-Keeps :
    (dev lba n : ℕ) (c : IdeBuffer)
    → Ready c
    → Keeps c (fill dev lba (ide_read (stored c) dev lba n) c)
unfolding fill ide_read
fill-Keeps dev lba zero c ready = (c, refl, ready, λ d b. refl)
fill-Keeps dev lba (suc n) c ready =
    let (c₁, e, ready₁, same) = fill_one-Keeps dev lba (stored c dev lba) c ready refl in
    let (c₂, e₂, ready₂, same₂) = fill-Keeps dev (suc lba) n c₁ ready₁ in
    (
      c₂,
      rw e (
          ap (λ l. fill dev (suc lba) l c₁)
            (ide_read-below (stored c) (stored c₁) dev (suc lba) n
              (λ j _. sym (same dev (suc lba + j))))
          ∙ e₂),
      ready₂,
      λ d b. same₂ d b ∙ same d b,
    )

-- How far the reader looks ahead: over blocks that are not cached.
pub look_ahead-absent :
    (dev lba : ℕ) (c : IdeBuffer) (k rest : ℕ)
    → (k ≤ look_ahead dev lba c k rest)
      × (look_ahead dev lba c k rest ≤ k + rest)
      × ((j : ℕ)
          → k ≤ j
          → j < look_ahead dev lba c k rest
          → hash_find dev (lba + j) c.lru_list ≡ none)
unfolding look_ahead look_ahead_on
look_ahead-absent dev lba c k zero =
    (omega arith, omega arith, λ j le lt. absurd (omega (arith, le, lt)))
look_ahead-absent dev lba c k (suc rest) =
    elim (Option-cases (hash_find dev (lba + k) c.lru_list)) [
      | inl e ↦ elim (Bool-cases (leb 16 (suc k))) [
        | inl long ↦
            rw (e, long)
              (
                omega arith,
                omega arith,
                λ j le lt.
                    subst (λ x. hash_find dev (lba + x) c.lru_list ≡ none) (omega (arith, le, lt))
                      e,
              )
        | inr short ↦
            let (low, high, absent) = look_ahead-absent dev lba c (suc k) rest in
            rw (e, short)
              (
                omega (arith, low),
                omega (arith, high),
                λ j le lt. elim (Bool-cases (k == j)) [
                  | inl now ↦
                      subst (λ x. hash_find dev (lba + x) c.lru_list ≡ none) (ground (arith, now)) e
                  | inr later ↦ absent j (ground (arith, later, le)) lt
                ],
              )
      ]
      | inr (bh, e) ↦ rw e (omega arith, omega arith, λ j le lt. absurd (omega (arith, le, lt)))
    ]
