-- ===== src/Vma/Offset.antt =====
-- The bytes of a file that the areas of mm/vma.c show after a page fault of mm/swap.c, through `vma_split`
-- and through the merges of `add_vma_sorted`. The fault takes `vma_pgoff` for a number of bytes.
use magic_box.Prelude.{
  ℕ, ◌+◌, ◌-◌, ◌/◌, ◌%◌, ◌^◌, ◌<◌, ◌≤◌, ◌≡◌, refl, true, ltb, arith, some, List, ◌∷◌,
}
use magic_box.Vma.{Vma, sub32, open_calls, rev_onto, vma_split, read_size, in_file, shown_byte}

-- In an area that begins at a page, an address in the part that has a file shows the byte at the same
-- distance from `vma_pgoff`.
shown_byte-in_file :
    (v : Vma) (a : ℕ)
    → v.vma_start % 4096 ≡ 0
    → v.vma_start ≤ a
    → a < 2 ^ 32
    → a - v.vma_start < v.vma_filesz
    → v.vma_pgoff + (a - v.vma_start) < 2 ^ 32
    → shown_byte v a ≡ in_file v.vma_inode (v.vma_pgoff + (a - v.vma_start))
unfolding shown_byte read_size
shown_byte-in_file v a al low word inside fits =
    let offset = sub32 (a - a % 4096) v.vma_start in
    let distance : offset + a % 4096 ≡ a - v.vma_start = omega arith in
    let read : ltb (a % 4096) (read_size v offset) ≡ true = ground (arith, distance, inside) in
    let place : (v.vma_pgoff + offset) % 2 ^ 32 + a % 4096 ≡ v.vma_pgoff + (a - v.vma_start) =
      omega (arith, distance, fits) in
    rw (read, place) refl

-- Splitting an area at a page boundary changes the bytes that its upper part shows: the new area adds the
-- number of pages in front of it to `vma_pgoff`, where the page fault counts bytes. At an address of
-- the upper part that the file reaches, the area showed the byte at the distance of the address from
-- its start, and the new area shows an earlier one.
pub shown_byte-split :
    (passed : List Vma) (v : Vma) (rest : List Vma) (addr a : ℕ)
    → v.vma_start % 4096 ≡ 0
    → addr % 4096 ≡ 0
    → v.vma_start < addr
    → addr ≤ a
    → a < v.vma_end
    → v.vma_end < 2 ^ 32
    → a - v.vma_start < v.vma_filesz
    → v.vma_pgoff + (a - v.vma_start) < 2 ^ 32
    → (lower : Vma) × (upper : Vma) × (vma_split true passed v rest addr
        ≡ some (rev_onto passed (lower ∷ upper ∷ rest), open_calls v.vma_inode))
      × (upper.vma_start ≡ addr)
      × (old : ℕ) × (new : ℕ) × (shown_byte v a ≡ in_file v.vma_inode old)
      × (shown_byte upper a ≡ in_file v.vma_inode new)
      × (old ≡ v.vma_pgoff + (a - v.vma_start))
      × (new + (addr - v.vma_start) ≡ old + (addr - v.vma_start) / 4096)
      × (new < old)
unfolding vma_split
shown_byte-split passed v rest addr a al al' low from to word inside fits =
    let upper : Vma = record v {
      vma_start = addr;
      vma_pgoff = (v.vma_pgoff + sub32 addr v.vma_start / 4096) % 2 ^ 32;
    } in
    let pages : upper.vma_pgoff ≡ v.vma_pgoff + (addr - v.vma_start) / 4096 = omega arith in
    (
      record v { vma_end = addr },
      upper,
      refl,
      refl,
      v.vma_pgoff + (a - v.vma_start),
      upper.vma_pgoff + (a - addr),
      shown_byte-in_file v a al (omega arith) (omega arith) inside fits,
      shown_byte-in_file upper a al' from (omega arith) (omega arith) (omega (arith, pages)),
      refl,
      omega (arith, pages),
      omega (arith, pages),
    )
