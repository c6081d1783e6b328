-- ===== src/Files/Slots.antt =====
-- The first free slot of a table of fs/file_table.c, and what is there after it is taken.
use magic_box.Prelude.{
  ℕ, zero, suc, ◌+◌, ◌≤◌, ◌<◌, ◌≡◌, ◌≢◌, refl, ap, sym, ◌∙◌, Bool, true, false, ◌==◌, arith, some,
  Bool-cases, inl, inr, ==_iff,
}
use magic_box.Files.{
  FileTable, FdEntry, FdTable, with_entry, first_free, slot_free, fd_free, cleared,
  get_free_slot_in_global, pcb_fd_install, pipe_end, open_end,
}

first_free-found :
    (free : ℕ → Bool) (n i j : ℕ)
    → i ≤ j
    → j < i + n
    → free j ≡ true
    → (k : ℕ) × (first_free free n i ≡ some k) × (free k ≡ true) × (i ≤ k) × (k < i + n)
unfolding first_free
first_free-found free zero i j low high e = absurd (omega (arith, low, high))
first_free-found free (suc n) i j low high e = elim (Bool-cases (free i)) [
  | inl here_free ↦ (i, rw here_free refl, here_free, omega arith, omega arith)
  | inr taken ↦
      let later : suc i ≤ j = elim (Bool-cases (i == j)) [
        | inl same ↦ absurd (ground (arith, taken, e, ap free ((==_iff i j).0 same)))
        | inr ne ↦ ground (arith, ne, low)
      ] in
      let (k, found, free_k, low_k, high_k) =
        first_free-found free n (suc i) j later (omega (arith, high)) e in
      (k, rw taken found, free_k, omega (arith, low_k), omega (arith, high_k))
]

pub entry_self {ℓ} : {A : Type ℓ} (f : ℕ → A) (i : ℕ) (a : A) → with_entry f i a i ≡ a
entry_self f i a = let self : (i == i) ≡ true = ground arith in rw self refl

pub entry_ne {ℓ} : {A : Type ℓ} (f : ℕ → A) (i j : ℕ) (a : A) → j ≢ i → with_entry f i a j ≡ f j
entry_ne f i j a ne = let other : (j == i) ≡ false = ground (arith, ne) in rw other refl

-- What an open end of a pipe leaves of the table of files.
abbrev pub Opens : ℕ → ℕ → FileTable → ℕ → FileTable → Type 0
Opens inode flag t k t' =
    (slot_free t k ≡ true)
    × (3 ≤ k)
    × (k < 64)
    × (t' k ≡ pipe_end inode flag)
    × ((j : ℕ) → j ≢ k → t' j ≡ t j)

pub open_end-Opens :
    (inode flag : ℕ) (t : FileTable) (j : ℕ)
    → 3 ≤ j
    → j < 64
    → slot_free t j ≡ true
    → (k : ℕ) × (t' : FileTable) × (open_end inode flag t ≡ some (k, t')) × Opens inode flag t k t'
unfolding open_end get_free_slot_in_global
open_end-Opens inode flag t j low high e =
    let (k, found, free_k, low_k, high_k) =
      first_free-found (slot_free t) 61 3 j low (omega (arith, high)) e in
    (
      k,
      with_entry (with_entry t k cleared) k (pipe_end inode flag),
      rw found refl,
      (
        free_k,
        low_k,
        omega (arith, high_k),
        entry_self (with_entry t k cleared) k (pipe_end inode flag),
        λ i ne.
            entry_ne (with_entry t k cleared) k i (pipe_end inode flag) ne
            ∙ entry_ne t k i cleared ne,
      ),
    )

-- What `pcb_fd_install` leaves of the table of a process.
abbrev pub Installs : ℕ → FdTable → ℕ → FdTable → Type 0
Installs global t k t' =
    (fd_free t k ≡ true)
    × (k < 32)
    × ((t' k).global_fd_idx ≡ some global)
    × ((j : ℕ) → j ≢ k → t' j ≡ t j)

pub pcb_fd_install-Installs :
    (global : ℕ) (t : FdTable) (j : ℕ)
    → j < 32
    → fd_free t j ≡ true
    → (k : ℕ) × (t' : FdTable) × (pcb_fd_install global t ≡ some (k, t')) × Installs global t k t'
unfolding pcb_fd_install
pcb_fd_install-Installs global t j high e =
    let (k, found, free_k, low_k, high_k) =
      first_free-found (fd_free t) 32 0 j (omega arith) (omega (arith, high)) e in
    let entry : FdEntry = record { global_fd_idx = some global; flags = 0 } in
    (
      k,
      with_entry t k entry,
      rw found refl,
      (
        free_k,
        omega (arith, high_k),
        ap (λ x. x.global_fd_idx) (entry_self t k entry),
        λ i ne. entry_ne t k i entry ne,
      ),
    )

-- Of two free places, one is still free after a place is taken.
pub one_left {ℓ} :
    {A : Type ℓ} (free : A → Bool) (t t' : ℕ → A) (a b k : ℕ) (P : ℕ → Type 0)
    → P a
    → P b
    → a ≢ b
    → free (t a) ≡ true
    → free (t b) ≡ true
    → ((j : ℕ) → j ≢ k → t' j ≡ t j)
    → (j : ℕ) × P j × (free (t' j) ≡ true)
one_left free t t' a b k P pa pb ne fa fb same = elim (Bool-cases (a == k)) [
  | inl e ↦ (b, pb, ap free (same b (λ x. ne ((==_iff a k).0 e ∙ sym x))) ∙ fb)
  | inr other ↦ (a, pa, ap free (same a (λ x. ground (arith, other, x))) ∙ fa)
]
