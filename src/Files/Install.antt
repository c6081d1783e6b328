-- ===== src/Files/Install.antt =====
-- `sys_pipe` of fs/pipe.c gives two descriptors for the two ends of a new pipe.
use magic_box.Prelude.{
  ℕ, ◌≤◌, ◌<◌, ◌≡◌, ◌≢◌, refl, ap, sym, ◌∙◌, Bool, true, false, ltb, arith, Option, some,
}
use magic_box.IoQueue.{ioqueue_init}
use magic_box.Pipe.{Pipe, init_pipe, o_rdonly, o_wronly}
use magic_box.Files.{
  File, FdTable, Files, PipeResult, made, slot_free, fd_free, is_none, pipe_end, with_ends,
  pipe_files, sys_pipe, fd_local2global,
}
use magic_box.Files.Slots.{open_end-Opens, pcb_fd_install-Installs, one_left}

-- A new end of the pipe: a descriptor that was free, for a slot that was free, with the end in it.
pub record IsEnd (inode flag : ℕ) (s s' : Files) (fd slot : ℕ) : Type 0 where
  pub fd_was_free : fd_free s.fd_table fd ≡ true
  pub slot_was_free : slot_free s.file_table slot ≡ true
  pub leads_to : fd_local2global s'.fd_table fd ≡ some slot
  pub holds : s'.file_table slot ≡ pipe_end inode flag

-- What `sys_pipe` leaves of the tables.
abbrev pub PipeOk : ℕ → Files → PipeResult → Type 0
PipeOk inode s o =
    (r w gr gw : ℕ) × (s' : Files) × (p : Pipe) × (o ≡ made r w s' p)
    × (p.reader_count ≡ 1)
    × (p.writer_count ≡ 1)
    × (r ≢ w)
    × (gr ≢ gw)
    × IsEnd inode o_rdonly s s' r gr
    × IsEnd inode o_wronly s s' w gw
    × ((j : ℕ) → j ≢ gr → j ≢ gw → s'.file_table j ≡ s.file_table j)
    × ((j : ℕ) → j ≢ r → j ≢ w → s'.fd_table j ≡ s.fd_table j)

leads :
    (t : FdTable) (fd slot : ℕ)
    → (t fd).global_fd_idx ≡ some slot
    → slot < 64
    → fd_local2global t fd ≡ some slot
unfolding fd_local2global
leads t fd slot e high = let below : ltb slot 64 ≡ true = ground (arith, high) in rw (e, below) refl

-- A free place is not the one that was filled.
not_filled : (free : Bool) (a b : ℕ) → (a ≡ b → free ≡ false) → free ≡ true → a ≢ b
not_filled free a b filled e same = ground (arith, filled same, e)

some_taken : (o : Option ℕ) (x : ℕ) → o ≡ some x → is_none o ≡ false
some_taken o x e = ap is_none e

module _ (inode : ℕ) (s : Files) (p : Pipe) (a b c d : ℕ)
    (places : (3 ≤ a) × (a < 64) × (3 ≤ b) × (b < 64) × (c < 32) × (d < 32))
    (apart : (a ≢ b) × (c ≢ d)) (free_a : slot_free s.file_table a ≡ true)
    (free_b : slot_free s.file_table b ≡ true) (free_c : fd_free s.fd_table c ≡ true)
    (free_d : fd_free s.fd_table d ≡ true) where
  AmongSlots : ℕ → Type 0
  AmongSlots j = (3 ≤ j) × (j < 64)

  AmongFds : ℕ → Type 0
  AmongFds j = j < 32

  pipe_files-PipeOk :
      (r : PipeResult) × (pipe_files inode (with_ends p) s ≡ some r) × PipeOk inode s r
  unfolding pipe_files AmongSlots AmongFds
  pipe_files-PipeOk =
      let (gr, t₁, e₁, (free₁, low₁, high₁, at₁, same₁)) =
        open_end-Opens inode o_rdonly s.file_table a places.0 places.1 free_a in
      let (j, (low_j, high_j), free_j) =
        one_left (λ (x : File). is_none x.fd_inode) s.file_table t₁ a b gr AmongSlots
          (places.0, places.1) (places.2, places.3) apart.0 free_a free_b same₁ in
      let (gw, t₂, e₂, (free₂, low₂, high₂, at₂, same₂)) =
        open_end-Opens inode o_wronly t₁ j low_j high_j free_j in
      let (r, fds₁, e₃, (free₃, high₃, at₃, same₃)) =
        pcb_fd_install-Installs gr s.fd_table c places.4 free_c in
      let (k, high_k, free_k) =
        one_left (λ x. is_none x.global_fd_idx) s.fd_table fds₁ c d r AmongFds places.4 places.5
          apart.1 free_c free_d same₃ in
      let (w, fds₂, e₄, (free₄, high₄, at₄, same₄)) =
        pcb_fd_install-Installs gw fds₁ k high_k free_k in
      let slots : gw ≢ gr =
        not_filled (slot_free t₁ gw) gw gr
          (λ e. ap (slot_free t₁) e ∙ ap (λ (x : File). is_none x.fd_inode) at₁) free₂ in
      let fds : w ≢ r =
        not_filled (fd_free fds₁ w) w r (λ e. ap (fd_free fds₁) e ∙ ap is_none at₃) free₄ in
      let s' : Files = record { file_table = t₂; fd_table = fds₂ } in
      (
        made r w s' (with_ends p),
        rw (e₁, e₂, e₃, e₄) refl,
        (
          r,
          w,
          gr,
          gw,
          s',
          with_ends p,
          refl,
          refl,
          refl,
          (λ e. fds (sym e)),
          (λ e. slots (sym e)),
          record {
            fd_was_free = free₃;
            slot_was_free = free₁;
            leads_to =
                leads fds₂ r gr (ap (λ x. x.global_fd_idx) (same₄ r (λ e. fds (sym e))) ∙ at₃)
                  high₁;
            holds = same₂ gr (λ e. slots (sym e)) ∙ at₁;
          },
          record {
            fd_was_free = sym (ap (λ x. is_none x.global_fd_idx) (same₃ w fds)) ∙ free₄;
            slot_was_free = sym (ap (λ (x : File). is_none x.fd_inode) (same₁ gw slots)) ∙ free₂;
            leads_to = leads fds₂ w gw at₄ high₂;
            holds = at₂;
          },
          (λ j n₁ n₂. same₂ j n₂ ∙ same₁ j n₁),
          (λ j n₁ n₂. same₄ j n₂ ∙ same₃ j n₁),
        ),
      )

-- Where two slots of the table of files and two descriptors are free, and there is an inode and a
-- page, `sys_pipe` does not panic. It returns two descriptors that were free, for two slots that were
-- free and now hold the read and the write end; the pipe counts one reader and one writer, and every
-- other slot and descriptor is as it was.
pub sys_pipe-PipeOk :
    (inode : ℕ) (memory : ℕ → ℕ) (s : Files) (a b c d : ℕ)
    → (3 ≤ a) × (a < 64) × (3 ≤ b) × (b < 64) × (c < 32) × (d < 32)
    → (a ≢ b) × (c ≢ d)
    → slot_free s.file_table a ≡ true
    → slot_free s.file_table b ≡ true
    → fd_free s.fd_table c ≡ true
    → fd_free s.fd_table d ≡ true
    → PipeOk inode s (sys_pipe (some inode) (some memory) s)
unfolding sys_pipe init_pipe
sys_pipe-PipeOk inode memory s a b c d places apart free_a free_b free_c free_d =
    let p : Pipe = record { queue = ioqueue_init memory; reader_count = 0; writer_count = 0 } in
    let (r, e, ok) = pipe_files-PipeOk inode s p a b c d places apart free_a free_b free_c free_d in
    rw e ok
