-- ===== src/Files.antt =====
-- The tables of open files in fs/file_table.c, and `sys_pipe` of fs/pipe.c, which fills them. A file is
-- open if its slot has an inode; an inode is named by a number. `none` is -1.
mod Slots
mod Install
mod Tests
use magic_box.Pipe.{Pipe, init_pipe, o_rdonly, o_wronly}
use magic_box.Prelude.{
  ℕ, zero, suc, ◌+◌, ◌-◌, Bool, true, false, not, ltb, ◌==◌, ◌&&◌, if◌then◌else◌, Option, none,
  some, ◌>>=◌,
}

pub data Operations : Type 0 where
  no_operations : Operations
  pipe_file_operations : Operations

pub record File : Type 0 where
  pub fd_pos : ℕ
  pub fd_flag : ℕ
  pub f_count : ℕ
  pub f_op : Operations
  pub fd_inode : Option ℕ

abbrev pub cleared : File
cleared = record { fd_pos = 0; fd_flag = 0; f_count = 0; f_op = no_operations; fd_inode = none }

abbrev pub FileTable : Type 0
FileTable = ℕ → File

-- The table of a process, with the slot that a descriptor stands for.
pub record FdEntry : Type 0 where
  pub global_fd_idx : Option ℕ
  pub flags : ℕ

abbrev pub FdTable : Type 0
FdTable = ℕ → FdEntry

abbrev pub with_entry {ℓ} : {A : Type ℓ} → (ℕ → A) → ℕ → A → ℕ → A
with_entry f i a j = if j == i then a else f j

abbrev pub max_file_open_in_system : ℕ
max_file_open_in_system = 64

abbrev pub max_files_open_per_proc : ℕ
max_files_open_per_proc = 32

abbrev pub is_none : Option ℕ → Bool
is_none none = true
is_none (some x) = false

-- A search from an index on, for a number of slots.
unfoldable pub first_free : (ℕ → Bool) → ℕ → ℕ → Option ℕ
first_free free zero i = none
first_free free (suc n) i = if free i then some i else first_free free n (suc i)

abbrev pub slot_free : FileTable → ℕ → Bool
slot_free t i = is_none (t i).fd_inode

abbrev pub clear_slot : FileTable → ℕ → Option (ℕ × FileTable)
clear_slot t i = some (i, with_entry t i cleared)

unfoldable pub get_free_slot_in_global : FileTable → Option (ℕ × FileTable)
get_free_slot_in_global t =
    first_free (slot_free t) (max_file_open_in_system - 3) 3 >>= clear_slot t

abbrev pub fd_free : FdTable → ℕ → Bool
fd_free t i = is_none (t i).global_fd_idx

abbrev pub install_at : FdTable → ℕ → ℕ → Option (ℕ × FdTable)
install_at t global_fd_idx i =
    some (i, with_entry t i (record { global_fd_idx = some global_fd_idx; flags = 0 }))

unfoldable pub pcb_fd_install : ℕ → FdTable → Option (ℕ × FdTable)
pcb_fd_install global_fd_idx t =
    first_free (fd_free t) max_files_open_per_proc 0 >>= install_at t global_fd_idx

-- The slot of a descriptor, or none for the failed ASSERT.
abbrev pub in_table : ℕ → Option ℕ
in_table global_fd = if ltb global_fd max_file_open_in_system then some global_fd else none

unfoldable pub fd_local2global : FdTable → ℕ → Option ℕ
fd_local2global t local_fd = (t local_fd).global_fd_idx >>= in_table

pub record Files : Type 0 where
  pub file_table : FileTable
  pub fd_table : FdTable

-- An end of the pipe takes a slot of the table.
abbrev pub pipe_end : ℕ → ℕ → File
pipe_end inode flag = record {
  fd_pos = 0;
  fd_flag = flag;
  f_count = 1;
  f_op = pipe_file_operations;
  fd_inode = some inode;
}

abbrev pub end_opened : ℕ → ℕ → ℕ × FileTable → Option (ℕ × FileTable)
end_opened inode flag (i, t) = some (i, with_entry t i (pipe_end inode flag))

unfoldable pub open_end : ℕ → ℕ → FileTable → Option (ℕ × FileTable)
open_end inode flag t = get_free_slot_in_global t >>= end_opened inode flag

-- `sys_pipe`: -1, the PANIC, or the two descriptors with the tables and the pipe.
pub data PipeResult : Type 0 where
  no_inode : PipeResult
  panics : PipeResult
  made : (reader writer : ℕ) → Files → Pipe → PipeResult

abbrev pub with_ends : Pipe → Pipe
with_ends p = record p { reader_count = 1; writer_count = 1 }

abbrev pub made_from : FileTable → Pipe → ℕ → ℕ × FdTable → PipeResult
made_from t p reader (writer, fds) =
    made reader writer (record { file_table = t; fd_table = fds }) p

abbrev pub or_panics : Option PipeResult → PipeResult
or_panics none = panics
or_panics (some r) = r

unfoldable pub pipe_files : ℕ → Pipe → Files → Option PipeResult
pipe_files inode p s = do
  (gfd_r, t₁) ← open_end inode o_rdonly s.file_table
  (gfd_w, t₂) ← open_end inode o_wronly t₁
  (lfd_r, fds₁) ← pcb_fd_install gfd_r s.fd_table
  last ← pcb_fd_install gfd_w fds₁
  some (made_from t₂ p lfd_r last)

-- The inode of `make_anonymous_inode`, and the page that `init_pipe` gets for the pipe.
unfoldable pub sys_pipe : Option ℕ → Option (ℕ → ℕ) → Files → PipeResult
sys_pipe none page s = no_inode
sys_pipe (some inode) page s =
    or_panics (init_pipe none page >>= λ p. pipe_files inode (with_ends p) s)
