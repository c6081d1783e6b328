-- ===== src/Files/Tests.antt =====
-- The tables of open files at concrete states: the first call of `sys_pipe` in a process.
use magic_box.Prelude.{◌≡◌, refl, none, some, leb, if◌then◌else◌, arith}
use magic_box.Files.{Files, sys_pipe, cleared, pipe_end, no_inode}
use magic_box.Files.Install.{PipeOk, sys_pipe-PipeOk}

-- The slots up to 9 and the descriptors up to 2 are in use.
abbrev few_open : Files
few_open = record {
  file_table = λ i. if leb i 9 then pipe_end 4 1 else cleared;
  fd_table = λ i.
      if leb i 2
      then record { global_fd_idx = some i; flags = 0 }
      else record { global_fd_idx = none; flags = 0 };
}

sys_pipe-PipeOk_example : PipeOk 7 few_open (sys_pipe (some 7) (some (λ i. 0)) few_open)
sys_pipe-PipeOk_example =
    sys_pipe-PipeOk 7 (λ i. 0) few_open 20 30 11 12
      (omega arith, omega arith, omega arith, omega arith, omega arith, omega arith)
      ((λ e. ground (arith, e)), (λ e. ground (arith, e))) refl refl refl refl

without_inode : sys_pipe none (some (λ i. 0)) few_open ≡ no_inode
unfolding sys_pipe
without_inode = refl
