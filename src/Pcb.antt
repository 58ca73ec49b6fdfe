-- ===== src/Pcb.antt =====
-- The structures of types.h: file objects and process control blocks.
use osgods.Common.{ℕ, Option, some, List, get_elem?, set, ◌>>=◌}

-- The operation tables of syscall.c and execute.c. `null_table` is the four null pointers that
-- `create_pcb` writes; `stdin_table1` and `stdout_table1` have the entries of `stdin_table` and
-- `stdout_table`, and `fail_table1` those of `fail_table`.
pub data FileOperationTable : Type 0 where
  null_table stdin_table stdout_table rtc_table dir_table file_table fail_table : FileOperationTable

-- `file_object_t`; `int`s are patterns of 32 bits.
pub record FileObject : Type 0 where
  pub file_op_tb : FileOperationTable
  pub inode : ℕ
  pub file_position : ℕ
  pub flag : ℕ

-- `pcb_t`. `argument` is the array that the pointer leads to.
pub record Pcb : Type 0 where
  pub pid : ℕ
  pub parent_id : ℕ
  pub file_descriptor : List FileObject
  pub saved_esp : ℕ
  pub saved_ebp : ℕ
  pub esp0 : ℕ
  pub active : ℕ
  pub argument : List ℕ
  pub vidmap : ℕ
  pub tss_esp0 : ℕ
  pub tid : ℕ

abbrev pub max_file_num : ℕ
max_file_num = 8

abbrev pub max_pcb : ℕ
max_pcb = 6

-- One file object changed; `none` is an access outside the array.
unfoldable pub at_fd : Pcb → ℕ → (FileObject → FileObject) → Option Pcb
at_fd p fd f = do
  o ← get_elem? p.file_descriptor fd
  some (record p { file_descriptor = set p.file_descriptor fd (f o) })
