-- ===== src/Files.antt =====
-- File descriptors: the table operations of syscall.c and the file operations of filesystem.c.
pub mod Table
pub mod Reading
pub mod Opening
use osgods.Common.{
  ℕ, zero, suc, ◌+◌, ◌-◌, Bool, not, ◌&&◌, ◌||◌, Option, none, some, List, [], ◌∷◌, ◌==◌,
  if◌then◌else◌, get_elem?, add32, minus_one, is_neg, slt, ◌>>=◌,
}
use osgods.Filesystem.{Image, Dentry, read_dentry_by_name, read_dentry_by_index, read_data}
use osgods.Pcb.{
  Pcb, FileObject, FileOperationTable, null_table, stdin_table, stdout_table, rtc_table, dir_table,
  file_table, fail_table, at_fd, max_file_num,
}

-- An entry that was not read yet.
abbrev pub blank_dentry : Dentry
blank_dentry = record { file_name = []; file_type = 0; inode_id = 0; reserved = [] }

-- The search for a free descriptor, `n` left to try from `i` on. `some none` is the early return;
-- a search that falls through leaves `fd` at 0.
unfoldable pub free_fd : ℕ → ℕ → List FileObject → Option (Option ℕ)
free_fd zero i os = some (some 0)
free_fd (suc n) i [] = none
free_fd (suc n) i (o ∷ os) =
    if o.flag == 0
    then some (some i)
    else if i == max_file_num - 1 && o.flag == 1
    then some none
    else free_fd n (i + 1) os

-- The table of a file type.
abbrev pub type_table : ℕ → FileOperationTable
type_table type = if type == 0 then rtc_table else if type == 1 then dir_table else file_table

-- `open` with a file name, past the search for a descriptor.
unfoldable pub open_at : Image → Pcb → List ℕ → ℕ → Option (ℕ × Pcb)
open_at fs p name fd = do
  (r, dentry) ← read_dentry_by_name fs name blank_dentry
  let type = dentry.file_type
  let opened = (do
    p' ← at_fd p fd (λ o. record o {
      inode = if type == 2 then dentry.inode_id else if type == 0 then minus_one else 0;
      file_position = 0;
      flag = 1;
      file_op_tb = type_table type;
    })
    some (fd, p'))
  if not (r == 0)
      then some (minus_one, p)
      else if slt type 0 || slt 2 type
      then some (minus_one, p)
      else opened

-- By the outcome of the search and the name, which is `none` for NULL.
unfoldable pub open_with : Image → Pcb → Option ℕ → Option (List ℕ) → Option (ℕ × Pcb)
unfolding open_at
open_with fs p none filename = some (minus_one, p)
open_with fs p (some fd) none = some (minus_one, p)
open_with fs p (some fd) (some name) = open_at fs p name fd

unfoldable pub open_fd : Image → Pcb → Option (List ℕ) → Option (ℕ × Pcb)
open_fd fs p filename = do
  free ← free_fd max_file_num 0 p.file_descriptor
  open_with fs p free filename

unfoldable pub close : Pcb → ℕ → Option (ℕ × Pcb)
close p fd =
    let shut = (do
      o ← get_elem? p.file_descriptor fd
      p' ←
          at_fd p fd
            (λ o. record o { flag = 0; file_op_tb = fail_table; inode = 0; file_position = 0 })
      some (if o.flag == 0 then (minus_one, p) else (0, p'))) in
    if fd == 0 || fd == 1
    then some (minus_one, p)
    else if slt fd max_file_num && not (slt fd 2)
    then shut
    else some (minus_one, p)

-- The number read, the bytes stored from `buf` on, and the moved position.
unfoldable pub file_read : Image → Pcb → ℕ → Bool → ℕ → Option (ℕ × List ℕ × Pcb)
file_read fs p fd buf_is_null nbytes = do
  o ← get_elem? p.file_descriptor fd
  let (read_nbytes, out) = read_data fs o.inode o.file_position buf_is_null nbytes
  p' ← at_fd p fd (λ o. record o { file_position = add32 o.file_position read_nbytes })
  some (if is_neg read_nbytes then (minus_one, out, p) else (read_nbytes, out, p'))

unfoldable pub file_open : Image → List ℕ → Dentry → Option (ℕ × Dentry)
file_open fs filename global_dentry = do
  (r, d) ← read_dentry_by_name fs filename global_dentry
  some (if r == minus_one then minus_one else 0, d)

unfoldable pub file_close : ℕ → ℕ
file_close fd = 0

unfoldable pub file_write : ℕ → ℕ
file_write fd = minus_one

unfoldable pub dir_open : Image → List ℕ → Dentry → Option (ℕ × Dentry)
dir_open fs filename global_dentry = do
  (r, d) ← read_dentry_by_name fs filename global_dentry
  some (if not (r == 0) || not (d.file_type == 1) then minus_one else 0, d)

unfoldable pub dir_close : ℕ → ℕ
dir_close fd = 0

unfoldable pub dir_write : ℕ → ℕ
dir_write fd = minus_one

-- The number returned, the bytes stored from `buf` on, and the moved position.
unfoldable pub dir_read : Image → Pcb → ℕ → ℕ → Option (ℕ × List ℕ × Pcb)
dir_read fs p fd nbytes = do
  o ← get_elem? p.file_descriptor fd
  (result, dentry) ←
      read_dentry_by_index fs o.file_position
        (record { file_name = []; file_type = 0; inode_id = 0; reserved = [] })
  p' ← at_fd p fd (λ o. record o { file_position = add32 o.file_position 1 })
  some (
      if result == 0
      then (if slt (add32 o.file_position 1) 63 then nbytes else 0, dentry.file_name, p')
      else (0, [], p))
