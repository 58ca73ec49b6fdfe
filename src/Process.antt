-- ===== src/Process.antt =====
-- execute.c: parsing a command, process slots, starting, ending and switching processes.
pub mod Parse
pub mod Printing
pub mod Slots
pub mod Switching
pub mod Contexts
pub mod Turns
pub mod Rounds
pub mod Executing
pub mod Ordering
pub mod Ending
pub mod Returning
use osgods.Common.{
  ℕ, ◌+◌, ◌-◌, ◌*◌, ◌^◌, codes, false, not, Option, none, some, List, [], ◌∷◌, ◌++◌, map, leb, ◌==◌,
  if◌then◌else◌, length, get_elem?, set, take, replicate, add32, sub32, minus_one, ◌>>=◌,
}
use mathlib.Core.Option
use osgods.Console.{Console, Terminal, at_terminal, get_display_tid, get_scheduled_tid}
use osgods.Files.{close}
use osgods.Filesystem.{Image, Inode, Dentry, read_dentry_by_name, read_data}
use osgods.Kernel.{Kernel, get_current_pcb, put_current_pcb}
use osgods.Paging.{set_up_paging}
use osgods.Pcb.{
  Pcb, FileObject, FileOperationTable, null_table, stdin_table, stdout_table, max_file_num, max_pcb,
  at_fd,
}
use osgods.Printf.{Arg, word, text, printf}
use osgods.Strings.{strlen, strncmp}
use osgods.Terminal.{put_chars, set_scheduled_tid}

abbrev pub max_argument_size : ℕ
max_argument_size = 128

-- `for (; i < command_len && command[i] == ' '; i++)` on the characters from `i` on
pub skip_spaces : List ℕ → List ℕ
skip_spaces [] = []
skip_spaces (c ∷ s) = if c == b' ' then skip_spaces s else c ∷ s

-- The loop that fills `filename`, and its NUL; the characters from `i` on are left. `none` is a
-- write past the end of the array.
copy_name : List ℕ → List ℕ → Option (List ℕ × List ℕ)
copy_name [] s = none
copy_name (d ∷ filename) [] = some (0 ∷ filename, [])
copy_name (d ∷ filename) (c ∷ s) =
    if c == b' '
    then some (0 ∷ filename, c ∷ s)
    else Option.map (λ r. (c ∷ r.0, r.1)) (copy_name filename s)

-- The loop that fills `buf` from `buf_index` on. `some none` is the early return of -1.
copy_argument : ℕ → List ℕ → List ℕ → Option (Option (List ℕ))
copy_argument buf_index [] [] = none
copy_argument buf_index (d ∷ buf) [] = some (some (0 ∷ buf))
copy_argument buf_index [] (c ∷ s) =
    if c == b' ' then none else if leb max_argument_size buf_index then some none else none
copy_argument buf_index (d ∷ buf) (c ∷ s) =
    if c == b' '
    then some (some (0 ∷ buf))
    else if leb max_argument_size buf_index
    then some none
    else Option.map (λ r. Option.map (λ b. c ∷ b) r) (copy_argument (buf_index + 1) buf s)

-- The two arrays on success; `some none` is the return of -1.
unfoldable pub parse_cmd : List ℕ → List ℕ → Option (List ℕ) → Option (Option (List ℕ × List ℕ))
unfolding skip_spaces copy_name copy_argument
parse_cmd command filename none = some none
parse_cmd command filename (some buf) = do
  command_len ← strlen command
  (name, rest) ← copy_name filename (skip_spaces (take command_len command))
  argument ← copy_argument 0 buf (skip_spaces rest)
  some (Option.map (λ b. (name, b)) argument)

-- The first process slot from `i` on that is not active.
unfoldable pub first_empty : ℕ → List Pcb → Option ℕ
first_empty i [] = none
first_empty i (p ∷ ps) = if p.active == 0 then some i else first_empty (i + 1) ps

-- `printf` on the screen.
unfoldable pub print : Kernel → List ℕ → List Arg → Option Kernel
print k format args = do
  s ← printf format args
  c ← put_chars k.console s
  some (record k { console = c })

-- The slot, or -2 with a message.
unfoldable pub slot_result : Kernel → Option ℕ → Option (ℕ × Kernel)
slot_result k (some i) = some (i, k)
slot_result k none = do
  k' ← print k (codes "no pcb block available, 6 are opened!\n" ++ (0 ∷ [])) []
  some (2 ^ 32 - 2, k')

unfoldable pub determine_which_pcb_empty : Kernel → Option (ℕ × Kernel)
unfolding first_empty slot_result
determine_which_pcb_empty k = slot_result k (first_empty 0 k.pcbs)

abbrev pub closed_file : FileObject
closed_file = record { file_op_tb = null_table; inode = 0; file_position = 0; flag = 0 }

abbrev pub terminal_file : FileOperationTable → FileObject
terminal_file t = record { file_op_tb = t; inode = 0; file_position = 0; flag = 1 }

-- The file descriptors that `create_pcb` writes.
abbrev pub new_files : List FileObject
new_files =
    terminal_file stdin_table
    ∷ terminal_file stdout_table
    ∷ replicate (max_file_num - 2) closed_file

-- 8 MB - 8 KB * pid - 4
abbrev pub kernel_stack : ℕ → ℕ
kernel_stack pid = sub32 0x800000 (0x2000 * pid + 4)

-- `pcb` is slot `pid`; what `create_pcb` does not write stays.
unfoldable pub create_pcb : Kernel → ℕ → List ℕ → Option Kernel
unfolding at_terminal
create_pcb k pid argument = do
  old ← get_elem? k.pcbs pid
  t ← get_elem? k.console.terminal_list k.console.scheduled_terminal
  parent ← (if t.count_pcb == 0 then some minus_one else (do p ← get_current_pcb k; some p.pid))
  c ←
      at_terminal k.console k.console.scheduled_terminal
        (λ t. record t { count_pcb = add32 t.count_pcb 1 })
  some (record k {
    console = c;
    pcbs = set k.pcbs pid (record old {
      file_descriptor = new_files;
      pid = pid;
      argument = argument;
      tss_esp0 = k.tss_esp0;
      tid = t.tid;
      active = 1;
      esp0 = kernel_stack pid;
      parent_id = parent;
    });
  })

-- How a call that may leave for another stack ends.
pub data Outcome : Type 0 where
  returned : ℕ → Outcome
  -- the new program: its entry point, and its image at 0x08048000
  started : ℕ → List ℕ → Outcome
  -- back in the parent's `execute`: its stack registers and the status
  resumed : ℕ → ℕ → ℕ → Outcome
  -- on in another process where the scheduler left it: its stack registers
  switched : ℕ → ℕ → Outcome

-- Four bytes as a little-endian word.
abbrev pub word_of : List ℕ → ℕ
word_of (a ∷ b ∷ c ∷ d ∷ r) = a + 256 * (b + 256 * (c + 256 * d))
word_of _ = 0

abbrev pub exe_magic_table : List ℕ
exe_magic_table = 0x7f ∷ 0x45 ∷ 0x4c ∷ 0x46 ∷ []

-- What `execute` finds on disk: the inode and the entry point of an executable; `some none` is a
-- return of -1.
check_executable : Image → List ℕ → Option (Option (ℕ × List ℕ))
check_executable fs filename = do
  (r, dentry) ←
      read_dentry_by_name fs filename
        (record { file_name = []; file_type = 0; inode_id = 0; reserved = [] })
  let (n, buf) = read_data fs dentry.inode_id 0 false 40
  let (m, entry) = read_data fs dentry.inode_id 24 false 4
  let magic = (do
    differ ← strncmp buf exe_magic_table 4
    some (
        if not (differ == 0)
        then none
        else if not (m == 4)
        then none
        else some (dentry.inode_id, entry)))
  if not (r == 0) then some none else if not (n == 40) then some none else magic

-- The new process in slot `pid`, with `esp` and `ebp` the registers that `execute` saves in the
-- parent; it ends in `context_switch`.
unfoldable pub start_process : Kernel → ℕ → List ℕ → ℕ → List ℕ → ℕ → ℕ → Option (Outcome × Kernel)
unfolding create_pcb
start_process k pid argument inode entry esp ebp = do
  let paged = record k { paging = set_up_paging k.paging pid }
  let length = (k.fs.inodes inode).length
  let (n, image) = read_data k.fs inode 0 false length
  let start = (do
    created ← create_pcb paged pid argument
    p ← get_elem? created.pcbs pid
    let current = record created { curr_pcb = some pid; tss_esp0 = p.esp0 }
    let with_parent = (do
      parent ← get_elem? created.pcbs p.parent_id
      some (record current {
        pcbs = set created.pcbs p.parent_id (record parent { saved_esp = esp; saved_ebp = ebp });
      }))
    done ← (if p.parent_id == minus_one then some current else with_parent)
    some (started (word_of entry) image, done))
  if length == n then start else some (returned minus_one, paged)

-- The command is `none` for NULL.
unfoldable pub execute : Kernel → Option (List ℕ) → ℕ → ℕ → Option (Outcome × Kernel)
unfolding check_executable start_process determine_which_pcb_empty
execute k none esp ebp = some (returned minus_one, k)
execute k (some command) esp ebp = do
  (pid, k1) ← determine_which_pcb_empty k
  let k2 = record k1 { pid = pid }
  let run = (do
    k3 ← print k2 (codes "command is %s \n" ++ (0 ∷ [])) (text command ∷ [])
    differ ← strncmp command (codes "shell" ++ (0 ∷ [])) 5
    tid ← get_scheduled_tid k3.console
    k4 ←
        (if differ == 0
          then print k3 (codes "in terminal %d now\n" ++ (0 ∷ [])) (word (add32 tid 1) ∷ [])
          else some k3)
    parsed ← parse_cmd command (replicate 32 0) (some (replicate max_argument_size 0))
    elim parsed [
      | none ↦ some (returned minus_one, k4)
      | some (filename, argument) ↦ (do
        found ← check_executable k4.fs filename
        elim found [
          | none ↦ some (returned minus_one, k4)
          | some (inode, entry) ↦ start_process k4 pid argument inode entry esp ebp
        ])
    ])
  if pid == 2 ^ 32 - 2 then some (returned 0, k2) else run
