-- ===== src/Examples/Running.antt =====
-- The programs on a machine with a process that has the argument `hello`.
use osgods.Common.{
  ℕ, ◌≡◌, refl, codes, Option, none, some, List, [], ◌∷◌, ◌++◌, arith, replicate, length-replicate,
  All, All-replicate,
}
use osgods.Examples.{machine, process, file, free_file, image, hello}
use osgods.Filesystem.{Dentry, bytes}
use osgods.Filesystem.Data.{file_byte}
use osgods.Kernel.{Kernel, put_current_pcb}
use osgods.Pcb.{Pcb, stdin_table, stdout_table, file_table, dir_table}
use osgods.Programs.Cat.{cat_main}
use osgods.Programs.Cat.OnScreen.{cat_main-KernelShows}
use osgods.Programs.OnKernel.{kernel_calls, KernelReads, KernelShows}
use osgods.Syscall.{getargs, open_call}
use osgods.Examples.Screen.{screen-Safe}
use osgods.Files.{open_fd, open_with, free_fd, file_open, dir_open}
use osgods.Filesystem.{read_dentry_by_name}
use osgods.Strings.{strncpy, strncmp}
use osgods.Pcb.{FileOperationTable, fail_table, at_fd}
use osgods.Programs.{literal}
use osgods.Programs.Streams.{Plain}
use osgods.Programs.OnTerminal.{KernelReady}
use osgods.Programs.Counter.{counter_loop}
use osgods.Programs.Counter.Counts.{IsCount}
use osgods.Programs.Counter.OnScreen.{counter_loop-KernelShows}
use osgods.Programs.Ls.{ls_main}
use osgods.Programs.Ls.Entries.{lines}
use osgods.Programs.Ls.Directory.{KernelLists}
use osgods.Programs.Ls.OnScreen.{ls_main-KernelShows}

abbrev no_run : Kernel → List ℕ → Option (ℕ × Kernel)
no_run k command = none

-- The process that runs `cat hello`, before and after it has opened the file.
abbrev reader : ℕ → Pcb
reader used = record process {
  argument = codes "hello" ++ (0 ∷ []);
  file_descriptor =
      file stdin_table 0 1
      ∷ file stdout_table 0 1
      ∷ file file_table used used
      ∷ free_file
      ∷ free_file
      ∷ free_file
      ∷ free_file
      ∷ free_file
      ∷ [];
}

abbrev before : Kernel
before = record machine {
  pcbs =
      record (reader 0) {
        file_descriptor = (file stdin_table 0 1) ∷ (file stdout_table 0 1) ∷ replicate 6 free_file;
      }
      ∷ [];
}

abbrev after : Kernel
after = record before { pcbs = reader 1 ∷ []; global_dentry = hello }

abbrev name : List ℕ
name = codes "hello" ++ replicate 1019 0

args : getargs before 0x8000000 1024 (replicate 1024 0) ≡ some (0, name)
unfolding getargs strncpy
args = refl

opened : open_call before (some name) ≡ some (2, after)
unfolding open_call open_fd open_with free_fd read_dentry_by_name strncmp file_open at_fd
    put_current_pcb
opened = refl

-- The bytes of the file.
abbrev content : List ℕ
content = 0 ∷ 1 ∷ 2 ∷ 3 ∷ 4 ∷ 5 ∷ []

after-KernelReads : KernelReads 0xB8000 (λ a. 0) after 2 content
unfolding bytes file_byte
after-KernelReads = record {
  slot = 0;
  process = reader 1;
  file = file file_table 1 1;
  terminal = file stdout_table 0 1;
  current = refl;
  there = refl;
  in_range = omega arith;
  not_terminal = λ e. omega (arith, e);
  on_file = refl;
  on_terminal = refl;
  file_used = refl;
  file_tb = refl;
  terminal_used = refl;
  terminal_tb = refl;
  reader = record {
    inode = omega arith;
    inodes = omega arith;
    size = omega arith;
    position = omega arith;
  };
  rest = refl;
  safe = screen-Safe;
}

content-Plain : All Plain content
content-Plain = (
  (λ e. omega (arith, e)),
  (
    (λ e. omega (arith, e)),
    (
      (λ e. omega (arith, e)),
      ((λ e. omega (arith, e)), ((λ e. omega (arith, e)), ((λ e. omega (arith, e)), tt))),
    ),
  ),
)

cat_main-KernelShows_example :
    (m : Kernel) × (cat_main (kernel_calls no_run 0x8000000) 2 before (replicate 1024 0)
      ≡ some (0, m))
    × KernelShows after content m
cat_main-KernelShows_example =
    cat_main-KernelShows 0xB8000 (omega arith) (λ a. 0) no_run 0x8000000 1 before after 2 name
      content (replicate 1024 0) args refl opened (λ e. omega (arith, e)) after-KernelReads
      content-Plain (omega arith)

machine-KernelReady : KernelReady 0xB8000 (λ a. 0) machine
machine-KernelReady = record {
  slot = 0;
  process = process;
  terminal = file stdout_table 0 1;
  current = refl;
  there = refl;
  on_terminal = refl;
  terminal_used = refl;
  terminal_tb = refl;
  safe = screen-Safe;
}

counter_loop-KernelShows_example :
    (out : List ℕ) × (l : Kernel) × (counter_loop
        (kernel_calls no_run 0x8000000)
        100
        0
        machine
        (replicate 1024 0)
      ≡ some l)
    × IsCount 0 100 out
    × KernelReady 0xB8000 (λ a. 0) l
    × KernelShows machine out l
counter_loop-KernelShows_example =
    counter_loop-KernelShows 0xB8000 (λ a. 0) no_run 0x8000000 100 machine (replicate 1024 0)
      (omega arith) (omega arith) (length-replicate {A = ℕ} 1024 0) machine-KernelReady

-- A directory of itself and one file.
abbrev dot : Dentry
dot = record { file_name = codes "." ++ replicate 31 0; file_type = 1; inode_id = 0; reserved = [] }

abbrev long_hello : Dentry
long_hello = record {
  file_name = codes "hello" ++ replicate 27 0;
  file_type = 2;
  inode_id = 1;
  reserved = [];
}

abbrev listing : FileOperationTable → ℕ → ℕ → Kernel
listing table inode used = record machine {
  fs = record image { dir_entries = dot ∷ long_hello ∷ [] };
  pcbs =
      record process {
        file_descriptor =
            file stdin_table 0 1
            ∷ file stdout_table 0 1
            ∷ file table inode used
            ∷ replicate 5 free_file;
      }
      ∷ [];
  global_dentry = dot;
}

dir_opened :
    open_call (listing fail_table 0 0) (some (literal ".")) ≡ some (2, listing dir_table 0 1)
unfolding open_call open_fd open_with free_fd read_dentry_by_name strncmp dir_open at_fd
    put_current_pcb
dir_opened = refl

abbrev entries : List (List ℕ)
entries = dot.file_name ∷ long_hello.file_name ∷ []

listing-KernelLists : KernelLists 0xB8000 (λ a. 0) (listing dir_table 0 1) 2 entries
listing-KernelLists = record {
  ready = record {
    slot = 0;
    process = _;
    terminal = file stdout_table 0 1;
    current = refl;
    there = refl;
    on_terminal = refl;
    terminal_used = refl;
    terminal_tb = refl;
    safe = screen-Safe;
  };
  dir = file dir_table 0 1;
  in_range = omega arith;
  not_terminal = λ e. omega (arith, e);
  on_dir = refl;
  dir_used = refl;
  dir_tb = refl;
  some_entry = omega arith;
  few = omega arith;
  held = omega arith;
  listed = (
    omega arith,
    refl,
    (dot, refl, refl),
    (omega arith, refl, (long_hello, refl, refl), omega arith),
  );
}

zeros-Plain : (n : ℕ) → All Plain (replicate n 0)
zeros-Plain n = All-replicate Plain n 0 (λ e. omega (arith, e))

entries-Plain : All (All Plain) entries
entries-Plain = (
  ((λ e. omega (arith, e)), zeros-Plain 31),
  (
    (
      (λ e. omega (arith, e)),
      (
        (λ e. omega (arith, e)),
        (
          (λ e. omega (arith, e)),
          ((λ e. omega (arith, e)), ((λ e. omega (arith, e)), zeros-Plain 27)),
        ),
      ),
    ),
    tt,
  ),
)

ls_main-KernelShows_example :
    (m : Kernel) × (ls_main
        (kernel_calls no_run 0x8000000)
        3
        (listing fail_table 0 0)
        (replicate 33 0)
      ≡ some (0, m))
    × KernelShows (listing dir_table 0 1) (lines entries) m
ls_main-KernelShows_example =
    ls_main-KernelShows 0xB8000 (λ a. 0) no_run 0x8000000 3 (listing fail_table 0 0)
      (listing dir_table 0 1) 2 entries (replicate 33 0) (omega arith) dir_opened
      (λ e. omega (arith, e)) listing-KernelLists entries-Plain refl (omega arith)
