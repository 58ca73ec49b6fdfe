-- ===== src/Programs/OnKernel.antt =====
-- The programs on the kernel: its system calls keep to what they rely on.
use osgods.Common.{
  ℕ, ◌+◌, ◌-◌, ◌^◌, ◌≤◌, ◌<◌, min, ◌≡◌, refl, sym, ap, ap₂, ◌∙◌, ◌≢◌, false, Option, none, some,
  List, [], ◌++◌, arith, length, get_elem?, set, get_elem?-set_self, get_elem?-set_ne, take, drop,
  ◌>>=◌, All, Ensures-some, get_elem?-some,
}
use osgods.Console.Putc.Safe.{Safe}
use osgods.Files.Reading.{IsReader, file_read-advances}
use osgods.Filesystem.{bytes}
use osgods.Filesystem.Bytes.{length-bytes, take-bytes, drop-bytes}
use osgods.Filesystem.Data.{file_byte}
use osgods.Kernel.{Kernel}
use osgods.Pcb.{Pcb, FileObject, file_table, stdout_table, max_file_num}
use osgods.Programs.{Calls}
use osgods.Programs.Streams.{Plain, FileCalls}
use osgods.Rtc.{Poll, waiting, returned}
use osgods.Syscall.{read, write, open_call, close_call, getargs, table_read, table_write}
use osgods.Syscall.Tables.{
  read_state, get_current_pcb-at, read-table, write-table, table_read-file, table_write-terminal,
}
use osgods.Terminal.{put_chars}
use osgods.Terminal.Lines.{put_chars-Safe, put_chars-append}

-- The calls as the kernel serves them. `run` is what a command does before `execute` returns to the
-- program, and `address` where the program keeps its buffer; a call that waits in this state is `none`.
module _ (run : Kernel → List ℕ → Option (ℕ × Kernel)) (address : ℕ) where
  abbrev pub answered : Poll (ℕ × List ℕ × Kernel) → Option (ℕ × List ℕ × Kernel)
  answered waiting = none
  answered (returned r) = some r

  abbrev pub kernel_calls : Calls Kernel
  kernel_calls = record {
    execute = run;
    read = λ k fd n. read k fd false n >>= answered;
    write = λ k fd buf n. write k fd (some buf) n;
    open_name = λ k name. open_call k (some name);
    close = close_call;
    getargs = λ k buf n. getargs k address n buf;
  }

-- The running process has the terminal on descriptor 1 and `fd` open on a file with `xs` left.
pub record KernelReads (base : ℕ) (mem : ℕ → ℕ) (k : Kernel) (fd : ℕ) (xs : List ℕ) : Type 0 where
  pub slot : ℕ
  pub process : Pcb
  pub file : FileObject
  pub terminal : FileObject
  pub current : k.curr_pcb ≡ some slot
  pub there : get_elem? k.pcbs slot ≡ some process
  pub in_range : fd < max_file_num
  pub not_terminal : fd ≢ 1
  pub on_file : get_elem? process.file_descriptor fd ≡ some file
  pub on_terminal : get_elem? process.file_descriptor 1 ≡ some terminal
  pub file_used : file.flag ≡ 1
  pub file_tb : file.file_op_tb ≡ file_table
  pub terminal_used : terminal.flag ≡ 1
  pub terminal_tb : terminal.file_op_tb ≡ stdout_table
  pub reader : IsReader k.fs file
  pub rest :
      xs
      ≡ bytes
          (file_byte k.fs file.inode)
          file.file_position
          ((k.fs.inodes file.inode).length - file.file_position)
  pub safe : Safe base mem k.console

-- The characters went to the screen one by one.
abbrev pub KernelShows : Kernel → List ℕ → Kernel → Type 0
KernelShows k xs l = put_chars k.console xs ≡ some l.console

pub shows_nothing_new : (k : Kernel) → KernelShows k [] k
unfolding put_chars
shows_nothing_new k = refl

module _ (base : ℕ) (fits : base + 4000 ≤ 2 ^ 32) (mem : ℕ → ℕ)
    (run : Kernel → List ℕ → Option (ℕ × Kernel)) (address : ℕ) where
  pub kernel_reads :
      (k : Kernel) (fd n : ℕ) (xs : List ℕ)
      → KernelReads base mem k fd xs
      → n < 2 ^ 31
      → (l : Kernel) × ((kernel_calls run address).read k fd n
          ≡ some (min n (length xs), take n xs, l))
        × KernelReads base mem l fd (drop n xs)
        × KernelShows k [] l
  unfolding put_chars
  kernel_reads k fd n xs r small =
      let o = r.file in
      let p = r.process in
      let left = (k.fs.inodes o.inode).length - o.file_position in
      let m = min n left in
      let total : length xs ≡ left =
        ap length r.rest ∙ length-bytes (file_byte k.fs o.inode) o.file_position left in
      let count : m ≡ min n (length xs) = omega arith in
      let taken : bytes (file_byte k.fs o.inode) o.file_position m ≡ take n xs =
        sym (take-bytes (file_byte k.fs o.inode) o.file_position n left)
        ∙ sym (ap (take n) r.rest) in
      let l = read_state k r.slot p fd o m in
      let step =
        read-table k p fd n o (get_current_pcb-at k r.slot p r.current r.there) r.on_file
          r.file_used r.in_range small
        ∙ ap (λ tb. table_read k p tb fd n) r.file_tb
        ∙ table_read-file k r.slot fd n p o r.current small r.on_file r.reader in
      (
        l,
        ap (λ (q : Option (Poll (ℕ × List ℕ × Kernel))). q >>= answered run address) step
            ∙ ap₂ (λ (c : ℕ) (out : List ℕ). some (c, out, l)) count taken,
        record {
          slot = r.slot;
          process = record p {
            file_descriptor =
                set p.file_descriptor fd (record o { file_position = o.file_position + m });
          };
          file = record o { file_position = o.file_position + m };
          terminal = r.terminal;
          current = r.current;
          there = get_elem?-set_self k.pcbs r.slot _ (get_elem?-some k.pcbs r.slot p r.there);
          in_range = r.in_range;
          not_terminal = r.not_terminal;
          on_file =
              get_elem?-set_self p.file_descriptor fd _
                (get_elem?-some p.file_descriptor fd o r.on_file);
          on_terminal = get_elem?-set_ne p.file_descriptor _ r.not_terminal ∙ r.on_terminal;
          file_used = r.file_used;
          file_tb = r.file_tb;
          terminal_used = r.terminal_used;
          terminal_tb = r.terminal_tb;
          reader = (file_read-advances k.fs p fd n o r.on_file r.reader small).1;
          rest =
              ap (drop n) r.rest
              ∙ drop-bytes (file_byte k.fs o.inode) o.file_position n left
              ∙ ap (bytes (file_byte k.fs o.inode) (o.file_position + m)) (omega arith);
          safe = r.safe;
        },
        refl,
      )

  pub kernel_writes :
      (k : Kernel) (fd : ℕ) (xs bs rest : List ℕ)
      → KernelReads base mem k fd xs
      → All Plain bs
      → length bs < 2 ^ 31
      → (l : Kernel) × ((kernel_calls run address).write k 1 (bs ++ rest) (length bs)
          ≡ some (length bs, l))
        × KernelReads base mem l fd xs
        × KernelShows k bs l
  unfolding write table_write
  kernel_writes k fd xs bs rest r plain small =
      let (c, shown, ok) =
        Ensures-some (Safe base mem) (put_chars k.console bs)
          (put_chars-Safe base fits mem k.console bs plain r.safe) in
      (
        record k { console = c },
        write-table k r.process 1 (length bs) r.terminal
              (get_current_pcb-at k r.slot r.process r.current r.there) r.on_terminal
              r.terminal_used (omega arith) small (bs ++ rest)
            ∙ ap (λ tb. table_write k tb 1 (bs ++ rest) (length bs)) r.terminal_tb
            ∙ table_write-terminal k bs rest c small shown,
        record {
          slot = r.slot;
          process = r.process;
          file = r.file;
          terminal = r.terminal;
          current = r.current;
          there = r.there;
          in_range = r.in_range;
          not_terminal = r.not_terminal;
          on_file = r.on_file;
          on_terminal = r.on_terminal;
          file_used = r.file_used;
          file_tb = r.file_tb;
          terminal_used = r.terminal_used;
          terminal_tb = r.terminal_tb;
          reader = r.reader;
          rest = r.rest;
          safe = ok;
        },
        shown,
      )

  -- The kernel as a system that `FileCalls` describes.
  abbrev pub kernel_files : FileCalls (kernel_calls run address)
  kernel_files = record {
    Reads = KernelReads base mem;
    Shows = KernelShows;
    shows_nothing = λ k. shows_nothing_new k;
    shows_more = λ k l m xs ys a b. put_chars-append k.console l.console xs ys a ∙ b;
    reads = kernel_reads;
    writes = kernel_writes;
  }
