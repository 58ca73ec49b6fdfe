-- ===== src/Programs/Ls/OnScreen.antt =====
-- `ls` on the kernel.
use osgods.Common.{
  ℕ, ◌+◌, ◌^◌, ◌≤◌, ◌<◌, ◌≡◌, refl, sym, ap, ◌∙◌, ◌≢◌, Option, some, List, [], ◌∷◌, append-nil,
  arith, length, set, get_elem?-set_self, get_elem?-set_ne, minus_one, ◌>>=◌, All, get_elem?-some,
}
use mathlib.Core.Option
use osgods.Files.{dir_read}
use osgods.Filesystem.{Dentry, read_dentry_by_index}
use osgods.Filesystem.Names.{read_dentry_by_index-in_use}
use osgods.Kernel.{Kernel}
use osgods.Pcb.{Pcb, dir_table}
use osgods.Programs.{literal}
use osgods.Programs.Ls.{ls_sbufsize, ls_main}
use osgods.Programs.Ls.Entries.{DirCalls, lines, ls_main-Lines}
use osgods.Programs.OnKernel.{answered, kernel_calls, KernelShows}
use osgods.Programs.OnTerminal.{kernel_puts, kernel_shown}
use osgods.Programs.Streams.{Plain}
use osgods.Rtc.{Poll, returned}
use osgods.Syscall.{open_call, table_read}
use osgods.Syscall.Tables.{get_current_pcb-at, put_current_pcb-at, read-table}
use osgods.Terminal.{put_chars}
use osgods.Terminal.Lines.{put_chars-append}
use osgods.Programs.Ls.Directory.{Listed, KernelLists, dir_read-entry, dir_read-end}

module _ (base : ℕ) (fits : base + 4000 ≤ 2 ^ 32) (mem : ℕ → ℕ)
    (run : Kernel → List ℕ → Option (ℕ × Kernel)) (address : ℕ) where
  -- A read of 32 bytes goes to `dir_read`.
  kernel_dir_read :
      (k : Kernel) (fd : ℕ) (names : List (List ℕ)) (r : KernelLists base mem k fd names) (n : ℕ)
      (out : List ℕ) (q : Pcb)
      → dir_read k.fs r.ready.process fd 32 ≡ some (n, out, q)
      → (kernel_calls run address).read k fd 32
        ≡ some (n, out, record k { pcbs = set k.pcbs r.ready.slot q })
  unfolding table_read
  kernel_dir_read k fd names r n out q e =
      let p = r.ready.process in
      let called : table_read k p dir_table fd 32
          ≡ some (returned (n, out, record k { pcbs = set k.pcbs r.ready.slot q })) =
        rw e (
          ap (λ (x : Option Kernel). x >>= λ l. some (returned (n, out, l)))
            (put_current_pcb-at k r.ready.slot q r.ready.current)) in
      ap (λ (x : Option (Poll (ℕ × List ℕ × Kernel))). x >>= answered run address)
        (read-table k p fd 32 r.dir
            (get_current_pcb-at k r.ready.slot p r.ready.current r.ready.there) r.on_dir r.dir_used
            r.in_range (omega arith)
          ∙ ap (λ tb. table_read k p tb fd 32) r.dir_tb
          ∙ called)

  -- Any update of the position is seen by the next call.
  kernel_next :
      (k : Kernel) (fd position : ℕ) (names names' : List (List ℕ))
      (r : KernelLists base mem k fd names)
      → Listed k.fs position names'
      → let o = record r.dir { file_position = position } in
        let p = record r.ready.process {
          file_descriptor = set r.ready.process.file_descriptor fd o;
        } in
        KernelLists base mem (record k { pcbs = set k.pcbs r.ready.slot p }) fd names'
  kernel_next k fd position names names' r listed =
      let o = record r.dir { file_position = position } in
      let fds = r.ready.process.file_descriptor in
      record {
        ready = record {
          slot = r.ready.slot;
          process = record r.ready.process { file_descriptor = set fds fd o };
          terminal = r.ready.terminal;
          current = r.ready.current;
          there =
              get_elem?-set_self k.pcbs r.ready.slot _
                (get_elem?-some k.pcbs r.ready.slot _ r.ready.there);
          on_terminal = get_elem?-set_ne fds _ r.not_terminal ∙ r.ready.on_terminal;
          terminal_used = r.ready.terminal_used;
          terminal_tb = r.ready.terminal_tb;
          safe = r.ready.safe;
        };
        dir = o;
        in_range = r.in_range;
        not_terminal = r.not_terminal;
        on_dir = get_elem?-set_self fds fd _ (get_elem?-some fds fd r.dir r.on_dir);
        dir_used = r.dir_used;
        dir_tb = r.dir_tb;
        some_entry = r.some_entry;
        few = r.few;
        held = r.held;
        listed = listed;
      }

  kernel_reads_entry :
      (k : Kernel) (fd : ℕ) (name : List ℕ) (names : List (List ℕ))
      → KernelLists base mem k fd (name ∷ names)
      → (l : Kernel) × ((kernel_calls run address).read k fd 32 ≡ some (32, name, l))
        × (length name ≡ 32)
        × KernelLists base mem l fd names
        × KernelShows k [] l
  unfolding put_chars
  kernel_reads_entry k fd name names r =
      let (used, len, (e, there, named), more) = r.listed in
      let o = record r.dir { file_position = r.dir.file_position + 1 } in
      let q = record r.ready.process {
        file_descriptor = set r.ready.process.file_descriptor fd o;
      } in
      let found : (d : Dentry) → read_dentry_by_index k.fs r.dir.file_position d ≡ some (0, e) =
        λ d.
          let (e', there', f) =
            (read_dentry_by_index-in_use k.fs r.dir.file_position d r.some_entry r.held
                (omega (arith, r.few))).0
              used in
          f ∙ ap (λ x. some (0, x)) (Option.some_inj.0 (sym there' ∙ there)) in
      let step =
        dir_read-entry k.fs r.ready.process fd r.dir e r.on_dir found
          (omega (arith, used, r.few)) in
      (
        record k { pcbs = set k.pcbs r.ready.slot q },
        kernel_dir_read k fd (name ∷ names) r 32 name q (step ∙ ap (λ x. some (32, x, q)) named),
        len,
        kernel_next k fd (r.dir.file_position + 1) (name ∷ names) names r more,
        refl,
      )

  kernel_reads_end :
      (k : Kernel) (fd : ℕ)
      → KernelLists base mem k fd []
      → (l : Kernel) × ((kernel_calls run address).read k fd 32 ≡ some (0, [], l))
        × KernelShows k [] l
  unfolding put_chars
  kernel_reads_end k fd r =
      let missing : (d : Dentry)
          → read_dentry_by_index k.fs r.dir.file_position d ≡ some (minus_one, d) =
        λ d.
          (read_dentry_by_index-in_use k.fs r.dir.file_position d r.some_entry r.held
              (omega (arith, r.few))).1
            r.listed in
      (
        record k { pcbs = set k.pcbs r.ready.slot r.ready.process },
        kernel_dir_read k fd [] r 0 [] r.ready.process
            (dir_read-end k.fs r.ready.process fd r.dir r.on_dir missing),
        refl,
      )

  kernel_writes_line :
      (k : Kernel) (fd : ℕ) (names : List (List ℕ)) (bs : List ℕ)
      → KernelLists base mem k fd names
      → All Plain bs
      → length bs < 2 ^ 31
      → (l : Kernel) × ((kernel_calls run address).write k 1 bs (length bs) ≡ some (length bs, l))
        × KernelLists base mem l fd names
        × KernelShows k bs l
  kernel_writes_line k fd names bs r plain small =
      let (c, e, ok, shown) = kernel_puts base fits mem run address k bs [] r.ready plain small in
      (
        record k { console = c },
        ap (λ xs. (kernel_calls run address).write k 1 xs (length bs)) (sym (append-nil bs)) ∙ e,
        record {
          ready = kernel_shown r.ready ok;
          dir = r.dir;
          in_range = r.in_range;
          not_terminal = r.not_terminal;
          on_dir = r.on_dir;
          dir_used = r.dir_used;
          dir_tb = r.dir_tb;
          some_entry = r.some_entry;
          few = r.few;
          held = r.held;
          listed = r.listed;
        },
        shown,
      )

  -- The kernel as a system that `DirCalls` describes.
  abbrev kernel_dirs : DirCalls (kernel_calls run address)
  kernel_dirs = record {
    Lists = KernelLists base mem;
    Shows = KernelShows;
    shows_more = λ k l m xs ys a b. put_chars-append k.console l.console xs ys a ∙ b;
    reads_end = kernel_reads_end;
    reads_entry = kernel_reads_entry;
    writes = kernel_writes_line;
  }

-- The program `ls` on the kernel: where `open` gives a descriptor for the directory, of 1 to 62
-- entries with names of 32 bytes and no backspace, and the screen is in order, the program ends with
-- status 0 and the screen is the one that `putc` makes of the names that are left to read, each with
-- all its 32 bytes and on a line of its own. One round for each entry and one more are enough.
pub ls_main-KernelShows :
    (base : ℕ) (mem : ℕ → ℕ) (run : Kernel → List ℕ → Option (ℕ × Kernel)) (address n : ℕ)
    (k l : Kernel) (fd : ℕ) (names : List (List ℕ)) (buf : List ℕ)
    → base + 4000 ≤ 2 ^ 32
    → open_call k (some (literal ".")) ≡ some (fd, l)
    → fd ≢ minus_one
    → KernelLists base mem l fd names
    → All (All Plain) names
    → length buf ≡ ls_sbufsize
    → length names < n
    → (m : Kernel) × (ls_main (kernel_calls run address) n k buf ≡ some (0, m))
      × KernelShows l (lines names) m
ls_main-KernelShows base mem run address n k l fd names buf fits opened ok dir plain size fuel =
    ls_main-Lines (kernel_calls run address) (kernel_dirs base fits mem run address) n k l fd names
      buf opened ok dir plain size fuel
