-- ===== src/Programs/OnTerminal.antt =====
-- The terminal as the kernel serves it to a program.
use osgods.Common.{
  ℕ, ◌+◌, ◌^◌, ◌≤◌, ◌<◌, ◌≡◌, ap, ◌∙◌, Option, some, List, ◌++◌, arith, length, get_elem?, All,
  Ensures-some,
}
use osgods.Console.{Console}
use osgods.Console.Putc.Safe.{Safe}
use osgods.Kernel.{Kernel}
use osgods.Pcb.{Pcb, FileObject, stdout_table}
use osgods.Programs.OnKernel.{kernel_calls, KernelShows, shows_nothing_new}
use osgods.Programs.Streams.{Plain}
use osgods.Programs.Texts.{TerminalCalls}
use osgods.Syscall.{write, table_write}
use osgods.Syscall.Tables.{get_current_pcb-at, write-table, table_write-terminal}
use osgods.Terminal.{put_chars}
use osgods.Terminal.Lines.{put_chars-Safe, put_chars-append}

-- The running process has the terminal on descriptor 1, and the screen is in order.
pub record KernelReady (base : ℕ) (mem : ℕ → ℕ) (k : Kernel) : Type 0 where
  pub slot : ℕ
  pub process : Pcb
  pub terminal : FileObject
  pub current : k.curr_pcb ≡ some slot
  pub there : get_elem? k.pcbs slot ≡ some process
  pub on_terminal : get_elem? process.file_descriptor 1 ≡ some terminal
  pub terminal_used : terminal.flag ≡ 1
  pub terminal_tb : terminal.file_op_tb ≡ stdout_table
  pub safe : Safe base mem k.console

-- A console in order in place of the one that there is.
abbrev pub kernel_shown :
    {base : ℕ} {mem : ℕ → ℕ} {k : Kernel} {c : Console}
    → KernelReady base mem k
    → Safe base mem c
    → KernelReady base mem (record k { console = c })
kernel_shown r ok = record {
  slot = r.slot;
  process = r.process;
  terminal = r.terminal;
  current = r.current;
  there = r.there;
  on_terminal = r.on_terminal;
  terminal_used = r.terminal_used;
  terminal_tb = r.terminal_tb;
  safe = ok;
}

module _ (base : ℕ) (fits : base + 4000 ≤ 2 ^ 32) (mem : ℕ → ℕ)
    (run : Kernel → List ℕ → Option (ℕ × Kernel)) (address : ℕ) where
  pub kernel_puts :
      (k : Kernel) (bs rest : List ℕ)
      → KernelReady base mem k
      → All Plain bs
      → length bs < 2 ^ 31
      → (c : Console) × ((kernel_calls run address).write k 1 (bs ++ rest) (length bs)
          ≡ some (length bs, record k { console = c }))
        × Safe base mem c
        × (put_chars k.console bs ≡ some c)
  unfolding write table_write
  kernel_puts k bs rest r plain small =
      let (c, shown, ok) =
        Ensures-some (Safe base mem) (put_chars k.console bs)
          (put_chars-Safe base fits mem k.console bs plain r.safe) in
      (
        c,
        write-table k r.process 1 (length bs) r.terminal
              (get_current_pcb-at k r.slot r.process r.current r.there) r.on_terminal
              r.terminal_used (omega arith) small (bs ++ rest)
            ∙ ap (λ tb. table_write k tb 1 (bs ++ rest) (length bs)) r.terminal_tb
            ∙ table_write-terminal k bs rest c small shown,
        ok,
        shown,
      )

  -- The kernel as a system that `TerminalCalls` describes.
  abbrev pub kernel_terminal : TerminalCalls (kernel_calls run address)
  kernel_terminal = record {
    Ready = KernelReady base mem;
    Shows = KernelShows;
    shows_nothing = λ k. shows_nothing_new k;
    shows_more = λ k l m xs ys a b. put_chars-append k.console l.console xs ys a ∙ b;
    writes = λ k bs rest r plain small.
        let (c, e, ok, shown) = kernel_puts k bs rest r plain small in
        (record k { console = c }, e, kernel_shown r ok, shown);
  }
