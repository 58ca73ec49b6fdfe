-- ===== src/Programs/Syserr/OnScreen.antt =====
-- syserr on the kernel.
use osgods.Common.{
  ℕ, ◌+◌, ◌^◌, ◌≤◌, ◌<◌, ◌≡◌, refl, ap, ap₂, ◌∙◌, codes, inl, inr, Option, some, List, [], arith,
  get_elem?, minus_one, ◌>>=◌, All, Ensures-some, get_elem?-lt,
}
use osgods.Common.{set-get_elem?}
use osgods.Console.{Console}
use osgods.Console.Putc.Safe.{Safe}
use osgods.Files.{close}
use osgods.Files.Table.{IsTable, close-Closes}
use osgods.Kernel.{Kernel, get_current_pcb, put_current_pcb}
use osgods.Pcb.{Pcb, FileObject, stdout_table}
use osgods.Programs.Streams.{Plain}
use osgods.Programs.Texts.{TerminalCalls}
use osgods.Programs.OnKernel.{kernel_calls, KernelShows, shows_nothing_new, answered}
use osgods.Programs.OnTerminal.{KernelReady, kernel_puts, kernel_shown}
use osgods.Programs.Syserr.{err_neg_fd, err_big_fd, err_unopened, err_vidmap, err_stdin_out}
use osgods.Programs.Syserr.Refused.{
  Refused, RefusingCalls, is_text-Plain, err_neg_fd-Passes, err_big_fd-Passes, err_unopened-Passes,
  err_vidmap-Passes, err_stdin_out-Passes,
}
use osgods.Rtc.{Poll, returned}
use osgods.Syscall.{write, close_call, vidmap, table_read, table_write}
use osgods.Syscall.Guards.{IsNotOpen, read-write_refused}
use osgods.Syscall.Tables.{get_current_pcb-at, put_current_pcb-at, read-table, write-table}
use osgods.Terminal.{put_chars, terminal_bad_read, terminal_bad_write}
use osgods.Terminal.Lines.{put_chars-Safe, put_chars-append}

-- The running process has the descriptors in order, only those of the terminal are open, and the
-- screen is in order.
pub record KernelUnopened (base : ℕ) (mem : ℕ → ℕ) (k : Kernel) : Type 0 where
  pub ready : KernelReady base mem k
  pub table : IsTable ready.process
  pub unopened :
      (fd : ℕ) (o : FileObject)
      → 2 ≤ fd
      → get_elem? ready.process.file_descriptor fd ≡ some o
      → o.flag ≡ 0

abbrev unopened_shown :
    {base : ℕ} {mem : ℕ → ℕ} {k : Kernel} {c : Console}
    → KernelUnopened base mem k
    → Safe base mem c
    → KernelUnopened base mem (record k { console = c })
unopened_shown r ok = record {
  ready = kernel_shown r.ready ok;
  table = r.table;
  unopened = r.unopened;
}

module _ {base : ℕ} {mem : ℕ → ℕ} {k : Kernel} (r : KernelUnopened base mem k) where
  current : get_current_pcb k ≡ some r.ready.process
  current = get_current_pcb-at k r.ready.slot r.ready.process r.ready.current r.ready.there

  closed_twice :
      (fd : ℕ)
      → close r.ready.process fd ≡ some (minus_one, r.ready.process)
      → close_call k fd ≡ some (minus_one, k)
  unfolding close_call
  closed_twice fd h =
      let put : put_current_pcb k r.ready.process ≡ some k =
        put_current_pcb-at k r.ready.slot r.ready.process r.ready.current
        ∙ ap (λ (ps : List Pcb). some (record k { pcbs = ps }))
            (set-get_elem? k.pcbs r.ready.slot r.ready.process r.ready.there) in
      rw (current, h, put) refl

  -- Nothing can be closed.
  close_refused : (fd : ℕ) → fd < 2 ^ 32 → close_call k fd ≡ some (minus_one, k)
  close_refused fd small =
      let c = close-Closes r.ready.process fd r.table small in
      closed_twice fd (
        c.returns ∙ elim c.effect [
          | inl (_, code, after) ↦ ap₂ (λ n p. some (n, p)) code after
          | inr ((two, _, o, there, used), _, _, _) ↦
              absurd (omega (arith, r.unopened fd o two there, used))
        ])

  -- A descriptor behind the terminal's is refused by all three calls.
  kernel_refuses :
      (run : Kernel → List ℕ → Option (ℕ × Kernel)) (address fd : ℕ)
      → 2 ≤ fd
      → fd < 2 ^ 32
      → Refused (kernel_calls run address) k fd
  kernel_refuses run address fd two small =
      let p = r.ready.process in
      let free : IsNotOpen p fd = inr (λ o g. r.unopened fd o two g) in
      record {
        read_fails =
            ap (λ (q : Option (Poll (ℕ × List ℕ × Kernel))). q >>= answered run address)
              (read-write_refused k p fd 31 (some []) current r.table.eight small (omega arith)
                (inl free)).0;
        write_fails = λ buf.
            (read-write_refused k p fd 31 (some buf) current r.table.eight small (omega arith)
              (inl free)).1;
        close_fails = close_refused fd small;
      }

module _ (base : ℕ) (fits : base + 4000 ≤ 2 ^ 32) (mem : ℕ → ℕ)
    (run : Kernel → List ℕ → Option (ℕ × Kernel)) (address : ℕ) where
  put_text :
      (k : Kernel) (text : List ℕ)
      → KernelUnopened base mem k
      → All Plain text
      → (c : Console) × (put_chars k.console text ≡ some c)
        × KernelUnopened base mem (record k { console = c })
  put_text k text r plain =
      let (c, shown, ok) =
        Ensures-some (Safe base mem) (put_chars k.console text)
          (put_chars-Safe base fits mem k.console text plain r.ready.safe) in
      (c, shown, unopened_shown r ok)

  abbrev unopened_terminal : TerminalCalls (kernel_calls run address)
  unopened_terminal = record {
    Ready = KernelUnopened base mem;
    Shows = KernelShows;
    shows_nothing = λ k. shows_nothing_new k;
    shows_more = λ k l m xs ys a b. put_chars-append k.console l.console xs ys a ∙ b;
    writes = λ k bs rest r plain small.
        let (c, e, ok, shown) =
          kernel_puts base fits mem run address k bs rest r.ready plain small in
        (record k { console = c }, e, unopened_shown r ok, shown);
  }

  kernel_write_stdin :
      (k : Kernel) (buf : List ℕ)
      → KernelUnopened base mem k
      → (l : Kernel) × (write k 0 (some buf) 31 ≡ some (minus_one, l))
        × KernelUnopened base mem l
        × KernelShows k (codes "terminal bad write!!\n") l
  unfolding table_write terminal_bad_write
  kernel_write_stdin k buf r =
      let p = r.ready.process in
      let (o, there) = get_elem?-lt p.file_descriptor 0 (omega (arith, r.table.eight)) in
      let (tb, used) = r.table.stdin o there in
      let (c, shown, ok) =
        put_text k (codes "terminal bad write!!\n") r
          (is_text-Plain (codes "terminal bad write!!\n") refl).1 in
      (
        record k { console = c },
        write-table k p 0 31 o (current r) there used (omega arith) (omega arith) buf
            ∙ ap (λ t. table_write k t 0 buf 31) tb
            ∙ rw shown refl,
        ok,
        shown,
      )

  kernel_read_stdout :
      (k : Kernel)
      → KernelUnopened base mem k
      → (l : Kernel) × ((kernel_calls run address).read k 1 31 ≡ some (minus_one, [], l))
        × KernelUnopened base mem l
        × KernelShows k (codes "terminal bad read!!\n") l
  unfolding table_read terminal_bad_read
  kernel_read_stdout k r =
      let p = r.ready.process in
      let (o, there) = get_elem?-lt p.file_descriptor 1 (omega (arith, r.table.eight)) in
      let (tb, used) = r.table.stdout o there in
      let (c, shown, ok) =
        put_text k (codes "terminal bad read!!\n") r
          (is_text-Plain (codes "terminal bad read!!\n") refl).1 in
      let failed : table_read k p stdout_table 1 31
          ≡ some (returned (minus_one, [], record k { console = c })) =
        rw shown refl in
      (
        record k { console = c },
        ap (λ (q : Option (Poll (ℕ × List ℕ × Kernel))). q >>= answered run address)
            (read-table k p 1 31 o (current r) there used (omega arith) (omega arith)
              ∙ ap (λ t. table_read k p t 1 31) tb
              ∙ failed),
        ok,
        shown,
      )

  abbrev kernel_refusing : RefusingCalls (kernel_calls run address)
  kernel_refusing = record {
    terminal = unopened_terminal;
    unopened = λ k fd r two small. kernel_refuses r run address fd two small;
    keeps_terminal = λ k fd r low. close_refused r fd (omega arith);
    bad_write = codes "terminal bad write!!\n";
    bad_read = codes "terminal bad read!!\n";
    write_stdin = kernel_write_stdin;
    read_stdout = kernel_read_stdout;
  }

-- `vidmap` as a program calls it.
abbrev pub kernel_vidmap : Kernel → ℕ → Option (ℕ × Kernel)
kernel_vidmap k screen_start = do (r, page, k') ← vidmap k screen_start; some (r, k')

-- `Puts k text result`: a test returns 0, `text` goes to the screen, and the next test can run.
abbrev pub Puts : (base : ℕ) (mem : ℕ → ℕ) → Kernel → List ℕ → Option (ℕ × Kernel) → Type 0
Puts base mem k text result =
    (l : Kernel) × (result ≡ some (0, l)) × KernelUnopened base mem l × KernelShows k text l

-- On the kernel, for a process that has eight descriptors in order of which only those of the
-- terminal are open, and a screen in order, the tests of negative, too large and unopened
-- descriptors, of bad addresses for `vidmap`, and of a write to descriptor 0 and a read from
-- descriptor 1 return 0, and the screen gets the lines that say that they pass, the last one
-- behind the complaints of the terminal. The process and the screen are as good afterwards.
pub syserr-passes :
    (base : ℕ) (mem : ℕ → ℕ) (run : Kernel → List ℕ → Option (ℕ × Kernel)) (address : ℕ)
    (call_sys : Kernel → ℕ → Option (ℕ × Kernel)) (k : Kernel) (buf : List ℕ)
    → base + 4000 ≤ 2 ^ 32
    → KernelUnopened base mem k
    → let calls = kernel_calls run address in
      Puts base mem k (codes "err_neg_fd: PASS\n") (err_neg_fd calls k buf)
      × Puts base mem k (codes "err_big_fd: PASS\n") (err_big_fd calls k buf)
      × Puts base mem k (codes "err_unopened: PASS\n") (err_unopened calls k buf)
      × Puts base mem k (codes "err_vidmap: PASS\n") (err_vidmap calls kernel_vidmap call_sys k)
      × Puts base mem k
          (codes "terminal bad write!!\nterminal bad read!!\nerr_stdin_out: PASS\n")
          (err_stdin_out calls k buf)
unfolding vidmap
syserr-passes base mem run address call_sys k buf fits r =
    let calls = kernel_calls run address in
    let laws = kernel_refusing base fits mem run address in
    (
      err_neg_fd-Passes calls laws k buf r,
      err_big_fd-Passes calls laws k buf r,
      err_unopened-Passes calls laws k buf r,
      err_vidmap-Passes calls laws kernel_vidmap call_sys k r refl refl,
      err_stdin_out-Passes calls laws k buf r,
    )
