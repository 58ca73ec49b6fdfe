-- ===== src/Boot/Starts.antt =====
-- The machine that `entry` hands to the first program.
use osgods.Common.{
  Option, ◌>>=◌, ℕ, ◌^◌, ◌<◌, ◌≡◌, refl, sym, ap, ◌∙◌, codes, true, false, some, [], ◌∷◌, ◌++◌,
  arith, length, Ensures-some,
}
use mathlib.Core.Path.{subst}
use osgods.Boot.Devices.{IsListening, IsMapped, all_lines-IsListening, all_pages-IsMapped}
use osgods.Boot.Entering.{
  Linked, Machine, clear_screen, init_segments, init_devices, init_system, init_machine,
}
use osgods.Boot.Segments.{
  SegDesc, IsSystem, descriptors-IsSystem, kernel_ds, kernel_ldt, kernel_tss,
}
use osgods.Console.{Console, num_cols, num_rows, video_memory_addr}
use osgods.Console.Clearing.{Cell, clear-Cleared}
use osgods.Console.Putc.Safe.{Safe}
use osgods.Filesystem.Layout.{image_in}
use osgods.Idt.{init_idt}
use osgods.Kernel.{Kernel}
use osgods.Keyboard.{init_keyb}
use osgods.Paging.{init_paging}
use osgods.Pic.{enable_irq, i8259_init}
use osgods.Pic.Masks.{IsPic}
use osgods.Process.Printing.{Prints, print-Prints}
use osgods.Terminal.{keyb_buffer_size}
use osgods.Terminal.Pages.{IsReady}
use osgods.Rtc.{init_rtc}
use osgods.Timer.{init_pit, disable_cursor}
use osgods.Terminal.Initial.{
  IsConsole, made_console, made_paging, terminal_init-made, made_console-IsReady, made_console-Safe,
}

-- The machine `m'` that `m` becomes, with the file system at `start`: screen and terminals are in
-- order, every cell of the screen is blank, the four lines are open, the pages are mapped, interrupts
-- are enabled, the descriptors lead to the tables, the kernel's stack is set, and the processes are as
-- they were.
pub record Starts (l : Linked) (kept mem : ℕ → ℕ) (start : ℕ) (m m' : Machine) : Type 0 where
  pub safe : Safe video_memory_addr kept m'.kernel.console
  pub ready : IsReady m'.kernel.console
  pub index : m'.kernel.console.keyb_index ≡ m.kernel.console.keyb_index
  pub blank :
      (x y : ℕ)
      → x < num_cols
      → y < num_rows
      → Cell m'.kernel.console.vram video_memory_addr x y b' '
  pub lines : IsListening m'.kernel.pic
  pub pages : IsMapped m'.kernel.paging
  pub enabled : m'.kernel.paging.interrupts ≡ true
  pub gates : m'.idt ≡ init_idt l.entry_point m.idt
  pub ldt : IsSystem m'.ldt_desc_ptr 2 l.ldt l.ldt_size
  pub tss : IsSystem m'.tss_desc_ptr 9 l.tss l.tss_size
  pub registers : (m'.ldtr ≡ kernel_ldt) × (m'.tr ≡ kernel_tss)
  pub task : (m'.tss_fields.ldt_segment_selector ≡ kernel_ldt) × (m'.tss_fields.ss0 ≡ kernel_ds)
  pub stack : m'.kernel.tss_esp0 ≡ 0x800000
  pub files : m'.kernel.fs ≡ image_in mem start
  pub processes : (m'.kernel.pcbs ≡ m.kernel.pcbs) × (m'.kernel.curr_pcb ≡ m.kernel.curr_pcb)

-- Nothing of the kernel's state lies where the start clears behind `terminal_list`, and the three lines
-- of the terminals have their size.
pub record IsLaidOut (l : Linked) : Type 0 where
  pub harmless : (n : ℕ) (k : Kernel) → l.behind n k ≡ k
  pub lines : (i : ℕ) → length (l.stack i) ≡ keyb_buffer_size

module _ (l : Linked) (d e : SegDesc) (kept mem : ℕ → ℕ) (prev start : ℕ) (m : Machine)
    (console : IsConsole kept m.kernel.console) (pic : IsPic m.kernel.pic)
    (laid : IsLaidOut l) where
  -- The kernel's state when the keyboard's message is printed.
  abbrev before : Kernel
  before = record m.kernel {
    tss_esp0 = 0x800000;
    pic = enable_irq (init_pit (i8259_init m.kernel.pic)) 1;
    paging = init_paging m.kernel.paging;
    status = record {
      left_shift = false;
      left_ctrl = false;
      left_alt = false;
      capslk = false;
      alt = false;
    };
  }

  -- The devices are started without a fault; only what is printed is not fixed.
  init_devices-shown :
      (c : Console) × (init_devices l (init_segments l d e m)
        ≡ some (record (init_segments l d e m) {
          idt = init_idt l.entry_point m.idt;
          kernel = record before { console = c };
        }))
      × IsConsole kept c
      × (c.keyb_index ≡ m.kernel.console.keyb_index)
  unfolding init_devices init_segments init_keyb
  init_devices-shown =
      let (k, shown, (only, ok, frame)) = Ensures-some (Prints video_memory_addr kept before) _ (
        print-Prints video_memory_addr kept before
          (codes "keyboard interrupt enabled \n" ++ (0 ∷ [])) [] [] (omega arith) refl tt
          console.0) in
      let printed = shown ∙ ap some only in
      (
        k.console,
        ap
            (λ (o : Option Kernel). o >>= λ k2.
              some (record (init_segments l d e m) {
                idt = init_idt l.entry_point m.idt;
                kernel = k2;
              }))
            printed,
        (ok, ap length frame.0 ∙ console.1, rw frame.1 console.2),
        frame.1,
      )

  -- Whatever stood on the stack and in the tables, with a screen and a line in order and byte masks,
  -- the start of the kernel does not fault and hands on a machine as `Starts` says.
  pub init_machine-Starts :
      l.ldt < 2 ^ 32
      → l.tss < 2 ^ 32
      → l.ldt_size < 2 ^ 20
      → l.tss_size < 2 ^ 20
      → (m' : Machine) × (init_machine l d e mem prev start m ≡ some m')
        × Starts l kept mem start m m'
  unfolding init_machine init_segments init_system clear_screen made_console
  init_machine-Starts h1 h2 h3 h4 =
      let (c, devices, ok, index) = init_devices-shown in
      let (rtc, lines) = init_rtc m.kernel.rtc before.pic prev in
      let i = made_console l.stack c in
      let made =
        terminal_init-made l.behind l.stack (record before { console = c; rtc = rtc; pic = lines })
          laid.harmless in
      let (cleared, shown, blank) =
        clear-Cleared video_memory_addr kept i (omega arith)
          (made_console-Safe l.stack kept c ok.0) in
      let (ldt, tss) = descriptors-IsSystem d e l.ldt l.ldt_size l.tss l.tss_size h1 h2 h3 h4 in
      let ready : IsReady cleared = subst IsReady (sym blank.only) (
        made_console-IsReady l.stack kept c blank.shown cleared.vram laid.lines ok
          blank.shown_there) in
      let pages = all_pages-IsMapped m.kernel.paging in
      (
        record (init_segments l d e m) {
          idt = init_idt l.entry_point m.idt;
          kernel = record before {
            console = cleared;
            rtc = rtc;
            pic = disable_cursor lines;
            paging = record (made_paging before.paging) { interrupts = true };
            fs = image_in mem start;
          };
        },
        rw (devices, made, shown) refl,
        record {
          safe = blank.in_order;
          ready = ready;
          index = ap (λ x. x.keyb_index) blank.only ∙ index;
          blank = blank.blank;
          lines = all_lines-IsListening m.kernel.rtc m.kernel.pic prev pic;
          pages = record {
            first_table = pages.first_table;
            kernel_page = pages.kernel_page;
            no_more = pages.no_more;
            screens = pages.screens;
            absent = pages.absent;
            loaded = pages.loaded;
            on = pages.on;
          };
          enabled = refl;
          gates = refl;
          ldt = ldt;
          tss = tss;
          registers = (refl, refl);
          task = (refl, refl);
          stack = refl;
          files = refl;
          processes = (refl, refl);
        },
      )
