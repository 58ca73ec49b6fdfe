-- ===== src/Examples/Booting.antt =====
-- The start of a machine with one module, and the program syserr.
use osgods.Common.{
  true, ℕ, zero, suc, ◌≤◌, ◌≡◌, refl, sym, ap, codes, inl, inr, none, some, [], ◌∷◌, arith, ◌==◌,
  if◌then◌else◌, get_elem?, replicate, length-replicate, add32, All, Ensures, All-at, All-replicate,
}
use osgods.Boot.Entering.{Linked, Machine}
use osgods.Boot.Loops.{IsMemory, IsWalk}
use osgods.Boot.Multiboot.{multiboot_info, check_flag}
use osgods.Boot.Report.{Reported, report_info}
use osgods.Boot.Reports.{Reports, report_info-Reports}
use osgods.Boot.Segments.{SegDesc, Tss}
use osgods.Boot.Starts.{IsLaidOut, Starts}
use osgods.Console.{Console, clear}
use osgods.Console.Clearing.{Cleared, clear-Cleared}
use osgods.Examples.{machine, process, file, free_file, screen}
use osgods.Examples.Screen.{screen-Safe}
use osgods.Files.Table.{IsTable, IsFile}
use osgods.Idt.{Gate}
use osgods.Kernel.{Kernel}
use osgods.Pcb.{Pcb, FileObject, stdin_table, stdout_table}
use osgods.Printf.{word, text, printf}
use osgods.Printf.Formats.{a_word, a_text, HasKind, printf-NoBackspace}
use osgods.Printf.Numbers.{NoBackspace}
use osgods.Programs.{Calls, literal}
use osgods.Programs.OnKernel.{kernel_calls}
use osgods.Programs.Syserr.{err_neg_fd, err_big_fd, err_unopened, err_vidmap, err_stdin_out}
use osgods.Programs.Syserr.OnScreen.{KernelUnopened, kernel_vidmap, Puts, syserr-passes}

-- The process that runs syserr: nothing is open but the terminal.
abbrev idle : Pcb
idle = record process {
  file_descriptor = (file stdin_table 0 1) ∷ (file stdout_table 0 1) ∷ replicate 6 free_file;
}

abbrev tester : Kernel
tester = record machine { pcbs = idle ∷ [] }

idle-unopened :
    (fd : ℕ) (o : FileObject) → 2 ≤ fd → get_elem? idle.file_descriptor fd ≡ some o → o.flag ≡ 0
idle-unopened zero o h g = absurd (omega arith)
idle-unopened (suc zero) o h g = absurd (omega arith)
idle-unopened (suc (suc i)) o h g =
    All-at (λ (x : FileObject). x.flag ≡ 0) (replicate 6 free_file) i o
      (All-replicate (λ (x : FileObject). x.flag ≡ 0) 6 free_file refl) g

idle-IsTable : IsTable idle
idle-IsTable = record {
  eight = refl;
  files = (
    (inr refl, λ e f. cc),
    ((inr refl, λ e f. cc), All-replicate IsFile 6 free_file (inl refl, λ e f. cc)),
  );
  stdin = λ o g.
      let e : file stdin_table 0 1 ≡ o = cc in
      (sym (ap (λ (x : FileObject). x.file_op_tb) e), sym (ap (λ (x : FileObject). x.flag) e));
  stdout = λ o g.
      let e : file stdout_table 0 1 ≡ o = cc in
      (sym (ap (λ (x : FileObject). x.file_op_tb) e), sym (ap (λ (x : FileObject). x.flag) e));
}

tester-KernelUnopened : KernelUnopened 0xB8000 (λ a. 0) tester
tester-KernelUnopened = record {
  ready = record {
    slot = 0;
    process = idle;
    terminal = file stdout_table 0 1;
    current = refl;
    there = refl;
    on_terminal = refl;
    terminal_used = refl;
    terminal_tb = refl;
    safe = screen-Safe;
  };
  table = idle-IsTable;
  unopened = idle-unopened;
}

abbrev no_calls : Calls Kernel
no_calls = kernel_calls (λ k command. none) 0x8000000

syserr-passes_example :
    Puts 0xB8000
      (λ a. 0)
      tester
      (codes "err_neg_fd: PASS\n")
      (err_neg_fd no_calls tester (replicate 32 0))
    × Puts 0xB8000
        (λ a. 0)
        tester
        (codes "err_big_fd: PASS\n")
        (err_big_fd no_calls tester (replicate 32 0))
    × Puts 0xB8000
        (λ a. 0)
        tester
        (codes "err_unopened: PASS\n")
        (err_unopened no_calls tester (replicate 32 0))
    × Puts 0xB8000
        (λ a. 0)
        tester
        (codes "err_vidmap: PASS\n")
        (err_vidmap no_calls kernel_vidmap (λ k n. none) tester)
    × Puts 0xB8000
        (λ a. 0)
        tester
        (codes "terminal bad write!!\nterminal bad read!!\nerr_stdin_out: PASS\n")
        (err_stdin_out no_calls tester (replicate 32 0))
syserr-passes_example =
    syserr-passes 0xB8000 (λ a. 0) (λ k command. none) 0x8000000 (λ k n. none) tester
      (replicate 32 0) (omega arith) tester-KernelUnopened

clear-Cleared_example : (d : Console) × (clear screen ≡ some d) × Cleared 0xB8000 (λ a. 0) screen d
clear-Cleared_example = clear-Cleared 0xB8000 (λ a. 0) screen (omega arith) screen-Safe

printf-NoBackspace_example :
    Ensures
      (All NoBackspace)
      (printf (literal "%s is %d, 0x%#x%%\n") (text (literal "pid") ∷ word 7 ∷ word 7 ∷ []))
printf-NoBackspace_example =
    printf-NoBackspace (literal "%s is %d, 0x%#x%%\n") (a_text ∷ a_word ∷ a_word ∷ [])
      (text (literal "pid") ∷ word 7 ∷ word 7 ∷ []) refl
      (
        (
          codes "pid",
          [],
          refl,
          ((λ e. omega (arith, e)), ((λ e. omega (arith, e)), ((λ e. omega (arith, e)), tt))),
          ((λ e. omega (arith, e)), ((λ e. omega (arith, e)), ((λ e. omega (arith, e)), tt))),
        ),
        (omega arith, (omega arith, tt)),
      )

-- Memory with the information at 0x10000: bit 3 of the flags, one module, whose entry at 0x10040
-- says that it starts at 4 MB.
abbrev pub memory : ℕ → ℕ
memory a =
    if a == 0x10000
    then 8
    else if a == 0x10014
    then 1
    else if a == 0x10018
    then 0x40
    else if a == 0x1001A
    then 1
    else if a == 0x10042
    then 0x40
    else 0

memory-IsMemory : IsMemory memory
memory-IsMemory a = ground arith

memory-IsWalk :
    let mbi = multiboot_info memory 0x10000 in
    check_flag mbi.flags 6 ≡ true
    → IsWalk memory (add32 mbi.mmap_addr mbi.mmap_length) mbi.mmap_addr
unfolding multiboot_info
memory-IsWalk flag = absurd (ground (arith, flag))

memory-length : (multiboot_info memory 0x10000).mmap_length ≤ 0
unfolding multiboot_info
memory-length = omega arith

no_command : HasKind a_text (text (0 ∷ []))
no_command = ([], [], refl, tt, tt)

report_info-Reports_example :
    let mbi = multiboot_info memory 0x10000 in
    (r : Reported) × (report_info memory 0 mbi (0 ∷ []) 0 machine ≡ some r)
    × Reports 0xB8000 (λ a. 0) memory machine mbi 0 r
report_info-Reports_example =
    report_info-Reports 0xB8000 (λ a. 0) memory 0 0x10000 0 (0 ∷ []) machine (omega arith)
      memory-IsMemory no_command memory-IsWalk memory-length screen-Safe

abbrev pub blank_desc : SegDesc
blank_desc = record {
  seg_lim_15_00 = 0;
  base_15_00 = 0;
  base_23_16 = 0;
  seg_type = 0;
  sys = 0;
  dpl = 0;
  present = 0;
  seg_lim_19_16 = 0;
  avail = 0;
  reserved = 0;
  opsize = 0;
  granularity = 0;
  base_31_24 = 0;
}

abbrev pub linked : Linked
linked = record {
  entry_point = λ e. 0x400000;
  ldt = 0x410000;
  ldt_size = 31;
  tss = 0x411000;
  tss_size = 103;
  behind = λ n k. k;
  stack = λ i. replicate 128 7;
}

abbrev blank_gate : Gate
blank_gate = record {
  offset_15_00 = 0;
  seg_selector = 0;
  reserved4 = 0;
  reserved3 = 0;
  reserved2 = 0;
  reserved1 = 0;
  size = 0;
  reserved0 = 0;
  dpl = 0;
  present = 0;
  offset_31_16 = 0;
}

abbrev blank_tss : Tss
blank_tss = record {
  prev_task_link = 0;
  prev_task_link_pad = 0;
  ss0 = 0;
  ss0_pad = 0;
  esp1 = 0;
  ss1 = 0;
  ss1_pad = 0;
  esp2 = 0;
  ss2 = 0;
  ss2_pad = 0;
  cr3 = 0;
  eip = 0;
  eflags = 0;
  eax = 0;
  ecx = 0;
  edx = 0;
  ebx = 0;
  esp = 0;
  ebp = 0;
  esi = 0;
  edi = 0;
  es = 0;
  es_pad = 0;
  cs = 0;
  cs_pad = 0;
  ss = 0;
  ss_pad = 0;
  ds = 0;
  ds_pad = 0;
  fs = 0;
  fs_pad = 0;
  gs = 0;
  gs_pad = 0;
  ldt_segment_selector = 0;
  ldt_pad = 0;
  debug_trap = 0;
  io_pad = 0;
  io_base_addr = 0;
}

abbrev pub fresh : Machine
fresh = record {
  kernel = machine;
  idt = λ i. blank_gate;
  ldt_desc_ptr = blank_desc;
  tss_desc_ptr = blank_desc;
  tss_fields = blank_tss;
  ldtr = 0;
  tr = 0;
}

pub linked-IsLaidOut : IsLaidOut linked
linked-IsLaidOut = record { harmless = λ n k. refl; lines = λ i. length-replicate {A = ℕ} 128 7 }
