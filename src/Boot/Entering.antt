-- ===== src/Boot/Entering.antt =====
-- `entry` of kernel.c.
use osgods.Common.{ℕ, true, Option, some, List, [], ◌∷◌, ◌==◌, if◌then◌else◌, ◌>>=◌}
use osgods.Boot.Multiboot.{multiboot_info, multiboot_bootloader_magic}
use osgods.Boot.Report.{invalid, reported, report_info}
use osgods.Boot.Segments.{
  SegDesc, Tss, the_ldt_desc, the_tss_desc, kernel_ds, kernel_ldt, kernel_tss,
}
use osgods.Console.{clear}
use osgods.Filesystem.Layout.{image_in}
use osgods.Idt.{Gate, Entry, init_idt}
use osgods.Kernel.{Kernel}
use osgods.Keyboard.{init_keyb}
use osgods.Paging.{init_paging}
use osgods.Pic.{i8259_init}
use osgods.Printf.{word}
use osgods.Process.{Outcome, print, execute}
use osgods.Programs.{literal}
use osgods.Rtc.{init_rtc}
use osgods.Terminal.{terminal_init}
use osgods.Timer.{init_pit, disable_cursor}

-- What the linker gives: the entry points, the addresses and sizes of x86_desc.S, and what lies behind
-- `terminal_list`; and `stack`, what the memory of the local arrays of `terminal_init` holds after it.
pub record Linked : Type 0 where
  pub entry_point : Entry → ℕ
  pub ldt : ℕ
  pub ldt_size : ℕ
  pub tss : ℕ
  pub tss_size : ℕ
  pub behind : ℕ → Kernel → Kernel
  pub stack : ℕ → List ℕ

-- The kernel's state with the tables of the processor and its registers that select among them.
pub record Machine : Type 0 where
  pub kernel : Kernel
  pub idt : ℕ → Gate
  pub ldt_desc_ptr : SegDesc
  pub tss_desc_ptr : SegDesc
  pub tss_fields : Tss
  pub ldtr : ℕ
  pub tr : ℕ

-- `clear` on the whole state.
unfoldable pub clear_screen : Kernel → Option Kernel
clear_screen k = do c ← clear k.console; some (record k { console = c })

-- The two descriptors, the segments of the task, and the registers. `d` and `e` are what stood on
-- the stack.
unfoldable pub init_segments : Linked → SegDesc → SegDesc → Machine → Machine
init_segments l d e m = record m {
  ldt_desc_ptr = the_ldt_desc d l.ldt l.ldt_size;
  tss_desc_ptr = the_tss_desc e l.tss l.tss_size;
  tss_fields = record m.tss_fields { ldt_segment_selector = kernel_ldt; ss0 = kernel_ds };
  kernel = record m.kernel { tss_esp0 = 0x800000 };
  ldtr = kernel_ldt;
  tr = kernel_tss;
}

-- The devices up to the keyboard.
unfoldable pub init_devices : Linked → Machine → Option Machine
init_devices l m = do
  let k = m.kernel
  let pic = i8259_init k.pic
  let k1 = record k { pic = init_pit pic; paging = init_paging k.paging }
  k2 ← init_keyb k1
  some (record m { idt = init_idt l.entry_point m.idt; kernel = k2 })

-- From the clock to the enabled interrupts. `prev` is what register B of the clock holds, `start` the
-- address of the file system in memory.
unfoldable pub init_system : Linked → (ℕ → ℕ) → ℕ → ℕ → Kernel → Option Kernel
unfolding clear_screen
init_system l mem prev start k = do
  let (rtc, pic) = init_rtc k.rtc k.pic prev
  let made = terminal_init l.behind l.stack (record k { rtc = rtc; pic = pic })
  k' ← clear_screen (record made { pic = disable_cursor made.pic; fs = image_in mem start })
  some (record k' { paging = record k'.paging { interrupts = true } })

-- Everything behind the report and before the first program.
unfoldable pub init_machine :
    Linked → SegDesc → SegDesc → (ℕ → ℕ) → ℕ → ℕ → Machine → Option Machine
unfolding init_segments init_devices init_system
init_machine l d e mem prev start m = do
  n ← init_devices l (init_segments l d e m)
  k ← init_system l mem prev start n.kernel
  some (record n { kernel = k })

-- How `entry` ends: it returns to boot.S, or `execute` of the first shell ends.
pub data Booted : Type 0 where
  refused : Machine → Booted
  launched : Outcome → Machine → Booted

-- `mem` is the memory that the boot loader filled, `fuel` the rounds of the memory map, `cmdline` what
-- stands at the address of the command line, `start` what `file_system_start_address` was, and `esp` and
-- `ebp` the registers at the call of `execute`.
unfoldable pub entry :
    Linked
    → SegDesc
    → SegDesc
    → (ℕ → ℕ)
    → ℕ
    → List ℕ
    → ℕ
    → ℕ
    → ℕ
    → ℕ
    → ℕ
    → ℕ
    → Machine
    → Option Booted
unfolding init_machine clear_screen report_info
entry l d e mem fuel cmdline start prev esp ebp magic addr m = do
  cleared ← clear_screen m.kernel
  let no_magic = (do
    k ← print cleared (literal "Invalid magic number: 0x%#x\n") (word magic ∷ [])
    some (refused (record m { kernel = k })))
  let launch = λ (start' : ℕ) (k : Kernel). (do
    n ← init_machine l d e mem prev start' (record m { kernel = k })
    (outcome, k') ← execute n.kernel (some (literal "shell")) esp ebp
    some (launched outcome (record n { kernel = k' })))
  let go = (do
    r ← report_info mem fuel (multiboot_info mem addr) cmdline start cleared
    elim r [
      | invalid k ↦ some (refused (record m { kernel = k }))
      | reported start' k ↦ launch start' k
    ])
  if magic == multiboot_bootloader_magic then go else no_magic
