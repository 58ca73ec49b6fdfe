-- ===== src/Boot/Reports.antt =====
-- The report of the boot loader's information keeps the screen in order and finds the file system.
use osgods.Common.{
  ℕ, ◌+◌, ◌^◌, ◌≤◌, ◌<◌, ◌≡◌, refl, Bool, true, false, ◌&&◌, some, List, [], ◌∷◌, arith,
  if◌then◌else◌, add32, Ensures, Ensures-bind, Ensures-some, Ensures-if,
}
use osgods.Boot.Multiboot.{MultibootInfo, multiboot_info, field_at, check_flag}
use osgods.Boot.Report.{
  Reported, invalid, reported, report_info, print_modules, print_head, print_tail,
}
use osgods.Console.Putc.Frame.{Frame-refl}
use osgods.Console.Putc.Safe.{Safe}
use osgods.Kernel.{Kernel}
use osgods.Printf.{text}
use osgods.Printf.Formats.{a_word, a_text, HasKind}
use osgods.Process.Printing.{Prints}
use osgods.Programs.{literal}
use osgods.Boot.Loops.{
  IsMemory, IsWalk, last_start, print_more, print_if-more, small, print_modules-more,
  print_memory_maps-more,
}

-- The outcome that the flags ask for: `entry` is to return if bits 4 and 5 are both set, and
-- otherwise goes on with the start of the last module, if modules are given.
abbrev pub Reports : ℕ → (ℕ → ℕ) → (ℕ → ℕ) → Kernel → MultibootInfo → ℕ → Reported → Type 0
Reports base kept mem k0 mbi start (invalid k) =
    ((check_flag mbi.flags 4 && check_flag mbi.flags 5) ≡ true) × Prints base kept k0 k
Reports base kept mem k0 mbi start (reported s k) =
    ((check_flag mbi.flags 4 && check_flag mbi.flags 5) ≡ false)
    × (s ≡ (
        if check_flag mbi.flags 3
        then last_start mem mbi.mods_count mbi.mods_addr start
        else start))
    × Prints base kept k0 k

module _ (base : ℕ) (fits : base + 4000 ≤ 2 ^ 32) (kept mem : ℕ → ℕ) (is_memory : IsMemory mem)
    (k0 : Kernel) where
  abbrev Since : Kernel → Type 0
  Since k = Prints base kept k0 k

  print_head-more :
      (addr : ℕ) (cmdline : List ℕ) (k : Kernel)
      → HasKind a_text (text cmdline)
      → Since k
      → Ensures Since (print_head (multiboot_info mem addr) cmdline k)
  unfolding print_head multiboot_info
  print_head-more addr cmdline k is_text p =
      Ensures-bind Since Since _ _
        (print_more base fits kept mem is_memory k0 k (literal "flags = 0x%#x\n") (a_word ∷ []) _
          refl (small base fits kept mem is_memory k0 addr 0, tt) p)
        (λ k1 p1.
          Ensures-bind Since Since _ _
            (print_if-more base fits kept mem is_memory k0 (check_flag (field_at mem addr 0) 0) k1
              (literal "mem_lower = %uKB, mem_upper = %uKB\n") (a_word ∷ a_word ∷ []) _ refl
              (
                small base fits kept mem is_memory k0 addr 4,
                (small base fits kept mem is_memory k0 addr 8, tt),
              )
              p1)
            (λ k2 p2.
              Ensures-bind Since Since _ _
                (print_if-more base fits kept mem is_memory k0 (check_flag (field_at mem addr 0) 1)
                  k2 (literal "boot_device = 0x%#x\n") (a_word ∷ []) _ refl
                  (small base fits kept mem is_memory k0 addr 12, tt) p2)
                (λ k3 p3.
                  print_if-more base fits kept mem is_memory k0 (check_flag (field_at mem addr 0) 2)
                    k3 (literal "cmdline = %s\n") (a_text ∷ []) _ refl (is_text, tt) p3)))

  print_tail-more :
      (fuel addr : ℕ) (k : Kernel)
      → let mbi = multiboot_info mem addr in
        (check_flag mbi.flags 6 ≡ true
          → IsWalk mem (add32 mbi.mmap_addr mbi.mmap_length) mbi.mmap_addr)
        → mbi.mmap_length ≤ fuel
        → Since k
        → Ensures Since (print_tail mem fuel mbi k)
  unfolding print_tail multiboot_info
  print_tail-more fuel addr k walk enough p =
      Ensures-bind Since Since _ _
        (print_if-more base fits kept mem is_memory k0 (check_flag (field_at mem addr 0) 5) k
          (literal "elf_sec: num = %u, size = 0x%#x, addr = 0x%#x, shndx = 0x%#x\n")
          (a_word ∷ a_word ∷ a_word ∷ a_word ∷ []) _ refl
          (
            small base fits kept mem is_memory k0 addr 28,
            (
              small base fits kept mem is_memory k0 addr 32,
              (
                small base fits kept mem is_memory k0 addr 36,
                (small base fits kept mem is_memory k0 addr 40, tt),
              ),
            ),
          )
          p)
        (λ k1 p1.
          Ensures-if Since (check_flag (field_at mem addr 0) 6) _ _
            (λ flag.
              Ensures-bind Since Since _ _
                (print_more base fits kept mem is_memory k0 k1
                  (literal "mmap_addr = 0x%#x, mmap_length = 0x%x\n") (a_word ∷ a_word ∷ []) _ refl
                  (
                    small base fits kept mem is_memory k0 addr 48,
                    (small base fits kept mem is_memory k0 addr 44, tt),
                  )
                  p1)
                (λ k2 p2.
                  print_memory_maps-more base fits kept mem is_memory k0 fuel _
                    (field_at mem addr 48) k2 (walk flag) (omega arith) p2))
            (λ none_given. p1))

  -- What the loop over `n` modules gives, if it runs.
  abbrev Found : Bool → ℕ → ℕ → ℕ → ℕ × Kernel → Type 0
  Found given n a start r = (r.0 ≡ (if given then last_start mem n a start else start)) × Since r.1

  modules-more :
      (given : Bool) (n a start : ℕ) (k : Kernel)
      → n < 2 ^ 32
      → a < 2 ^ 32
      → Since k
      → Ensures
          (Found given n a start)
          (if given then print_modules mem n 0 a start k else some (start, k))
  modules-more true n a start k h b p =
      print_modules-more base fits kept mem is_memory k0 n 0 a start k (omega (arith, h)) b p
  modules-more false n a start k h b p = (refl, p)

  modules-small :
      (addr : ℕ)
      → let mbi = multiboot_info mem addr in (mbi.mods_count < 2 ^ 32) × (mbi.mods_addr < 2 ^ 32)
  unfolding multiboot_info
  modules-small addr =
      (small base fits kept mem is_memory k0 addr 20, small base fits kept mem is_memory k0 addr 24)

  report_info-more :
      (fuel addr start : ℕ) (cmdline : List ℕ)
      → HasKind a_text (text cmdline)
      → let mbi = multiboot_info mem addr in
        (check_flag mbi.flags 6 ≡ true
          → IsWalk mem (add32 mbi.mmap_addr mbi.mmap_length) mbi.mmap_addr)
        → mbi.mmap_length ≤ fuel
        → Safe base kept k0.console
        → Ensures (Reports base kept mem k0 mbi start) (report_info mem fuel mbi cmdline start k0)
  unfolding report_info
  report_info-more fuel addr start cmdline is_text walk enough ok =
      let mbi = multiboot_info mem addr in
      Ensures-bind Since (Reports base kept mem k0 mbi start) _ _
        (print_head-more addr cmdline k0 is_text (refl, ok, Frame-refl k0.console))
        (λ k1 p1.
          Ensures-bind (Found (check_flag mbi.flags 3) mbi.mods_count mbi.mods_addr start)
            (Reports base kept mem k0 mbi start) _ _
            (modules-more (check_flag mbi.flags 3) mbi.mods_count mbi.mods_addr start k1
              (modules-small addr).0 (modules-small addr).1 p1)
            (λ r p2.
              Ensures-if (Reports base kept mem k0 mbi start)
                (check_flag mbi.flags 4 && check_flag mbi.flags 5) _ _
                (λ both.
                  Ensures-bind Since (Reports base kept mem k0 mbi start) _ _
                    (print_more base fits kept mem is_memory k0 r.1
                      (literal "Both bits 4 and 5 are set.\n") [] [] refl tt p2.1)
                    (λ k3 p3. (both, p3)))
                (λ other.
                  Ensures-bind Since (Reports base kept mem k0 mbi start) _ _
                    (print_tail-more fuel addr r.1 walk enough p2.1) (λ k3 p3. (other, p2.0, p3)))))

-- With bytes in memory, a command line that is a C string without backspaces, a memory map of which,
-- if bit 6 says that there is one, no step wraps around and `fuel` at least its length, on a screen in order: the report ends without
-- a fault, only the console changes, the screen stays in order, and `entry` is to return if bits 4 and
-- 5 of the flags are both set; otherwise it goes on with the start of the last module that the boot
-- loader loaded as the file system's, or with the start it had if bit 3 is clear or no module is counted.
pub report_info-Reports :
    (base : ℕ) (kept mem : ℕ → ℕ) (fuel addr start : ℕ) (cmdline : List ℕ) (k : Kernel)
    → base + 4000 ≤ 2 ^ 32
    → IsMemory mem
    → HasKind a_text (text cmdline)
    → let mbi = multiboot_info mem addr in
      (check_flag mbi.flags 6 ≡ true
        → IsWalk mem (add32 mbi.mmap_addr mbi.mmap_length) mbi.mmap_addr)
      → mbi.mmap_length ≤ fuel
      → Safe base kept k.console
      → (r : Reported) × (report_info mem fuel mbi cmdline start k ≡ some r)
        × Reports base kept mem k mbi start r
report_info-Reports base kept mem fuel addr start cmdline k fits is_memory is_text walk enough ok =
    let mbi = multiboot_info mem addr in
    Ensures-some (Reports base kept mem k mbi start) (report_info mem fuel mbi cmdline start k) (
      report_info-more base fits kept mem is_memory k fuel addr start cmdline is_text walk enough
        ok)
