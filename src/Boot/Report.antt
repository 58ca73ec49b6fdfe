-- ===== src/Boot/Report.antt =====
-- What `entry` prints of the information of the boot loader, and the file system that it notes.
use osgods.Common.{
  ℕ, zero, suc, ◌+◌, Bool, ◌&&◌, Option, none, some, List, [], ◌∷◌, ltb, if◌then◌else◌, add32,
  sign_extend8, ◌>>=◌,
}
use osgods.Boot.Multiboot.{MultibootInfo, Module, MemoryMap, module_at, memory_map_at, check_flag}
use osgods.Kernel.{Kernel}
use osgods.Printf.{Arg, word, text}
use osgods.Process.{print}
use osgods.Programs.{literal}

-- `printf("0x%x ", *((char*)(mod->mod_start+i)))`, `n` rounds from `i` on.
unfoldable pub print_bytes : (ℕ → ℕ) → ℕ → ℕ → ℕ → Kernel → Option Kernel
print_bytes mem mod_start zero i k = some k
print_bytes mem mod_start (suc n) i k = do
  k' ← print k (literal "0x%x ") (word (sign_extend8 (mem (add32 mod_start i))) ∷ [])
  print_bytes mem mod_start n (i + 1) k'

unfoldable pub print_module : (ℕ → ℕ) → ℕ → Module → Kernel → Option Kernel
unfolding print_bytes
print_module mem mod_count m k = do
  k1 ←
      print k (literal "Module %d loaded at address: 0x%#x\n")
        (word mod_count ∷ word m.mod_start ∷ [])
  k2 ←
      print k1 (literal "Module %d ends at address: 0x%#x\n") (word mod_count ∷ word m.mod_end ∷ [])
  k3 ← print k2 (literal "First few bytes of module:\n") []
  k4 ← print_bytes mem m.mod_start 16 0 k3
  print k4 (literal "\n") []

-- The loop over the modules, `n` of them from `mod_count` on; `start` is `file_system_start_address`,
-- which the last one sets.
unfoldable pub print_modules : (ℕ → ℕ) → ℕ → ℕ → ℕ → ℕ → Kernel → Option (ℕ × Kernel)
unfolding print_module module_at
print_modules mem zero mod_count a start k = some (start, k)
print_modules mem (suc n) mod_count a start k = do
  let m = module_at mem a
  k' ← print_module mem mod_count m k
  print_modules mem n (mod_count + 1) (add32 a 16) m.mod_start k'

unfoldable pub print_memory_map : MemoryMap → Kernel → Option Kernel
print_memory_map m k =
    print k
      (literal "    size = 0x%x, base_addr = 0x%#x%#x\n    type = 0x%x,  length    = 0x%#x%#x\n")
      (word m.size
        ∷ word m.base_addr_high
        ∷ word m.base_addr_low
        ∷ word m.type_of
        ∷ word m.length_high
        ∷ word m.length_low
        ∷ [])

-- The loop over the memory map, at most `fuel` rounds; `none` is a walk that goes on.
unfoldable pub print_memory_maps : (ℕ → ℕ) → ℕ → ℕ → ℕ → Kernel → Option Kernel
unfolding print_memory_map memory_map_at
print_memory_maps mem zero end mmap k = if ltb mmap end then none else some k
print_memory_maps mem (suc fuel) end mmap k =
    let m = memory_map_at mem mmap in
    let round = (do
      k' ← print_memory_map m k
      print_memory_maps mem fuel end (add32 (add32 mmap m.size) 4) k') in
    if ltb mmap end then round else some k

-- A line that is printed if its flag is set.
unfoldable pub print_if : Bool → Kernel → List ℕ → List Arg → Option Kernel
print_if flag k format args = if flag then print k format args else some k

-- The lines up to the modules, with `cmdline` what stands at the address of the command line.
unfoldable pub print_head : MultibootInfo → List ℕ → Kernel → Option Kernel
unfolding print_if
print_head mbi cmdline k = do
  k1 ← print k (literal "flags = 0x%#x\n") (word mbi.flags ∷ [])
  k2 ←
      print_if (check_flag mbi.flags 0) k1 (literal "mem_lower = %uKB, mem_upper = %uKB\n")
        (word mbi.mem_lower ∷ word mbi.mem_upper ∷ [])
  k3 ←
      print_if (check_flag mbi.flags 1) k2 (literal "boot_device = 0x%#x\n")
        (word mbi.boot_device ∷ [])
  print_if (check_flag mbi.flags 2) k3 (literal "cmdline = %s\n") (text cmdline ∷ [])

-- The lines behind the modules.
unfoldable pub print_tail : (ℕ → ℕ) → ℕ → MultibootInfo → Kernel → Option Kernel
unfolding print_if print_memory_maps
print_tail mem fuel mbi k = do
  k1 ←
      print_if (check_flag mbi.flags 5) k
        (literal "elf_sec: num = %u, size = 0x%#x, addr = 0x%#x, shndx = 0x%#x\n")
        (word mbi.elf_sec.num
          ∷ word mbi.elf_sec.size
          ∷ word mbi.elf_sec.addr
          ∷ word mbi.elf_sec.shndx
          ∷ [])
  let maps = (do
    k2 ←
        print k1 (literal "mmap_addr = 0x%#x, mmap_length = 0x%x\n")
          (word mbi.mmap_addr ∷ word mbi.mmap_length ∷ [])
    print_memory_maps mem fuel (add32 mbi.mmap_addr mbi.mmap_length) mbi.mmap_addr k2)
  if check_flag mbi.flags 6 then maps else some k1

-- What the report comes to: `entry` returns, or it goes on with the start of the file system.
pub data Reported : Type 0 where
  invalid : Kernel → Reported
  reported : ℕ → Kernel → Reported

-- The whole report; `start` is what `file_system_start_address` was.
unfoldable pub report_info : (ℕ → ℕ) → ℕ → MultibootInfo → List ℕ → ℕ → Kernel → Option Reported
unfolding print_head print_modules print_tail
report_info mem fuel mbi cmdline start k = do
  k1 ← print_head mbi cmdline k
  (start', k2) ←
      (if check_flag mbi.flags 3
        then print_modules mem mbi.mods_count 0 mbi.mods_addr start k1
        else some (start, k1))
  let both = (do k3 ← print k2 (literal "Both bits 4 and 5 are set.\n") []; some (invalid k3))
  let rest = (do k3 ← print_tail mem fuel mbi k2; some (reported start' k3))
  if check_flag mbi.flags 4 && check_flag mbi.flags 5 then both else rest
