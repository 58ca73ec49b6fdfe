-- ===== src/Boot/Multiboot.antt =====
-- The information of multiboot.h, read from memory.
use osgods.Common.{ℕ, ◌^◌, bit_and, Bool, not, ◌==◌, add32}
use osgods.Filesystem.Layout.{word_in}

abbrev pub multiboot_bootloader_magic : ℕ
multiboot_bootloader_magic = 0x2BADB002

-- `elf_section_header_table_t`
pub record ElfSectionHeaderTable : Type 0 where
  pub num : ℕ
  pub size : ℕ
  pub addr : ℕ
  pub shndx : ℕ

-- `multiboot_info_t`
pub record MultibootInfo : Type 0 where
  pub flags : ℕ
  pub mem_lower : ℕ
  pub mem_upper : ℕ
  pub boot_device : ℕ
  pub cmdline : ℕ
  pub mods_count : ℕ
  pub mods_addr : ℕ
  pub elf_sec : ElfSectionHeaderTable
  pub mmap_length : ℕ
  pub mmap_addr : ℕ

-- `module_t`
pub record Module : Type 0 where
  pub mod_start : ℕ
  pub mod_end : ℕ
  pub string : ℕ
  pub reserved : ℕ

-- `memory_map_t`
pub record MemoryMap : Type 0 where
  pub size : ℕ
  pub base_addr_low : ℕ
  pub base_addr_high : ℕ
  pub length_low : ℕ
  pub length_high : ℕ
  pub type_of : ℕ

-- The field at an offset of the structure at an address, the sum cut to 32 bits.
abbrev pub field_at : (ℕ → ℕ) → ℕ → ℕ → ℕ
field_at mem a offset = word_in mem (add32 a offset)

unfoldable pub multiboot_info : (ℕ → ℕ) → ℕ → MultibootInfo
multiboot_info mem a = record {
  flags = field_at mem a 0;
  mem_lower = field_at mem a 4;
  mem_upper = field_at mem a 8;
  boot_device = field_at mem a 12;
  cmdline = field_at mem a 16;
  mods_count = field_at mem a 20;
  mods_addr = field_at mem a 24;
  elf_sec = record {
    num = field_at mem a 28;
    size = field_at mem a 32;
    addr = field_at mem a 36;
    shndx = field_at mem a 40;
  };
  mmap_length = field_at mem a 44;
  mmap_addr = field_at mem a 48;
}

unfoldable pub module_at : (ℕ → ℕ) → ℕ → Module
module_at mem a = record {
  mod_start = field_at mem a 0;
  mod_end = field_at mem a 4;
  string = field_at mem a 8;
  reserved = field_at mem a 12;
}

unfoldable pub memory_map_at : (ℕ → ℕ) → ℕ → MemoryMap
memory_map_at mem a = record {
  size = field_at mem a 0;
  base_addr_low = field_at mem a 4;
  base_addr_high = field_at mem a 8;
  length_low = field_at mem a 12;
  length_high = field_at mem a 16;
  type_of = field_at mem a 20;
}

-- CHECK_FLAG
abbrev pub check_flag : ℕ → ℕ → Bool
check_flag flags bit = not (bit_and flags (2 ^ bit) == 0)
