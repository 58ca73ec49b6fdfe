-- ===== src/Paging.antt =====
-- page.c: the page directory and the two page tables.
pub mod Frames
use osgods.Common.{
  ℕ, ◌+◌, ◌*◌, ◌/◌, ◌%◌, ◌^◌, bit_or, Bool, true, false, Option, ltb, ◌==◌, if◌then◌else◌,
}

-- The fields of `page_table_entry_t` that the code writes.
pub record PageTableEntry : Type 0 where
  pub base_address : ℕ
  pub present : ℕ
  pub read_write : ℕ
  pub use_supervisor : ℕ

abbrev pub zero_entry : PageTableEntry
zero_entry = record { base_address = 0; present = 0; read_write = 0; use_supervisor = 0 }

-- The tables by index, the addresses at which the linker put them, the control registers, and the
-- interrupt flag.
pub record Paging : Type 0 where
  pub page_dir : ℕ → ℕ
  pub page_table : ℕ → PageTableEntry
  pub page_vid_table : ℕ → PageTableEntry
  pub page_dir_addr : ℕ
  pub page_table_addr : ℕ
  pub page_vid_table_addr : ℕ
  pub cr0 : ℕ
  pub cr3 : ℕ
  pub cr4 : ℕ
  pub interrupts : Bool

-- One entry of a table overwritten.
unfoldable pub put {ℓ} : {A : Type ℓ} → (ℕ → A) → ℕ → A → ℕ → A
put f i v j = if j == i then v else f j

abbrev pub num_pte : ℕ
num_pte = 1024

abbrev pub page_size_4k : ℕ
page_size_4k = 4096

abbrev pub video_addr : ℕ
video_addr = 0xB8000

-- `set_present` and the other macros of page.h
abbrev pub set_present : ℕ → ℕ
set_present x = bit_or x 1

abbrev pub set_read_write_1 : ℕ → ℕ
set_read_write_1 x = bit_or x 2

abbrev pub set_use_supervisor : ℕ → ℕ
set_use_supervisor x = bit_or x 4

abbrev pub set_page_size_1 : ℕ → ℕ
set_page_size_1 x = bit_or x 0x80

abbrev pub set_page_base_address_1 : ℕ → ℕ
set_page_base_address_1 x = bit_or x (2 ^ 22)

-- Base address of the program page, mixed sizes on, paging on.
unfoldable pub flush_tlb : Paging → Paging
flush_tlb p = record p {
  cr3 = p.page_dir_addr;
  cr4 = bit_or p.cr4 0x10;
  cr0 = bit_or p.cr0 0x80000000;
}

-- The entry that the ladder of tests on `pid` adds.
unfoldable pub usr_base : ℕ → ℕ
usr_base pid =
    if pid == 0
    then 0x800000
    else if pid == 1
    then 0xC00000
    else if pid == 2
    then 0x1000000
    else if pid == 3
    then 0x5000000
    else if pid == 4
    then 0x9000000
    else if pid == 5
    then 0xD000000
    else 0

-- The page directory entry of the program page of a process.
unfoldable pub pde_4m_usr : ℕ → ℕ
unfolding usr_base
pde_4m_usr pid =
    set_use_supervisor (set_read_write_1 (bit_or (set_page_size_1 (set_present 0)) (usr_base pid)))

unfoldable pub set_up_paging : Paging → ℕ → Paging
unfolding flush_tlb put
set_up_paging p pid =
    record (flush_tlb
      (record p { page_dir = put p.page_dir 32 (pde_4m_usr pid); interrupts = false })) {
        interrupts = true;
      }

unfoldable pub unmap_paging : Paging → Paging
unfolding flush_tlb put
unmap_paging p =
    record (flush_tlb (record p { page_dir = put p.page_dir 33 0; interrupts = false })) {
      interrupts = true;
    }

abbrev pub video_entry : PageTableEntry
video_entry = record {
  base_address = video_addr / page_size_4k;
  present = 1;
  read_write = 1;
  use_supervisor = 1;
}

unfoldable pub set_user_video_map : Paging → Paging
unfolding flush_tlb put
set_user_video_map p = flush_tlb (record p {
  page_dir = put (put p.page_dir 33 0) 33 (bit_or 7 p.page_vid_table_addr);
  page_vid_table =
      put (λ i. if ltb i num_pte then zero_entry else p.page_vid_table i) 0 video_entry;
})

unfoldable pub map_video_page : Paging → ℕ → ℕ → ℕ → Paging
unfolding flush_tlb put
map_video_page p page_addr target_addr present = flush_tlb (record p {
  page_table = put p.page_table (page_addr / page_size_4k) (record {
    base_address = target_addr / page_size_4k;
    present = present % 2;
    read_write = 1;
    use_supervisor = 1;
  });
})

-- The last two fields are written in `page_table`, not in `page_vid_table`.
unfoldable pub set_vid_map : Paging → ℕ → ℕ → Paging
unfolding flush_tlb put
set_vid_map p target_addr present = flush_tlb (record p {
  page_vid_table = put p.page_vid_table 0 (record (p.page_vid_table 0) {
    base_address = target_addr / page_size_4k;
    present = present % 2;
  });
  page_table = put p.page_table 0 (record (p.page_table 0) { read_write = 1; use_supervisor = 1 });
})

unfoldable pub init_paging : Paging → Paging
unfolding flush_tlb put
init_paging p =
    let pde_4k = p.page_table_addr / page_size_4k * page_size_4k + 1 in
    let pde_4m = set_read_write_1 (set_page_base_address_1 (set_page_size_1 (set_present 0))) in
    let dir = λ (i : ℕ). if ltb i num_pte then 0 else p.page_dir i in
    flush_tlb (record p {
      page_table =
          put (λ i. if ltb i num_pte then zero_entry else p.page_table i)
            (video_addr / page_size_4k) video_entry;
      page_dir = put (put dir 0 pde_4k) 1 pde_4m;
    })
