-- ===== src/Boot/Devices.antt =====
-- The interrupt lines and the pages that the start of the kernel leaves.
use osgods.Common.{
  bit_or-bit, ℕ, ◌+◌, ◌*◌, ◌/◌, ◌%◌, ◌^◌, ◌≤◌, ◌<◌, bit_or, ◌≡◌, refl, ◌⊎◌, Bool, true, false, not,
  ◌||◌, arith, ◌==◌, if◌then◌else◌,
}
use osgods.Paging.{Paging, put, flush_tlb, init_paging, map_video_page}
use osgods.Pic.{Pic, outb, enable_irq, i8259_init}
use osgods.Pic.Masks.{
  IsPic, masked, enable_irq-IsPic, enable_irq-masked, i8259_init-IsPic, i8259_init-masked,
}
use osgods.Rtc.{Rtc, init_rtc}
use osgods.Terminal.Initial.{made_paging}
use osgods.Timer.{init_pit, disable_cursor}

-- The lines of the timer, the keyboard, the second controller and the clock are open, the others
-- masked.
abbrev pub IsListening : Pic → Type 0
IsListening p =
    IsPic p × ((j : ℕ) → j < 16 → masked p j ≡ not ((j == 0 || j == 1) || (j == 2 || j == 8)))

-- All writes to the interrupt controllers, in the order of `entry`.
abbrev pub all_lines : Rtc → Pic → ℕ → Pic
all_lines r p prev = disable_cursor (init_rtc r (enable_irq (init_pit (i8259_init p)) 1) prev).1

four_open :
    (a b c d : Bool) {s t u v w : Bool}
    → s ≡ not c
    → t ≡ (if a then false else s)
    → u ≡ (if b then false else t)
    → v ≡ u
    → w ≡ (if d then false else v)
    → w ≡ not ((a || b) || (c || d))
four_open true true c true e f g h k = ground (arith, e, f, g, h, k)
four_open true true c false e f g h k = ground (arith, e, f, g, h, k)
four_open true false c true e f g h k = ground (arith, e, f, g, h, k)
four_open true false c false e f g h k = ground (arith, e, f, g, h, k)
four_open false true c true e f g h k = ground (arith, e, f, g, h, k)
four_open false true c false e f g h k = ground (arith, e, f, g, h, k)
four_open false false c true e f g h k = ground (arith, e, f, g, h, k)
four_open false false true false e f g h k = ground (arith, e, f, g, h, k)
four_open false false false false e f g h k = ground (arith, e, f, g, h, k)

pub all_lines-IsListening :
    (r : Rtc) (p : Pic) (prev : ℕ) → IsPic p → IsListening (all_lines r p prev)
unfolding init_pit init_rtc disable_cursor outb masked
all_lines-IsListening r p prev h =
    let start = i8259_init p in
    let ok = i8259_init-IsPic p h in
    let timer = outb (outb (outb start 0x37 0x43) 1 0x40) 46 0x40 in
    let timer_ok : IsPic timer = record { master = ok.master; slave = ok.slave } in
    let keyb = enable_irq timer 0 in
    let keyb_ok = enable_irq-IsPic timer 0 timer_ok in
    let clock = enable_irq keyb 1 in
    let clock_ok = enable_irq-IsPic keyb 1 keyb_ok in
    let before =
      outb (outb (outb (outb clock 0x8B 0x70) 0x8B 0x70) (bit_or prev 0x40) 0x71) 0x8A 0x70 in
    let before_ok : IsPic before = record { master = clock_ok.master; slave = clock_ok.slave } in
    let all_ok = enable_irq-IsPic before 8 before_ok in
    (
      record { master = all_ok.master; slave = all_ok.slave },
      λ j hj.
          let from_start : masked timer j ≡ not (j == 2) = i8259_init-masked p j h hj in
          let with_timer = enable_irq-masked timer 0 j timer_ok (omega arith) hj in
          let with_keyb = enable_irq-masked keyb 1 j keyb_ok (omega arith) hj in
          let same : masked before j ≡ masked clock j = refl in
          let with_clock = enable_irq-masked before 8 j before_ok (omega arith) hj in
          four_open (j == 0) (j == 1) (j == 2) (j == 8) from_start with_timer with_keyb same
            with_clock,
    )

-- All writes to the page tables, in the order of `entry`.
abbrev pub all_pages : Paging → Paging
all_pages p = made_paging (init_paging p)

-- The directory has the first table, of pages of 4 KB, and the page of 4 MB of the kernel, and nothing
-- else; the table has the screen's page and those of the three terminals, each mapped onto itself, and
-- nothing else. Paging is on, with this directory.
pub record IsMapped (p : Paging) : Type 0 where
  pub first_table : p.page_dir 0 ≡ p.page_table_addr / 4096 * 4096 + 1
  pub kernel_page : (p.page_dir 1 / 2 ^ 22 ≡ 1) × (p.page_dir 1 % 2 ^ 22 ≡ 0x83)
  pub no_more : (i : ℕ) → 1 < i → i < 1024 → p.page_dir i ≡ 0
  pub screens :
      (i : ℕ)
      → i < 4
      → ((p.page_table (0xB8 + i)).present ≡ 1)
        × ((p.page_table (0xB8 + i)).base_address ≡ 0xB8 + i)
  pub absent : (i : ℕ) → i < 1024 → (i < 0xB8) ⊎ (0xBC ≤ i) → (p.page_table i).present ≡ 0
  pub loaded : p.cr3 ≡ p.page_dir_addr
  pub on : p.cr0 / 2 ^ 31 % 2 ≡ 1

pub all_pages-IsMapped : (p : Paging) → IsMapped (all_pages p)
unfolding init_paging made_paging map_video_page flush_tlb put
all_pages-IsMapped p = record {
  first_table = refl;
  kernel_page = (refl, refl);
  no_more = λ i lo hi. ground arith;
  screens = λ i h. (ground arith, ground arith);
  absent = λ i h d. ground (arith, d);
  loaded = refl;
  on = bit_or-bit 31 _ 0x80000000 (omega arith);
}
