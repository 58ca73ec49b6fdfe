-- ===== src/Examples/Devices.antt =====
-- The interrupt controller, the clock, the pages, the cursor and the interrupt table on concrete data.
use osgods.Common.{
  ◌/◌, ℕ, ◌+◌, ◌-◌, ◌*◌, ◌%◌, ◌^◌, ◌≤◌, ◌<◌, ◌≡◌, refl, ◌≢◌, some, arith, get_elem?, minus_one,
  Ensures,
}
use osgods.Examples.{pic, paging, process, machine, file}
use osgods.Idt.{Gate, Entry, init_idt}
use osgods.Idt.Gates.{gate_type, target, entry_of, init_idt-gates}
use osgods.Paging.Frames.{frame, set_up_paging-isolates}
use osgods.Paging.{set_up_paging}
use osgods.Pcb.{FileObject, rtc_table}
use osgods.Pic.{outb}
use osgods.Pic.Masks.{IsPic}
use osgods.Rtc.{rtc_write, rtc_intr_handler, status_reg_a, rtc_reg_port, cmos_port}
use osgods.Rtc.Rate.{IsFrequency, rtc_write-IsFrequency}
use osgods.Rtc.Ticks.{IsWoken, rtc_intr_handler-IsWoken}
use osgods.Timer.Cursor.{crtc_run, update_cursor-position}
use osgods.Timer.{update_cursor}

pic-IsPic : IsPic pic
pic-IsPic = record { master = omega arith; slave = omega arith }

rtc_write-IsFrequency_example :
    ((k : ℕ)
      → 1 ≤ k
      → k ≤ 10
      → 1024 ≡ 2 ^ k
      → ◌≡◌ {A = ℕ} 4 4
      → rtc_write pic (some 1024) 4
        ≡ some (4, outb (outb pic status_reg_a rtc_reg_port) (16 - k) cmos_port))
    × (¬ (IsFrequency 1024 × ◌≡◌ {A = ℕ} 4 4) → rtc_write pic (some 1024) 4 ≡ some (minus_one, pic))
rtc_write-IsFrequency_example = rtc_write-IsFrequency pic 1024 4 (omega arith)

abbrev rtc_file : FileObject
rtc_file = file rtc_table minus_one 1

rtc_intr_handler-IsWoken_example :
    Ensures
      (λ (r, p, qs). IsWoken process 3 rtc_file (get_elem? qs 0))
      (rtc_intr_handler machine.rtc pic machine.pcbs)
rtc_intr_handler-IsWoken_example =
    rtc_intr_handler-IsWoken machine.rtc pic machine.pcbs 0 process 3 rtc_file (refl, (refl, tt))
      refl (λ e. omega arith) (omega arith) refl
      (
        (λ e. omega (arith, e.0)),
        ((λ e. omega (arith, e.0)), ((λ e. omega (arith, e.0)), (refl, refl))),
      )
      (omega arith)

update_cursor-position_example :
    let r =
      (crtc_run
        (record { selected = 0; registers = λ i. 0 })
        (update_cursor pic 79 24).ports).registers in
    r 0x0E * 256 + r 0x0F ≡ 1999
update_cursor-position_example =
    update_cursor-position pic (record { selected = 0; registers = λ i. 0 }) 79 24 (omega arith)
      (omega arith)

set_up_paging-isolates_example :
    let di = (set_up_paging paging 0).page_dir in
    let dj = (set_up_paging paging 5).page_dir in
    (◌≢◌ {A = ℕ} 0 5 → frame (di 32) ≢ frame (dj 32))
    × (1 < frame (di 32))
    × (di 32 % 2 ^ 22 ≡ 0x87)
    × ((k : ℕ) → k ≢ 32 → di k ≡ paging.page_dir k)
    × ((set_up_paging paging 0).cr3 ≡ paging.page_dir_addr)
    × ((set_up_paging paging 0).cr0 / 2 ^ 31 % 2 ≡ 1)
set_up_paging-isolates_example =
    set_up_paging-isolates paging paging 0 5 (omega arith) (omega arith)

abbrev address : Entry → ℕ
address e = 0x401234

abbrev gate : Gate
gate = record {
  offset_15_00 = 0;
  seg_selector = 0;
  reserved4 = 0;
  reserved3 = 0;
  reserved2 = 0;
  reserved1 = 0;
  size = 0;
  reserved0 = 0;
  dpl = 0;
  present = 0;
  offset_31_16 = 0;
}

init_idt-gates_example :
    let g = init_idt address (λ i. gate) 128 in
    ((e : Entry) → entry_of 128 ≡ some e → target g ≡ address e)
    × (g.present ≡ 1)
    × (g.dpl ≡ 3)
    × (g.seg_selector ≡ 0x10)
    × (gate_type g ≡ 15)
init_idt-gates_example = init_idt-gates address (λ i. gate) 128 (omega arith)
