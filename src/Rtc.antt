-- ===== src/Rtc.antt =====
-- rtc.c: the real time clock, with a virtual clock for each open file.
pub mod Rate
pub mod Ticks
use osgods.Common.{
  ℕ, zero, suc, ◌+◌, ◌*◌, ◌^◌, bit_and, bit_or, not, ◌&&◌, ◌||◌, Option, none, some, List, [], ◌∷◌,
  map, ◌==◌, if◌then◌else◌, get_elem?, u8, u32, add32, sub32, minus_one, slt, ◌>>=◌,
}
use mathlib.Core.Option
use osgods.Pcb.{Pcb, FileObject, at_fd, max_file_num}
use osgods.Pic.{Pic, outb, enable_irq, send_eoi}

abbrev pub rtc_irq : ℕ
rtc_irq = 8

abbrev pub rtc_reg_port : ℕ
rtc_reg_port = 0x70

abbrev pub cmos_port : ℕ
cmos_port = 0x71

abbrev pub status_reg_a : ℕ
status_reg_a = 0x8A

abbrev pub status_reg_b : ℕ
status_reg_b = 0x8B

abbrev pub status_reg_c : ℕ
status_reg_c = 0x0C

-- The globals of rtc.c.
pub record Rtc : Type 0 where
  pub rtc_interrupt_occurred : ℕ
  pub rtc_interrupt_counter : ℕ

-- `for (fd = 0; ...)` of the handler: the first open clock counts a tick. `none` is a read past
-- the array.
tick_fds : ℕ → List FileObject → Option (List FileObject)
tick_fds zero os = some os
tick_fds (suc n) [] = none
tick_fds (suc n) (o ∷ os) =
    if o.inode == minus_one && o.flag == 1
    then some (record o { file_position = add32 o.file_position 1 } ∷ os)
    else Option.map (λ r. o ∷ r) (tick_fds n os)

-- The loop over the process slots.
tick_pcbs : List Pcb → Option (List Pcb)
unfolding tick_fds
tick_pcbs [] = some []
tick_pcbs (p ∷ ps) = do
  os ← (if p.active == 0 then some p.file_descriptor else tick_fds max_file_num p.file_descriptor)
  r ← tick_pcbs ps
  some (record p { file_descriptor = os } ∷ r)

unfoldable pub rtc_intr_handler : Rtc → Pic → List Pcb → Option (Rtc × Pic × List Pcb)
unfolding tick_pcbs
rtc_intr_handler r pic pcbs = do
  pcbs' ← tick_pcbs pcbs
  let r' = record r {
    rtc_interrupt_occurred = 1;
    rtc_interrupt_counter = add32 r.rtc_interrupt_counter 1;
  }
  some (r', send_eoi (outb pic status_reg_c rtc_reg_port) rtc_irq, pcbs')

-- `prev` is what register B holds.
unfoldable pub init_rtc : Rtc → Pic → ℕ → Rtc × Pic
init_rtc r pic prev =
    let a = outb (outb pic status_reg_b rtc_reg_port) status_reg_b rtc_reg_port in
    let b = outb (outb a (bit_or prev 0x40) cmos_port) status_reg_a rtc_reg_port in
    (
      record r { rtc_interrupt_counter = 0; rtc_interrupt_occurred = 0 },
      outb (enable_irq b rtc_irq) 0xF cmos_port,
    )

unfoldable pub rtc_open : Pic → ℕ × Pic
rtc_open pic = (0, outb (outb pic status_reg_a rtc_reg_port) 0xF cmos_port)

unfoldable pub rtc_close : Pcb → ℕ → Option (ℕ × Pcb)
rtc_close p fd = do p' ← at_fd p fd (λ o. record o { file_position = 0 }); some (0, p')

-- What a call that waits for an interrupt does: it waits on, or it returns.
pub data Poll {ℓ} (A : Type ℓ) : Type ℓ where
  waiting : Poll A
  returned : A → Poll A

-- `rtc_read` at one look at the position; it waits while no tick was counted.
unfoldable pub rtc_read : Pcb → ℕ → Option (Poll (ℕ × Pcb))
rtc_read p fd = do
  o ← get_elem? p.file_descriptor fd
  p' ← at_fd p fd (λ o. record o { file_position = 0 })
  some (if o.file_position == 0 then waiting else returned (0, p'))

-- The search for the rate, `n` rounds from `i` on, the last hit counting; `none` while `rate` is
-- not assigned.
pub find_rate : ℕ → ℕ → ℕ → Option ℕ → Option ℕ
find_rate zero i freq rate = rate
find_rate (suc n) i freq rate =
    find_rate n (i + 1) freq (if u32 (freq * 2 ^ i) == 32768 then some (u8 (i + 1)) else rate)

-- `buf` is the `int` that the pointer leads to, if it is not NULL. `none` sends a `rate` that was
-- never assigned.
unfoldable pub rtc_write : Pic → Option ℕ → ℕ → Option (ℕ × Pic)
rtc_write pic none nbytes = some (minus_one, pic)
rtc_write pic (some freq) nbytes =
    let send = (do
      rate ← find_rate 15 0 freq none
      some (4, outb (outb pic status_reg_a rtc_reg_port) (bit_and rate 0x0F) cmos_port)) in
    if not (nbytes == 4)
    then some (minus_one, pic)
    else if slt freq 2 || slt 1024 freq
    then some (minus_one, pic)
    else if not (bit_and freq (sub32 freq 1) == 0)
    then some (minus_one, pic)
    else send
