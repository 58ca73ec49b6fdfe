-- ===== src/Timer.antt =====
-- pit.c and cursor.c: the interval timer and the text cursor, as port writes.
pub mod Cursor
use osgods.Common.{ℕ, ◌*◌, ◌/◌, ◌%◌, ◌^◌, Option, ◌==◌, if◌then◌else◌, u8, u16, add32}
use osgods.Pic.{Pic, outb, enable_irq}

abbrev pub in_frequency : ℕ
in_frequency = 11932

-- `(uint8_t) f && 0xff` is a logical "and": 1 or 0.
abbrev pub low_byte : ℕ → ℕ
low_byte f = if u8 f == 0 then 0 else 1

unfoldable pub init_pit : Pic → Pic
init_pit p =
    let a = outb p 0x37 0x43 in
    let b = outb a (low_byte in_frequency) 0x40 in
    enable_irq (outb b (u8 (in_frequency / 2 ^ 8)) 0x40) 0

unfoldable pub disable_cursor : Pic → Pic
disable_cursor p = outb (outb p 0x0A 0x3D4) 0x20 0x3D5

unfoldable pub update_cursor : Pic → ℕ → ℕ → Pic
update_cursor p x y =
    let pos = u16 (add32 (y * 80 % 2 ^ 32) x) in
    let low = outb (outb p 0x0F 0x3D4) (pos % 2 ^ 8) 0x3D5 in
    outb (outb low 0x0E 0x3D4) (pos / 2 ^ 8 % 2 ^ 8) 0x3D5
