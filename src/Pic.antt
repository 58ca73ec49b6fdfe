-- ===== src/Pic.antt =====
-- i8259.c: the two interrupt controllers.
pub mod Masks
use osgods.Common.{
  ℕ, zero, suc, ◌+◌, ◌-◌, ◌^◌, bit_and, bit_or, Option, List, [], ◌∷◌, ◌++◌, leb, ◌==◌,
  if◌then◌else◌, u8, u32, minus_one,
}

-- The mask variables, and every `outb` as (data, port), oldest first.
pub record Pic : Type 0 where
  pub master_mask : ℕ
  pub slave_mask : ℕ
  pub ports : List (ℕ × ℕ)

abbrev pub master_port_0 : ℕ
master_port_0 = 0x20

abbrev pub master_port_1 : ℕ
master_port_1 = 0x21

abbrev pub slave_port_0 : ℕ
slave_port_0 = 0xA0

abbrev pub slave_port_1 : ℕ
slave_port_1 = 0xA1

abbrev pub num_master_irq : ℕ
num_master_irq = 8

abbrev pub cascade_to_secondary : ℕ
cascade_to_secondary = 2

abbrev pub eoi : ℕ
eoi = 0x60

unfoldable pub outb : Pic → ℕ → ℕ → Pic
outb p byte port = record p { ports = p.ports ++ ((u8 byte, port) ∷ []) }

-- `mask & ~(BIT_MASK << k)` and `mask | (BIT_MASK << k)`, cut to a byte
abbrev pub clear_bit : ℕ → ℕ → ℕ
clear_bit mask k = u8 (bit_and mask (minus_one - u32 (2 ^ k)))

abbrev pub set_bit : ℕ → ℕ → ℕ
set_bit mask k = u8 (bit_or mask (u32 (2 ^ k)))

unfoldable pub enable_irq : Pic → ℕ → Pic
unfolding outb
enable_irq p irq_num =
    let s = clear_bit p.slave_mask (irq_num - num_master_irq) in
    let m = clear_bit p.master_mask irq_num in
    if leb num_master_irq irq_num
    then outb (record p { slave_mask = s }) s slave_port_1
    else outb (record p { master_mask = m }) m master_port_1

unfoldable pub disable_irq : Pic → ℕ → Pic
unfolding outb
disable_irq p irq_num =
    let s = set_bit p.slave_mask (irq_num - num_master_irq) in
    let m = set_bit p.master_mask irq_num in
    if leb num_master_irq irq_num
    then outb (record p { slave_mask = s }) s slave_port_1
    else outb (record p { master_mask = m }) m master_port_1

unfoldable pub send_eoi : Pic → ℕ → Pic
unfolding outb
send_eoi p irq_num =
    if leb num_master_irq irq_num
    then outb (outb p (bit_or eoi (irq_num - num_master_irq)) slave_port_0)
        (bit_or eoi cascade_to_secondary) master_port_0
    else outb p (bit_or eoi irq_num) master_port_0

-- The loop of `i8259_init` over `n` lines from `i` on.
init_irqs : ℕ → ℕ → Pic → Pic
unfolding enable_irq disable_irq
init_irqs zero i p = p
init_irqs (suc n) i p =
    init_irqs n (i + 1)
      (if i == cascade_to_secondary then enable_irq p cascade_to_secondary else disable_irq p i)

pub i8259_init : Pic → Pic
unfolding outb init_irqs
i8259_init p =
    let a = outb (outb p 0xFF master_port_1) 0xFF slave_port_1 in
    let m = outb (outb (outb a 0x11 master_port_0) 0x20 master_port_1) 0x04 master_port_1 in
    let s =
      outb (outb (outb (outb m 0x11 slave_port_0) 0x28 slave_port_1) 0x02 slave_port_1) 0x01
        slave_port_1 in
    init_irqs 16 0 s
