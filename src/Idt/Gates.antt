-- ===== src/Idt/Gates.antt =====
-- Which entry point each vector leads to, and which gate a program may call.
use osgods.Common.{
  ℕ, ◌+◌, ◌*◌, ◌^◌, ◌<◌, ◌≡◌, ◌||◌, Option, none, some, arith, ltb, ◌==◌, if◌then◌else◌,
}
use osgods.Idt.{
  Gate, Entry, exception, pit_wrapper, keyb_wrapper, rtc_wrapper, syscall_linkage, init_idt,
}

-- The address that a gate leads to.
abbrev pub target : Gate → ℕ
target g = g.offset_31_16 * 2 ^ 16 + g.offset_15_00

-- The five bits of a gate's type, as the processor reads them: the segment bit `reserved0` and the
-- type, whose highest bit is `size`.
abbrev pub gate_type : Gate → ℕ
gate_type g = 16 * g.reserved0 + 8 * g.size + 4 * g.reserved1 + 2 * g.reserved2 + g.reserved3

-- The entry point of a vector, where one is set.
abbrev pub entry_of : ℕ → Option Entry
entry_of i =
    if ltb i 20
    then some (exception i)
    else if ltb i 32
    then some (exception 15)
    else if i == 32
    then some pit_wrapper
    else if i == 33
    then some keyb_wrapper
    else if i == 40
    then some rtc_wrapper
    else if i == 128
    then some syscall_linkage
    else none

-- After `init_idt` every vector that has an entry point leads to it, all 256 gates are present and
-- the system call's is the only one that a program may call by itself; all lead into the segment of
-- the kernel's code, the three device gates as interrupt gates of 32 bits (type 14) and the others as
-- trap gates of 32 bits (type 15).
pub init_idt-gates :
    (address : Entry → ℕ) (idt : ℕ → Gate) (i : ℕ)
    → i < 256
    → let g = init_idt address idt i in
      ((e : Entry) → entry_of i ≡ some e → target g ≡ address e)
      × (g.present ≡ 1)
      × (g.dpl ≡ (if i == 128 then 3 else 0))
      × (g.seg_selector ≡ 0x10)
      × (gate_type g ≡ (if i == 32 || i == 33 || i == 40 then 14 else 15))
unfolding init_idt
init_idt-gates address idt i h =
    (λ e t. ground arith, ground arith, ground arith, ground arith, ground arith)
