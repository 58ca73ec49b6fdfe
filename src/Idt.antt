-- ===== src/Idt.antt =====
-- idt.c: the interrupt descriptor table and the exception handlers.
pub mod Gates
use osgods.Common.{
  ℕ, ◌/◌, ◌%◌, ◌^◌, codes, Option, List, [], ◌∷◌, ◌++◌, ltb, ◌==◌, if◌then◌else◌, get_elem?, ◌>>=◌,
}
use Prim.Native.String.{String}
use osgods.Kernel.{Kernel}
use osgods.Process.{Outcome, print}
use osgods.Process.Switching.{halt}

-- `idt_desc_t`.
pub record Gate : Type 0 where
  pub offset_15_00 : ℕ
  pub seg_selector : ℕ
  pub reserved4 : ℕ
  pub reserved3 : ℕ
  pub reserved2 : ℕ
  pub reserved1 : ℕ
  pub size : ℕ
  pub reserved0 : ℕ
  pub dpl : ℕ
  pub present : ℕ
  pub offset_31_16 : ℕ

-- The entry points that the table names: an exception by its number in `exception_handler_table`,
-- and the wrappers written in assembly.
pub data Entry : Type 0 where
  exception : ℕ → Entry
  pit_wrapper keyb_wrapper rtc_wrapper syscall_linkage : Entry

-- `SET_IDT_ENTRY`; `address` is where the linker put an entry point.
unfoldable pub set_idt_entry : (Entry → ℕ) → Gate → Entry → Gate
set_idt_entry address g e = record g {
  offset_31_16 = address e / 2 ^ 16;
  offset_15_00 = address e % 2 ^ 16;
}

abbrev pub num_vec : ℕ
num_vec = 256

abbrev pub kernel_cs : ℕ
kernel_cs = 0x10

-- What the first loop writes into a gate.
unfoldable pub blank : Gate → Gate
blank g = record g {
  seg_selector = kernel_cs;
  reserved4 = 0;
  size = 1;
  reserved3 = 1;
  reserved2 = 1;
  reserved1 = 1;
  reserved0 = 0;
  dpl = 0;
  present = 1;
}

-- `init_idt` gate by gate: the loops over the vectors, then the four gates set by hand.
unfoldable pub init_idt : (Entry → ℕ) → (ℕ → Gate) → ℕ → Gate
unfolding set_idt_entry blank
init_idt address idt i =
    let g = if ltb i num_vec then blank (idt i) else idt i in
    if ltb i 20
    then set_idt_entry address g (exception i)
    else if ltb i 0x20
    then set_idt_entry address g (exception 15)
    else if i == 0x20
    then set_idt_entry address (record g { reserved3 = 0 }) pit_wrapper
    else if i == 0x21
    then set_idt_entry address (record g { reserved3 = 0 }) keyb_wrapper
    else if i == 0x28
    then set_idt_entry address (record g { reserved3 = 0 }) rtc_wrapper
    else if i == 0x80
    then set_idt_entry address (record g { dpl = 3 }) syscall_linkage
    else g

-- The names that the handlers print, by their place in `exception_handler_table`.
exception_names : List String
exception_names =
    "DIVIDE_ERROR_EXC_HANDLER" ∷ "DEBUG_EXC_HANDLER" ∷ "NMI_INTERRUPT_HANDLER"
    ∷ "BREAKPOINT_EXC_HANDLER" ∷ "OVERFLOW_EXC_HANDLER" ∷ "BOUND_RANGE_EXCEEDED_EXC_HANDLER"
    ∷ "INVALID_OPCODE_EXC_HANDLER" ∷ "DEVICE_NOT_AVAILABLE_EXC_HANDLER" ∷ "DOUBLE_FAULT_EXC_HANDLER"
    ∷ "COPROCESSOR_SEGMENT_OVERRUN_HANDLER" ∷ "INVALID_TSS_EXC_HANDLER"
    ∷ "SEGMENT_NOT_PRESENT_HANDLER" ∷ "STACK_FAULT_EXCEPTION_HANDLER"
    ∷ "GENERAL_PROTECTION_EXC_HANDLER" ∷ "PAGE_FAULT_EXC_HANDLER" ∷ "PRESERVED_HANDLER"
    ∷ "X87_FPU_FLOATING_POINT_ERROR_HANDLER" ∷ "ALIGNMENT_CHECK_EXC_HANDLER"
    ∷ "MACHINE_CHECK_EXC_HANDLER" ∷ "SIMD_FLOATING_POINT_EXC_HANDLER" ∷ []

-- Handler `e`, with the stack registers at a call of `execute`: the name and two marks are
-- printed, then the program is halted with status 0.
unfoldable pub exception_handler : Kernel → ℕ → ℕ → ℕ → Option (Outcome × Kernel)
unfolding exception_names
exception_handler k e esp ebp = do
  name ← get_elem? exception_names e
  k' ← print k (codes name ++ (codes "!!\n" ++ (0 ∷ []))) []
  halt k' 0 esp ebp
