-- ===== src/Boot/Segments.antt =====
-- The descriptors of x86_desc.h that `entry` writes: the segments of the local table and of the task.
use osgods.Common.{ℕ, ◌+◌, ◌*◌, ◌/◌, ◌%◌, ◌^◌, ◌<◌, bit_and, ◌≡◌, refl, arith}

-- `seg_desc_t`; every field is a bit field of the width that its writes are cut to.
pub record SegDesc : Type 0 where
  pub seg_lim_15_00 : ℕ
  pub base_15_00 : ℕ
  pub base_23_16 : ℕ
  pub seg_type : ℕ
  pub sys : ℕ
  pub dpl : ℕ
  pub present : ℕ
  pub seg_lim_19_16 : ℕ
  pub avail : ℕ
  pub reserved : ℕ
  pub opsize : ℕ
  pub granularity : ℕ
  pub base_31_24 : ℕ

-- `tss_t`, less `esp0`, which the kernel's state has.
pub record Tss : Type 0 where
  pub prev_task_link : ℕ
  pub prev_task_link_pad : ℕ
  pub ss0 : ℕ
  pub ss0_pad : ℕ
  pub esp1 : ℕ
  pub ss1 : ℕ
  pub ss1_pad : ℕ
  pub esp2 : ℕ
  pub ss2 : ℕ
  pub ss2_pad : ℕ
  pub cr3 : ℕ
  pub eip : ℕ
  pub eflags : ℕ
  pub eax : ℕ
  pub ecx : ℕ
  pub edx : ℕ
  pub ebx : ℕ
  pub esp : ℕ
  pub ebp : ℕ
  pub esi : ℕ
  pub edi : ℕ
  pub es : ℕ
  pub es_pad : ℕ
  pub cs : ℕ
  pub cs_pad : ℕ
  pub ss : ℕ
  pub ss_pad : ℕ
  pub ds : ℕ
  pub ds_pad : ℕ
  pub fs : ℕ
  pub fs_pad : ℕ
  pub gs : ℕ
  pub gs_pad : ℕ
  pub ldt_segment_selector : ℕ
  pub ldt_pad : ℕ
  pub debug_trap : ℕ
  pub io_pad : ℕ
  pub io_base_addr : ℕ

abbrev pub kernel_ds : ℕ
kernel_ds = 0x18

abbrev pub kernel_tss : ℕ
kernel_tss = 0x30

abbrev pub kernel_ldt : ℕ
kernel_ldt = 0x38

abbrev pub tss_size_constant : ℕ
tss_size_constant = 104

-- `SET_LDT_PARAMS`, and `SET_TSS_PARAMS`, which is the same text.
unfoldable pub set_params : SegDesc → ℕ → ℕ → SegDesc
set_params d addr lim = record d {
  base_31_24 = addr / 2 ^ 24 % 2 ^ 8;
  base_23_16 = addr / 2 ^ 16 % 2 ^ 8;
  base_15_00 = addr % 2 ^ 16;
  seg_lim_19_16 = lim / 2 ^ 16 % 2 ^ 4;
  seg_lim_15_00 = lim % 2 ^ 16;
}

-- `the_ldt_desc`; `d` is what stood on the stack.
unfoldable pub the_ldt_desc : SegDesc → ℕ → ℕ → SegDesc
unfolding set_params
the_ldt_desc d ldt ldt_size =
    set_params
      (record d {
        granularity = 0;
        opsize = 1;
        reserved = 0;
        avail = 0;
        present = 1;
        dpl = 0;
        sys = 0;
        seg_type = 2;
      })
      ldt ldt_size

-- `the_tss_desc`. The limit of TSS_SIZE, whose upper part keeps its place, is written first, and
-- then that of `tss_size`.
unfoldable pub the_tss_desc : SegDesc → ℕ → ℕ → SegDesc
unfolding set_params
the_tss_desc d tss tss_size =
    set_params
      (record d {
        granularity = 0;
        opsize = 0;
        reserved = 0;
        avail = 0;
        seg_lim_19_16 = bit_and tss_size_constant 0xF0000 % 2 ^ 4;
        present = 1;
        dpl = 0;
        sys = 0;
        seg_type = 9;
        seg_lim_15_00 = bit_and tss_size_constant 0xFFFF;
      })
      tss tss_size

-- Base, limit and the rest as the processor reads a descriptor.
abbrev pub base_of : SegDesc → ℕ
base_of d = d.base_31_24 * 2 ^ 24 + d.base_23_16 * 2 ^ 16 + d.base_15_00

abbrev pub limit_of : SegDesc → ℕ
limit_of d = d.seg_lim_19_16 * 2 ^ 16 + d.seg_lim_15_00

-- A present descriptor of a system segment for the kernel, counted in bytes.
pub record IsSystem (d : SegDesc) (seg_type base limit : ℕ) : Type 0 where
  pub is_base : base_of d ≡ base
  pub is_limit : limit_of d ≡ limit
  pub is_type : d.seg_type ≡ seg_type
  pub is_present : d.present ≡ 1
  pub is_system : d.sys ≡ 0
  pub is_kernel : d.dpl ≡ 0
  pub in_bytes : d.granularity ≡ 0

-- Whatever stood on the stack, the two descriptors lead to the tables that they are given, with
-- the limits given, for limits below 2^20: present system segments of the kernel, one of the type
-- of a local table, one of an available task.
pub descriptors-IsSystem :
    (d e : SegDesc) (ldt ldt_size tss tss_size : ℕ)
    → ldt < 2 ^ 32
    → tss < 2 ^ 32
    → ldt_size < 2 ^ 20
    → tss_size < 2 ^ 20
    → IsSystem (the_ldt_desc d ldt ldt_size) 2 ldt ldt_size
      × IsSystem (the_tss_desc e tss tss_size) 9 tss tss_size
unfolding the_ldt_desc the_tss_desc set_params
descriptors-IsSystem d e ldt ldt_size tss tss_size a b c f = (
  record {
    is_base = omega arith;
    is_limit = omega arith;
    is_type = refl;
    is_present = refl;
    is_system = refl;
    is_kernel = refl;
    in_bytes = refl;
  },
  record {
    is_base = omega arith;
    is_limit = omega arith;
    is_type = refl;
    is_present = refl;
    is_system = refl;
    is_kernel = refl;
    in_bytes = refl;
  },
)
