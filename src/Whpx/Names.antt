-- ===== src/Whpx/Names.antt =====
-- The registers of the Windows hypervisor that modules/whpx names, WHV_REGISTER_NAME, and the views of
-- its register values, WHV_REGISTER_VALUE. The layout of a value is the hypervisor's: a parameter.
pub mod Laws
use virt.Base.{ℕ, ◌+◌, ◌*◌, ◌≡◌, Bool, true, false}
use virt.Kvm.Regs.{
  Gpr, gpr_number, SegmentName, segment_number, TableName, table_number, Control, control_number,
}

-- WHvX64RegisterFpMmx0 and so on are constructors with an index. The fixed-range MTRRs are in the order
-- Fix64k00000, Fix16k80000, Fix16kA0000, Fix4kC0000 to Fix4kF8000.
pub data Name : Type 0 where
  segment : SegmentName → Name
  table : TableName → Name
  gpr : Gpr → Name
  control : Control → Name
  debug fp_mmx xmm mtrr_phys_base mtrr_phys_mask mtrr_fix : ℕ → Name
  cr8 xcr0 fp_control_status xmm_control_status pending_interruption : Name
  tsc kernel_gs_base apic_base pat sysenter_cs sysenter_eip sysenter_esp star lstar cstar : Name
  sfmask mtrr_cap mtrr_def_type tsc_aux spec_ctrl pred_cmd : Name

-- Different registers have different numbers.
abbrev pub name_number : Name → ℕ
name_number (segment s) = 32 * segment_number s
name_number (table t) = 32 * table_number t + 1
name_number (gpr r) = 32 * gpr_number r + 2
name_number (control r) = 32 * control_number r + 3
name_number (debug i) = 32 * i + 4
name_number (fp_mmx i) = 32 * i + 5
name_number (xmm i) = 32 * i + 6
name_number (mtrr_phys_base i) = 32 * i + 7
name_number (mtrr_phys_mask i) = 32 * i + 8
name_number (mtrr_fix i) = 32 * i + 9
name_number cr8 = 10
name_number xcr0 = 11
name_number fp_control_status = 12
name_number xmm_control_status = 13
name_number pending_interruption = 14
name_number tsc = 15
name_number kernel_gs_base = 16
name_number apic_base = 17
name_number pat = 18
name_number sysenter_cs = 19
name_number sysenter_eip = 20
name_number sysenter_esp = 21
name_number star = 22
name_number lstar = 23
name_number cstar = 24
name_number sfmask = 25
name_number mtrr_cap = 26
name_number mtrr_def_type = 27
name_number tsc_aux = 28
name_number spec_ctrl = 29
name_number pred_cmd = 30

-- The registers that hold what was last written to them: not the counter of time, nor those that can
-- only be read or only be written.
abbrev pub is_stored : Name → Bool
is_stored tsc = false
is_stored mtrr_cap = false
is_stored pred_cmd = false
is_stored _ = true

abbrev pub Stored : Name → Type 0
Stored n = is_stored n ≡ true

pub record WhvSegment : Type 0 where
  pub selector : ℕ
  pub base : ℕ
  pub limit : ℕ
  pub attributes : ℕ

pub record WhvTable : Type 0 where
  pub base : ℕ
  pub limit : ℕ

pub record WhvFp : Type 0 where
  pub mantissa : ℕ
  pub biased_exponent : ℕ
  pub sign : ℕ

-- A member of the union, or a field of a structure in it.
pub record View (V A : Type 0) : Type 0 where
  pub get : V → A
  pub set : A → V → V

-- `reg128` is Low64 and High64; `zero` is the value that `{ 0 }` makes.
pub record Views (V : Type 0) : Type 0 where
  pub zero : V
  pub reg64 : View V ℕ
  pub reg128 : View V (ℕ × ℕ)
  pub segment : View V WhvSegment
  pub table : View V WhvTable
  pub fp : View V WhvFp

-- How a case of the translation of values treats them.
pub data Kind : Type 0 where
  segment_kind table_kind low_byte_kind high_byte_kind low_word_kind double_word_kind : Kind
  reg64_kind st_kind mm_kind xmm_kind : Kind
