-- ===== src/Kvm/Place.antt =====
-- Where a register of the virtual processor stands in the structures of KVM, and KvmRegRead and
-- KvmRegWrite of modules/kvm/src/kvm_vp.cpp at one such place: the right-hand sides of their cases.
use virt.Base.{ℕ, Bool, true, ◌>>>◌, u8, u16, u32}
use virt.Vp.Layout.{load, store}
use virt.Vp.Registers.{RegValue}
use virt.Util.{set_low_byte, set_high_byte, set_low_word}
use virt.Kvm.Regs.{
  Gpr, gpr_number, KvmRegs, SegmentName, segment_number, TableName, table_number, Control,
  control_number, KvmSregs, KvmDebugRegs, KvmFpu, set_at, load_segment, store_segment, load_table,
  store_table, load_st_register, store_st_register, load_mm_register, store_mm_register,
  load_xmm_register, store_xmm_register,
}

-- The part of a field that a case of the two switches reads or writes, and how.
pub data Place : Type 0 where
  segment : SegmentName → Place
  table : TableName → Place
  -- `static_cast<uint8_t>(r >> 8)` and SetHighByte; the low byte and SetLowByte; the low word and
  -- SetLowWord.
  high_byte low_byte low_word : Gpr → Place
  -- `r = value.u16`, `r = value.u32` and `r = value.u64`.
  extended_word double_word whole : Gpr → Place
  control control_double_word : Control → Place
  debug : ℕ → Place
  st_register mm_register xmm_register : ℕ → Place

-- The structures that a virtual processor keeps, with their flags for changes.
pub record Cache : Type 0 where
  pub regs : KvmRegs
  pub sregs : KvmSregs
  pub debug_regs : KvmDebugRegs
  pub fpu_regs : KvmFpu
  pub regs_changed : Bool
  pub sregs_changed : Bool
  pub debug_regs_changed : Bool
  pub fpu_regs_changed : Bool

unfoldable pub read_place : Cache → Place → RegValue → RegValue
read_place c (segment name) v = load_segment v (c.sregs.segments name)
read_place c (table name) v = load_table v (c.sregs.tables name)
read_place c (high_byte r) v = store v 0 1 (u8 (c.regs r >>> 8))
read_place c (low_byte r) v = store v 0 1 (u8 (c.regs r))
read_place c (low_word r) v = store v 0 2 (u16 (c.regs r))
read_place c (extended_word r) v = store v 0 2 (u16 (c.regs r))
read_place c (double_word r) v = store v 0 4 (u32 (c.regs r))
read_place c (whole r) v = store v 0 8 (c.regs r)
read_place c (control r) v = store v 0 8 (c.sregs.controls r)
read_place c (control_double_word r) v = store v 0 4 (u32 (c.sregs.controls r))
read_place c (debug i) v = store v 0 8 (c.debug_regs i)
read_place c (st_register i) v = load_st_register v i c.fpu_regs
read_place c (mm_register i) v = load_mm_register v i c.fpu_regs
read_place c (xmm_register i) v = (load_xmm_register v i c.fpu_regs).0

abbrev pub set_gpr : Cache → Gpr → ℕ → Cache
set_gpr c r x = record c { regs = set_at gpr_number c.regs r x; regs_changed = true }

abbrev pub set_sregs : Cache → KvmSregs → Cache
set_sregs c s = record c { sregs = s; sregs_changed = true }

abbrev set_control : Cache → Control → ℕ → Cache
set_control c r x =
    set_sregs c (record c.sregs { controls = set_at control_number c.sregs.controls r x })

abbrev pub set_fpu : Cache → KvmFpu → Cache
set_fpu c f = record c { fpu_regs = f; fpu_regs_changed = true }

unfoldable pub write_place : Place → RegValue → Cache → Cache
write_place (segment name) v c =
    set_sregs c
      (record c.sregs { segments = set_at segment_number c.sregs.segments name (store_segment v) })
write_place (table name) v c =
    set_sregs c
      (record c.sregs { tables = set_at table_number c.sregs.tables name (store_table v) })
write_place (high_byte r) v c = set_gpr c r (set_high_byte (c.regs r) (load v 0 1))
write_place (low_byte r) v c = set_gpr c r (set_low_byte (c.regs r) (load v 0 1))
write_place (low_word r) v c = set_gpr c r (set_low_word (c.regs r) (load v 0 2))
write_place (extended_word r) v c = set_gpr c r (load v 0 2)
write_place (double_word r) v c = set_gpr c r (load v 0 4)
write_place (whole r) v c = set_gpr c r (load v 0 8)
write_place (control r) v c = set_control c r (load v 0 8)
write_place (control_double_word r) v c = set_control c r (load v 0 4)
write_place (debug i) v c = record c {
  debug_regs = set_at (λ i. i) c.debug_regs i (load v 0 8);
  debug_regs_changed = true;
}
write_place (st_register i) v c = set_fpu c (store_st_register v i c.fpu_regs)
write_place (mm_register i) v c = set_fpu c (store_mm_register v i c.fpu_regs)
write_place (xmm_register i) v c = set_fpu c (store_xmm_register v i c.fpu_regs).0
