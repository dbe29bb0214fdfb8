-- ===== src/Haxm/Place.antt =====
-- Where a register of the virtual processor stands in the structures of HAXM, and HaxmRegRead and
-- HaxmRegWrite of modules/haxm/src/common/haxm_vp.cpp at one such place: the right-hand sides of their cases.
use virt.Base.{
  ℕ, Bool, true, if◌then◌else◌, ◌>>>◌, bit_and, bit_or, not64, u8, u16, u32, replaced, none, some,
  [], ◌∷◌,
}
use virt.Vp.Layout.{load, store}
use virt.Vp.Registers.{RegValue}
use virt.Util.{set_low_byte, set_low_word}
use virt.Kvm.Regs.{
  Gpr, gpr_number, SegmentName, segment_number, TableName, table_number, Control, control_number,
  set_at,
}
use virt.Haxm.Regs.{
  VcpuState, FxLayout, load_segment, store_segment, load_table, store_table, load_st_register,
  store_st_register, load_mm_register, store_mm_register, load_xmm_register, store_xmm_register,
}
use virt.Haxm.Msrs.{MsrDriver}

-- The part of a field that a case of the two switches reads or writes, and how.
pub data Place : Type 0 where
  segment : SegmentName → Place
  table : TableName → Place
  -- Members of the unions in vcpu_state_t: `_ah`, `_al`, `_ax`, and `_eax` or `_eip`.
  high_byte low_byte low_word low_double : Gpr → Place
  -- `_sp = value.u8` and `_eip = value.u16`.
  byte_word word_double : Gpr → Place
  -- SetLowByte and SetLowWord; `r = value.u32` and `r = value.u64`.
  set_byte set_word double_word whole : Gpr → Place
  -- `_eflags` and `_rflags`, through fixupFlags.
  flags_word flags_double flags_whole : Place
  control : Control → Place
  efer_place : Place
  debug : ℕ → Place
  st_register mm_register xmm_register : ℕ → Place

-- The structures that a virtual processor keeps, with their flags for changes, and the driver.
pub record Cache (K : Type 0) : Type 0 where
  pub state : VcpuState
  pub fpu_regs : FxLayout
  pub regs_changed : Bool
  pub fpu_regs_changed : Bool
  pub kernel : K

unfoldable pub fixup_flags : ℕ → ℕ
fixup_flags flags = bit_and (bit_or flags 2) (not64 0x8028)

abbrev pub efer_msr : ℕ
efer_msr = 0xc000_0080

abbrev pub set_state : {K : Type 0} → VcpuState → Cache K → Cache K
set_state s c = record c { state = s; regs_changed = true }

abbrev pub set_gpr : {K : Type 0} → Gpr → ℕ → Cache K → Cache K
set_gpr r x c = set_state (record c.state { regs = set_at gpr_number c.state.regs r x }) c

abbrev pub set_control : {K : Type 0} → Control → ℕ → Cache K → Cache K
set_control r x c =
    set_state (record c.state { controls = set_at control_number c.state.controls r x }) c

abbrev pub set_fpu : {K : Type 0} → FxLayout → Cache K → Cache K
set_fpu f c = record c { fpu_regs = f; fpu_regs_changed = true }

module _ {K : Type 0} (driver : MsrDriver K) (use_efer_msr : Bool) where
  -- GetMSR and SetMSR of one register, whose status the switches do not look at.
  abbrev read_efer : Cache K → RegValue → RegValue
  read_efer c v =
      let from_msr : RegValue = elim (driver.get_msr_data (efer_msr ∷ []) c.kernel) [
        | none ↦ v
        | some values ↦ store v 0 8 (values 0)
      ] in
      if use_efer_msr then from_msr else store v 0 8 (c.state.controls Control.efer)

  abbrev write_efer : RegValue → Cache K → Cache K
  write_efer v c =
      if use_efer_msr
      then record c { kernel = (driver.set_msr_data ((efer_msr, load v 0 8) ∷ []) c.kernel).1 }
      else set_control Control.efer (load v 0 4) c

  unfoldable pub read_place : Cache K → Place → RegValue → RegValue
  read_place c (segment name) v = load_segment v (c.state.segments name)
  read_place c (table name) v = load_table v (c.state.tables name)
  read_place c (high_byte r) v = store v 0 1 (u8 (c.state.regs r >>> 8))
  read_place c (low_byte r) v = store v 0 1 (u8 (c.state.regs r))
  read_place c (byte_word r) v = store v 0 1 (u8 (c.state.regs r))
  read_place c (set_byte r) v = store v 0 1 (u8 (c.state.regs r))
  read_place c (low_word r) v = store v 0 2 (u16 (c.state.regs r))
  read_place c (word_double r) v = store v 0 2 (u16 (c.state.regs r))
  read_place c (set_word r) v = store v 0 2 (u16 (c.state.regs r))
  read_place c flags_word v = store v 0 2 (u16 (c.state.regs Gpr.rflags))
  read_place c (low_double r) v = store v 0 4 (u32 (c.state.regs r))
  read_place c (double_word r) v = store v 0 4 (u32 (c.state.regs r))
  read_place c flags_double v = store v 0 4 (u32 (c.state.regs Gpr.rflags))
  read_place c (whole r) v = store v 0 8 (c.state.regs r)
  read_place c flags_whole v = store v 0 8 (c.state.regs Gpr.rflags)
  read_place c (control r) v = store v 0 8 (c.state.controls r)
  read_place c efer_place v = read_efer c v
  read_place c (debug i) v = store v 0 8 (c.state.debug i)
  read_place c (st_register i) v = load_st_register v i c.fpu_regs
  read_place c (mm_register i) v = load_mm_register v i c.fpu_regs
  read_place c (xmm_register i) v = (load_xmm_register v i c.fpu_regs).0

  unfoldable pub write_place : Place → RegValue → Cache K → Cache K
  unfolding fixup_flags
  write_place (segment name) v c =
      set_state
        (record c.state {
          segments = set_at segment_number c.state.segments name (store_segment v);
        })
        c
  write_place (table name) v c =
      set_state
        (record c.state {
          tables = set_at table_number c.state.tables name (store_table v (c.state.tables name));
        })
        c
  write_place (high_byte r) v c = set_gpr r (replaced 8 8 (load v 0 1) (c.state.regs r)) c
  write_place (low_byte r) v c = set_gpr r (replaced 0 8 (load v 0 1) (c.state.regs r)) c
  write_place (byte_word r) v c = set_gpr r (replaced 0 16 (load v 0 1) (c.state.regs r)) c
  write_place (set_byte r) v c = set_gpr r (set_low_byte (c.state.regs r) (load v 0 1)) c
  write_place (low_word r) v c = set_gpr r (replaced 0 16 (load v 0 2) (c.state.regs r)) c
  write_place (word_double r) v c = set_gpr r (replaced 0 32 (load v 0 2) (c.state.regs r)) c
  write_place (set_word r) v c = set_gpr r (set_low_word (c.state.regs r) (load v 0 2)) c
  write_place flags_word v c =
      set_gpr Gpr.rflags (replaced 0 32 (u32 (fixup_flags (load v 0 2))) (c.state.regs Gpr.rflags))
        c
  write_place (low_double r) v c = set_gpr r (replaced 0 32 (load v 0 4) (c.state.regs r)) c
  write_place (double_word r) v c = set_gpr r (load v 0 4) c
  write_place flags_double v c =
      set_gpr Gpr.rflags (replaced 0 32 (u32 (fixup_flags (load v 0 4))) (c.state.regs Gpr.rflags))
        c
  write_place (whole r) v c = set_gpr r (load v 0 8) c
  write_place flags_whole v c = set_gpr Gpr.rflags (fixup_flags (load v 0 8)) c
  write_place (control r) v c = set_control r (load v 0 8) c
  write_place efer_place v c = write_efer v c
  write_place (debug i) v c =
      set_state (record c.state { debug = set_at (λ j. j) c.state.debug i (load v 0 8) }) c
  write_place (st_register i) v c = set_fpu (store_st_register v i c.fpu_regs) c
  write_place (mm_register i) v c = set_fpu (store_mm_register v i c.fpu_regs) c
  write_place (xmm_register i) v c = set_fpu (store_xmm_register v i c.fpu_regs).0 c
