-- ===== src/Haxm/Regs.antt =====
-- The register structures of HAXM (interface/vcpu_state.hpp and fx_layout in interface/hax_interface.hpp), and
-- modules/haxm/src/common/haxm_helpers.cpp, which moves segments, tables and floating point registers
-- between them and a RegValue.
use virt.Base.{ℕ, ◌-◌, ltb, Bool, true, false, if◌then◌else◌}
use virt.Vm.Region.{Bytes}
use virt.Vp.Layout.{load, store}
use virt.Vp.Registers.{RegValue}
use virt.Kvm.Regs.{Gpr, SegmentName, TableName, Control, put}

-- segment_desc_t; `ar` has 32 bits.
pub record SegmentDesc : Type 0 where
  pub selector : ℕ
  pub limit : ℕ
  pub base : ℕ
  pub ar : ℕ

-- vcpu_state_t. The names of its fields are those of the structures of KVM: the general registers with
-- _rip and _rflags, the control registers with _efer, and `debug` with _dr0 to _dr3, _dr6 and _dr7.
pub record VcpuState : Type 0 where
  pub regs : Gpr → ℕ
  pub segments : SegmentName → SegmentDesc
  pub tables : TableName → SegmentDesc
  pub controls : Control → ℕ
  pub debug : ℕ → ℕ

pub record FxLayout : Type 0 where
  pub fcw : ℕ
  pub fsw : ℕ
  pub ftw : ℕ
  pub fop : ℕ
  pub fip : ℕ
  pub fcs : ℕ
  pub fdp : ℕ
  pub fds : ℕ
  pub mxcsr : ℕ
  pub mxcsr_mask : ℕ
  pub st_mm : ℕ → Bytes
  pub mmx_1 : ℕ → Bytes
  pub mmx_2 : ℕ → Bytes

unfoldable pub load_segment : RegValue → SegmentDesc → RegValue
load_segment v d = store (store (store (store v 0 2 d.selector) 8 8 d.base) 16 4 d.limit) 20 2 d.ar

unfoldable pub store_segment : RegValue → SegmentDesc
store_segment v = record {
  selector = load v 0 2;
  base = load v 8 8;
  limit = load v 16 4;
  ar = load v 20 2;
}

unfoldable pub load_table : RegValue → SegmentDesc → RegValue
load_table v t = store (store v 0 8 t.base) 8 2 t.limit

unfoldable pub store_table : RegValue → SegmentDesc → SegmentDesc
store_table v t = record t { base = load v 0 8; limit = load v 8 2 }

unfoldable pub load_st_register : RegValue → ℕ → FxLayout → RegValue
load_st_register v index f =
    store (store v 0 8 (load (f.st_mm index) 0 8)) 8 2 (load (f.st_mm index) 8 2)

unfoldable pub store_st_register : RegValue → ℕ → FxLayout → FxLayout
store_st_register v index f =
    let block = store (store (f.st_mm index) 0 8 (load v 0 8)) 8 2 (load v 8 2) in
    record f { st_mm = put f.st_mm index block }

unfoldable pub load_mm_register : RegValue → ℕ → FxLayout → RegValue
load_mm_register v index f = store v 0 8 (load (f.st_mm index) 0 8)

unfoldable pub store_mm_register : RegValue → ℕ → FxLayout → FxLayout
store_mm_register v index f = record f {
  st_mm = put f.st_mm index (store (f.st_mm index) 0 8 (load v 0 8));
}

-- The 16 bytes of a register and a value, one copied into the other.
abbrev pub whole_block : Bytes → Bytes → Bytes
whole_block into from = store (store into 0 8 (load from 0 8)) 8 8 (load from 8 8)

-- The second components are the results; false leaves the value or the structure as it was.
unfoldable pub load_xmm_register : RegValue → ℕ → FxLayout → RegValue × Bool
load_xmm_register v index f =
    if ltb index 8
    then (whole_block v (f.mmx_1 index), true)
    else if ltb index 16
    then (whole_block v (f.mmx_2 (index - 8)), true)
    else (v, false)

unfoldable pub store_xmm_register : RegValue → ℕ → FxLayout → FxLayout × Bool
store_xmm_register v index f =
    if ltb index 8
    then (record f { mmx_1 = put f.mmx_1 index (whole_block (f.mmx_1 index) v) }, true)
    else if ltb index 16
    then (record f { mmx_2 = put f.mmx_2 (index - 8) (whole_block (f.mmx_2 (index - 8)) v) }, true)
    else (f, false)
