-- ===== src/Haxm/Registers.antt =====
-- RegRead and RegWrite of modules/haxm/src/common/haxm_vp.cpp, of one register and of several. The switches
-- work on the processor's structures after these are up to date.
pub mod Kept
use virt.Base.{Bool, if◌then◌else◌, Option, none, some, List, [], ◌∷◌, map}
use virt.Vm.Io.{IoHandlers}
use virt.Vp.Status.{Failure, failed, invalid_arguments}
use virt.Vp.Reg.{Reg}
use virt.Vp.Registers.{RegValue}
use virt.Haxm.Regs.{VcpuState, FxLayout}
use virt.Haxm.State.{SysImpl, HaxmVp}
use virt.Haxm.Run.{refresh_registers}
use virt.Haxm.Msrs.{MsrDriver}
use virt.Haxm.Place.{Cache}
use virt.Haxm.Switch.{haxm_reg_read, haxm_reg_write}

module _ {K W : Type 0} where
  abbrev pub cache_of : HaxmVp VcpuState FxLayout K W → Cache K
  cache_of x = record {
    state = x.regs;
    fpu_regs = x.fpu_regs;
    regs_changed = x.regs_changed;
    fpu_regs_changed = x.fpu_regs_changed;
    kernel = x.kernel;
  }

  abbrev pub with_cache : HaxmVp VcpuState FxLayout K W → Cache K → HaxmVp VcpuState FxLayout K W
  with_cache x c = record x {
    regs = c.state;
    fpu_regs = c.fpu_regs;
    regs_changed = c.regs_changed;
    fpu_regs_changed = c.fpu_regs_changed;
    kernel = c.kernel;
  }

module _ {K W : Type 0} (sys : SysImpl VcpuState FxLayout K) (driver : MsrDriver K)
    (h : IoHandlers W) (use_efer_msr : Bool) where
  -- The last component is the value, which was the caller's before.
  unfoldable pub reg_read :
      Reg
      → RegValue
      → HaxmVp VcpuState FxLayout K W
      → Option Failure × HaxmVp VcpuState FxLayout K W × RegValue
  unfolding refresh_registers haxm_reg_read
  reg_read reg value x =
      let (fresh, y) = refresh_registers sys h x in
      let (status, value') = haxm_reg_read driver use_efer_msr (cache_of y) reg value in
      if fresh then (status, y, value') else (some failed, y, value)

  unfoldable pub reg_write :
      Reg
      → RegValue
      → HaxmVp VcpuState FxLayout K W
      → Option Failure × HaxmVp VcpuState FxLayout K W
  unfolding refresh_registers haxm_reg_write
  reg_write reg value x =
      let (fresh, y) = refresh_registers sys h x in
      let (status, c) = haxm_reg_write driver use_efer_msr reg value (cache_of y) in
      if fresh then (status, with_cache y c) else (some failed, y)

  -- The loops; each register stands with its value.
  unfoldable pub read_all : Cache K → List (Reg × RegValue) → Option Failure × List RegValue
  unfolding haxm_reg_read
  read_all c [] = (none, [])
  read_all c ((reg, value) ∷ rest) =
      let (status, value') = haxm_reg_read driver use_efer_msr c reg value in
      let (later, values) = read_all c rest in
      elim status [
        | none ↦ (later, value' ∷ values)
        | some failure ↦ (some failure, value' ∷ map (λ (_, v). v) rest)
      ]

  unfoldable pub write_all : List (Reg × RegValue) → Cache K → Option Failure × Cache K
  unfolding haxm_reg_write
  write_all [] c = (none, c)
  write_all ((reg, value) ∷ rest) c =
      let (status, c') = haxm_reg_write driver use_efer_msr reg value c in
      let later = write_all rest c' in
      elim status [ none ↦ later | some failure ↦ (some failure, c') ]

  -- `null` is that one of the arrays is a null pointer.
  unfoldable pub reg_read_all :
      Bool
      → List (Reg × RegValue)
      → HaxmVp VcpuState FxLayout K W
      → Option Failure × HaxmVp VcpuState FxLayout K W × List RegValue
  unfolding refresh_registers read_all
  reg_read_all null pairs x =
      let old = map (λ ((_, v) : Reg × RegValue). v) pairs in
      let (fresh, y) = refresh_registers sys h x in
      let (status, values) = read_all (cache_of y) pairs in
      if null
      then (some invalid_arguments, x, old)
      else if fresh
      then (status, y, values)
      else (some failed, y, old)

  unfoldable pub reg_write_all :
      Bool
      → List (Reg × RegValue)
      → HaxmVp VcpuState FxLayout K W
      → Option Failure × HaxmVp VcpuState FxLayout K W
  unfolding refresh_registers write_all
  reg_write_all null pairs x =
      let (fresh, y) = refresh_registers sys h x in
      let (status, c) = write_all pairs (cache_of y) in
      if null
      then (some invalid_arguments, x)
      else if fresh
      then (status, with_cache y c)
      else (some failed, y)
