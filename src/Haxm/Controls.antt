-- ===== src/Haxm/Controls.antt =====
-- Floating point control and MXCSR of modules/haxm/src/common/haxm_vp.cpp.
use virt.Base.{ℕ, true, if◌then◌else◌, Option, none, some, u8, u32}
use virt.Vm.Io.{IoHandlers}
use virt.Vp.Status.{Failure, failed}
use virt.Kvm.Controls.{FpuControl}
use virt.Haxm.Regs.{VcpuState, FxLayout}
use virt.Haxm.State.{SysImpl, HaxmVp}
use virt.Haxm.Run.{refresh_registers}

module _ {K W : Type 0} (sys : SysImpl VcpuState FxLayout K) (h : IoHandlers W) where
  -- The last components of the getters are the caller's value.
  abbrev got {ℓ} :
      {A : Type ℓ}
      → (FxLayout → A)
      → A
      → HaxmVp VcpuState FxLayout K W
      → Option Failure × HaxmVp VcpuState FxLayout K W × A
  got get value x =
      let (fresh, y) = refresh_registers sys h x in
      if fresh then (none, y, get y.fpu_regs) else (some failed, y, value)

  abbrev changed :
      (FxLayout → FxLayout)
      → HaxmVp VcpuState FxLayout K W
      → Option Failure × HaxmVp VcpuState FxLayout K W
  changed set x =
      let (fresh, y) = refresh_registers sys h x in
      if fresh
      then (none, record y { fpu_regs = set y.fpu_regs; fpu_regs_changed = true })
      else (some failed, y)

  unfoldable pub get_fpu_control :
      FpuControl
      → HaxmVp VcpuState FxLayout K W
      → Option Failure × HaxmVp VcpuState FxLayout K W × FpuControl
  unfolding refresh_registers
  get_fpu_control value =
      got
        (λ f. record {
          cw = f.fcw;
          sw = f.fsw;
          tw = f.ftw;
          op = f.fop;
          cs = f.fcs;
          rip = f.fip;
          ds = f.fds;
          rdp = f.fdp;
        })
        value

  -- `ip` and `dp` are the lower halves of `rip` and `rdp`.
  unfoldable pub set_fpu_control :
      FpuControl → HaxmVp VcpuState FxLayout K W → Option Failure × HaxmVp VcpuState FxLayout K W
  unfolding refresh_registers
  set_fpu_control v = changed (λ f. record f {
    fcw = v.cw;
    fsw = v.sw;
    ftw = u8 v.tw;
    fop = v.op;
    fcs = v.cs;
    fip = u32 v.rip;
    fds = v.ds;
    fdp = u32 v.rdp;
  })

  unfoldable pub get_mxcsr :
      ℕ → HaxmVp VcpuState FxLayout K W → Option Failure × HaxmVp VcpuState FxLayout K W × ℕ
  unfolding refresh_registers
  get_mxcsr value = got (λ f. f.mxcsr) value

  unfoldable pub set_mxcsr :
      ℕ → HaxmVp VcpuState FxLayout K W → Option Failure × HaxmVp VcpuState FxLayout K W
  unfolding refresh_registers
  set_mxcsr value = changed (λ f. record f { mxcsr = value })

  unfoldable pub get_mxcsr_mask :
      ℕ → HaxmVp VcpuState FxLayout K W → Option Failure × HaxmVp VcpuState FxLayout K W × ℕ
  unfolding refresh_registers
  get_mxcsr_mask value = got (λ f. f.mxcsr_mask) value

  unfoldable pub set_mxcsr_mask :
      ℕ → HaxmVp VcpuState FxLayout K W → Option Failure × HaxmVp VcpuState FxLayout K W
  unfolding refresh_registers
  set_mxcsr_mask value = changed (λ f. record f { mxcsr_mask = value })
