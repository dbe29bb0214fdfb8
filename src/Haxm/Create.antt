-- ===== src/Haxm/Create.antt =====
-- The constructor of HaxmVirtualProcessor, modules/haxm/src/common/haxm_vp.cpp: the test whether EFER is
-- among the registers that the driver sets.
pub mod Efer
use virt.Base.{
  ℕ, ◌+◌, ◌*◌, ◌/◌, ◌%◌, ◌-◌, ◌==◌, Bool, true, false, not, if◌then◌else◌, Option, none, some,
}
use virt.Kvm.Regs.{Control, control_number, set_at}
use virt.Haxm.Regs.{VcpuState, FxLayout}
use virt.Haxm.State.{SysImpl}

abbrev pub with_efer : ℕ → VcpuState → VcpuState
with_efer x s = record s { controls = set_at control_number s.controls Control.efer x }

-- `efer ^ EFER_LME`, which is bit 8.
unfoldable pub flip_lme : ℕ → ℕ
flip_lme efer = if efer / 256 % 2 == 0 then efer + 256 else efer - 256

module _ {K : Type 0} (sys : SysImpl VcpuState FxLayout K) where
  -- What the driver says last of all is not looked at.
  abbrev restore : Bool → ℕ → VcpuState → K → Bool × VcpuState × K
  restore msr old s k = let t = with_efer old s in (msr, t, (sys.set_registers t k).1)

  -- m_useEferMSR, m_regs and the driver. `zero` is the zeroed structure.
  unfoldable pub probe_efer : VcpuState → K → Bool × VcpuState × K
  unfolding flip_lme
  probe_efer zero k = elim (sys.get_registers k) [
    | none ↦ (true, zero, k)
    | some s ↦
        let old = s.controls Control.efer in
        let flipped = with_efer (flip_lme old) s in
        let (set, k1) = sys.set_registers flipped k in
        if set
        then elim (sys.get_registers k1) [
          | none ↦ restore true old flipped k1
          | some t ↦ restore (t.controls Control.efer == old) old t k1
        ]
        else (true, flipped, k1)
  ]
