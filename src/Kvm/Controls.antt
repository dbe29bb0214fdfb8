-- ===== src/Kvm/Controls.antt =====
-- Floating point control and MXCSR of modules/kvm/src/kvm_vp.cpp: GetFPUControl, SetFPUControl, GetMXCSR,
-- SetMXCSR and their masks.
pub mod Lost
use virt.Base.{ℕ, if◌then◌else◌, Option, none, some, u8}
use virt.Vp.Status.{Failure, failed, unsupported}
use virt.Kvm.Regs.{KvmFpu}
use virt.Kvm.Place.{set_fpu}
use virt.Kvm.Vcpu.{Kernel, Vcpu, refresh_registers, refreshed}

-- FPUControl of modules/core/include/virt86/vp/fpregs.hpp.
pub record FpuControl : Type 0 where
  pub cw : ℕ
  pub sw : ℕ
  pub tw : ℕ
  pub op : ℕ
  pub cs : ℕ
  pub rip : ℕ
  pub ds : ℕ
  pub rdp : ℕ

-- KVM has neither the code nor the data segment.
abbrev fpu_control : KvmFpu → FpuControl
fpu_control f = record {
  cw = f.fcw;
  sw = f.fsw;
  tw = f.ftwx;
  op = f.last_opcode;
  cs = 0;
  rip = f.last_ip;
  ds = 0;
  rdp = f.last_dp;
}

abbrev store_fpu_control : FpuControl → KvmFpu → KvmFpu
store_fpu_control v f = record f {
  fcw = v.cw;
  fsw = v.sw;
  ftwx = u8 v.tw;
  last_opcode = v.op;
  last_ip = v.rip;
  last_dp = v.rdp;
}

module _ {K : Type 0} (k : Kernel K) where
  -- The last components of the getters are the caller's value.
  abbrev got {ℓ} : {A : Type ℓ} → Vcpu K → (KvmFpu → A) → A → Option Failure × Vcpu K × A
  got vp get value =
      let (ok, vp') = refresh_registers k vp in
      if ok then (none, vp', get vp'.cache.fpu_regs) else (some failed, vp', value)

  unfoldable pub get_fpu_control : Vcpu K → FpuControl → Option Failure × Vcpu K × FpuControl
  unfolding refresh_registers
  get_fpu_control vp value = got vp fpu_control value

  -- The flag for changes of the floating point registers stays as it was.
  unfoldable pub set_fpu_control : FpuControl → Vcpu K → Option Failure × Vcpu K
  unfolding refreshed
  set_fpu_control value vp = refreshed k vp (λ vp'. (
    none,
    record vp' {
      cache = record vp'.cache { fpu_regs = store_fpu_control value vp'.cache.fpu_regs };
    },
  ))

  unfoldable pub get_mxcsr : Vcpu K → ℕ → Option Failure × Vcpu K × ℕ
  unfolding refresh_registers
  get_mxcsr vp value = got vp (λ f. f.mxcsr) value

  unfoldable pub set_mxcsr : ℕ → Vcpu K → Option Failure × Vcpu K
  unfolding refreshed
  set_mxcsr value vp = refreshed k vp (λ vp'. (
    none,
    record vp' { cache = set_fpu vp'.cache (record vp'.cache.fpu_regs { mxcsr = value }) },
  ))

  unfoldable pub get_mxcsr_mask : ℕ → Option Failure × ℕ
  get_mxcsr_mask value = (some unsupported, value)

  unfoldable pub set_mxcsr_mask : ℕ → Vcpu K → Option Failure × Vcpu K
  set_mxcsr_mask value vp = (some unsupported, vp)
