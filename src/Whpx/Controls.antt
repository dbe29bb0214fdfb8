-- ===== src/Whpx/Controls.antt =====
-- Floating point control and MXCSR of modules/whpx/src/whpx_vp.cpp: GetFPUControl, SetFPUControl, GetMXCSR,
-- SetMXCSR, GetMXCSRMask and SetMXCSRMask.
pub mod Lost
use virt.Base.{ℕ, Bool, if◌then◌else◌, Option, none, some, List, [], ◌∷◌}
use virt.Vp.Status.{Failure, failed}
use virt.Kvm.Controls.{FpuControl}
use virt.Whpx.Names.{Name, View, fp_control_status, xmm_control_status}
use virt.Whpx.Dispatch.{Dispatch}

-- The fields of FpControlStatus and XmmControlStatus that the backend names, and the value that `{ 0 }` makes.
pub record ControlViews (V : Type 0) : Type 0 where
  pub zero : V
  pub fp_control : View V ℕ
  pub fp_status : View V ℕ
  pub fp_tag : View V ℕ
  pub last_fp_op : View V ℕ
  pub last_fp_cs : View V ℕ
  pub last_fp_rip : View V ℕ
  pub last_fp_ds : View V ℕ
  pub last_fp_rdp : View V ℕ
  pub xmm_status_control : View V ℕ
  pub xmm_status_control_mask : View V ℕ

-- An element of an array of register values that the hypervisor filled in from its start on.
abbrev pub first {ℓ} : {V : Type ℓ} → V → List V → V
first fresh [] = fresh
first fresh (w ∷ ws) = w

abbrev second {ℓ} : {V : Type ℓ} → V → List V → V
second fresh [] = fresh
second fresh (w ∷ ws) = first fresh ws

module _ {V K : Type 0} (c : ControlViews V) (d : Dispatch V K) where
  abbrev both_names : List Name
  both_names = fp_control_status ∷ xmm_control_status ∷ []

  -- `fresh` is what stands in the memory of an array that is not initialised.
  unfoldable pub get_fpu_control : V → K → FpuControl → Option Failure × FpuControl
  get_fpu_control fresh k value = elim (d.get_registers both_names k) [
    | none ↦ (some failed, value)
    | some ws ↦
        let fp = first fresh ws in
        let mm = second fresh ws in
        (
          none,
          record {
            cw = c.fp_control.get fp;
            sw = c.fp_status.get fp;
            tw = c.fp_tag.get fp;
            op = c.last_fp_op.get fp;
            cs = c.last_fp_cs.get fp;
            rip = c.last_fp_rip.get fp;
            ds = c.last_fp_ds.get mm;
            rdp = c.last_fp_rdp.get mm;
          },
        )
  ]

  abbrev pub status {ℓ} : {A : Type ℓ} → Bool × A → Option Failure × A
  status (done, k) = (if done then none else some failed, k)

  abbrev pub fp_value : FpuControl → V
  fp_value v = c.last_fp_rip.set v.rip (
      c.last_fp_cs.set v.cs (
        c.last_fp_op.set v.op
          (c.fp_tag.set v.tw (c.fp_status.set v.sw (c.fp_control.set v.cw c.zero)))))

  abbrev pub mm_value : FpuControl → V
  mm_value v = c.last_fp_rdp.set v.rdp (c.last_fp_ds.set v.ds c.zero)

  unfoldable pub set_fpu_control : FpuControl → K → Option Failure × K
  set_fpu_control v k = status (d.set_registers both_names (fp_value v ∷ mm_value v ∷ []) k)

  abbrev pub get_field : View V ℕ → V → K → ℕ → Option Failure × ℕ
  get_field field fresh k value = elim (d.get_registers (xmm_control_status ∷ []) k) [
    | none ↦ (some failed, value)
    | some ws ↦ (none, field.get (first fresh ws))
  ]

  abbrev set_field : View V ℕ → ℕ → K → Option Failure × K
  set_field field value k =
      status (d.set_registers (xmm_control_status ∷ []) (field.set value c.zero ∷ []) k)

  unfoldable pub get_mxcsr : V → K → ℕ → Option Failure × ℕ
  get_mxcsr fresh k value = get_field c.xmm_status_control fresh k value

  unfoldable pub set_mxcsr : ℕ → K → Option Failure × K
  set_mxcsr value k = set_field c.xmm_status_control value k

  unfoldable pub get_mxcsr_mask : V → K → ℕ → Option Failure × ℕ
  get_mxcsr_mask fresh k value = get_field c.xmm_status_control_mask fresh k value

  unfoldable pub set_mxcsr_mask : ℕ → K → Option Failure × K
  set_mxcsr_mask value k = set_field c.xmm_status_control_mask value k
