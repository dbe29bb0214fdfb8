-- ===== src/Whpx/Controls/Lost.antt =====
-- MXCSR, its mask and the data pointer of the FPU are fields of one register, and a write to one of them
-- clears the others.
use virt.Base.{ℕ, ◌^◌, ◌<◌, ◌≡◌, refl, ap, ◌∙◌, none, List, [], ◌∷◌, All}
use virt.Kvm.Regs.{set_at}
use virt.Kvm.Regs.Laws.{set_at-same}
use virt.Kvm.Controls.{FpuControl}
use virt.Whpx.Names.{Name, View, Stored, name_number, fp_control_status, xmm_control_status}
use virt.Whpx.Dispatch.{Dispatch, Answers}
use virt.Whpx.Controls.{
  ControlViews, status, get_field, mm_value, set_fpu_control, get_mxcsr, set_mxcsr, get_mxcsr_mask,
  set_mxcsr_mask,
}

-- What the header of the Windows hypervisor says of the fields of XmmControlStatus.
pub record ControlLayout {V : Type 0} (c : ControlViews V) : Type 0 where
  pub mxcsr_zero : c.xmm_status_control.get c.zero ≡ 0
  pub mask_zero : c.xmm_status_control_mask.get c.zero ≡ 0
  pub mxcsr_back :
      (a : ℕ) (w : V) → a < 2 ^ 32 → c.xmm_status_control.get (c.xmm_status_control.set a w) ≡ a
  pub mask_mxcsr :
      (a : ℕ) (w : V)
      → c.xmm_status_control_mask.get (c.xmm_status_control.set a w)
        ≡ c.xmm_status_control_mask.get w
  pub mxcsr_mask :
      (a : ℕ) (w : V)
      → c.xmm_status_control.get (c.xmm_status_control_mask.set a w) ≡ c.xmm_status_control.get w
  pub mxcsr_ds :
      (a : ℕ) (w : V) → c.xmm_status_control.get (c.last_fp_ds.set a w) ≡ c.xmm_status_control.get w
  pub mxcsr_rdp :
      (a : ℕ) (w : V)
      → c.xmm_status_control.get (c.last_fp_rdp.set a w) ≡ c.xmm_status_control.get w

module _ {V K : Type 0} (c : ControlViews V) (laws : ControlLayout c) (d : Dispatch V K)
    (a : Answers d) where
  -- What a getter of a field gives, for what the register holds.
  get_of :
      (field : View V ℕ) (fresh w : V) (old : ℕ) (k : K)
      → a.file k xmm_control_status ≡ w
      → get_field c d field fresh k old ≡ (none, field.get w)
  get_of field fresh w old k e =
      rw (a.get_lem (xmm_control_status ∷ []) k (refl, tt), get_field)
        (ap (λ t. (none, field.get t)) e)

  done :
      (ns : List Name) (ws : List V) (k : K)
      → All Stored ns
      → (status c d (d.set_registers ns ws k)).0 ≡ none
  done ns ws k stored = rw (a.set_done ns ws k stored) refl

  set_one :
      (w : V) (k : K)
      → a.file (d.set_registers (xmm_control_status ∷ []) (w ∷ []) k).1 xmm_control_status ≡ w
  set_one w k =
      ap (λ f. f xmm_control_status) (a.set_lem (xmm_control_status ∷ []) (w ∷ []) k (refl, tt))
      ∙ set_at-same name_number (a.file k) xmm_control_status w

  set_two :
      (v w : V) (k : K)
      → a.file
          (d.set_registers (fp_control_status ∷ xmm_control_status ∷ []) (v ∷ w ∷ []) k).1
          xmm_control_status
        ≡ w
  set_two v w k =
      ap (λ f. f xmm_control_status)
        (a.set_lem (fp_control_status ∷ xmm_control_status ∷ []) (v ∷ w ∷ []) k (refl, (refl, tt)))
      ∙ set_at-same name_number (set_at name_number (a.file k) fp_control_status v)
          xmm_control_status w

  -- For a hypervisor that answers as documented: whatever the registers were, SetMXCSR of a 32-bit
  -- value returns OK, and after it GetMXCSR gives the value, but GetMXCSRMask gives 0; after
  -- SetMXCSRMask or SetFPUControl, which return OK too, GetMXCSR gives 0.
  pub get_mxcsr-set_mxcsr :
      (fresh : V) (value mask : ℕ) (control : FpuControl) (old : ℕ) (k : K)
      → value < 2 ^ 32
      → ((set_mxcsr c d value k).0 ≡ none)
        × (get_mxcsr c d fresh (set_mxcsr c d value k).1 old ≡ (none, value))
        × (get_mxcsr_mask c d fresh (set_mxcsr c d value k).1 old ≡ (none, 0))
        × ((set_mxcsr_mask c d mask k).0 ≡ none)
        × (get_mxcsr c d fresh (set_mxcsr_mask c d mask k).1 old ≡ (none, 0))
        × ((set_fpu_control c d control k).0 ≡ none)
        × (get_mxcsr c d fresh (set_fpu_control c d control k).1 old ≡ (none, 0))
  unfolding get_mxcsr get_mxcsr_mask set_mxcsr set_mxcsr_mask set_fpu_control
  get_mxcsr-set_mxcsr fresh value mask control old k small =
      let field = c.xmm_status_control in
      let made = field.set value c.zero in
      let masked = c.xmm_status_control_mask.set mask c.zero in
      let control_value = mm_value c d control in
      let pointer = c.last_fp_ds.set control.ds c.zero in
      (
        done (xmm_control_status ∷ []) _ k (refl, tt),
        get_of field fresh made old _ (set_one made k)
            ∙ ap (λ n. (none, n)) (laws.mxcsr_back value c.zero small),
        get_of c.xmm_status_control_mask fresh made old _ (set_one made k)
            ∙ ap (λ n. (none, n)) (laws.mask_mxcsr value c.zero ∙ laws.mask_zero),
        done (xmm_control_status ∷ []) _ k (refl, tt),
        get_of field fresh masked old _ (set_one masked k)
            ∙ ap (λ n. (none, n)) (laws.mxcsr_mask mask c.zero ∙ laws.mxcsr_zero),
        done (fp_control_status ∷ xmm_control_status ∷ []) _ k (refl, (refl, tt)),
        get_of field fresh control_value old _ (set_two _ control_value k)
            ∙ ap (λ n. (none, n))
                (laws.mxcsr_rdp control.rdp pointer
                  ∙ laws.mxcsr_ds control.ds c.zero
                  ∙ laws.mxcsr_zero),
      )
