-- ===== src/Haxm/Create/Efer.antt =====
-- What the test of EFER finds.
use virt.Base.{ℕ, ◌==◌, ◌≡◌, refl, ap, ◌∙◌, Bool, true, false, not, if◌then◌else◌, some, arith}
use virt.Kvm.Regs.{Control, control_number}
use virt.Kvm.Regs.Laws.{set_at-same}
use virt.Haxm.Regs.{VcpuState, FxLayout}
use virt.Haxm.State.{SysImpl}
use virt.Haxm.Create.{with_efer, flip_lme, probe_efer}

-- The driver's calls succeed, and keep what they are given, EFER included or not.
pub record Remembers {K : Type 0} (sys : SysImpl VcpuState FxLayout K) (efer : Bool) : Type 0 where
  pub regs : K → VcpuState
  pub get_lem : (k : K) → sys.get_registers k ≡ some (regs k)
  pub set_done : (s : VcpuState) (k : K) → (sys.set_registers s k).0 ≡ true
  pub set_lem :
      (s : VcpuState) (k : K)
      → regs (sys.set_registers s k).1
        ≡ (if efer then s else with_efer ((regs k).controls Control.efer) s)

flip_lme-other : (x : ℕ) → (flip_lme x == x) ≡ false
unfolding flip_lme
flip_lme-other x = grind arith

efer_of : (x : ℕ) (s : VcpuState) → (with_efer x s).controls Control.efer ≡ x
efer_of x s = set_at-same control_number s.controls Control.efer x

kept_efer :
    (efer : Bool) (x y : ℕ) (s : VcpuState)
    → (if efer then with_efer x s else with_efer y (with_efer x s)).controls Control.efer
      ≡ (if efer then x else y)
kept_efer true x y s = efer_of x s
kept_efer false x y s = efer_of y (with_efer x s)

test_lem : (efer : Bool) (x : ℕ) → ((if efer then flip_lme x else x) == x) ≡ not efer
test_lem true x = flip_lme-other x
test_lem false x = ground arith

restored : (efer : Bool) (x y z : ℕ) → z ≡ (if efer then y else x) → (if efer then x else z) ≡ x
restored true x y z e = refl
restored false x y z e = e

module _ {K : Type 0} (sys : SysImpl VcpuState FxLayout K) (efer : Bool)
    (r : Remembers sys efer) where
  -- For a driver that keeps the registers.
  pub probe_efer-not :
      (zero : VcpuState) (k : K)
      → ((probe_efer sys zero k).0 ≡ not efer)
        × ((probe_efer sys zero k).1.controls Control.efer ≡ (r.regs k).controls Control.efer)
        × ((r.regs (probe_efer sys zero k).2).controls Control.efer
            ≡ (r.regs k).controls Control.efer)
  unfolding probe_efer
  probe_efer-not zero k =
      let s = r.regs k in
      let old = s.controls Control.efer in
      let flipped = with_efer (flip_lme old) s in
      let k1 = (sys.set_registers flipped k).1 in
      let t = r.regs k1 in
      let back = with_efer old t in
      let k2 = (sys.set_registers back k1).1 in
      let found : probe_efer sys zero k ≡ (t.controls Control.efer == old, back, k2) =
        rw (r.get_lem k, r.set_done flipped k, r.get_lem k1, probe_efer) refl in
      let seen : t.controls Control.efer ≡ (if efer then flip_lme old else old) =
        ap (λ u. u.controls Control.efer) (r.set_lem flipped k)
        ∙ kept_efer efer (flip_lme old) old s in
      let last : (r.regs k2).controls Control.efer ≡ old =
        ap (λ u. u.controls Control.efer) (r.set_lem back k1)
        ∙ kept_efer efer old (t.controls Control.efer) t
        ∙ restored efer old (flip_lme old) (t.controls Control.efer) seen in
      (
        ap (λ o. o.0) found ∙ ap (λ x. x == old) seen ∙ test_lem efer old,
        ap (λ o. o.1.controls Control.efer) found ∙ efer_of old t,
        ap (λ o. (r.regs o.2).controls Control.efer) found ∙ last,
      )
