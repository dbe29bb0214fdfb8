-- ===== src/Whpx/Registers/Single.antt =====
-- Reads and writes of one register on WHPX.
use mathlib.Core.Option
use mathlib.Core.Path.{subst}
use virt.Base.{◌≡◌, refl, sym, ap, ◌∙◌, Bool, true, none, some, [], ◌∷◌, All}
use virt.Vp.Reg.{Reg}
use virt.Vp.Registers.{RegValue}
use virt.Kvm.Regs.Laws.{set_at-same}
use virt.Kvm.Switch.RoundTrip.{Agree}
use virt.Whpx.Names.{Name, name_number, Stored, Kind, Views}
use virt.Whpx.Names.Laws.{Layout}
use virt.Whpx.NameCases.{translate_register_name}
use virt.Whpx.FromCases.{from_kind}
use virt.Whpx.IntoCases.{into_kind}
use virt.Whpx.Values.{value_from, value_into, translate_from, translate_into}
use virt.Whpx.Values.RoundTrip.{from_of, parts, from_kind-into_kind, value_back}
use virt.Whpx.Dispatch.{Dispatch, Answers, written}
use virt.Whpx.Registers.{reg_read, reg_write}
use virt.Whpx.Registers.Stored.{translate_register_name-Stored}

module _ {V K : Type 0} (x : Views V) (laws : Layout x) (d : Dispatch V K) (a : Answers d)
    (rs5 : Bool) where
  -- What a read of one register gives.
  pub reg_read-file :
      (reg : Reg) (name : Name) (v : RegValue) (k : K)
      → translate_register_name rs5 reg ≡ some name
      → reg_read x d rs5 true k reg v ≡ (none, translate_from x reg (a.file k name) ∷ [])
  unfolding reg_read
  reg_read-file reg name v k e =
      rw (e, a.get_lem (name ∷ []) k (translate_register_name-Stored rs5 reg name e, tt)) refl

  -- What a write to one register does.
  pub reg_write-file :
      (reg : Reg) (name : Name) (v : RegValue) (k : K)
      → translate_register_name rs5 reg ≡ some name
      → ((reg_write x d rs5 true reg v k).0 ≡ none)
        × (a.file (reg_write x d rs5 true reg v k).1
            ≡ written (name ∷ []) (translate_into x reg v (a.file k name) ∷ []) (a.file k))
  unfolding reg_write
  reg_write-file reg name v k e =
      let new = translate_into x reg v (a.file k name) in
      let stored : All Stored (name ∷ []) = (translate_register_name-Stored rs5 reg name e, tt) in
      rw (e, a.get_lem (name ∷ []) k stored, a.set_done (name ∷ []) (new ∷ []) k stored)
        (refl, a.set_lem (name ∷ []) (new ∷ []) k stored)

  -- For a hypervisor that answers as documented, enough memory, and every register that WHPX has
  -- except AH, BH, CH and DH: a write returns OK, a read of the same register returns OK, and
  -- gives the value that was written in each field that belongs to the register's width or kind.
  -- For those four it states only the statuses.
  pub reg_read-reg_write :
      (reg : Reg) (name : Name) (kind : Kind) (v w : RegValue) (k : K)
      → translate_register_name rs5 reg ≡ some name
      → into_kind reg ≡ some kind
      → ((reg_write x d rs5 true reg v k).0 ≡ none)
        × ((out : RegValue) × (reg_read x d rs5 true (reg_write x d rs5 true reg v k).1 reg w
              ≡ (none, out ∷ []))
            × Agree out v (parts kind))
  unfolding translate_from translate_into
  reg_read-reg_write reg name kind v w k e i =
      let k' = (reg_write x d rs5 true reg v k).1 in
      let old = a.file k name in
      let back : from_kind reg ≡ some (from_of kind) =
        from_kind-into_kind reg ∙ ap (Option.map from_of) i in
      let (done, stored) = reg_write-file reg name v k e in
      let new : a.file k' name ≡ translate_into x reg v old =
        ap (λ f. f name) stored ∙ set_at-same name_number (a.file k) name _ in
      let value : translate_from x reg (a.file k' name)
          ≡ value_from x (from_of kind) (value_into x kind v old) =
        ap (translate_from x reg) new ∙ rw (back, i, translate_from, translate_into) refl in
      let agrees = subst (λ t. Agree t v (parts kind)) (sym value) (value_back x laws kind v old) in
      (done, (translate_from x reg (a.file k' name), reg_read-file reg name w k' e, agrees))
