-- ===== src/Whpx/Registers.antt =====
-- RegRead and RegWrite of modules/whpx/src/whpx_vp.cpp.
pub mod Stored
pub mod Single
pub mod General
pub mod Sequence
use virt.Base.{Bool, true, false, if◌then◌else◌, Option, none, some, List, [], ◌∷◌, ◌>>=◌}
use virt.Vp.Status.{Failure, failed, invalid_arguments, unsupported}
use virt.Vp.Reg.{Reg}
use virt.Vp.Registers.{RegValue}
use virt.Whpx.Names.{Name, Views}
use virt.Whpx.NameCases.{translate_register_name}
use virt.Whpx.Values.{translate_from, translate_into}
use virt.Whpx.Dispatch.{Dispatch}

-- The loops that translate the names, up to the first that is not supported.
abbrev pub translate_names : Bool → List Reg → Option (List Name)
translate_names rs5 [] = some []
translate_names rs5 (r ∷ rs) =
    let rest = translate_names rs5 rs in
    translate_register_name rs5 r >>= (λ n. rest >>= (λ ns. some (n ∷ ns)))

module _ {V : Type 0} (x : Views V) where
  -- The values of the caller's array, whose first ones are replaced.
  abbrev pub values_from : List Reg → List V → List RegValue → List RegValue
  values_from (r ∷ rs) (w ∷ ws) (_ ∷ vs) = translate_from x r w ∷ values_from rs ws vs
  values_from _ _ vs = vs

  abbrev pub values_into : List Reg → List RegValue → List V → List V
  values_into (r ∷ rs) (v ∷ vs) (w ∷ ws) = translate_into x r v w ∷ values_into rs vs ws
  values_into _ _ ws = ws

module _ {V K : Type 0} (x : Views V) (d : Dispatch V K) (rs5 : Bool) where
  -- `null` is that one of the arrays is a null pointer, and `allocated` that there is memory for the
  -- hypervisor's arrays.
  unfoldable pub reg_read_array :
      Bool → Bool → K → List Reg → List RegValue → Option Failure × List RegValue
  reg_read_array null allocated k regs values =
      if null
      then (some invalid_arguments, values)
      else if allocated
      then elim (translate_names rs5 regs) [
        | none ↦ (some unsupported, values)
        | some names ↦ elim (d.get_registers names k) [
          | none ↦ (some failed, values)
          | some ws ↦ (none, values_from x regs ws values)
        ]
      ]
      else (some failed, values)

  unfoldable pub reg_write_array : Bool → Bool → List Reg → List RegValue → K → Option Failure × K
  reg_write_array null allocated regs values k =
      if null
      then (some invalid_arguments, k)
      else if allocated
      then elim (translate_names rs5 regs) [
        | none ↦ (some unsupported, k)
        | some names ↦ elim (d.get_registers names k) [
          | none ↦ (some failed, k)
          | some ws ↦
              let (done, k') = d.set_registers names (values_into x regs values ws) k in
              (if done then none else some failed, k')
        ]
      ]
      else (some failed, k)

  -- The result of a read is in a list of one value.
  unfoldable pub reg_read : Bool → K → Reg → RegValue → Option Failure × List RegValue
  unfolding reg_read_array
  reg_read allocated k reg value = reg_read_array false allocated k (reg ∷ []) (value ∷ [])

  unfoldable pub reg_write : Bool → Reg → RegValue → K → Option Failure × K
  unfolding reg_write_array
  reg_write allocated reg value k = reg_write_array false allocated (reg ∷ []) (value ∷ []) k
