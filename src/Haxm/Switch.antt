-- ===== src/Haxm/Switch.antt =====
-- HaxmRegRead and HaxmRegWrite of modules/haxm/src/common/haxm_vp.cpp: the switches over all registers.
pub mod RoundTrip
pub mod Merge
use virt.Base.{Bool, Option, none, some}
use virt.Vp.Status.{Failure, unsupported}
use virt.Vp.Reg.{Reg}
use virt.Vp.Registers.{RegValue}
use virt.Haxm.Msrs.{MsrDriver}
use virt.Haxm.Place.{Cache, read_place, write_place}
use virt.Haxm.ReadCases.{read_case}
use virt.Haxm.WriteCases.{write_case}

module _ {K : Type 0} (driver : MsrDriver K) (use_efer_msr : Bool) where
  unfoldable pub haxm_reg_read : Cache K → Reg → RegValue → Option Failure × RegValue
  haxm_reg_read c reg v = elim (read_case reg) [
    | none ↦ (some unsupported, v)
    | some place ↦ (none, read_place driver use_efer_msr c place v)
  ]

  unfoldable pub haxm_reg_write : Reg → RegValue → Cache K → Option Failure × Cache K
  haxm_reg_write reg v c = elim (write_case reg) [
    | none ↦ (some unsupported, c)
    | some place ↦ (none, write_place driver use_efer_msr place v c)
  ]
