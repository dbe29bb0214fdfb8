-- ===== src/Kvm/Switch.antt =====
-- KvmRegRead and KvmRegWrite of modules/kvm/src/kvm_vp.cpp: the switches over all registers.
pub mod RoundTrip
pub mod Merge
use virt.Base.{Option, none, some}
use virt.Vp.Status.{Failure, unsupported}
use virt.Vp.Reg.{Reg}
use virt.Vp.Registers.{RegValue}
use virt.Kvm.Place.{Cache, read_place, write_place}
use virt.Kvm.ReadCases.{read_case}
use virt.Kvm.WriteCases.{write_case}

unfoldable pub kvm_reg_read : Cache → Reg → RegValue → Option Failure × RegValue
kvm_reg_read c reg v = elim (read_case reg) [
  | none ↦ (some unsupported, v)
  | some place ↦ (none, read_place c place v)
]

unfoldable pub kvm_reg_write : Reg → RegValue → Cache → Option Failure × Cache
kvm_reg_write reg v c = elim (write_case reg) [
  | none ↦ (some unsupported, c)
  | some place ↦ (none, write_place place v c)
]
