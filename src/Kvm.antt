-- ===== src/Kvm.antt =====
-- The KVM backend: modules/kvm/src.
pub mod Regs
pub mod Place
pub mod ReadCases
pub mod WriteCases
pub mod Switch
pub mod Vcpu
pub mod State
pub mod Exit
pub mod Debug
pub mod Run
pub mod Controls
mod Tests
pub mod Msrs
pub mod Cpuid
pub mod Slots
pub mod Platform
mod SetupTests
