-- ===== src/Haxm.antt =====
-- The HAXM backend: modules/haxm/src/common.
pub mod State
pub mod Exit
pub mod Run
pub mod Debug
pub mod Msrs
pub mod Regs
pub mod Place
pub mod ReadCases
pub mod WriteCases
pub mod Switch
pub mod Registers
pub mod Controls
pub mod Create
pub mod Vm
pub mod Platform
mod Tests
mod RegisterTests
mod MachineTests
