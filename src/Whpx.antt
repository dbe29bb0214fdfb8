-- ===== src/Whpx.antt =====
-- The WHPX backend: modules/whpx/src.
pub mod Names
pub mod NameCases
pub mod FromCases
pub mod IntoCases
pub mod Values
pub mod Dispatch
pub mod Registers
pub mod Msrs
pub mod Controls
pub mod State
pub mod Run
pub mod Vm
pub mod Setup
pub mod Platform
mod Example
mod Tests
mod ControlTests
