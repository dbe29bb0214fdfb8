-- ===== src/Vp.antt =====
-- The virtual processor: modules/core/src/vp and the headers of modules/core/include/virt86/vp.
pub mod Layout
pub mod Status
pub mod Reg
pub mod Registers
pub mod Modes
pub mod Paging
pub mod Descriptors
pub mod Interrupts
pub mod Tables
pub mod Linear
mod Tests
pub mod Optional
