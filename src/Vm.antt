-- ===== src/Vm.antt =====
-- modules/core/src/vm/vm.cpp and the headers of modules/core/include/virt86/vm: the virtual
-- machine's guest memory, its checks before the hypervisor is called, and its I/O callbacks.
pub mod Region
pub mod Access
pub mod Subtract
pub mod Io
pub mod Machine
mod Tests
pub mod Machines
