-- ===== src/Lib.antt =====
-- A verification library for the core of virt86, which puts one interface over the virtualization
-- platforms of several operating systems. A Platform creates virtual machines, a VirtualMachine
-- owns the regions of guest memory, the I/O handlers and the virtual processors, and a
-- VirtualProcessor runs code, gives access to registers and descriptor tables, translates linear
-- addresses, and keeps a queue of interrupts. A backend derives from these classes: what it
-- implements is a parameter of Vm and Vp (the records Hypervisor, Platform and Backend), so that
-- what is proved there holds on every backend; Kvm, Haxm and Whpx are three of them.
--
-- Base: names, Boolean tests, list helpers, machine words and the laws of `&` and `|`. A word of w
-- bits is a number, with the wrap-around of the code written out.
--
-- Vm: modules/core/src/vm/vm.cpp and modules/core/include/virt86/vm.
--   Vm/Region     MemoryRegion (mem.hpp); host memory is a function from addresses to bytes.
--   Vm/Access     MemRead, MemWrite, GetMemoryRegion. The vector of regions is a list, oldest first.
--                 Access/Search and Served show which region serves a request, Pages compares it
--                 with the newest region that maps a byte, Wrap is about ranges past 2 ^ 64.
--   Vm/Subtract   SubtractMemoryRange. One pass over a region is a Turn; the loop runs on fuel of
--                 twice the number of regions and one, which Subtract/Pieces proves enough: a
--                 region gives at most one more region that the loop visits again.
--   Vm/Machine    MapGuestMemory, UnmapGuestMemory, SetGuestMemoryFlags, QueryDirtyPages,
--                 ClearDirtyPages, the default implementations, and the list of processors.
--   Vm/Machines   modules/core/src/platform/platform.cpp: the platform's list of machines.
--   Vm/Io         the callbacks for ports and memory-mapped devices, and their registration.
--
-- Vp: modules/core/src/vp and modules/core/include/virt86/vp.
--   Vp/Reg, Registers   the enumeration Reg and the union RegValue (regs.hpp), and the operations on
--                 several registers of vp.cpp. A null pointer is `none`.
--   Vp/Status, Modes    status.hpp and mode.hpp, GetExecutionMode, GetPagingMode, IsIA32eMode.
--   Vp/Paging     LinearToPhysical and the three walks; Paging/Entries has the bit-fields of
--                 paging.hpp, Paging/Walk a walk by recursion over the levels, and Paging/Pae
--                 what the PAE walk looks at.
--   Vp/Linear     LMemRead and LMemWrite. Their loop runs on fuel of the requested size, which is
--                 enough since each pass moves a byte or more.
--   Vp/Descriptors, Tables   gdt.cpp and idt.cpp, and the table operations of vp.cpp from GetGDTEntry
--                 to GetSegmentSize. An entry is the bytes that the views of its union share; what
--                 a local variable holds before it is filled in is a parameter.
--   Vp/Interrupts Run, Step, EnqueueInterrupt and the queue; the lock makes each call one step.
--   Vp/Layout     little-endian numbers in blocks of bytes.
--   Vp/Optional   the operations that a platform may leave out.
--
-- Kvm: modules/kvm/src, the backend for Linux. The ioctls are parameters (the records Kernel and
-- Calls); what they are documented to do is KernelLaws.
--   Kvm/Regs      kvm_helpers.cpp and the structures of KVM.
--   Kvm/Place, ReadCases, WriteCases, Switch   KvmRegRead and KvmRegWrite: a case names a Place, the
--                 part of a structure that it reads or writes. Switch/RoundTrip and Switch/Merge
--                 compare the two switches with each other and with the numbering of Reg.
--   Kvm/Vcpu      the cached registers: UpdateRegisters, RefreshRegisters, RegRead, RegWrite.
--                 Vcpu/Coherence and Invariant relate the cache and the kernel.
--   Kvm/Controls, Msrs   floating point control and MXCSR; model-specific registers, and the overloads
--                 on arrays of registers.
--   Kvm/Cpuid     the CPUID table that Initialize puts together.
--   Kvm/Slots     kvm_vm.cpp: the memory slots, as the record Hypervisor that Vm/Machine calls.
--   Kvm/Platform  kvm_platform.cpp: the constructor. The loop that looks for the number of CPUID entries
--                 runs on fuel of 28: 26 doublings of 40 exceed 2 ^ 31, and two more turns.
--   Kvm/State, Exit, Debug, Run   kvm_run and the other members, the exit handlers, breakpoints, and
--                 RunImpl, StepImpl and the interrupts as the record Backend that Vp/Interrupts
--                 drives. A failed assertion is `none`; the loop of HandleIO counts in 16 bits, so
--                 that a count of 2 ^ 16 or more, at which it does not end, is `none` as well.
--
-- Util: modules/core/src/util/host_info.cpp, the floating point extensions of features.hpp and
-- bytemanip.hpp. The CPUID instruction is a parameter.
--
-- Haxm: modules/haxm/src/common, the backend for HAXM. The driver's calls are the records SysImpl,
-- MsrDriver and VmCalls.
--   Haxm/State, Exit, Run, Debug   haxm_vp.cpp: the tunnel and the other members, the exit handlers,
--                 RunImpl, StepImpl and the interrupts as the record Backend; breakpoints. Here the
--                 register structures are type parameters.
--   Haxm/Regs, Place, ReadCases, WriteCases, Switch   haxm_helpers.cpp, the structures of registers, and
--                 HaxmRegRead and HaxmRegWrite, as for KVM.
--   Haxm/Registers, Controls, Create   RegRead and RegWrite, floating point control and MXCSR, and the
--                 constructor's test whether EFER is an MSR.
--   Haxm/Msrs     the MSRs. The loops of GetMSRs and SetMSRs run on fuel of one more than the number
--                 of registers, which is enough since each turn takes at least one.
--   Haxm/Vm, Platform   haxm_vm.cpp, with the loop over the processors as for WHPX, and guest memory as
--                 the record Hypervisor; the constructor of HaxmPlatform, and the order of HaxmVersion.
--
-- Whpx: modules/whpx/src, the backend for the Windows hypervisor. Its calls are the records Dispatch,
-- RunCalls, PartitionCalls and MemoryCalls, and the layout of its values the record Views; what its
-- documentation says of them are the laws Answers and Keeps (Whpx/Dispatch), on the registers that hold
-- what is written to them, and Layout (Whpx/Names/Laws).
--   Whpx/NameCases, FromCases, IntoCases, Values   whpx_regs.cpp: TranslateRegisterName, and the two
--                 functions TranslateRegisterValue; a case names a Kind of value. Names has the names
--                 of the hypervisor's registers.
--   Whpx/Registers   RegRead and RegWrite of whpx_vp.cpp. Registers/Single and General are about one
--                 register, Registers/Sequence compares several at once with one after the other.
--   Whpx/Msrs, Controls   TranslateMSR and the MSRs; floating point control and MXCSR.
--   Whpx/State, Run   RunImpl, the handlers of exits, the callbacks for I/O, and the interrupts as the
--                 record Backend. The instruction emulator is a parameter; a failed assertion in a
--                 callback is `none`.
--   Whpx/Setup, Vm, Platform   Initialize of machine and processors, guest memory, the constructor of
--                 WhpxPlatform. The version of WHPX is a Boolean: at least 10.0.17763.0 or not. The loop
--                 over the processors runs on fuel of their number, which is enough below 2 ^ 32, where
--                 its counter does not wrap (Setup/Ends); with more it may not end.
--   Whpx/Example  the hypervisor on which the tests run.
--
-- Vm/Tests, Vp/Tests, Kvm/Tests, Kvm/SetupTests, Haxm/Tests, Haxm/RegisterTests, Haxm/MachineTests,
-- Whpx/Tests and Whpx/ControlTests apply the theorems to small machines.
--
-- Not modelled: the backend modules/hvf, most of whose operations are stubs; of HAXM and WHPX the calls
-- of the driver and the loading of the library; of KVM the calls that create and close file
-- descriptors; the system layers (modules/sys) and the programs under apps, which call operating
-- systems and drivers.
pub mod Base
pub mod Vm
pub mod Vp
pub mod Util
pub mod Kvm
pub mod Haxm
pub mod Whpx
