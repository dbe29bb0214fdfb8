-- ===== src/Whpx/Setup.antt =====
-- The start of a machine on WHPX: WhpxVirtualMachine::Initialize of modules/whpx/src/whpx_vm.cpp, and
-- WhpxVirtualProcessor::Initialize of modules/whpx/src/whpx_vp.cpp.
pub mod ExitFunctions
pub mod Started
pub mod Ends
use virt.Base.{
  ℕ, zero, suc, ◌+◌, ◌==◌, Bool, true, false, not, if◌then◌else◌, bit_and, has_any, ltb, u32,
  Option, none, some, List, [], ◌∷◌, ◌++◌,
}
use virt.Kvm.Regs.{SegmentName, Gpr}
use virt.Kvm.Cpuid.{CpuidResult}
use virt.Whpx.Names.{Name, segment, gpr, Views}
use virt.Whpx.Dispatch.{Dispatch}

-- The exits that WHPX can be asked for.
pub record ExtendedExits : Type 0 where
  pub cpuid_exit : Bool
  pub msr_exit : Bool
  pub exception_exit : Bool

-- The calls on the partition. `create_vp` is WHvCreateVirtualProcessor with a processor's number, and
-- `delete_vp` WHvDeleteVirtualProcessor, with whether the partition's handle is valid.
pub record PartitionCalls (K : Type 0) : Type 0 where
  pub create_partition : K → Bool × K
  pub set_processor_count : ℕ → K → Bool × K
  pub set_extended_exits : ExtendedExits → K → Bool × K
  pub set_cpuid_exit_list : List ℕ → K → Bool × K
  pub set_exception_bitmap : ℕ → K → Bool × K
  pub set_cpuid_results : List CpuidResult → K → Bool × K
  pub setup_partition : K → Bool × K
  pub close_handle : K → K
  pub create_vp : ℕ → K → Bool × K
  pub delete_vp : Bool → ℕ → K → K
  pub create_emulator : K → Bool × K
  pub destroy_emulator : K → K

-- VMSpecifications of modules/core/include/virt86/vm/specs.hpp, of which WHPX reads these.
pub record Specifications : Type 0 where
  pub num_processors : ℕ
  pub extended_vm_exits : ℕ
  pub vm_exit_cpuid_functions : List ℕ
  pub vm_exit_exceptions : ℕ
  pub cpuid_results : List CpuidResult

-- The virtual processors are known by their numbers.
pub record WhpxVm (K : Type 0) : Type 0 where
  pub handle : Bool
  pub vps : List ℕ
  pub kernel : K

-- The array of CPUID functions from an index on: the loop's body is `functions[i++] = ...at(i)`, and the
-- loop counts `i` up once more. `fresh` is the memory of the new array.
unfoldable pub exit_functions : (ℕ → ℕ) → ℕ → List ℕ → List ℕ
exit_functions fresh i [] = []
exit_functions fresh i (f ∷ []) = f ∷ []
exit_functions fresh i (f ∷ _ ∷ rest) = f ∷ fresh (i + 1) ∷ exit_functions fresh (i + 2) rest

module _ {V K : Type 0} (x : Views V) (d : ℕ → Dispatch V K) (calls : PartitionCalls K)
    (garbage : V) where
  -- The values for CS and RDX.
  abbrev pub reset_values : List V
  reset_values =
      x.segment.set
        (record { selector = 0xf000; base = 0xffff_0000; limit = 0xffff; attributes = 0x93 })
        garbage
      ∷ x.reg64.set 0 garbage
      ∷ []

  -- WhpxVirtualProcessor::Initialize. `d id` are the calls on the registers of a processor.
  unfoldable pub initialize_vp : ℕ → K → Bool × K
  initialize_vp id k =
      let (created, k1) = calls.create_vp id k in
      let (emulator, k2) = calls.create_emulator k1 in
      let (reset, k3) =
        (d id).set_registers (segment SegmentName.cs ∷ gpr Gpr.rdx ∷ []) reset_values k2 in
      if created
      then (if emulator
          then (if reset
              then (true, k3)
              else (false, calls.delete_vp true id (calls.destroy_emulator k3)))
          else (false, calls.delete_vp true id k2))
      else (false, k1)

  abbrev pub Step : Type 0
  Step = WhpxVm K → Bool × WhpxVm K

  -- A call whose failure closes the handle, and one whose failure does not.
  abbrev pub closing : (K → Bool × K) → Step
  closing call vm =
      let (done, k) = call vm.kernel in
      if done
      then (true, record vm { kernel = k })
      else (false, record vm { handle = false; kernel = calls.close_handle k })

  abbrev pub stopping : (K → Bool × K) → Step
  stopping call vm = let (done, k) = call vm.kernel in (done, record vm { kernel = k })

  abbrev pub next : Bool × WhpxVm K → Step → Bool × WhpxVm K
  next (done, vm) step = if done then step vm else (false, vm)

  -- The loop over the processors, whose counter `id` has 32 bits, on fuel; `none` means that it has not
  -- ended. The destructor of a processor that is not initialized deletes it again, when the handle is
  -- closed already.
  unfoldable pub create_vps : ℕ → ℕ → ℕ → WhpxVm K → Option (Bool × WhpxVm K)
  unfolding initialize_vp
  create_vps zero id num_processors vm = if ltb id num_processors then none else some (true, vm)
  create_vps (suc fuel) id num_processors vm =
      let (done, k) = initialize_vp id vm.kernel in
      let rest =
        create_vps fuel (u32 (id + 1)) num_processors
          (record vm { vps = vm.vps ++ id ∷ []; kernel = k }) in
      let closed = record vm {
        handle = false;
        kernel = calls.delete_vp false id (calls.close_handle k);
      } in
      if ltb id num_processors
      then (if done then rest else some (false, closed))
      else some (true, vm)

  unfoldable pub create : Step
  create vm =
      let (created, k) = calls.create_partition vm.kernel in
      (created, record vm { handle = created; kernel = k })

  -- Whenever one of the exits is enabled, that for CPUID is too.
  unfoldable pub set_exits : ℕ → Step
  set_exits enabled vm =
      let exits : ExtendedExits = record {
        cpuid_exit = true;
        msr_exit = has_any enabled 2;
        exception_exit = has_any enabled 4;
      } in
      if enabled == 0 then (true, vm) else closing (calls.set_extended_exits exits) vm

  unfoldable pub set_functions : ℕ → (ℕ → ℕ) → List ℕ → Step
  unfolding exit_functions
  set_functions enabled fresh [] vm = (true, vm)
  set_functions enabled fresh (f ∷ fs) vm =
      let functions = exit_functions fresh 0 (f ∷ fs) in
      if has_any enabled 1 then stopping (calls.set_cpuid_exit_list functions) vm else (true, vm)

  unfoldable pub set_exceptions : ℕ → ℕ → Step
  set_exceptions enabled exceptions vm =
      if has_any enabled 4 then closing (calls.set_exception_bitmap exceptions) vm else (true, vm)

  unfoldable pub set_results : List CpuidResult → Step
  set_results [] vm = (true, vm)
  set_results (r ∷ rs) vm = stopping (calls.set_cpuid_results (r ∷ rs)) vm

  -- What Initialize does between the partition and the processors, in its order. `supported` are the
  -- platform's exits.
  abbrev pub steps : ℕ → (ℕ → ℕ) → Specifications → List Step
  steps supported fresh specs =
      let enabled = bit_and specs.extended_vm_exits supported in
      closing (calls.set_processor_count (u32 specs.num_processors))
      ∷ set_exits enabled
      ∷ set_functions enabled fresh specs.vm_exit_cpuid_functions
      ∷ set_exceptions enabled specs.vm_exit_exceptions
      ∷ set_results specs.cpuid_results
      ∷ closing calls.setup_partition
      ∷ []

  abbrev pub run_steps : List Step → Step
  run_steps [] vm = (true, vm)
  run_steps (step ∷ rest) vm = next (step vm) (run_steps rest)

  -- As many passes as processors, which are enough below 2 ^ 32 of them.
  unfoldable pub initialize : ℕ → (ℕ → ℕ) → Specifications → WhpxVm K → Option (Bool × WhpxVm K)
  unfolding create set_exits set_functions set_exceptions set_results create_vps
  initialize supported fresh specs vm =
      let (done, ready) = next (create vm) (run_steps (steps supported fresh specs)) in
      if done
      then create_vps specs.num_processors 0 specs.num_processors ready
      else some (false, ready)
