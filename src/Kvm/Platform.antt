-- ===== src/Kvm/Platform.antt =====
-- The start-up of the platform on Linux: the constructor of KvmPlatform, modules/kvm/src/kvm_platform.cpp.
-- What the kernel answers is a parameter.
pub mod Supported
use virt.Base.{
  ℕ, zero, suc, ◌-◌, ◌*◌, ◌^◌, ◌==◌, Bool, true, false, not, ◌&&◌, if◌then◌else◌, u32, Option, none,
  some, List, [],
}
use virt.Kvm.Cpuid.{CpuidResult}

-- modules/core/include/virt86/platform/platform.hpp
pub data PlatformInitStatus : Type 0 where
  uninitialized ok unavailable unsupported failed : PlatformInitStatus

-- The capabilities that are asked for by KVM_CHECK_EXTENSION.
pub data Capability : Type 0 where
  user_memory set_identity_map_addr nr_vcpus max_vcpus ext_cpuid : Capability

-- KVM_GET_SUPPORTED_CPUID with room for a number of entries: the entries, E2BIG, ENOMEM with the number
-- that it leaves in nent, or another error.
pub data CpuidAnswer : Type 0 where
  filled : List CpuidResult → CpuidAnswer
  too_small : CpuidAnswer
  too_large : ℕ → CpuidAnswer
  other_error : CpuidAnswer

-- /dev/kvm. An ioctl's negative result is the number of 32 bits that has its bits. The last two are the
-- ioctls with KVM_CAP_DEBUGREGS and KVM_CAP_SET_GUEST_DEBUG as requests.
pub record Device : Type 0 where
  pub opens : Bool
  pub api_version : ℕ
  pub check_extension : Capability → ℕ
  pub supported_cpuid : ℕ → CpuidAnswer
  pub debug_regs_request : ℕ
  pub set_guest_debug_request : ℕ

-- HostInfo, of which the constructor takes these numbers.
pub record HostLimits : Type 0 where
  pub max_bits : ℕ
  pub max_address : ℕ
  pub mask : ℕ
  pub floating_point_extensions : ℕ

-- PlatformFeatures of features.hpp.
pub record Features : Type 0 where
  pub max_processors_global : ℕ
  pub max_processors_per_vm : ℕ
  pub guest_physical_address : HostLimits
  pub unrestricted_guest : Bool
  pub extended_page_tables : Bool
  pub guest_debugging : Bool
  pub guest_memory_protection : Bool
  pub dirty_page_tracking : Bool
  pub partial_dirty_bitmap : Bool
  pub large_memory_allocation : Bool
  pub memory_aliasing : Bool
  pub memory_unmapping : Bool
  pub partial_unmapping : Bool
  pub partial_mmio_instructions : Bool
  pub extended_control_registers : ℕ
  pub extended_vm_exits : ℕ
  pub exception_exits : ℕ
  pub custom_cpuids : Bool
  pub supported_custom_cpuids : List CpuidResult

-- The loop that asks for the supported entries: `none` is a loop that ran out of its fuel, and `some none`
-- another error.
unfoldable pub supported_cpuids : (ℕ → CpuidAnswer) → ℕ → ℕ → Option (Option (List CpuidResult))
supported_cpuids answer zero count = none
supported_cpuids answer (suc fuel) count =
    let doubled = supported_cpuids answer fuel (u32 (count * 2)) in
    elim (answer count) [
      | filled entries ↦ some (some entries)
      | too_small ↦ doubled
      | too_large n ↦ supported_cpuids answer fuel n
      | other_error ↦ some none
    ]

-- What is published before the list of entries.
unfoldable pub features : Device → HostLimits → Features
features d host =
    let per_vm = d.check_extension nr_vcpus in
    let global = d.check_extension max_vcpus in
    let max_processors_per_vm = if per_vm == 0 then 4 else per_vm in
    record {
      max_processors_per_vm = max_processors_per_vm;
      max_processors_global = if global == 0 then max_processors_per_vm else global;
      guest_physical_address = host;
      unrestricted_guest = true;
      extended_page_tables = true;
      guest_debugging = not (d.debug_regs_request == 0) && not (d.set_guest_debug_request == 0);
      guest_memory_protection = false;
      dirty_page_tracking = true;
      partial_dirty_bitmap = false;
      large_memory_allocation = true;
      memory_aliasing = true;
      memory_unmapping = false;
      partial_unmapping = false;
      partial_mmio_instructions = false;
      extended_control_registers = 3;
      extended_vm_exits = 4;
      exception_exits = 2 ^ 20 - 1;
      custom_cpuids = not (d.check_extension ext_cpuid == 0);
      supported_custom_cpuids = [];
    }

abbrev with_cpuids :
    Features → Option (Option (List CpuidResult)) → Option (PlatformInitStatus × Features)
with_cpuids f none = none
with_cpuids f (some none) = some (failed, f)
with_cpuids f (some (some entries)) = some (ok, record f { supported_custom_cpuids = entries })

-- The doublings from 40 to 2 ^ 31, and two more turns.
abbrev pub cpuid_fuel : ℕ
cpuid_fuel = 28

-- `empty` are the features before the constructor's body.
unfoldable pub start : Device → HostLimits → Features → Option (PlatformInitStatus × Features)
unfolding features supported_cpuids
start d host empty =
    let f = features d host in
    if not d.opens
    then some (unavailable, empty)
    else if not (d.api_version == 12)
    then some (unsupported, empty)
    else if d.check_extension user_memory == 0
    then some (unsupported, empty)
    else if d.check_extension set_identity_map_addr == 0
    then some (unsupported, empty)
    else if f.custom_cpuids
    then with_cpuids f (supported_cpuids d.supported_cpuid cpuid_fuel 40)
    else some (ok, f)
