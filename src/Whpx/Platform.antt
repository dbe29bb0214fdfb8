-- ===== src/Whpx/Platform.antt =====
-- The start of the platform on Windows: the constructor of WhpxPlatform, modules/whpx/src/whpx_platform.cpp.
use virt.Base.{ℕ, Bool, true, not, if◌then◌else◌, bit_or}
use virt.Kvm.Platform.{PlatformInitStatus, HostLimits, Features}

-- What the calls of WHvGetCapability give: whether the result is S_OK, and what then stands in the structure.
pub record Capabilities : Type 0 where
  pub loads : Bool
  pub present_done : Bool
  pub present : Bool
  pub features_done : Bool
  pub dirty_page_tracking : Bool
  pub partial_unmap : Bool
  pub exits_done : Bool
  pub cpuid_exit : Bool
  pub msr_exit : Bool
  pub exception_exit : Bool
  pub bitmap_done : Bool
  pub exception_bitmap : ℕ

-- What is published before the extended exits.
abbrev with_features : Bool → Capabilities → HostLimits → Features → Features
with_features rs5 c host empty = record empty {
  guest_physical_address = host;
  extended_control_registers = if rs5 then 7 else 6;
  max_processors_per_vm = 64;
  max_processors_global = 128;
  unrestricted_guest = true;
  extended_page_tables = true;
  large_memory_allocation = true;
  custom_cpuids = true;
  dirty_page_tracking = c.dirty_page_tracking;
  partial_dirty_bitmap = true;
  partial_unmapping = c.partial_unmap;
  memory_aliasing = true;
  memory_unmapping = true;
}

abbrev add_exit : Bool → ℕ → Features → Features
add_exit there exit f =
    if there then record f { extended_vm_exits = bit_or f.extended_vm_exits exit } else f

abbrev or_failed : Bool → PlatformInitStatus → PlatformInitStatus
or_failed done status = if done then status else PlatformInitStatus.failed

-- `dispatch` is that there is a table of functions. After the features the status is set to OK, whatever
-- the calls before gave.
unfoldable pub start :
    Bool → Bool → Capabilities → HostLimits → Features → PlatformInitStatus × Features
start dispatch rs5 c host empty =
    let published = with_features rs5 c host empty in
    let status = or_failed c.exits_done PlatformInitStatus.ok in
    let exits = add_exit c.msr_exit 2 (add_exit c.cpuid_exit 1 published) in
    if not dispatch
    then (PlatformInitStatus.failed, empty)
    else if not c.loads
    then (PlatformInitStatus.unavailable, empty)
    else if not c.present
    then (PlatformInitStatus.unavailable, empty)
    else if c.exception_exit
    then (
      or_failed c.bitmap_done status,
      record (add_exit true 4 exits) { exception_exits = c.exception_bitmap },
    )
    else (status, exits)
