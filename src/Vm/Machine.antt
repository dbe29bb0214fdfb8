-- ===== src/Vm/Machine.antt =====
-- VirtualMachine of modules/core/src/vm/vm.cpp: the checks on a request to map, unmap or protect
-- guest memory or to track its dirty pages, the hypervisor's part, and the list of regions.
pub mod Checks
pub mod Mapping
pub mod Dirty
use mathlib.Core.Option
use virt.Base.{
  ℕ, ◌+◌, ◌-◌, ◌/◌, ◌%◌, ◌^◌, Bool, true, false, not, ◌&&◌, ◌||◌, ltb, ◌==◌, if◌then◌else◌, Option,
  none, some, List, [], ◌∷◌, ◌++◌, get_elem?, add64, sub64, u64, has_any, not64,
}
use virt.Vm.Region.{MemoryRegion, final_address}
use virt.Vm.Subtract.{subtract_memory_range}

-- modules/core/include/virt86/vm/status.hpp
pub data MemoryMappingStatus : Type 0 where
  ok unsupported misaligned_host_memory misaligned_address misaligned_size empty_range :
      MemoryMappingStatus
  partial_unmap_unsupported already_allocated invalid_flags invalid_range failed out_of_bounds :
      MemoryMappingStatus

pub data DirtyPageTrackingStatus : Type 0 where
  ok unsupported misaligned_address misaligned_size misaligned_bitmap empty_range bitmap_too_small :
      DirtyPageTrackingStatus
  not_enabled invalid_range failed : DirtyPageTrackingStatus

-- What the platform and the host give: one feature flag, and HostInfo.gpa.mask.
pub record Host : Type 0 where
  pub large_memory_allocation : Bool
  pub gpa_mask : ℕ

-- The virtual `…Impl` methods, over the hypervisor's state. Flags are their bits.
pub record Hypervisor (S : Type 0) : Type 0 where
  pub map_impl : ℕ → ℕ → ℕ → ℕ → S → MemoryMappingStatus × S
  pub unmap_impl : ℕ → ℕ → S → MemoryMappingStatus × S
  pub set_flags_impl : ℕ → ℕ → ℕ → S → MemoryMappingStatus × S
  pub query_dirty_impl : ℕ → ℕ → ℕ → ℕ → S → DirtyPageTrackingStatus × S
  pub clear_dirty_impl : ℕ → ℕ → S → DirtyPageTrackingStatus × S

-- A virtual processor is known by its address.
pub record Machine (S : Type 0) : Type 0 where
  pub regions : List MemoryRegion
  pub vps : List ℕ
  pub state : S

abbrev pub is_ok : MemoryMappingStatus → Bool
is_ok MemoryMappingStatus.ok = true
is_ok _ = false

abbrev pub region_at : ℕ → ℕ → ℕ → MemoryRegion
region_at base size memory = record { base_address = base; size = size; host_memory = memory }

module _ {S : Type 0} (v : Hypervisor S) (host : Host) where
  unfoldable pub map_checked : Machine S → ℕ → ℕ → ℕ → ℕ → MemoryMappingStatus × Machine S
  map_checked m base size flags memory =
      let (status, s) = v.map_impl base size flags memory m.state in
      let region = region_at base size memory in
      if is_ok status
      then (status, record m { regions = m.regions ++ region ∷ []; state = s })
      else (status, record m { state = s })

  unfoldable pub map_guest_memory : Machine S → ℕ → ℕ → ℕ → ℕ → MemoryMappingStatus × Machine S
  unfolding map_checked final_address
  map_guest_memory m base size flags memory =
      if has_any memory 0xfff
      then (misaligned_host_memory, m)
      else if has_any base 0xfff
      then (MemoryMappingStatus.misaligned_address, m)
      else if size == 0
      then (MemoryMappingStatus.empty_range, m)
      else if has_any size 0xfff
      then (MemoryMappingStatus.misaligned_size, m)
      else if ltb 0xffff_ffff size && not host.large_memory_allocation
      then (MemoryMappingStatus.unsupported, m)
      else if has_any base (not64 host.gpa_mask)
          || has_any (final_address base size) (not64 host.gpa_mask)
      then (out_of_bounds, m)
      else map_checked m base size flags memory

  -- `none` means that the loop of SubtractMemoryRange ran out of its fuel.
  unfoldable pub unmap_checked : Machine S → ℕ → ℕ → Option (MemoryMappingStatus × Machine S)
  unmap_checked m base size =
      let (status, s) = v.unmap_impl base size m.state in
      if is_ok status
      then Option.map (λ rs. (status, record m { regions = rs; state = s }))
          (subtract_memory_range m.regions base size)
      else some (status, record m { state = s })

  unfoldable pub unmap_guest_memory : Machine S → ℕ → ℕ → Option (MemoryMappingStatus × Machine S)
  unfolding unmap_checked
  unmap_guest_memory m base size =
      if has_any base 0xfff
      then some (MemoryMappingStatus.misaligned_address, m)
      else if size == 0
      then some (MemoryMappingStatus.empty_range, m)
      else if has_any size 0xfff
      then some (MemoryMappingStatus.misaligned_size, m)
      else if ltb 0xffff_ffff size && not host.large_memory_allocation
      then some (MemoryMappingStatus.unsupported, m)
      else unmap_checked m base size

  pub set_guest_memory_flags : Machine S → ℕ → ℕ → ℕ → MemoryMappingStatus × Machine S
  set_guest_memory_flags m base size flags =
      if has_any base 0xfff
      then (MemoryMappingStatus.misaligned_address, m)
      else if size == 0
      then (MemoryMappingStatus.empty_range, m)
      else if has_any size 0xfff
      then (MemoryMappingStatus.misaligned_size, m)
      else if ltb 0xffff_ffff size && not host.large_memory_allocation
      then (MemoryMappingStatus.unsupported, m)
      else let (status, s) = v.set_flags_impl base size flags m.state in
        (status, record m { state = s })

  -- `bitmap` is the buffer's address.
  unfoldable pub query_dirty_pages : Machine S → ℕ → ℕ → ℕ → ℕ → DirtyPageTrackingStatus × Machine S
  query_dirty_pages m base size bitmap bitmap_size =
      if has_any base 0xfff
      then (DirtyPageTrackingStatus.misaligned_address, m)
      else if size == 0
      then (DirtyPageTrackingStatus.empty_range, m)
      else if has_any size 0xfff
      then (DirtyPageTrackingStatus.misaligned_size, m)
      else if has_any bitmap 0x7
      then (misaligned_bitmap, m)
      else if ltb bitmap_size (u64 (size / 4096 + 8 - 1) / 8)
      then (bitmap_too_small, m)
      else let (status, s) = v.query_dirty_impl base size bitmap bitmap_size m.state in
        (status, record m { state = s })

  pub clear_dirty_pages : Machine S → ℕ → ℕ → DirtyPageTrackingStatus × Machine S
  clear_dirty_pages m base size =
      if has_any base 0xfff
      then (DirtyPageTrackingStatus.misaligned_address, m)
      else if size == 0
      then (DirtyPageTrackingStatus.empty_range, m)
      else if has_any size 0xfff
      then (DirtyPageTrackingStatus.misaligned_size, m)
      else let (status, s) = v.clear_dirty_impl base size m.state in
        (status, record m { state = s })

-- The optional methods that a hypervisor leaves as they are.
unfoldable pub default_unmap_impl {ℓ} : {S : Type ℓ} → ℕ → ℕ → S → MemoryMappingStatus × S
default_unmap_impl base size s = (MemoryMappingStatus.unsupported, s)

pub default_set_flags_impl {ℓ} : {S : Type ℓ} → ℕ → ℕ → ℕ → S → MemoryMappingStatus × S
default_set_flags_impl base size flags s = (MemoryMappingStatus.unsupported, s)

pub default_query_dirty_impl {ℓ} : {S : Type ℓ} → ℕ → ℕ → ℕ → ℕ → S → DirtyPageTrackingStatus × S
default_query_dirty_impl base size bitmap bitmap_size s = (DirtyPageTrackingStatus.unsupported, s)

pub default_clear_dirty_impl {ℓ} : {S : Type ℓ} → ℕ → ℕ → S → DirtyPageTrackingStatus × S
default_clear_dirty_impl base size s = (DirtyPageTrackingStatus.unsupported, s)

module _ {S : Type 0} where
  pub get_virtual_processor : Machine S → ℕ → Option ℕ
  get_virtual_processor m index = get_elem? m.vps index

  pub register_vp : Machine S → ℕ → Machine S
  register_vp m vp = record m { vps = m.vps ++ vp ∷ [] }

  pub destroy_vps : Machine S → Machine S
  destroy_vps m = record m { vps = [] }
