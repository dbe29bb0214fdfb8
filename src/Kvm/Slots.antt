-- ===== src/Kvm/Slots.antt =====
-- The memory slots of a machine on KVM: modules/kvm/src/kvm_vm.cpp, from MapGuestMemoryImpl on. The machine
-- and the ioctls are those of the kernel.
pub mod Fresh
use virt.Base.{
  ℕ, ◌+◌, ◌-◌, ◌/◌, ◌==◌, Bool, false, not, ◌&&◌, if◌then◌else◌, has_any, u32, Option, none, some,
  List, [], ◌∷◌, ◌++◌,
}
use virt.Vm.Machine.{MemoryMappingStatus, DirtyPageTrackingStatus, Hypervisor, default_unmap_impl}

-- kvm_userspace_memory_region, with the two flags that the code sets.
pub record Slot : Type 0 where
  pub guest_phys_addr : ℕ
  pub memory_size : ℕ
  pub userspace_addr : ℕ
  pub slot : ℕ
  pub read_only : Bool
  pub log_dirty_pages : Bool

-- KVM_SET_USER_MEMORY_REGION and KVM_GET_DIRTY_LOG, which is given a slot's number and the bitmap's address.
-- `at_iterator` is what stands in memory at the address of an iterator into the vector of slots, and
-- `new_bitmap` the address that `new` returns for a number of words.
pub record SlotCalls (K : Type 0) : Type 0 where
  pub set_user_memory_region : Slot → K → Bool × K
  pub get_dirty_log : ℕ → ℕ → K → Bool × K
  pub at_iterator : Slot → Slot
  pub new_bitmap : ℕ → ℕ

pub record KvmVm (K : Type 0) : Type 0 where
  pub memory_regions : List Slot
  pub mem_slot : ℕ
  pub kernel : K

-- MemoryFlags::Write and MemoryFlags::DirtyPageTracking of mem.hpp.
abbrev flag_write : ℕ
flag_write = 2

abbrev flag_dirty_page_tracking : ℕ
flag_dirty_page_tracking = 8

abbrev pub with_flags : ℕ → Slot → Slot
with_flags flags s = record s {
  read_only = not (has_any flags flag_write);
  log_dirty_pages = has_any flags flag_dirty_page_tracking;
}

abbrev region_equals : Slot → ℕ → ℕ → Bool
region_equals s base size = s.guest_phys_addr == base && s.memory_size == size

-- std::find_if for a region that matches exactly.
unfoldable pub find_region : List Slot → ℕ → ℕ → Option Slot
find_region [] base size = none
find_region (s ∷ ss) base size =
    let rest = find_region ss base size in if region_equals s base size then some s else rest

-- The flags of that region replaced.
unfoldable pub update_flags : List Slot → ℕ → ℕ → ℕ → List Slot
update_flags [] base size flags = []
update_flags (s ∷ ss) base size flags =
    let rest = update_flags ss base size flags in
    if region_equals s base size then with_flags flags s ∷ ss else s ∷ rest

-- The first region of this slot erased.
unfoldable pub erase_slot : ℕ → List Slot → List Slot
erase_slot n [] = []
erase_slot n (s ∷ ss) = let rest = erase_slot n ss in if s.slot == n then ss else s ∷ rest

module _ {K : Type 0} (calls : SlotCalls K) where
  abbrev pub new_slot : ℕ → ℕ → ℕ → ℕ → KvmVm K → Slot
  new_slot base size flags memory vm = with_flags flags (record {
    guest_phys_addr = base;
    memory_size = size;
    userspace_addr = memory;
    slot = vm.mem_slot;
    read_only = false;
    log_dirty_pages = false;
  })

  unfoldable pub map_guest_memory_impl : ℕ → ℕ → ℕ → ℕ → KvmVm K → MemoryMappingStatus × KvmVm K
  unfolding erase_slot
  map_guest_memory_impl base size flags memory vm =
      let region = new_slot base size flags memory vm in
      let regions = vm.memory_regions ++ region ∷ [] in
      let (done, kernel) = calls.set_user_memory_region region vm.kernel in
      let kept = if done then regions else erase_slot region.slot regions in
      (
        if done then MemoryMappingStatus.ok else MemoryMappingStatus.failed,
        record { memory_regions = kept; mem_slot = u32 (vm.mem_slot + 1); kernel = kernel },
      )

  -- The ioctl is given the address of the iterator.
  unfoldable pub set_guest_memory_flags_impl : ℕ → ℕ → ℕ → KvmVm K → MemoryMappingStatus × KvmVm K
  unfolding find_region update_flags
  set_guest_memory_flags_impl base size flags vm = elim (find_region vm.memory_regions base size) [
    | none ↦ (MemoryMappingStatus.invalid_range, vm)
    | some region ↦
        let (done, kernel) =
          calls.set_user_memory_region (calls.at_iterator (with_flags flags region)) vm.kernel in
        (
          if done then MemoryMappingStatus.ok else MemoryMappingStatus.failed,
          record vm {
            memory_regions = update_flags vm.memory_regions base size flags;
            kernel = kernel;
          },
        )
  ]

  -- The size of the bitmap is not looked at.
  unfoldable pub query_dirty_pages_impl :
      ℕ → ℕ → ℕ → ℕ → KvmVm K → DirtyPageTrackingStatus × KvmVm K
  unfolding find_region
  query_dirty_pages_impl base size bitmap bitmap_size vm =
      elim (find_region vm.memory_regions base size) [
        | none ↦ (DirtyPageTrackingStatus.invalid_range, vm)
        | some region ↦
            let (done, kernel) = calls.get_dirty_log region.slot bitmap vm.kernel in
            (
              if done then DirtyPageTrackingStatus.ok else DirtyPageTrackingStatus.failed,
              record vm { kernel = kernel },
            )
      ]

  unfoldable pub clear_dirty_pages_impl : ℕ → ℕ → KvmVm K → DirtyPageTrackingStatus × KvmVm K
  unfolding query_dirty_pages_impl
  clear_dirty_pages_impl base size vm =
      let bitmap_size = (size / 0x1000 + 8 - 1) / 8 in
      query_dirty_pages_impl base size (calls.new_bitmap bitmap_size) bitmap_size vm

  -- KVM leaves out the unmapping of memory.
  unfoldable pub kvm_hypervisor : Hypervisor (KvmVm K)
  unfolding map_guest_memory_impl set_guest_memory_flags_impl query_dirty_pages_impl
      clear_dirty_pages_impl default_unmap_impl
  kvm_hypervisor = record {
    map_impl = map_guest_memory_impl;
    unmap_impl = default_unmap_impl;
    set_flags_impl = set_guest_memory_flags_impl;
    query_dirty_impl = query_dirty_pages_impl;
    clear_dirty_impl = clear_dirty_pages_impl;
  }
