-- ===== src/Haxm/Vm.antt =====
-- A machine on HAXM: modules/haxm/src/common/haxm_vm.cpp.
pub mod Unmapped
use virt.Base.{
  ℕ, zero, suc, ◌+◌, ltb, leb, Bool, true, false, not, if◌then◌else◌, has_any, u32, Option, none,
  some, List, [], ◌∷◌, ◌++◌,
}
use virt.Vm.Machine.{
  MemoryMappingStatus, Hypervisor, default_query_dirty_impl, default_clear_dirty_impl,
}

-- HaxmVirtualMachineSysImpl, with the driver's version and capabilities. Memory is its host address.
pub record VmCalls (K : Type 0) : Type 0 where
  pub winfo : ℕ
  pub cur_version : ℕ
  pub initialize : ℕ → K → Bool × K
  pub report_qemu_version : ℕ → ℕ → K → Bool × K
  pub destroy : K → K
  pub initialize_vp : ℕ → K → Bool × K
  pub map_host_memory : ℕ → ℕ → K → MemoryMappingStatus × K
  pub map_host_memory_large : ℕ → ℕ → K → MemoryMappingStatus × K
  pub map_guest_memory : ℕ → ℕ → ℕ → ℕ → K → MemoryMappingStatus × K
  pub map_guest_memory_large : ℕ → ℕ → ℕ → ℕ → K → MemoryMappingStatus × K
  pub unmap_guest_memory : ℕ → ℕ → K → Bool × K
  pub unmap_guest_memory_large : ℕ → ℕ → K → Bool × K
  pub set_guest_memory_flags_large : ℕ → ℕ → ℕ → K → Bool × K

-- The bits of winfo that the code names.
abbrev pub cap_fastmmio : ℕ
cap_fastmmio = 2

abbrev pub cap_64bit_ramblock : ℕ
cap_64bit_ramblock = 8

abbrev pub cap_64bit_setram : ℕ
cap_64bit_setram = 16

abbrev pub cap_ram_protection : ℕ
cap_ram_protection = 64

-- The virtual processors are known by their numbers.
pub record HaxmVm (K : Type 0) : Type 0 where
  pub fast_mmio : Bool
  pub vps : List ℕ
  pub kernel : K

abbrev mapped : MemoryMappingStatus → Bool
mapped MemoryMappingStatus.ok = true
mapped MemoryMappingStatus.already_allocated = true
mapped _ = false

module _ {K : Type 0} (calls : VmCalls K) where
  -- The loop over the processors, whose counter `id` has 32 bits, on fuel; `none` means that it has not
  -- ended.
  unfoldable pub create_vps : ℕ → ℕ → ℕ → HaxmVm K → Option (Bool × HaxmVm K)
  create_vps zero id num_processors vm = if ltb id num_processors then none else some (true, vm)
  create_vps (suc fuel) id num_processors vm =
      let (done, k) = calls.initialize_vp id vm.kernel in
      let rest =
        create_vps fuel (u32 (id + 1)) num_processors
          (record vm { vps = vm.vps ++ id ∷ []; kernel = k }) in
      if ltb id num_processors
      then (if done then rest else some (false, record vm { kernel = calls.destroy k }))
      else some (true, vm)

  -- As many passes as processors, which are enough below 2 ^ 32 of them.
  unfoldable pub initialize : ℕ → HaxmVm K → Option (Bool × HaxmVm K)
  unfolding create_vps
  initialize num_processors vm =
      let (done, k) = calls.initialize num_processors vm.kernel in
      let (fast, k') = calls.report_qemu_version 4 4 k in
      let ready =
        if has_any calls.winfo cap_fastmmio
        then record vm { fast_mmio = fast; kernel = k' }
        else record vm { kernel = k } in
      if done
      then create_vps num_processors 0 num_processors ready
      else some (false, record vm { kernel = k })

  unfoldable pub map_impl : ℕ → ℕ → ℕ → ℕ → K → MemoryMappingStatus × K
  map_impl base size flags memory k =
      let (small, k1) = calls.map_host_memory memory (u32 size) k in
      let (large, k2) = calls.map_host_memory_large memory size k in
      if leb size 0xffff_ffff
      then (if mapped small
          then calls.map_guest_memory base (u32 size) flags memory k1
          else (small, k1))
      else if not (has_any calls.winfo (cap_64bit_setram + cap_64bit_ramblock))
      then (MemoryMappingStatus.unsupported, k)
      else if mapped large
      then calls.map_guest_memory_large base size flags memory k2
      else (large, k2)

  -- What follows the branch for ranges below 4 GiB, which does not return.
  abbrev unmap_large : ℕ → ℕ → K → MemoryMappingStatus × K
  unmap_large base size k =
      let (done, k') = calls.unmap_guest_memory_large base size k in
      if not (has_any calls.winfo cap_64bit_setram)
      then (MemoryMappingStatus.unsupported, k)
      else if done
      then (MemoryMappingStatus.ok, k')
      else (MemoryMappingStatus.failed, k')

  unfoldable pub unmap_impl : ℕ → ℕ → K → MemoryMappingStatus × K
  unmap_impl base size k =
      let (done, k') = calls.unmap_guest_memory base (u32 size) k in
      if ltb calls.cur_version 4
      then (MemoryMappingStatus.unsupported, k)
      else if leb size 0xffff_ffff
      then (if done then unmap_large base size k' else (MemoryMappingStatus.failed, k'))
      else unmap_large base size k

  unfoldable pub set_flags_impl : ℕ → ℕ → ℕ → K → MemoryMappingStatus × K
  set_flags_impl base size flags k =
      let (done, k') = calls.set_guest_memory_flags_large base size flags k in
      if not (has_any calls.winfo cap_ram_protection)
      then (MemoryMappingStatus.unsupported, k)
      else if done
      then (MemoryMappingStatus.ok, k')
      else (MemoryMappingStatus.failed, k')

  unfoldable pub haxm_hypervisor : Hypervisor K
  unfolding map_impl unmap_impl set_flags_impl
  haxm_hypervisor = record {
    map_impl = map_impl;
    unmap_impl = unmap_impl;
    set_flags_impl = set_flags_impl;
    query_dirty_impl = default_query_dirty_impl;
    clear_dirty_impl = default_clear_dirty_impl;
  }
