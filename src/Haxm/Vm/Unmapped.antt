-- ===== src/Haxm/Vm/Unmapped.antt =====
-- Unmapping on a driver of HAXM without the calls for large ranges.
use virt.Base.{
  ℕ, ◌≡◌, ◌≢◌, ◌⊎◌, inl, inr, refl, Bool, true, false, if◌then◌else◌, has_any, leb, ltb, u32,
  Option, some, ◌==◌, not, ◌&&◌, Bool-cases,
}
use virt.Vm.Machine.{MemoryMappingStatus, Host, Machine, unmap_checked, unmap_guest_memory}
use virt.Haxm.Vm.{VmCalls, cap_64bit_setram, unmap_impl, haxm_hypervisor}

module _ {K : Type 0} (calls : VmCalls K) (lacks : has_any calls.winfo cap_64bit_setram ≡ false)
    (host : Host) (m : Machine K) (base size : ℕ) where
  -- A failure that leaves regions and processors as they were; the driver's state is as before, or as
  -- its call left it.
  abbrev pub Refused : Option (MemoryMappingStatus × Machine K) → Type 0
  Refused o =
      (status : MemoryMappingStatus) × (k : K) × (o ≡ some (status, record m { state = k }))
      × (status ≢ MemoryMappingStatus.ok)
      × ((k ≡ m.state) ⊎ (k ≡ (calls.unmap_guest_memory base (u32 size) m.state).1))

  if-Refused :
      (b : Bool) (s t : Option (MemoryMappingStatus × Machine K))
      → Refused s
      → Refused t
      → Refused (if b then s else t)
  if-Refused true s t hs ht = hs
  if-Refused false s t hs ht = ht

  kept :
      (status : MemoryMappingStatus) → status ≢ MemoryMappingStatus.ok → Refused (some (status, m))
  kept status h = (status, m.state, refl, h, inl refl)

  unmap_checked-Refused : Refused (unmap_checked (haxm_hypervisor calls) host m base size)
  unfolding unmap_checked haxm_hypervisor unmap_impl
  unmap_checked-Refused =
      let (done, after) = calls.unmap_guest_memory base (u32 size) m.state in
      elim (Bool-cases (ltb calls.cur_version 4)) [
        | inl old ↦ rw old (MemoryMappingStatus.unsupported, m.state, refl, λ e. cc, inl refl)
        | inr new ↦ elim (Bool-cases (leb size 0xffff_ffff)) [
          | inr large ↦
              rw (new, large, lacks)
                (MemoryMappingStatus.unsupported, m.state, refl, λ e. cc, inl refl)
          | inl small ↦ elim (Bool-cases done) [
            | inl unmapped ↦
                rw (new, small, unmapped, lacks)
                  (MemoryMappingStatus.unsupported, after, refl, λ e. cc, inr refl)
            | inr not_unmapped ↦
                rw (new, small, not_unmapped)
                  (MemoryMappingStatus.failed, after, refl, λ e. cc, inr refl)
          ]
        ]
      ]

  -- On a driver of HAXM without HAX_CAP_64BIT_SETRAM, no call of UnmapGuestMemory of a machine
  -- succeeds, whatever the range and the driver's answers: the status is not OK, regions and
  -- processors stay as they were, and the driver's state is as before the call, or as its own call
  -- that unmaps the range left it.
  pub unmap_guest_memory-Refused :
      Refused (unmap_guest_memory (haxm_hypervisor calls) host m base size)
  unfolding unmap_guest_memory
  unmap_guest_memory-Refused =
      if-Refused (has_any base 0xfff) _ _ (kept MemoryMappingStatus.misaligned_address (λ e. cc)) (
        if-Refused (size == 0) _ _ (kept MemoryMappingStatus.empty_range (λ e. cc)) (
          if-Refused (has_any size 0xfff) _ _ (kept MemoryMappingStatus.misaligned_size (λ e. cc)) (
            if-Refused (ltb 0xffff_ffff size && not host.large_memory_allocation) _ _
              (kept MemoryMappingStatus.unsupported (λ e. cc)) unmap_checked-Refused)))
