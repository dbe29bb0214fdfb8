-- ===== src/Vm/Machine/Mapping.antt =====
-- What a successful request to map or unmap guest memory has checked, and what it leaves behind.
use native.Mathlib.Nat.{pow-le-pow_right}
use virt.Base.{
  ℕ, ◌+◌, ◌-◌, ◌%◌, ◌^◌, ◌≤◌, ◌<◌, ◌≡◌, refl, ◌≢◌, ◌⊎◌, true, some, [], ◌∷◌, ◌++◌, inl, inr, not,
  ◌&&◌, ltb, ◌==◌, Bool-cases, All, arith, has_any,
}
use virt.Vm.Region.{IsPlaced, final_address, final_address_lem}
use virt.Vm.Access.Pages.{IsAligned, newest_byte}
use virt.Vm.Subtract.Pieces.{all_pieces, subtract-pieces}
use virt.Vm.Subtract.View.{
  Meets, unmapped, newest_byte-all_pieces, all_pieces-All, pieces-IsPlaced, pieces-IsAligned,
}
use virt.Vm.Machine.{
  MemoryMappingStatus, Host, Hypervisor, Machine, is_ok, region_at, map_guest_memory, unmap_checked,
  unmap_guest_memory,
}
use virt.Vm.Machine.Checks.{has_any-page, has_any-above}

wrapped_end :
    {base size : ℕ}
    → base < 2 ^ 64
    → size < 2 ^ 64
    → 2 ^ 64 < base + size
    → final_address base size + 2 ^ 64 + 1 ≡ base + size
unfolding final_address
wrapped_end below fits wraps = omega arith

module _ {S : Type 0} (v : Hypervisor S) (host : Host) (m : Machine S)
    (base size flags memory : ℕ) where
  -- What holds when MapGuestMemory has returned OK: the request was aligned and non-empty, lay
  -- below the host's limit of 2 ^ k addresses, and one region was added behind the others.
  pub record Mapped (k : ℕ) : Type 0 where
    pub memory_aligned : memory % 4096 ≡ 0
    pub base_aligned : base % 4096 ≡ 0
    pub size_aligned : size % 4096 ≡ 0
    pub filled : 0 < size
    pub below_limit : base + size ≤ 2 ^ k
    pub hypervisor_ok : (v.map_impl base size flags memory m.state).0 ≡ MemoryMappingStatus.ok
    pub large : (size < 2 ^ 32) ⊎ (host.large_memory_allocation ≡ true)
    pub added :
        (map_guest_memory v host m base size flags memory).1.regions
        ≡ m.regions ++ region_at base size memory ∷ []

  -- Let the host's mask be that of 2 ^ k addresses and the range not wrap. If MapGuestMemory
  -- returns OK, then the request was page-aligned and not empty, lay below 2 ^ k, was below 4 GiB
  -- or the host allows large ones, the hypervisor has returned OK, and the region was added behind
  -- the others.
  pub map_guest_memory-Mapped :
      (k : ℕ)
      → k ≤ 64
      → host.gpa_mask ≡ 2 ^ k - 1
      → base + size ≤ 2 ^ 64
      → (map_guest_memory v host m base size flags memory).0 ≡ MemoryMappingStatus.ok
      → Mapped k
  unfolding map_guest_memory
  map_guest_memory-Mapped k hk mask fits e = ground (
    arith,
    has_any-page memory,
    has_any-page base,
    has_any-page size,
    has_any-above k base hk,
    has_any-above k (final_address base size) hk,
    final_address_lem base size,
  )

  -- If MapGuestMemory returns any status but OK, the regions are as they were.
  pub map_guest_memory-refused :
      (map_guest_memory v host m base size flags memory).0 ≢ MemoryMappingStatus.ok
      → (map_guest_memory v host m base size flags memory).1.regions ≡ m.regions
  unfolding map_guest_memory
  map_guest_memory-refused e = ground arith

  -- Let the host allow large requests and its mask be that of 2 ^ k addresses, k below 64. For a
  -- page-aligned request whose base lies below 2 ^ k and whose end wraps past 2 ^ 64, the status
  -- is the hypervisor's, and the size is more than 2 ^ k.
  pub map_guest_memory-wraps :
      (k : ℕ)
      → k < 64
      → host.gpa_mask ≡ 2 ^ k - 1
      → host.large_memory_allocation ≡ true
      → memory % 4096 ≡ 0
      → base % 4096 ≡ 0
      → size % 4096 ≡ 0
      → base < 2 ^ k
      → size < 2 ^ 64
      → 2 ^ 64 < base + size
      → ((map_guest_memory v host m base size flags memory).0
          ≡ (v.map_impl base size flags memory m.state).0)
        × (2 ^ k < size)
  unfolding map_guest_memory
  map_guest_memory-wraps k hk mask large ha hb hs below fits wraps =
      let half : 2 ^ k ≤ 2 ^ 63 = pow-le-pow_right (omega arith) {i = k} {j = 63} (omega arith) in
      (
        ground (
          arith,
          has_any-page memory,
          has_any-page base,
          has_any-page size,
          has_any-above k base (omega arith),
          has_any-above k (final_address base size) (omega arith),
          wrapped_end {base = base} {size = size} (omega arith) fits wraps,
        ),
        omega arith,
      )

  -- What UnmapGuestMemory returns: a refusal that leaves the regions as they were, or OK with the
  -- bytes of the range unmapped, all others as they were, and the regions placed and aligned.
  abbrev pub Unmapped : MemoryMappingStatus × Machine S → Type 0
  Unmapped (status, m') =
      ((status ≢ MemoryMappingStatus.ok) × (m'.regions ≡ m.regions))
      ⊎ ((status ≡ MemoryMappingStatus.ok)
          × All IsPlaced m'.regions
          × All IsAligned m'.regions
          × ((p : ℕ) → newest_byte m'.regions p ≡ unmapped base size p (newest_byte m.regions p)))

  unmap_checked-Unmapped :
      0 < size
      → base + size ≤ 2 ^ 64
      → base % 4096 ≡ 0
      → size % 4096 ≡ 0
      → All IsPlaced m.regions
      → All IsAligned m.regions
      → All (Meets base size) m.regions
      → (result : MemoryMappingStatus × Machine S) × (unmap_checked v host m base size
          ≡ some result)
        × Unmapped result
  unfolding unmap_checked
  unmap_checked-Unmapped filled fits hb hs placed aligned meets =
      let (status, s) = v.unmap_impl base size m.state in
      elim (Bool-cases (is_ok status)) [
        | inl good ↦
            let rs = all_pieces base size filled fits m.regions in
            (
              (status, record m { regions = rs; state = s }),
              ground (arith, subtract-pieces base size filled fits m.regions placed),
              inr (
                ground arith,
                all_pieces-All base size filled fits IsPlaced
                    (λ r p q _. pieces-IsPlaced base size filled fits r p q) m.regions placed meets
                    placed,
                all_pieces-All base size filled fits IsAligned
                    (λ r _ _ a. pieces-IsAligned base size filled fits r hb hs a) m.regions placed
                    meets aligned,
                λ p. newest_byte-all_pieces base size filled fits m.regions p placed meets,
              ),
            )
        | inr bad ↦ ((status, record m { state = s }), ground arith, inl (λ f. ground arith, refl))
      ]

  -- Let the range not wrap, and every region be placed, page-aligned and meet it. Then
  -- UnmapGuestMemory returns: a refusal that leaves the regions as they were, or OK with the bytes
  -- of the range unmapped, all others as they were, and the regions placed and aligned.
  pub unmap_guest_memory-Unmapped :
      base + size ≤ 2 ^ 64
      → All IsPlaced m.regions
      → All IsAligned m.regions
      → All (Meets base size) m.regions
      → (result : MemoryMappingStatus × Machine S) × (unmap_guest_memory v host m base size
          ≡ some result)
        × Unmapped result
  unfolding unmap_guest_memory
  unmap_guest_memory-Unmapped fits placed aligned meets = elim (Bool-cases (has_any base 0xfff)) [
    | inl e ↦ ((MemoryMappingStatus.misaligned_address, m), ground arith, inl (λ f. cc, refl))
    | inr base_ok ↦ elim (Bool-cases (size == 0)) [
      | inl e ↦ ((MemoryMappingStatus.empty_range, m), ground arith, inl (λ f. cc, refl))
      | inr filled ↦ elim (Bool-cases (has_any size 0xfff)) [
        | inl e ↦ ((MemoryMappingStatus.misaligned_size, m), ground arith, inl (λ f. cc, refl))
        | inr size_ok ↦
            elim (Bool-cases (ltb 0xffff_ffff size && not host.large_memory_allocation)) [
              | inl e ↦ ((MemoryMappingStatus.unsupported, m), ground arith, inl (λ f. cc, refl))
              | inr allowed ↦
                  let (result, e, u) =
                    unmap_checked-Unmapped (ground arith) fits (ground (arith, has_any-page base))
                      (ground (arith, has_any-page size)) placed aligned meets in
                  (result, ground arith, u)
            ]
      ]
    ]
  ]
