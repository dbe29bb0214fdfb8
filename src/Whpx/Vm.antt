-- ===== src/Whpx/Vm.antt =====
-- Guest memory of a machine on WHPX: modules/whpx/src/whpx_vm.cpp, from ToWHVFlags on. The handle of the
-- partition is part of the hypervisor's state.
use virt.Base.{ℕ, Bool, ◌||◌, ◌&&◌, not, if◌then◌else◌, has_any, Option, none, some}
use virt.Vm.Machine.{MemoryMappingStatus, DirtyPageTrackingStatus}

-- WHV_MAP_GPA_RANGE_FLAGS.
pub record WhvFlags : Type 0 where
  pub read : Bool
  pub write : Bool
  pub execute : Bool
  pub track_dirty_pages : Bool

-- The results of WHvQueryGpaRangeDirtyBitmap that the backend tells apart.
pub data BitmapResult : Type 0 where
  queried range_not_found other_error : BitmapResult

-- WHvMapGpaRange, with memory, address, size and flags, WHvUnmapGpaRange and WHvQueryGpaRangeDirtyBitmap, with
-- address, size, bitmap and its size, which is missing in some versions.
pub record MemoryCalls (K : Type 0) : Type 0 where
  pub map_gpa_range : ℕ → ℕ → ℕ → WhvFlags → K → Bool × K
  pub unmap_gpa_range : ℕ → ℕ → K → Bool × K
  pub query_dirty_bitmap : Option (ℕ → ℕ → ℕ → ℕ → K → BitmapResult × K)

unfoldable pub to_whv_flags : Bool → ℕ → WhvFlags
to_whv_flags rs5 flags = record {
  read = has_any flags 1;
  write = has_any flags 2;
  execute = has_any flags 4;
  track_dirty_pages = has_any flags 8 && rs5;
}

abbrev pub any_flag : WhvFlags → Bool
any_flag f = f.read || f.write || f.execute || f.track_dirty_pages

abbrev mapping_status {ℓ} : {K : Type ℓ} → Bool × K → MemoryMappingStatus × K
mapping_status (done, k) = (if done then MemoryMappingStatus.ok else MemoryMappingStatus.failed, k)

abbrev bitmap_status {ℓ} : {K : Type ℓ} → BitmapResult × K → DirtyPageTrackingStatus × K
bitmap_status (queried, k) = (DirtyPageTrackingStatus.ok, k)
bitmap_status (range_not_found, k) = (DirtyPageTrackingStatus.not_enabled, k)
bitmap_status (other_error, k) = (DirtyPageTrackingStatus.failed, k)

module _ {K : Type 0} (calls : MemoryCalls K) (rs5 : Bool) where
  unfoldable pub map_impl : ℕ → ℕ → ℕ → ℕ → K → MemoryMappingStatus × K
  unfolding to_whv_flags
  map_impl base size flags memory k =
      let whv_flags = to_whv_flags rs5 flags in
      if not (any_flag whv_flags)
      then (MemoryMappingStatus.invalid_flags, k)
      else mapping_status (calls.map_gpa_range memory base size whv_flags k)

  unfoldable pub unmap_impl : ℕ → ℕ → K → MemoryMappingStatus × K
  unmap_impl base size k = mapping_status (calls.unmap_gpa_range base size k)

  unfoldable pub query_dirty_impl : ℕ → ℕ → ℕ → ℕ → K → DirtyPageTrackingStatus × K
  query_dirty_impl base size bitmap bitmap_size k = elim calls.query_dirty_bitmap [
    | none ↦ (DirtyPageTrackingStatus.unsupported, k)
    | some query ↦
        if has_any bitmap_size 7
        then (DirtyPageTrackingStatus.misaligned_bitmap, k)
        else bitmap_status (query base size bitmap bitmap_size k)
  ]

  -- A call through a null pointer is `none`.
  unfoldable pub clear_dirty_impl : ℕ → ℕ → K → Option (DirtyPageTrackingStatus × K)
  clear_dirty_impl base size k = elim calls.query_dirty_bitmap [
    | none ↦ none
    | some query ↦ some (bitmap_status (query base size 0 0 k))
  ]
