-- ===== src/Vm/Machine/Dirty.antt =====
-- What QueryDirtyPages has checked when it succeeds.
use virt.Base.{ℕ, ◌*◌, ◌/◌, ◌%◌, ◌^◌, ◌≤◌, ◌<◌, ◌≡◌, arith}
use virt.Vm.Machine.{DirtyPageTrackingStatus, Host, Hypervisor, Machine, query_dirty_pages}
use virt.Vm.Machine.Checks.{has_any-page, has_any-low3}

-- If QueryDirtyPages returns OK on a 64-bit size, the range was page-aligned and not empty, the
-- bitmap aligned to eight bytes, and its `bitmap_size` bytes have a bit for every page of the
-- range; the regions are as they were.
pub query_dirty_pages-fits :
    {S : Type 0} (v : Hypervisor S) (host : Host) (m : Machine S) (base size bitmap bitmap_size : ℕ)
    → size < 2 ^ 64
    → (query_dirty_pages v host m base size bitmap bitmap_size).0 ≡ DirtyPageTrackingStatus.ok
    → (base % 4096 ≡ 0)
      × (0 < size)
      × (size % 4096 ≡ 0)
      × (bitmap % 8 ≡ 0)
      × (size / 4096 ≤ bitmap_size * 8)
      × ((query_dirty_pages v host m base size bitmap bitmap_size).1.regions ≡ m.regions)
unfolding query_dirty_pages
query_dirty_pages-fits v host m base size bitmap bitmap_size fits e =
    let b = has_any-page base in
    let s = has_any-page size in
    let l = has_any-low3 bitmap in
    (
      ground (arith, b, s, l),
      ground (arith, b, s, l),
      ground (arith, b, s, l),
      ground (arith, b, s, l),
      ground (arith, b, s, l),
      ground (arith, b, s, l),
    )
