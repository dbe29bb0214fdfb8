-- ===== src/Vm/Access/Wrap.antt =====
-- MemRead on a range that runs over the end of the 64-bit address space.
use mathlib.Core.List.{reverse-append}
use virt.Base.{ℕ, ◌+◌, ◌-◌, ◌^◌, ◌≤◌, ◌<◌, ◌≡◌, some, List, [], ◌∷◌, ◌++◌, u64, arith}
use virt.Vm.Region.{MemoryRegion, final_address, IsPlaced, Bytes, copy_bytes}
use virt.Vm.Access.{copy_source, mem_read}
use virt.Vm.Access.Served.{IsCopy, copy_bytes-IsCopy}

-- If the last of the regions is placed and holds the first byte of a range that wraps past 2 ^ 64
-- and is no longer than the region, MemRead succeeds, and copies from host addresses that start in
-- the region's block; the range ends past the end of the region.
pub mem_read-wraps :
    (older : List MemoryRegion) (r : MemoryRegion) (host : Bytes) (paddr size : ℕ) (value : Bytes)
    (pos : ℕ)
    → IsPlaced r
    → r.base_address ≤ paddr
    → paddr < 2 ^ 64
    → size ≤ r.size
    → 2 ^ 64 < paddr + size
    → (v : Bytes) × (mem_read (older ++ r ∷ []) host paddr size value pos ≡ some v)
      × IsCopy v pos host (u64 (r.host_memory + (paddr - r.base_address))) size value
      × (r.base_address + r.size < paddr + size)
unfolding mem_read copy_source final_address
mem_read-wraps older r host paddr size value pos placed above fits short wraps = (
  copy_bytes value pos host (u64 (r.host_memory + (paddr - r.base_address))) size,
  rw (reverse-append older (r ∷ [])) (ground arith),
  copy_bytes-IsCopy value pos host (u64 (r.host_memory + (paddr - r.base_address))) size,
  omega arith,
)
