-- ===== src/Vm/Region.antt =====
-- modules/core/include/virt86/vm/mem.hpp: the regions of guest physical memory, and host memory as
-- bytes by address. A pointer is its address; a block of memory is a function from offsets.
use virt.Base.{ℕ, ◌+◌, ◌-◌, ◌^◌, ◌≤◌, ◌<◌, ◌&&◌, leb, ltb, if◌then◌else◌, add64, sub64, ◌≡◌, arith}

pub record MemoryRegion : Type 0 where
  pub base_address : ℕ
  pub size : ℕ
  pub host_memory : ℕ

-- The inclusive final address, as the code computes it on uint64_t.
unfoldable pub final_address : ℕ → ℕ → ℕ
final_address base size = sub64 (add64 base size) 1

abbrev pub Bytes : Type 0
Bytes = ℕ → ℕ

-- memcpy(dst + d, src + s, n), where the two blocks do not overlap.
unfoldable pub copy_bytes : Bytes → ℕ → Bytes → ℕ → ℕ → Bytes
copy_bytes dst d src s n i = if leb d i && ltb i (d + n) then src (s + (i - d)) else dst i

-- A region that stands in the guest's and in the host's 64-bit address space.
pub record IsPlaced (r : MemoryRegion) : Type 0 where
  pub filled : 0 < r.size
  pub guest_fits : r.base_address + r.size ≤ 2 ^ 64
  pub host_fits : r.host_memory + r.size ≤ 2 ^ 64

-- The region holds the whole range, in unbounded arithmetic.
abbrev pub Holds : MemoryRegion → ℕ → ℕ → Type 0
Holds r paddr size = (r.base_address ≤ paddr) × (paddr + size ≤ r.base_address + r.size)

pub final_address_lem :
    (base size : ℕ) → 0 < size → base + size ≤ 2 ^ 64 → final_address base size + 1 ≡ base + size
unfolding final_address
final_address_lem base size h k = omega arith
