-- ===== src/Vm/Access.antt =====
-- VirtualMachine::MemRead, MemWrite and GetMemoryRegion of modules/core/src/vm/vm.cpp. The vector of
-- regions is a list with the oldest region first.
pub mod Search
pub mod Served
pub mod Pages
pub mod Wrap
use mathlib.Core.List.{reverse}
use mathlib.Core.Option
use virt.Base.{
  ℕ, ◌+◌, ◌-◌, Bool, ◌&&◌, leb, if◌then◌else◌, Option, none, some, List, [], ◌∷◌, u64, sub64,
}
use virt.Vm.Region.{MemoryRegion, final_address, Bytes, copy_bytes}

-- The loop of MemRead and of MemWrite, newest region first: where in host memory the bytes are, and how many to copy.
-- `last` is computed before the loop; `size` is what the loop may decrement.
unfoldable pub copy_source : ℕ → ℕ → ℕ → List MemoryRegion → Option (ℕ × ℕ)
unfolding final_address
copy_source paddr last size [] = none
copy_source paddr last size (r ∷ rs) =
    let inside : Bool =
      leb r.base_address paddr && leb last (final_address r.base_address r.size) in
    let rest = copy_source paddr last (if inside then sub64 size r.size else size) rs in
    if inside && leb size r.size
    then some (u64 (r.host_memory + (paddr - r.base_address)), size)
    else rest

-- `none` is the result false, which leaves `value` as it is. The bytes go to `value + pos`.
unfoldable pub mem_read : List MemoryRegion → Bytes → ℕ → ℕ → Bytes → ℕ → Option Bytes
mem_read regions host paddr size value pos =
    Option.map (λ (ptr, n). copy_bytes value pos host ptr n)
      (copy_source paddr (final_address paddr size) size (reverse regions))

-- The new host memory; `none` is the result false, which leaves it as it is.
unfoldable pub mem_write : List MemoryRegion → Bytes → ℕ → ℕ → Bytes → ℕ → Option Bytes
mem_write regions host paddr size value pos =
    Option.map (λ (ptr, n). copy_bytes host ptr value pos n)
      (copy_source paddr (final_address paddr size) size (reverse regions))

-- The loop of GetMemoryRegion.
unfoldable pub get_memory_region : List MemoryRegion → ℕ → Option MemoryRegion
unfolding final_address
get_memory_region [] address = none
get_memory_region (r ∷ rs) address =
    if leb r.base_address address && leb address (final_address r.base_address r.size)
    then some r
    else get_memory_region rs address
