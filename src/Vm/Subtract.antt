-- ===== src/Vm/Subtract.antt =====
-- VirtualMachine::SubtractMemoryRange of modules/core/src/vm/vm.cpp.
pub mod Pieces
pub mod View
use mathlib.Core.Option
use virt.Base.{
  ℕ, zero, suc, ◌+◌, ◌-◌, Bool, ◌&&◌, leb, ltb, if◌then◌else◌, Option, none, some, List, [], ◌∷◌,
  u64, add64, sub64, length, ◌*◌,
}
use virt.Vm.Region.{MemoryRegion, final_address}

-- What one turn of the loop does with the region at the iterator.
pub data Turn : Type 0 where
  erased : Turn
  kept : MemoryRegion → Turn
  -- The second half goes in before the shrunk region, and the loop turns to the latter once more.
  halved : MemoryRegion → MemoryRegion → Turn

-- The four cases, with `last` the inclusive final address of the unmapped range.
unfoldable pub turn : ℕ → ℕ → ℕ → MemoryRegion → Turn
turn base size last r =
    let region_last = final_address r.base_address r.size in
    if leb base r.base_address && leb region_last last
    then erased
    else if ltb r.base_address base && leb region_last last
    then kept (record r { size = sub64 base r.base_address })
    else if leb base r.base_address && ltb last region_last
    then kept (record {
      base_address = add64 last 1;
      size = sub64 region_last last;
      host_memory = add64 r.host_memory (sub64 (add64 last 1) r.base_address);
    })
    else halved
        (record {
          base_address = add64 last 1;
          size = sub64 region_last last;
          host_memory = add64 (add64 r.host_memory (sub64 base r.base_address)) size;
        })
        (record r { size = sub64 base r.base_address })

-- The loop, with fuel; `none` means that the fuel ran out.
unfoldable pub subtract_loop : ℕ → ℕ → ℕ → ℕ → List MemoryRegion → Option (List MemoryRegion)
subtract_loop zero base size last rs = none
subtract_loop (suc fuel) base size last [] = some []
subtract_loop (suc fuel) base size last (r ∷ rs) = elim (turn base size last r) [
  | erased ↦ subtract_loop fuel base size last rs
  | kept r' ↦ Option.map (◌∷◌ r') (subtract_loop fuel base size last rs)
  | halved second first ↦ Option.map (◌∷◌ second) (subtract_loop fuel base size last (first ∷ rs))
]

-- Two turns for each region, and one for the end.
unfoldable pub subtract_memory_range : List MemoryRegion → ℕ → ℕ → Option (List MemoryRegion)
subtract_memory_range regions base size =
    subtract_loop (2 * length regions + 1) base size (final_address base size) regions
