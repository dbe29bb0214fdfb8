-- ===== src/Vm/Subtract/Pieces.antt =====
-- What SubtractMemoryRange leaves of each region, in unbounded arithmetic, and that the loop ends.
use native.Mathlib.Decide.{dec_lt}
use virt.Base.{
  ℕ, zero, suc, ◌+◌, ◌-◌, ◌*◌, ◌^◌, ◌≤◌, ◌<◌, ◌≡◌, refl, ltb, if◌then◌else◌, some, List, [], ◌∷◌,
  ◌++◌, u64, length, All, arith,
}
use virt.Vm.Region.{MemoryRegion, final_address, IsPlaced, final_address_lem}
use virt.Vm.Subtract.{Turn, erased, kept, halved, turn, subtract_loop, subtract_memory_range}

-- The part below the unmapped range, and the part above it.
abbrev pub below : ℕ → MemoryRegion → MemoryRegion
below base r = record r { size = base - r.base_address }

abbrev pub above : ℕ → MemoryRegion → MemoryRegion
above end r = record {
  base_address = end;
  size = r.base_address + r.size - end;
  host_memory = u64 (r.host_memory + (2 ^ 64 + end - r.base_address));
}

unfoldable pub pieces : ℕ → ℕ → MemoryRegion → List MemoryRegion
pieces base size r =
    (if ltb (base + size) (r.base_address + r.size) then above (base + size) r ∷ [] else [])
    ++ (if ltb r.base_address base then below base r ∷ [] else [])

module _ (base size : ℕ) (filled : 0 < size) (fits : base + size ≤ 2 ^ 64) where
  abbrev turn_of : MemoryRegion → Turn
  turn_of = turn base size (final_address base size)

  turn-erased :
      (r : MemoryRegion)
      → IsPlaced r
      → base ≤ r.base_address
      → r.base_address + r.size ≤ base + size
      → turn_of r ≡ erased
  unfolding turn
  turn-erased r placed h k =
      ground (arith, final_address_lem base size, final_address_lem r.base_address r.size)

  turn-below :
      (r : MemoryRegion)
      → 0 < r.size
      → r.base_address + r.size ≤ 2 ^ 64
      → r.base_address < base
      → r.base_address + r.size ≤ base + size
      → turn_of r ≡ kept (below base r)
  unfolding turn
  turn-below r f g h k =
      ground (arith, final_address_lem base size, final_address_lem r.base_address r.size)

  turn-above :
      (r : MemoryRegion)
      → IsPlaced r
      → base ≤ r.base_address
      → base + size < r.base_address + r.size
      → turn_of r ≡ kept (above (base + size) r)
  unfolding turn
  turn-above r placed h k =
      ground (arith, final_address_lem base size, final_address_lem r.base_address r.size)

  turn-halved :
      (r : MemoryRegion)
      → IsPlaced r
      → r.base_address < base
      → base + size < r.base_address + r.size
      → turn_of r ≡ halved (above (base + size) r) (below base r)
  unfolding turn
  turn-halved r placed h k =
      ground (arith, final_address_lem base size, final_address_lem r.base_address r.size)

  abbrev pub all_pieces : List MemoryRegion → List MemoryRegion
  all_pieces [] = []
  all_pieces (r ∷ rs) = pieces base size r ++ all_pieces rs

  loop-pieces :
      (fuel : ℕ) (rs : List MemoryRegion)
      → All IsPlaced rs
      → 2 * length rs < fuel
      → subtract_loop fuel base size (final_address base size) rs ≡ some (all_pieces rs)
  unfolding subtract_loop pieces
  loop-pieces zero rs h lt = elim lt [ ]
  loop-pieces (suc fuel) [] h lt = refl
  loop-pieces (suc zero) (r ∷ rs) h lt = absurd (omega arith)
  loop-pieces (suc (suc fuel)) (r ∷ rs) h lt = elim (dec_lt r.base_address base) [
    | yes p ↦ elim (dec_lt (base + size) (r.base_address + r.size)) [
      | yes q ↦ ground (
        arith,
        turn-halved r h.0 p q,
        turn-below (below base r) (omega arith) (omega arith) p (omega arith),
        loop-pieces fuel rs h.1 (omega arith),
      )
      | no q ↦ ground (
        arith,
        turn-below r h.0.filled h.0.guest_fits p (omega arith),
        loop-pieces (suc fuel) rs h.1 (omega arith),
      )
    ]
    | no p ↦ elim (dec_lt (base + size) (r.base_address + r.size)) [
      | yes q ↦
          ground
            (arith, turn-above r h.0 (omega arith) q, loop-pieces (suc fuel) rs h.1 (omega arith))
      | no q ↦ ground (
        arith,
        turn-erased r h.0 (omega arith) (omega arith),
        loop-pieces (suc fuel) rs h.1 (omega arith),
      )
    ]
  ]

  -- Over placed regions and a non-empty range within 2 ^ 64, the loop of SubtractMemoryRange ends
  -- within its fuel, and puts in place of each region the part above the unmapped range and then
  -- the part below it.
  pub subtract-pieces :
      (rs : List MemoryRegion)
      → All IsPlaced rs
      → subtract_memory_range rs base size ≡ some (all_pieces rs)
  unfolding subtract_memory_range
  subtract-pieces rs h = loop-pieces (2 * length rs + 1) rs h (omega arith)
