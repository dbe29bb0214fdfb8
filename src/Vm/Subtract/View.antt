-- ===== src/Vm/Subtract/View.antt =====
-- Unmapping seen byte by byte: right where each region meets the unmapped range, and wrong for a
-- region that lies apart from it.
use virt.Base.{
  ℕ, ◌+◌, ◌-◌, ◌%◌, ◌^◌, ◌≤◌, ◌<◌, ◌≡◌, Option, none, some, List, [], ◌∷◌, ◌++◌, ◌&&◌, leb, ltb,
  if◌then◌else◌, All, All-append, All-drop, refl, ◌∙◌, arith,
}
use virt.Vm.Region.{MemoryRegion, IsPlaced}
use virt.Vm.Access.Pages.{newest_byte, or_byte, IsAligned}
use virt.Vm.Subtract.{subtract_memory_range}
use virt.Vm.Subtract.Pieces.{pieces, all_pieces, subtract-pieces}

newest_byte-append :
    (xs ys : List MemoryRegion) (p : ℕ)
    → newest_byte (xs ++ ys) p ≡ or_byte (newest_byte ys p) (newest_byte xs p)
unfolding newest_byte
newest_byte-append [] ys p = ground arith
newest_byte-append (x ∷ xs) ys p = ground (arith, newest_byte-append xs ys p)

-- The region and the unmapped range have a byte in common.
abbrev pub Meets : ℕ → ℕ → MemoryRegion → Type 0
Meets base size r = (r.base_address < base + size) × (base < r.base_address + r.size)

abbrev pub unmapped : ℕ → ℕ → ℕ → Option ℕ → Option ℕ
unmapped base size p o = if leb base p && ltb p (base + size) then none else o

module _ (base size : ℕ) (filled : 0 < size) (fits : base + size ≤ 2 ^ 64) where
  newest_byte-pieces :
      (r : MemoryRegion) (p : ℕ)
      → IsPlaced r
      → Meets base size r
      → newest_byte (pieces base size r) p ≡ unmapped base size p (newest_byte (r ∷ []) p)
  unfolding newest_byte pieces
  newest_byte-pieces r p placed meets = ground arith

  pub newest_byte-all_pieces :
      (rs : List MemoryRegion) (p : ℕ)
      → All IsPlaced rs
      → All (Meets base size) rs
      → newest_byte (all_pieces base size filled fits rs) p
        ≡ unmapped base size p (newest_byte rs p)
  newest_byte-all_pieces [] p h m = unfold newest_byte in ground arith
  newest_byte-all_pieces (r ∷ rs) p h m = ground (
    arith,
    newest_byte-append (pieces base size r) (all_pieces base size filled fits rs) p,
    newest_byte-append (r ∷ []) rs p,
    newest_byte-pieces r p h.0 m.0,
    newest_byte-all_pieces rs p h.1 m.1,
  )

  -- Let the range be non-empty and within 2 ^ 64, and every region be placed and meet it. Then
  -- SubtractMemoryRange ends, the bytes of the range are unmapped, and every other byte stays at
  -- its host address.
  pub subtract-newest_byte :
      (rs : List MemoryRegion)
      → All IsPlaced rs
      → All (Meets base size) rs
      → (rs' : List MemoryRegion) × (subtract_memory_range rs base size ≡ some rs')
        × ((p : ℕ) → newest_byte rs' p ≡ unmapped base size p (newest_byte rs p))
  subtract-newest_byte rs h m = (
    all_pieces base size filled fits rs,
    subtract-pieces base size filled fits rs h,
    λ p. newest_byte-all_pieces rs p h m,
  )

  pub pieces-IsPlaced :
      (r : MemoryRegion) → IsPlaced r → Meets base size r → All IsPlaced (pieces base size r)
  unfolding pieces
  pieces-IsPlaced r placed m = ground arith

  pub pieces-IsAligned :
      (r : MemoryRegion)
      → base % 4096 ≡ 0
      → size % 4096 ≡ 0
      → IsAligned r
      → All IsAligned (pieces base size r)
  unfolding pieces
  pieces-IsAligned r hb hs a = ground arith

  pub all_pieces-All :
      (P : MemoryRegion → Type 0)
      → ((r : MemoryRegion) → IsPlaced r → Meets base size r → P r → All P (pieces base size r))
      → (rs : List MemoryRegion) → All IsPlaced rs
      → All (Meets base size) rs
      → All P rs
      → All P (all_pieces base size filled fits rs)
  all_pieces-All P step [] h m k = tt
  all_pieces-All P step (r ∷ rs) h m k =
      All-append P (pieces base size r) _ (step r h.0 m.0 k.0)
        (all_pieces-All P step rs h.1 m.1 k.1)

  -- Unmapping a non-empty page-aligned range within 2 ^ 64 that every region meets ends, and keeps
  -- placed and page-aligned regions placed and page-aligned.
  pub subtract-IsPlaced :
      (rs : List MemoryRegion)
      → base % 4096 ≡ 0
      → size % 4096 ≡ 0
      → All IsPlaced rs
      → All IsAligned rs
      → All (Meets base size) rs
      → (rs' : List MemoryRegion) × (subtract_memory_range rs base size ≡ some rs')
        × All IsPlaced rs'
        × All IsAligned rs'
  subtract-IsPlaced rs hb hs h a m = (
    all_pieces base size filled fits rs,
    subtract-pieces base size filled fits rs h,
    all_pieces-All IsPlaced (λ r p q _. pieces-IsPlaced r p q) rs h m h,
    all_pieces-All IsAligned (λ r _ _ k. pieces-IsAligned r hb hs k) rs h m a,
  )

  -- The pieces of the older regions do not matter for a byte that newer ones map.
  newest_byte-older :
      (older newer : List MemoryRegion) (p a : ℕ)
      → newest_byte (all_pieces base size filled fits newer) p ≡ some a
      → newest_byte (all_pieces base size filled fits (older ++ newer)) p ≡ some a
  newest_byte-older [] newer p a e = e
  newest_byte-older (q ∷ older) newer p a e =
      newest_byte-append (pieces base size q) _ p ∙ rw (newest_byte-older older newer p a e) refl

  newest_byte-grown :
      (r : MemoryRegion) (p : ℕ)
      → r.base_address + r.size ≤ p
      → p < base
      → newest_byte (pieces base size r) p ≡ some (r.host_memory + (p - r.base_address))
  unfolding newest_byte pieces
  newest_byte-grown r p h k = ground arith

  newest_byte-above :
      (r : MemoryRegion) (newer : List MemoryRegion) (p : ℕ)
      → r.base_address + r.size ≤ p
      → newest_byte (r ∷ newer) p ≡ newest_byte newer p
  unfolding newest_byte
  newest_byte-above r newer p h = ground arith

  newest_byte-newer :
      (older newer : List MemoryRegion) (p : ℕ)
      → newest_byte newer p ≡ none
      → newest_byte (older ++ newer) p ≡ newest_byte older p
  newest_byte-newer older newer p e = newest_byte-append older newer p ∙ rw e refl

  -- Let the unmapped range be non-empty and within 2 ^ 64, and all regions be placed. A region `r`
  -- that lies wholly below the range, where the newer ones all meet the range, grows up to it: an
  -- address between `r` and the range that no newer region maps is afterwards mapped into `r`,
  -- past the end of its block, whatever older region mapped it or none.
  pub subtract-grows :
      (older : List MemoryRegion) (r : MemoryRegion) (newer : List MemoryRegion) (p : ℕ)
      → All IsPlaced (older ++ r ∷ newer)
      → All (Meets base size) newer
      → r.base_address + r.size ≤ p
      → p < base
      → newest_byte newer p ≡ none
      → (rs' : List MemoryRegion) × (subtract_memory_range (older ++ r ∷ newer) base size
          ≡ some rs')
        × (newest_byte (older ++ r ∷ newer) p ≡ newest_byte older p)
        × (newest_byte rs' p ≡ some (r.host_memory + (p - r.base_address)))
  subtract-grows older r newer p placed meets h k clear =
      let after : newest_byte (all_pieces base size filled fits newer) p ≡ none =
        newest_byte-all_pieces newer p (All-drop IsPlaced older (r ∷ newer) placed).1 meets
        ∙ ground (arith, clear) in
      (
        all_pieces base size filled fits (older ++ r ∷ newer),
        subtract-pieces base size filled fits (older ++ r ∷ newer) placed,
        newest_byte-newer older (r ∷ newer) p (newest_byte-above r newer p h ∙ clear),
        newest_byte-older older (r ∷ newer) p _
            (newest_byte-append (pieces base size r) _ p ∙ rw after (newest_byte-grown r p h k)),
      )
