-- ===== src/Vm/Access/Search.antt =====
-- The search of MemRead and MemWrite finds the newest region that holds the whole range.
use mathlib.Core.List.{reverse, reverse-cons}
use native.Mathlib.Decide.{dec_le}
use virt.Base.{
  ℕ, ◌+◌, ◌-◌, ◌^◌, ◌≤◌, ◌<◌, ◌≡◌, refl, ap, ◌∙◌, Option, none, some, List, [], ◌∷◌, ◌++◌, All,
  All-reverse, arith,
}
use virt.Vm.Region.{MemoryRegion, final_address, IsPlaced, Holds, final_address_lem}
use virt.Vm.Access.{copy_source}

-- Where the bytes of a range lie that the region holds.
abbrev pub host_address : MemoryRegion → ℕ → ℕ
host_address r paddr = r.host_memory + (paddr - r.base_address)

module _ (paddr size : ℕ) (filled : 0 < size) (fits : paddr + size ≤ 2 ^ 64) where
  pub copy_source-hit :
      (r : MemoryRegion) (rs : List MemoryRegion)
      → IsPlaced r
      → Holds r paddr size
      → copy_source paddr (final_address paddr size) size (r ∷ rs)
        ≡ some (host_address r paddr, size)
  unfolding copy_source
  copy_source-hit r rs placed held =
      ground (arith, final_address_lem paddr size, final_address_lem r.base_address r.size)

  pub copy_source-miss :
      (r : MemoryRegion) (rs : List MemoryRegion)
      → IsPlaced r
      → ¬ Holds r paddr size
      → copy_source paddr (final_address paddr size) size (r ∷ rs)
        ≡ copy_source paddr (final_address paddr size) size rs
  unfolding copy_source
  copy_source-miss r rs placed other =
      ground (arith, final_address_lem paddr size, final_address_lem r.base_address r.size)

  Holds-dec : (r : MemoryRegion) → Dec (Holds r paddr size)
  Holds-dec r = elim (dec_le r.base_address paddr) [
    | yes p ↦ elim (dec_le (paddr + size) (r.base_address + r.size)) [
      | yes q ↦ yes (p, q)
      | no q ↦ no (λ h. q h.1)
    ]
    | no p ↦ no (λ h. p h.0)
  ]

  -- The search of a list, and then of another.
  abbrev pub or_else : Option (ℕ × ℕ) → Option (ℕ × ℕ) → Option (ℕ × ℕ)
  or_else none o = o
  or_else (some a) o = some a

  abbrev pub search_all : List MemoryRegion → Option (ℕ × ℕ)
  search_all = copy_source paddr (final_address paddr size) size

  pub copy_source-append :
      (xs ys : List MemoryRegion)
      → All IsPlaced xs
      → search_all (xs ++ ys) ≡ or_else (search_all xs) (search_all ys)
  copy_source-append [] ys h = unfold copy_source in refl
  copy_source-append (r ∷ xs) ys h = elim (Holds-dec r) [
    | yes held ↦ rw (copy_source-hit r (xs ++ ys) h.0 held, copy_source-hit r xs h.0 held)
    | no other ↦
        rw (copy_source-miss r (xs ++ ys) h.0 other, copy_source-miss r xs h.0 other)
          (copy_source-append xs ys h.1)
  ]

  -- Either no region holds the range, or `r` does and none that was mapped later.
  pub data Newest (regions : List MemoryRegion) (found : Option (ℕ × ℕ)) : Type 0 where
    nowhere : All (λ r. ¬ Holds r paddr size) regions → found ≡ none → Newest regions found
    inside :
        (older : List MemoryRegion) (r : MemoryRegion) (newer : List MemoryRegion)
        → regions ≡ older ++ r ∷ newer
        → Holds r paddr size
        → All (λ q. ¬ Holds q paddr size) newer
        → found ≡ some (host_address r paddr, size)
        → Newest regions found

  Newest-cons :
      (r : MemoryRegion) (rs : List MemoryRegion) (found : Option (ℕ × ℕ))
      → IsPlaced r
      → Newest rs found
      → Newest (r ∷ rs) (or_else found (search_all (r ∷ [])))
  Newest-cons r rs found placed (inside older q newer e held none_newer f) =
      inside (r ∷ older) q newer (ap (◌∷◌ r) e) held none_newer (rw f)
  Newest-cons r rs found placed (nowhere others f) = elim (Holds-dec r) [
    | yes held ↦ inside [] r rs refl held others (rw f (copy_source-hit r [] placed held))
    | no other ↦
        nowhere (other, others)
          (rw f (copy_source-miss r [] placed other ∙ (unfold copy_source in refl)))
  ]

  pub copy_source-Newest :
      (regions : List MemoryRegion)
      → All IsPlaced regions
      → Newest regions (search_all (reverse regions))
  copy_source-Newest [] h = nowhere tt (unfold copy_source in refl)
  copy_source-Newest (r ∷ rs) h =
      rw (reverse-cons r rs, copy_source-append (reverse rs) (r ∷ []) (All-reverse IsPlaced rs h.1))
        (Newest-cons r rs _ h.0 (copy_source-Newest rs h.1))
