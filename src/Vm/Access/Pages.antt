-- ===== src/Vm/Access/Pages.antt =====
-- Guest memory byte by byte: on page-aligned regions, an access within one page reads each byte
-- from the newest region that maps it.
use mathlib.Core.Option
use mathlib.Core.List.{append_assoc}
use virt.Base.{
  ℕ, ◌+◌, ◌%◌, ◌^◌, ◌≤◌, ◌<◌, ◌≡◌, refl, sym, ap, ◌∙◌, Option, none, some, List, [], ◌∷◌, ◌++◌,
  ◌&&◌, ◌⊎◌, inl, inr, leb, ltb, if◌then◌else◌, All, All-drop, arith,
}
use virt.Vm.Region.{MemoryRegion, IsPlaced, Holds, Bytes, copy_bytes}
use virt.Vm.Access.{mem_read}
use virt.Vm.Access.Search.{host_address, copy_source-Newest, Newest, nowhere, inside}
use virt.Vm.Access.Served.{copy_bytes-IsCopy, mem_read-newest}

abbrev pub or_byte : Option ℕ → Option ℕ → Option ℕ
or_byte none o = o
or_byte (some a) o = some a

-- The host address of a guest byte, oldest region first in the list.
unfoldable pub newest_byte : List MemoryRegion → ℕ → Option ℕ
newest_byte [] p = none
newest_byte (r ∷ rs) p = or_byte (newest_byte rs p) (
    if leb r.base_address p && ltb p (r.base_address + r.size)
    then some (host_address r p)
    else none)

abbrev pub IsAligned : MemoryRegion → Type 0
IsAligned r = (r.base_address % 4096 ≡ 0) × (r.size % 4096 ≡ 0)

newest_byte-unmapped :
    (rs : List MemoryRegion) (p : ℕ) → All (λ r. ¬ Holds r p 1) rs → newest_byte rs p ≡ none
unfolding newest_byte
newest_byte-unmapped [] p h = refl
newest_byte-unmapped (r ∷ rs) p h = ground (arith, newest_byte-unmapped rs p h.1, h.0)

newest_byte-inside :
    (older : List MemoryRegion) (r : MemoryRegion) (newer : List MemoryRegion) (p : ℕ)
    → Holds r p 1
    → All (λ q. ¬ Holds q p 1) newer
    → newest_byte (older ++ r ∷ newer) p ≡ some (host_address r p)
unfolding newest_byte
newest_byte-inside [] r newer p h k = ground (arith, newest_byte-unmapped newer p k)
newest_byte-inside (q ∷ older) r newer p h k =
    ground (arith, newest_byte-inside older r newer p h k)

-- Within a page an aligned region holds all of a range or none of it.
Holds-page :
    (paddr size i : ℕ) (r : MemoryRegion)
    → paddr % 4096 + size ≤ 4096
    → i < size
    → IsAligned r
    → Holds r (paddr + i) 1
    → Holds r paddr size
Holds-page paddr size i r page h a held = omega arith

misses_page :
    (paddr size i : ℕ)
    → paddr % 4096 + size ≤ 4096
    → i < size
    → (rs : List MemoryRegion) → All IsAligned rs
    → All (λ r. ¬ Holds r paddr size) rs
    → All (λ r. ¬ Holds r (paddr + i) 1) rs
misses_page paddr size i page h [] a m = tt
misses_page paddr size i page h (r ∷ rs) a m = (
  λ held. m.0 (Holds-page paddr size i r page h a.0 held),
  misses_page paddr size i page h rs a.1 m.1,
)

module _ (regions : List MemoryRegion) (host : Bytes) (paddr size : ℕ) (value : Bytes) (pos : ℕ)
    (filled : 0 < size) (page : paddr % 4096 + size ≤ 4096) (fits : paddr + size ≤ 2 ^ 64)
    (placed : All IsPlaced regions) (aligned : All IsAligned regions) where
  abbrev pub Agrees : ℕ → Option Bytes → Type 0
  Agrees i result =
      ((result ≡ none) × (newest_byte regions (paddr + i) ≡ none))
      ⊎ ((v : Bytes) × (a : ℕ) × (result ≡ some v)
          × (newest_byte regions (paddr + i) ≡ some a)
          × (v (pos + i) ≡ host a))

  read_by_byte :
      (i : ℕ) (found : Option (ℕ × ℕ))
      → i < size
      → Newest paddr size filled fits regions found
      → Agrees i (Option.map (λ (ptr, n). copy_bytes value pos host ptr n) found)
  read_by_byte i found h (nowhere others e) = inl (
    rw e,
    newest_byte-unmapped regions (paddr + i)
        (misses_page paddr size i page h regions aligned others),
  )
  read_by_byte i found h (inside older r newer split held others e) =
      let a = host_address r (paddr + i) in
      let moved : host_address r paddr + i ≡ a = omega arith in
      let got = copy_bytes-IsCopy value pos host (host_address r paddr) size in
      let newer_aligned = All-drop _ older (r ∷ newer) (rw split at aligned) in
      let nb =
        newest_byte-inside older r newer (paddr + i) (omega arith)
          (misses_page paddr size i page h newer newer_aligned.1 others) in
      inr (
        copy_bytes value pos host (host_address r paddr) size,
        a,
        rw e,
        ap (λ rs. newest_byte rs (paddr + i)) split ∙ nb,
        got.copied i h ∙ ap host moved,
      )

  -- Over placed and page-aligned regions, for a non-empty range within one page and within 2 ^ 64,
  -- and each byte of it: MemRead fails and no region maps the byte, or it succeeds and gives the
  -- host byte of the newest region that maps this byte.
  pub mem_read-by_byte : (i : ℕ) → i < size → Agrees i (mem_read regions host paddr size value pos)
  unfolding mem_read
  mem_read-by_byte i h =
      read_by_byte i _ h (copy_source-Newest paddr size filled fits regions placed)

-- Let `r` be the newest region that holds the whole of a range within 2 ^ 64, `r` and the newer
-- ones be placed, and a newer `q` be the newest one that holds its byte `i`. Then MemRead passes
-- over `q`, and gives for that byte the host byte of `r`.
pub mem_read-stale :
    (older : List MemoryRegion) (r : MemoryRegion) (middle : List MemoryRegion) (q : MemoryRegion)
    (newer : List MemoryRegion) (host : Bytes) (paddr size : ℕ) (value : Bytes) (pos i : ℕ)
    → All IsPlaced (r ∷ (middle ++ q ∷ newer))
    → paddr + size ≤ 2 ^ 64
    → i < size
    → Holds r paddr size
    → All (λ t. ¬ Holds t paddr size) (middle ++ q ∷ newer)
    → Holds q (paddr + i) 1
    → All (λ t. ¬ Holds t (paddr + i) 1) newer
    → let regions = older ++ r ∷ (middle ++ q ∷ newer) in
      (v : Bytes) × (mem_read regions host paddr size value pos ≡ some v)
      × (v (pos + i) ≡ host (host_address r (paddr + i)))
      × (newest_byte regions (paddr + i) ≡ some (host_address q (paddr + i)))
mem_read-stale older r middle q newer host paddr size value pos i placed fits h held others covers
      last =
    let (v, e, got) =
      mem_read-newest older r (middle ++ q ∷ newer) host paddr size value pos (omega arith) fits
        placed held others in
    let moved : host_address r paddr + i ≡ host_address r (paddr + i) = omega arith in
    (
      v,
      e,
      got.copied i h ∙ ap host moved,
      ap (λ rs. newest_byte rs (paddr + i)) (sym (append_assoc older (r ∷ middle) (q ∷ newer)))
          ∙ newest_byte-inside (older ++ r ∷ middle) q newer (paddr + i) covers last,
    )
