-- ===== src/Vm/Access/Served.antt =====
-- What MemRead and MemWrite do to the bytes: the newest region that holds the range serves it.
use mathlib.Core.List.{reverse, reverse-append, reverse-cons}
use mathlib.Core.Option
use mathlib.Core.Option.{some-injective}
use virt.Base.{
  ℕ, ◌+◌, ◌-◌, ◌^◌, ◌≤◌, ◌<◌, ◌≡◌, refl, ◌⊎◌, ◌∙◌, ap, ◌↔◌, Option, none, some, List, [], ◌∷◌, ◌++◌,
  All, All-reverse, All-append, All-middle, arith,
}
use virt.Vm.Region.{MemoryRegion, final_address, IsPlaced, Holds, Bytes, copy_bytes}
use virt.Vm.Access.{copy_source, mem_read, mem_write}
use virt.Vm.Access.Search.{
  host_address, copy_source-append, copy_source-hit, copy_source-miss, copy_source-Newest, Newest,
  nowhere, inside,
}

-- The `n` bytes of `dst` from `d` on are those of `src` from `s` on, and the others are `old`'s.
pub record IsCopy (dst : Bytes) (d : ℕ) (src : Bytes) (s n : ℕ) (old : Bytes) : Type 0 where
  pub copied : (i : ℕ) → i < n → dst (d + i) ≡ src (s + i)
  pub others : (a : ℕ) → (a < d) ⊎ (d + n ≤ a) → dst a ≡ old a

pub copy_bytes-IsCopy :
    (dst : Bytes) (d : ℕ) (src : Bytes) (s n : ℕ) → IsCopy (copy_bytes dst d src s n) d src s n dst
unfolding copy_bytes
copy_bytes-IsCopy dst d src s n = record {
  copied = λ i h. ground (arith, ap src (moved i));
  others = λ a h. ground arith;
}
  where
    moved : (i : ℕ) → s + (d + i - d) ≡ s + i
    moved i = omega arith

module _ (paddr size : ℕ) (filled : 0 < size) (fits : paddr + size ≤ 2 ^ 64) where
  search_none :
      (rs : List MemoryRegion)
      → All IsPlaced rs
      → All (λ r. ¬ Holds r paddr size) rs
      → copy_source paddr (final_address paddr size) size rs ≡ none
  search_none [] h k = unfold copy_source in refl
  search_none (r ∷ rs) h k =
      copy_source-miss paddr size filled fits r rs h.0 k.0 ∙ search_none rs h.1 k.1

  search_split :
      (older : List MemoryRegion) (r : MemoryRegion) (newer : List MemoryRegion)
      → IsPlaced r
      → All IsPlaced newer
      → Holds r paddr size
      → All (λ q. ¬ Holds q paddr size) newer
      → copy_source paddr (final_address paddr size) size (reverse (older ++ r ∷ newer))
        ≡ some (host_address r paddr, size)
  search_split older r newer placed placed_newer held others = rw (
    reverse-append older (r ∷ newer),
    reverse-cons r newer,
    copy_source-append paddr size filled fits (reverse newer ++ r ∷ []) (reverse older) (
        All-append IsPlaced (reverse newer) (r ∷ []) (All-reverse IsPlaced newer placed_newer)
          (placed, tt)),
    copy_source-append paddr size filled fits (reverse newer) (r ∷ [])
        (All-reverse IsPlaced newer placed_newer),
    search_none (reverse newer) (All-reverse IsPlaced newer placed_newer)
        (All-reverse (λ q. ¬ Holds q paddr size) newer others),
    copy_source-hit paddr size filled fits r [] placed held,
  )

-- Let `paddr + size` stay within 2 ^ 64, `size` be positive, and a placed region hold the range,
-- while none of the newer regions, all placed, holds it whole. Then MemRead succeeds with exactly
-- the bytes of that region's host memory at `pos` in the buffer, and leaves the rest of the buffer
-- as it was.
pub mem_read-newest :
    (older : List MemoryRegion) (r : MemoryRegion) (newer : List MemoryRegion) (host : Bytes)
    (paddr size : ℕ) (value : Bytes) (pos : ℕ)
    → 0 < size
    → paddr + size ≤ 2 ^ 64
    → All IsPlaced (r ∷ newer)
    → Holds r paddr size
    → All (λ q. ¬ Holds q paddr size) newer
    → (v : Bytes) × (mem_read (older ++ r ∷ newer) host paddr size value pos ≡ some v)
      × IsCopy v pos host (host_address r paddr) size value
unfolding mem_read
mem_read-newest older r newer host paddr size value pos filled fits placed held others = (
  copy_bytes value pos host (host_address r paddr) size,
  rw (search_split paddr size filled fits older r newer placed.0 placed.1 held others),
  copy_bytes-IsCopy value pos host (host_address r paddr) size,
)

-- Let `paddr + size` stay within 2 ^ 64, `size` be positive, and a placed region hold the range,
-- while none of the newer regions, all placed, holds it whole. Then MemWrite succeeds, stores
-- exactly the bytes from `pos` of the buffer at that region's host memory, and changes no other
-- byte.
pub mem_write-newest :
    (older : List MemoryRegion) (r : MemoryRegion) (newer : List MemoryRegion) (host : Bytes)
    (paddr size : ℕ) (value : Bytes) (pos : ℕ)
    → 0 < size
    → paddr + size ≤ 2 ^ 64
    → All IsPlaced (r ∷ newer)
    → Holds r paddr size
    → All (λ q. ¬ Holds q paddr size) newer
    → (host' : Bytes) × (mem_write (older ++ r ∷ newer) host paddr size value pos ≡ some host')
      × IsCopy host' (host_address r paddr) value pos size host
unfolding mem_write
mem_write-newest older r newer host paddr size value pos filled fits placed held others = (
  copy_bytes host (host_address r paddr) value pos size,
  rw (search_split paddr size filled fits older r newer placed.0 placed.1 held others),
  copy_bytes-IsCopy host (host_address r paddr) value pos size,
)

module _ (regions : List MemoryRegion) (host : Bytes) (paddr size : ℕ) (value : Bytes) (pos : ℕ)
    (filled : 0 < size) (fits : paddr + size ≤ 2 ^ 64) (placed : All IsPlaced regions) where
  -- Over placed regions and a non-empty range within 2 ^ 64, MemRead fails exactly when no single
  -- region holds the whole range.
  pub mem_read-fails_iff :
      (mem_read regions host paddr size value pos ≡ none) ↔ All (λ r. ¬ Holds r paddr size) regions
  unfolding mem_read
  mem_read-fails_iff = elim (copy_source-Newest paddr size filled fits regions placed) [
    | nowhere others e ↦ (λ _. others, λ _. rw e)
    | inside older r newer split held others e ↦ (
      λ h. let some_none : some _ ≡ none = rw e at h in cc,
      λ others. absurd (All-middle _ older r newer (rw split at others) held),
    )
  ]

  stored_back :
      (host' out : Bytes) (at : ℕ) (found : Option (ℕ × ℕ))
      → Newest paddr size filled fits regions found
      → Option.map (λ (ptr, n). copy_bytes host ptr value pos n) found ≡ some host'
      → (v : Bytes) × (Option.map (λ (ptr, n). copy_bytes out at host' ptr n) found ≡ some v)
        × IsCopy v at value pos size out
  stored_back host' out at found (nowhere others f) e = absurd (cc (rw f at e))
  stored_back host' out at found (inside older r newer split held others f) e =
      let ptr = host_address r paddr in
      let written : some (copy_bytes host ptr value pos size) ≡ some host' = rw f at e in
      let same : copy_bytes host ptr value pos size ≡ host' = some-injective _ _ written in
      let put = copy_bytes-IsCopy host ptr value pos size in
      let got = copy_bytes-IsCopy out at host' ptr size in
      (
        copy_bytes out at host' ptr size,
        rw f,
        record {
          copied = λ i h. got.copied i h ∙ (rw (← same) (put.copied i h));
          others = got.others;
        },
      )

  -- Over placed regions and a non-empty range within 2 ^ 64: if MemWrite succeeds, MemRead of the
  -- same range from the new memory succeeds, and gives the bytes that were stored.
  pub mem_read-mem_write :
      (host' out : Bytes) (at : ℕ)
      → mem_write regions host paddr size value pos ≡ some host'
      → (v : Bytes) × (mem_read regions host' paddr size out at ≡ some v)
        × IsCopy v at value pos size out
  unfolding mem_read mem_write
  mem_read-mem_write host' out at e =
      stored_back host' out at _ (copy_source-Newest paddr size filled fits regions placed) e
