-- ===== src/Kvm/Exit/Items.antt =====
-- What the loop of HandleIO does with a page of items.
use mathlib.Core.Path.{subst}
use virt.Base.{
  ℕ, zero, suc, ◌+◌, ◌*◌, ◌%◌, ◌^◌, ◌<◌, ◌≤◌, ◌≡◌, refl, ◌⊎◌, inl, inr, true, false, some, List, [],
  ◌∷◌, length, map, ap, ◌∙◌, lt→ltb, arith,
}
use virt.Vm.Region.{Bytes}
use virt.Vm.Io.{IoHandlers, io_read, io_write}
use virt.Vp.Layout.{load, store, load-store, load_ext, store_below, store_above}
use virt.Kvm.State.{KvmRun}
use virt.Kvm.Exit.{sized, io_item, io_items, handle_io}

-- The items of `size` bytes from an offset on.
abbrev pub items : Bytes → ℕ → ℕ → ℕ → List ℕ
items page at size zero = []
items page at size (suc n) = load page at size ∷ items page (at + size) size n

-- The page with these values stored one after the other.
abbrev pub filled : Bytes → ℕ → ℕ → List ℕ → Bytes
filled page at size [] = page
filled page at size (value ∷ values) = filled (store page at size value) (at + size) size values

filled_below :
    (page : Bytes) (at size : ℕ) (vs : List ℕ) (i : ℕ) → i < at → filled page at size vs i ≡ page i
filled_below page at size [] i lt = refl
filled_below page at size (v ∷ vs) i lt =
    filled_below (store page at size v) (at + size) size vs i (omega arith)
    ∙ store_below page at size v i lt

filled_above :
    (page : Bytes) (at size : ℕ) (vs : List ℕ) (i : ℕ)
    → at + length vs * size ≤ i
    → filled page at size vs i ≡ page i
filled_above page at size [] i le = refl
filled_above page at size (v ∷ vs) i le =
    filled_above (store page at size v) (at + size) size vs i (grind arith)
    ∙ store_above page at size v i (grind arith)

-- What the page holds afterwards at these items.
items-filled :
    (page : Bytes) (at size : ℕ) (vs : List ℕ)
    → items (filled page at size vs) at size (length vs) ≡ map (λ v. v % 256 ^ size) vs
items-filled page at size [] = refl
items-filled page at size (v ∷ vs) =
    let first : load (filled page at size (v ∷ vs)) at size ≡ v % 256 ^ size =
      load_ext _ _ at size
        (λ i lt. filled_below (store page at size v) (at + size) size vs (at + i) (omega arith))
      ∙ load-store page at size v in
    rw (first, items-filled (store page at size v) (at + size) size vs)

module _ {W : Type 0} (h : IoHandlers W) where
  -- IOWrite of each of these values, in their order.
  abbrev pub io_writes : ℕ → ℕ → List ℕ → W → W
  io_writes port size [] w = w
  io_writes port size (value ∷ values) w = io_writes port size values (io_write h port size value w)

  -- `n` calls of IORead, one after the other: what they return, in their order.
  abbrev pub io_reads : ℕ → ℕ → ℕ → W → List ℕ × W
  io_reads port size zero w = ([], w)
  io_reads port size (suc n) w =
      let (value, w1) = io_read h port size w in
      let (values, w2) = io_reads port size n w1 in (value ∷ values, w2)

  io_items-out :
      (r : KvmRun) (at n : ℕ) (page : Bytes) (w : W)
      → sized r.size ≡ true
      → r.out ≡ true
      → io_items h r at n page w ≡ some (page, io_writes r.port r.size (items page at r.size n) w)
  unfolding io_items io_item
  io_items-out r at zero page w s out = refl
  io_items-out r at (suc n) page w s out =
      rw (s, out)
        (io_items-out r (at + r.size) n page (io_write h r.port r.size (load page at r.size) w) s
          out)

  -- For output of fewer than 2 ^ 16 items of 1, 2 or 4 bytes, HandleIO ends and calls IOWrite once
  -- for each item of the page, in their order, with the port, the size and the item; the page
  -- stays as it was.
  pub handle_io-out :
      (r : KvmRun) (w : W)
      → sized r.size ≡ true
      → r.out ≡ true
      → r.count < 2 ^ 16
      → handle_io h r w
        ≡ some (r, io_writes r.port r.size (items r.page r.data_offset r.size r.count) w)
  unfolding handle_io
  handle_io-out r w s out lt =
      rw (lt→ltb r.count (2 ^ 16) lt, io_items-out r r.data_offset r.count r.page w s out)

  io_items-in :
      (r : KvmRun) (at n : ℕ) (page : Bytes) (w : W)
      → sized r.size ≡ true
      → r.out ≡ false
      → io_items h r at n page w
        ≡ some
            (filled page at r.size (io_reads r.port r.size n w).0, (io_reads r.port r.size n w).1)
  unfolding io_items io_item
  io_items-in r at zero page w s out = refl
  io_items-in r at (suc n) page w s out =
      let (value, w1) = io_read h r.port r.size w in
      rw (s, out) (io_items-in r (at + r.size) n (store page at r.size value) w1 s out)

  length-io_reads : (port size n : ℕ) (w : W) → length (io_reads port size n w).0 ≡ n
  length-io_reads port size zero w = refl
  length-io_reads port size (suc n) w =
      ap suc (length-io_reads port size n (io_read h port size w).1)

  -- For input of fewer than 2 ^ 16 items of 1, 2 or 4 bytes, HandleIO ends and calls IORead once
  -- for each item; the items of the page are then what it returned, in order, cut to their size,
  -- and every other byte of the page is as it was.
  pub handle_io-in :
      (r : KvmRun) (w : W)
      → sized r.size ≡ true
      → r.out ≡ false
      → r.count < 2 ^ 16
      → (page : Bytes) × (handle_io h r w
          ≡ some (record r { page = page }, (io_reads r.port r.size r.count w).1))
        × (items page r.data_offset r.size r.count
            ≡ map (λ v. v % 256 ^ r.size) (io_reads r.port r.size r.count w).0)
        × ((i : ℕ)
            → (i < r.data_offset) ⊎ (r.data_offset + r.count * r.size ≤ i)
            → page i ≡ r.page i)
  unfolding handle_io
  handle_io-in r w s out lt =
      let values = (io_reads r.port r.size r.count w).0 in
      let count = length-io_reads r.port r.size r.count w in
      (
        filled r.page r.data_offset r.size values,
        rw (lt→ltb r.count (2 ^ 16) lt, io_items-in r r.data_offset r.count r.page w s out),
        subst
            (λ n.
              items (filled r.page r.data_offset r.size values) r.data_offset r.size n
              ≡ map (λ v. v % 256 ^ r.size) values)
            count (items-filled r.page r.data_offset r.size values),
        λ i. elim [
          | inl below ↦ filled_below r.page r.data_offset r.size values i below
          | inr above ↦ filled_above r.page r.data_offset r.size values i (rw count above)
        ],
      )
