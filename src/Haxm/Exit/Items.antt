-- ===== src/Haxm/Exit/Items.antt =====
-- In which order the loop of HandleIO on HAXM visits the items.
use virt.Base.{
  ℕ, zero, suc, ◌+◌, ◌-◌, ◌*◌, ◌≡◌, refl, ap, sym, ◌∙◌, inl, inr, Bool-cases, true, false,
  if◌then◌else◌, Option, some, List, [], ◌∷◌, arith,
}
use virt.Vm.Region.{Bytes}
use virt.Vm.Io.{IoHandlers, io_write}
use virt.Vp.Layout.{load}
use virt.Kvm.Exit.{sized}
use virt.Kvm.Exit.Items.{items, io_writes}
use virt.Haxm.State.{Tunnel}
use virt.Haxm.Exit.{io_item, io_items, handle_io}

-- The `n` items of `size` bytes from offset 0 on, the last one first.
abbrev pub items_down : Bytes → ℕ → ℕ → List ℕ
items_down page size zero = []
items_down page size (suc n) = load page (size * n) size ∷ items_down page size n

pred : (n : ℕ) → suc n - 1 ≡ n
pred n = omega arith

below : (size n : ℕ) → size * n - size ≡ size * (n - 1)
below size zero = omega arith
below size (suc n) = grind arith

module _ {W : Type 0} (h : IoHandlers W) where
  io_items-up :
      (t : Tunnel) (at n : ℕ) (page : Bytes) (w : W)
      → sized t.size ≡ true
      → t.out ≡ true
      → t.df ≡ false
      → io_items h t at n page w ≡ some (page, io_writes h t.port t.size (items page at t.size n) w)
  unfolding io_items io_item
  io_items-up t at zero page w s out up = refl
  io_items-up t at (suc n) page w s out up =
      rw (s, out, up)
        (io_items-up t (at + t.size) n page (io_write h t.port t.size (load page at t.size) w) s out
          up)

  io_items-down :
      (t : Tunnel) (n : ℕ) (page : Bytes) (w : W)
      → sized t.size ≡ true
      → t.out ≡ true
      → t.df ≡ true
      → io_items h t (t.size * (n - 1)) n page w
        ≡ some (page, io_writes h t.port t.size (items_down page t.size n) w)
  unfolding io_items io_item
  io_items-down t zero page w s out down = refl
  io_items-down t (suc n) page w s out down =
      rw (s, out, down, pred n, below t.size n)
        (io_items-down t n page (io_write h t.port t.size (load page (t.size * n) t.size) w) s out
          down)

  -- For output of items of 1, 2 or 4 bytes, HandleIO of HAXM calls IOWrite once for each item of
  -- the buffer, with the port, the size and the item: from the first to the last, or from the last
  -- to the first if the direction flag is set. The buffer stays as it was.
  pub handle_io-order :
      (t : Tunnel) (page : Bytes) (w : W)
      → sized t.size ≡ true
      → t.out ≡ true
      → handle_io h t page w
        ≡ some (
          page,
          io_writes h t.port t.size
              (if t.df then items_down page t.size t.count else items page 0 t.size t.count)
              w,
        )
  unfolding handle_io
  handle_io-order t page w s out = elim (Bool-cases t.df) [
    | inl down ↦
        ap (λ b. io_items h t (if b then t.size * (t.count - 1) else 0) t.count page w) down
        ∙ io_items-down t t.count page w s out down
        ∙ sym (
            ap
              (λ b.
                done (if b then items_down page t.size t.count else items page 0 t.size t.count))
              down)
    | inr up ↦
        ap (λ b. io_items h t (if b then t.size * (t.count - 1) else 0) t.count page w) up
        ∙ io_items-up t 0 t.count page w s out up
        ∙ sym (
            ap
              (λ b.
                done (if b then items_down page t.size t.count else items page 0 t.size t.count))
              up)
  ]
    where
      done : List ℕ → Option (Bytes × W)
      done values = some (page, io_writes h t.port t.size values w)
