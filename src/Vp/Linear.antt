-- ===== src/Vp/Linear.antt =====
-- LMemRead and LMemWrite of modules/core/src/vp/vp.cpp: a transfer over a linear range, page by page.
-- Each pass of their loop runs on fuel, of which as much as the size is enough.
pub mod Loop
use virt.Base.{
  ℕ, zero, suc, ◌+◌, ◌-◌, ltb, if◌then◌else◌, bit_and, true, Option, none, some, add64, sub64, u64,
  not64,
}
use virt.Vm.Region.{Bytes}
use virt.Vm.Access.{mem_read, mem_write}
use virt.Vp.Registers.{Platform}
use virt.Vp.Paging.{GuestMemory, linear_to_physical}

abbrev page_size : ℕ
page_size = 0x1000

-- `done pos` is the result true with the number of bytes.
pub data Transfer : Type 0 where
  done : ℕ → Transfer
  refused out_of_fuel : Transfer

-- The loop, on the state `A` that a piece is copied into: `copy address size pos` is MemRead or
-- MemWrite on one page's piece, `locate` is LinearToPhysical, which
-- reads the page tables in the memory as it is by then.
unfoldable pub transfer_loop :
    {A : Type 0}
    → (ℕ → A → Option ℕ)
    → (ℕ → ℕ → ℕ → A → Option A)
    → ℕ
    → ℕ
    → ℕ
    → ℕ
    → ℕ
    → ℕ
    → A
    → Transfer × A
transfer_loop locate copy zero size start end pos copy_size a =
    if ltb pos size then (out_of_fuel, a) else (done pos, a)
transfer_loop locate copy (suc fuel) size start end pos copy_size a =
    let next_pos = u64 (pos + copy_size) in
    let left = sub64 size next_pos in
    let next_size = if ltb page_size left then page_size else left in
    if ltb pos size
    then elim (locate start a) [
      | none ↦ (refused, a)
      | some physical ↦ elim (copy physical copy_size pos a) [
        | none ↦ (refused, a)
        | some next ↦
            transfer_loop locate copy fuel size (add64 end 1) (add64 end page_size) next_pos
              next_size next
      ]
    ]
    else (done pos, a)

-- The part before the loop.
unfoldable pub transfer :
    {A : Type 0} → (ℕ → A → Option ℕ) → (ℕ → ℕ → ℕ → A → Option A) → ℕ → ℕ → A → Transfer × A
unfolding transfer_loop
transfer locate copy laddr size a =
    let end = sub64 (bit_and (add64 laddr page_size) (not64 (page_size - 1))) 1 in
    let whole = add64 (sub64 end laddr) 1 in
    transfer_loop locate copy size size laddr end 0 (if ltb size whole then size else whole) a

module _ {S : Type 0} (p : Platform S) (s : S) (m : GuestMemory) where
  -- The second component is `value`; a null pointer is refused.
  pub lmem_read : ℕ → ℕ → Option Bytes → Transfer × Option Bytes
  unfolding transfer
  lmem_read laddr size none = (refused, none)
  lmem_read laddr size (some value) =
      let (result, filled) =
        transfer (λ l _. linear_to_physical p s m l true)
          (λ physical n pos out. mem_read m.regions m.host physical n out pos) laddr size value in
      (result, some filled)

  -- The second component is the host's memory, where the guest's page tables stand too.
  pub lmem_write : ℕ → ℕ → Option Bytes → Transfer × Bytes
  unfolding transfer
  lmem_write laddr size none = (refused, m.host)
  lmem_write laddr size (some value) =
      transfer (λ l host. linear_to_physical p s (record m { host = host }) l true)
        (λ physical n pos host. mem_write m.regions host physical n value pos) laddr size m.host
