-- ===== src/Vp/Paging.antt =====
-- Address translation of modules/core/src/vp/vp.cpp. `none` is the result false.
pub mod Entries
pub mod Walk
pub mod Pae
use virt.Base.{
  ℕ, ◌-◌, ◌/◌, ◌*◌, ◌%◌, ◌^◌, ◌==◌, ◌&&◌, not, Bool, true, false, if◌then◌else◌, bit_and, bit_or,
  has_any, u8, u32, u64, bits, ◌<<<◌, ◌>>>◌, not64, ◌≡◌, Option, none, some, List,
}
use virt.Vm.Region.{MemoryRegion, Bytes}
use virt.Vm.Access.{mem_read}
use virt.Vp.Layout.{load}
use virt.Vp.Status.{ok, err}
use virt.Vp.Reg.{Reg}
use virt.Vp.Registers.{RegValue, u64_of, u32_of, Platform}
use virt.Vp.Modes.{cr0_pg, cr4_pae, cr4_pse, efer_lme}
use Entries.{
  pte32, pde32, pde32_table, pde32_large, pte64, pde64, pde64_table, pde64_large, pdpte,
  pdpte_table, pdpte_large, pml4e,
}

infixl 5 ◌>>=◌
abbrev pub ◌>>=◌ {ℓ κ} : {A : Type ℓ} {B : Type κ} → Option A → (A → Option B) → Option B
none >>= f = none
some a >>= f = f a

-- What MemRead of the virtual machine reads: its regions and the host's memory.
pub record GuestMemory : Type 0 where
  pub regions : List MemoryRegion
  pub host : Bytes

-- 0xFFFFFFFF'FFFFFFFF >> (64 - width)
abbrev pub mask_of : ℕ → ℕ
mask_of width = 0xffff_ffff_ffff_ffff >>> (64 - width)

unfoldable pub build_address : ℕ → ℕ → ℕ → ℕ → ℕ
build_address lin_bits table_bits lin_addr table_addr =
    bit_or (u64 (bit_and table_addr (mask_of table_bits) <<< lin_bits))
      (bit_and lin_addr (mask_of lin_bits))

-- The valid entry of `size` bytes at a physical address.
unfoldable pub entry_at : GuestMemory → ℕ → ℕ → Option ℕ
entry_at m size address = do
  entry ← mem_read m.regions m.host address size (λ _. 0) 0
  if bits 0 1 (load entry 0 size) == 0 then none else some (load entry 0 size)

-- GetEntry, with the size of the entry's type.
unfoldable pub get_entry : GuestMemory → ℕ → ℕ → ℕ → ℕ → ℕ → Option ℕ
unfolding entry_at build_address
get_entry m size lin_bits table_bits lin_addr table_addr =
    entry_at m size (build_address lin_bits table_bits lin_addr table_addr)

-- Whether RegRead succeeds, and its value.
unfoldable pub read : {S : Type 0} → Platform S → S → Reg → Option RegValue
read p s reg = elim (p.reg_read s reg) [ err e ↦ none | ok v ↦ some v ]

pub read-ok :
    {S : Type 0} (p : Platform S) (s : S) (reg : Reg) {v : RegValue}
    → p.reg_read s reg ≡ ok v
    → read p s reg ≡ some v
unfolding read
read-ok p s reg e = rw (e, read)

module _ {S : Type 0} (p : Platform S) (s : S) (m : GuestMemory) where
  -- `laddr` is a uint32_t.
  unfoldable pub linear_to_physical32 : ℕ → Option ℕ
  linear_to_physical32 laddr = do
    cr3 ← read p s Reg.cr3
    cr4 ← read p s Reg.cr4
    pde ← get_entry m 4 12 20 ((laddr >>> 22) <<< 2) (u32_of cr3 >>> 12)
    if not ((pde32 pde).large_page == 0) && has_any (u64_of cr4) cr4_pse
        then some (
            build_address 22 18 laddr
              (bit_or ((pde32_large pde).addr_high <<< 10) ((pde32_large pde).addr_low)))
        else do
          pte ← get_entry m 4 12 20 ((laddr >>> 12) <<< 2) (pde32_table pde).page_frame_number
          some (build_address 12 20 laddr (pte32 pte).page_frame_number)

  unfoldable pub linear_to_physical_pae : ℕ → Option ℕ
  linear_to_physical_pae laddr = do
    cr3 ← read p s Reg.cr3
    pdpte ← get_entry m 8 5 27 (u8 (laddr >>> 30) <<< 3) (u64_of cr3 >>> 5)
    pde ← get_entry m 8 12 40 (bit_and laddr (not64 7)) (pdpte_table pdpte).address
    if not ((pde64 pde).large_page == 0)
        then some (build_address 21 31 laddr (pde64_large pde).address)
        else do
          pte ← get_entry m 8 12 40 ((laddr >>> 12) <<< 3) (pde64_table pde).address
          some (build_address 12 40 laddr (pte64 pte).address)

  unfoldable pub linear_to_physical4_level : ℕ → Option ℕ
  linear_to_physical4_level laddr = do
    cr3 ← read p s Reg.cr3
    pml4 ← get_entry m 8 12 40 (u64 ((laddr >>> 39) <<< 3)) (u64_of cr3 >>> 12)
    pdpt ← get_entry m 8 12 40 (u64 ((laddr >>> 30) <<< 3)) (pml4e pml4).address
    if not ((pdpte pdpt).large_page == 0)
        then some (build_address 30 22 laddr (pdpte_large pdpt).address)
        else do
          pde ← get_entry m 8 12 40 (u64 ((laddr >>> 21) <<< 3)) (pdpte_table pdpt).address
          if not ((pde64 pde).large_page == 0)
              then some (build_address 21 31 laddr (pde64_large pde).address)
              else do
                pte ← get_entry m 8 12 40 (u64 ((laddr >>> 12) <<< 3)) (pde64_table pde).address
                some (build_address 12 40 laddr (pte64 pte).address)

  -- The choice of LinearToPhysical, from the registers' values.
  unfoldable pub translate : ℕ → ℕ → ℕ → ℕ → Option ℕ
  translate cr0 cr4 efer laddr =
      if not (has_any cr0 cr0_pg)
      then some (bit_and laddr 0xffff_ffff)
      else if not (has_any cr4 cr4_pae)
      then linear_to_physical32 (u32 laddr)
      else if not (has_any efer efer_lme)
      then linear_to_physical_pae (u32 laddr)
      else linear_to_physical4_level laddr

  -- `given` says that `paddr` is not null.
  unfoldable pub linear_to_physical : ℕ → Bool → Option ℕ
  linear_to_physical laddr false = none
  linear_to_physical laddr true = do
    cr0 ← read p s Reg.cr0
    cr4 ← read p s Reg.cr4
    efer ← read p s Reg.efer
    translate (u64_of cr0) (u64_of cr4) (u64_of efer) laddr
