-- ===== src/Vp/Modes/Tables.antt =====
-- The two mode functions as the tables of mode.hpp state them, on the bits of the registers.
use virt.Base.{ℕ, ◌/◌, ◌%◌, ◌^◌, ◌≡◌, ◌==◌, Bool, true, false, arith}
use virt.Base.Bits.{has_any_bit}
use virt.Vp.Status.{ok}
use virt.Vp.Reg.{Reg}
use virt.Vp.Registers.{RegValue, u64_of, Platform, read_loop}
use virt.Vp.Modes.{
  get_execution_mode, get_paging_mode, CpuExecutionMode, CpuPagingMode, real_address, virtual8086,
  protected, ia32e, invalid, none_, none_lme, none_pae, none_pae_and_lme, thirty_two_bit,
  four_level, execution_mode, paging_mode,
}

abbrev pub bit : ℕ → ℕ → Bool
bit k x = x / 2 ^ k % 2 == 1

abbrev pub execution_table : Bool → Bool → Bool → CpuExecutionMode
execution_table false vm lma = real_address
execution_table true true lma = virtual8086
execution_table true false true = ia32e
execution_table true false false = protected

abbrev pub paging_table : Bool → Bool → Bool → CpuPagingMode
paging_table false false false = none_
paging_table false false true = none_lme
paging_table false true false = none_pae
paging_table false true true = none_pae_and_lme
paging_table true false false = thirty_two_bit
paging_table true false true = invalid
paging_table true true false = CpuPagingMode.pae
paging_table true true true = four_level

pub execution_mode-table :
    (cr0 rflags efer : ℕ)
    → execution_mode cr0 rflags efer ≡ execution_table (bit 0 cr0) (bit 17 rflags) (bit 10 efer)
unfolding execution_mode
execution_mode-table cr0 rflags efer =
    ground (arith, has_any_bit 0 cr0, has_any_bit 17 rflags, has_any_bit 10 efer)

pub paging_mode-table :
    (cr0 cr4 efer : ℕ)
    → paging_mode cr0 cr4 efer ≡ paging_table (bit 31 cr0) (bit 5 cr4) (bit 8 efer)
unfolding paging_mode
paging_mode-table cr0 cr4 efer =
    ground (arith, has_any_bit 31 cr0, has_any_bit 5 cr4, has_any_bit 8 efer)

module _ {S : Type 0} (p : Platform S) (s : S) (a b c : RegValue) where
  -- If the three registers can be read, GetExecutionMode is the table of mode.hpp on CR0.PE (bit
  -- 0), RFLAGS.VM (bit 17) and EFER.LMA (bit 10).
  pub get_execution_mode-table :
      p.reg_read s Reg.cr0 ≡ ok a
      → p.reg_read s Reg.rflags ≡ ok b
      → p.reg_read s Reg.efer ≡ ok c
      → get_execution_mode p s
        ≡ execution_table (bit 0 (u64_of a)) (bit 17 (u64_of b)) (bit 10 (u64_of c))
  unfolding get_execution_mode read_loop
  get_execution_mode-table ha hb hc =
      rw (ha, get_execution_mode, hb, hc) (execution_mode-table (u64_of a) (u64_of b) (u64_of c))

  -- If the three registers can be read, GetPagingMode is the table of mode.hpp on CR0.PG (bit 31),
  -- CR4.PAE (bit 5) and EFER.LME (bit 8).
  pub get_paging_mode-table :
      p.reg_read s Reg.cr0 ≡ ok a
      → p.reg_read s Reg.cr4 ≡ ok b
      → p.reg_read s Reg.efer ≡ ok c
      → get_paging_mode p s ≡ paging_table (bit 31 (u64_of a)) (bit 5 (u64_of b)) (bit 8 (u64_of c))
  unfolding get_paging_mode read_loop
  get_paging_mode-table ha hb hc =
      rw (ha, get_paging_mode, hb, hc) (paging_mode-table (u64_of a) (u64_of b) (u64_of c))
