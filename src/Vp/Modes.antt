-- ===== src/Vp/Modes.antt =====
-- CPU modes of modules/core/src/vp/vp.cpp and mode.hpp, with the flags of regs.hpp that they read.
pub mod Tables
use virt.Base.{
  ℕ, ◌==◌, Bool, true, false, if◌then◌else◌, bit_or, has_any, List, [], ◌∷◌, some, none, Option,
}
use virt.Vp.Status.{Failure, Result, ok, err, ◌>>=◌}
use virt.Vp.Reg.{Reg}
use virt.Vp.Registers.{RegValue, u64_of, Platform, reg_read_array}

pub data CpuExecutionMode : Type 0 where
  unknown real_address virtual8086 protected ia32e : CpuExecutionMode

pub data CpuPagingMode : Type 0 where
  unknown invalid none_ none_lme none_pae none_pae_and_lme thirty_two_bit pae four_level :
      CpuPagingMode

abbrev pub cr0_pe : ℕ
cr0_pe = 0x1

abbrev pub cr0_pg : ℕ
cr0_pg = 0x8000_0000

abbrev pub cr4_pse : ℕ
cr4_pse = 0x10

abbrev pub cr4_pae : ℕ
cr4_pae = 0x20

abbrev pub efer_lme : ℕ
efer_lme = 0x100

abbrev pub efer_lma : ℕ
efer_lma = 0x400

abbrev pub rflags_vm : ℕ
rflags_vm = 0x2_0000

-- From the three registers' values.
pub execution_mode : ℕ → ℕ → ℕ → CpuExecutionMode
execution_mode cr0 rflags efer =
    if has_any cr0 cr0_pe
    then if has_any rflags rflags_vm
      then virtual8086
      else if has_any efer efer_lma
      then ia32e
      else protected
    else real_address

-- The switch over pagingModeBits.
mode_of_bits : ℕ → CpuPagingMode
mode_of_bits b =
    if b == 0b000
    then none_
    else if b == 0b001
    then none_lme
    else if b == 0b010
    then none_pae
    else if b == 0b011
    then none_pae_and_lme
    else if b == 0b100
    then thirty_two_bit
    else if b == 0b101
    then invalid
    else if b == 0b110
    then CpuPagingMode.pae
    else if b == 0b111
    then four_level
    else CpuPagingMode.unknown

pub paging_mode : ℕ → ℕ → ℕ → CpuPagingMode
unfolding mode_of_bits
paging_mode cr0 cr4 efer = mode_of_bits (
    bit_or
      (bit_or (bit_or 0 (if has_any cr0 cr0_pg then 4 else 0))
        (if has_any cr4 cr4_pae then 2 else 0))
      (if has_any efer efer_lme then 1 else 0))

-- The array of three values that the caller has not set: reads replace all of them.
abbrev unset : List RegValue
unset = (λ _. 0) ∷ (λ _. 0) ∷ (λ _. 0) ∷ []

abbrev on_three {ℓ} :
    {A : Type ℓ} → (ℕ → ℕ → ℕ → A) → A → Option (List RegValue) × Option Failure → A
on_three f otherwise (some (a ∷ b ∷ c ∷ []), none) = f (u64_of a) (u64_of b) (u64_of c)
on_three f otherwise _ = otherwise

module _ {S : Type 0} (p : Platform S) (s : S) where
  pub get_execution_mode : CpuExecutionMode
  unfolding execution_mode reg_read_array
  get_execution_mode =
      on_three execution_mode CpuExecutionMode.unknown
        (reg_read_array p s (some (Reg.cr0 ∷ Reg.rflags ∷ Reg.efer ∷ [])) (some unset))

  pub get_paging_mode : CpuPagingMode
  unfolding paging_mode reg_read_array
  get_paging_mode =
      on_three paging_mode CpuPagingMode.unknown
        (reg_read_array p s (some (Reg.cr0 ∷ Reg.cr4 ∷ Reg.efer ∷ [])) (some unset))

  unfoldable pub is_ia32e_mode : Bool
  unfolding get_execution_mode
  is_ia32e_mode = elim get_execution_mode [ CpuExecutionMode.ia32e ↦ true | _ ↦ false ]
