-- ===== src/Vp/Registers.antt =====
-- Registers of modules/core/src/vp/vp.cpp: register values, the operations that a platform
-- implements, and the operations in bulk that loop over them.
pub mod Bulk
use virt.Base.{ℕ, Option, none, some, List, [], ◌∷◌}
use virt.Vm.Region.{Bytes}
use virt.Vp.Layout.{load}
use virt.Vp.Status.{Failure, invalid_arguments, Result, ok, err, ◌>>=◌}
use virt.Vp.Reg.{Reg}

-- union RegValue of regs.hpp, as the bytes that its views share.
abbrev pub RegValue : Type 0
RegValue = Bytes

unfoldable pub u64_of : RegValue → ℕ
u64_of v = load v 0 8

unfoldable pub u32_of : RegValue → ℕ
u32_of v = load v 0 4

unfoldable pub table_base : RegValue → ℕ
table_base v = load v 0 8

unfoldable pub table_limit : RegValue → ℕ
table_limit v = load v 8 2

-- The attributes of a segment; its selector, base and limit stand at 0, 8 and 16.
unfoldable pub segment_attributes : RegValue → ℕ
segment_attributes v = load v 20 2

-- The pure virtual operations, over the platform's state. The status OK of a write is `none`.
pub record Platform (S : Type 0) : Type 0 where
  pub reg_read : S → Reg → Result RegValue
  pub reg_write : Reg → RegValue → S → Option Failure × S
  pub get_msr : S → ℕ → Result ℕ
  pub set_msr : ℕ → ℕ → S → Option Failure × S

-- The loops of RegRead and GetMSRs over arrays: the values read replace the caller's one by one, up
-- to the first failure. An array of values shorter than that of registers is not written past.
module _ {I V : Type 0} where
  unfoldable pub read_loop : (I → Result V) → List I → List V → List V × Option Failure
  read_loop get [] vs = (vs, none)
  read_loop get (i ∷ is) [] = ([], none)
  read_loop get (i ∷ is) (v ∷ vs) =
      let (rest, o) = read_loop get is vs in
      elim (get i) [ err e ↦ (v ∷ vs, some e) | ok w ↦ (w ∷ rest, o) ]

  -- A null pointer is `none`.
  unfoldable pub read_array :
      (I → Result V) → Option (List I) → Option (List V) → Option (List V) × Option Failure
  read_array get none vs = (vs, some invalid_arguments)
  read_array get (some is) none = (none, some invalid_arguments)
  read_array get (some is) (some vs) = let (r, o) = read_loop get is vs in (some r, o)

abbrev pub and_then {ℓ} :
    {S : Type ℓ} → Option Failure × S → (S → Option Failure × S) → Option Failure × S
and_then (none, s) k = k s
and_then (some e, s) k = (some e, s)

-- The loops of RegWrite, SetMSRs and RegCopy over arrays.
module _ {I V S : Type 0} where
  unfoldable pub write_loop :
      (I → V → S → Option Failure × S) → List I → List V → S → Option Failure × S
  write_loop set [] vs s = (none, s)
  write_loop set (i ∷ is) [] s = (none, s)
  write_loop set (i ∷ is) (v ∷ vs) s = and_then (set i v s) (λ t. write_loop set is vs t)

  pub write_array :
      (I → V → S → Option Failure × S) → Option (List I) → Option (List V) → S → Option Failure × S
  write_array set none vs s = (some invalid_arguments, s)
  write_array set (some is) none s = (some invalid_arguments, s)
  write_array set (some is) (some vs) s = write_loop set is vs s

module _ {S : Type 0} (p : Platform S) where
  unfoldable pub reg_read_array :
      S → Option (List Reg) → Option (List RegValue) → Option (List RegValue) × Option Failure
  unfolding read_array
  reg_read_array s regs values = read_array (p.reg_read s) regs values

  unfoldable pub reg_write_array :
      Option (List Reg) → Option (List RegValue) → S → Option Failure × S
  unfolding write_array
  reg_write_array regs values s = write_array p.reg_write regs values s

  unfoldable pub reg_copy : Reg → Reg → S → Option Failure × S
  reg_copy dst src s = elim (p.reg_read s src) [ err e ↦ (some e, s) | ok v ↦ p.reg_write dst v s ]

  unfoldable pub reg_copy_array : Option (List Reg) → Option (List Reg) → S → Option Failure × S
  unfolding write_array reg_copy
  reg_copy_array dsts srcs s = write_array (λ dst src. reg_copy dst src) dsts srcs s

  unfoldable pub get_msrs : S → Option (List ℕ) → Option (List ℕ) → Option (List ℕ) × Option Failure
  unfolding read_array
  get_msrs s msrs values = read_array (p.get_msr s) msrs values

  unfoldable pub set_msrs : Option (List ℕ) → Option (List ℕ) → S → Option Failure × S
  unfolding write_array
  set_msrs msrs values s = write_array p.set_msr msrs values s
