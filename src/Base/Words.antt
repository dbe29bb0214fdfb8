-- ===== src/Base/Words.antt =====
-- Machine words as native numbers: wrap-around, shifts, bit-fields and flag tests.
use Prim.Native.Nat.{ℕ, ◌+◌, ◌-◌, ◌*◌, ◌/◌, ◌%◌, ◌^◌, bit_and}
use mathlib.Core.Bool.{Bool, not}
use virt.Base.Tests.{◌==◌}

abbrev pub u8 : ℕ → ℕ
u8 x = x % 2 ^ 8

abbrev pub u16 : ℕ → ℕ
u16 x = x % 2 ^ 16

abbrev pub u32 : ℕ → ℕ
u32 x = x % 2 ^ 32

abbrev pub u64 : ℕ → ℕ
u64 x = x % 2 ^ 64

-- a + b and a - b on uint64_t.
abbrev pub add64 : ℕ → ℕ → ℕ
add64 a b = u64 (a + b)

abbrev pub sub64 : ℕ → ℕ → ℕ
sub64 a b = u64 (a + 2 ^ 64 - b)

infixl 75 ◌<<<◌ ◌>>>◌
abbrev pub ◌<<<◌ : ℕ → ℕ → ℕ
x <<< k = x * 2 ^ k

abbrev pub ◌>>>◌ : ℕ → ℕ → ℕ
x >>> k = x / 2 ^ k

-- The bit-field of `width` bits from bit `low`, as the compilers lay it out on x86.
abbrev pub bits : ℕ → ℕ → ℕ → ℕ
bits low width x = x / 2 ^ low % 2 ^ width

-- (x & mask) != 0
abbrev pub has_any : ℕ → ℕ → Bool
has_any x mask = not (bit_and x mask == 0)

-- ~mask on 64 bits.
abbrev pub not64 : ℕ → ℕ
not64 mask = 2 ^ 64 - 1 - mask

-- A number with its `width` bits from bit `low` replaced.
abbrev pub replaced : ℕ → ℕ → ℕ → ℕ → ℕ
replaced low width x old = old / 2 ^ (low + width) * 2 ^ (low + width) + x * 2 ^ low + old % 2 ^ low
