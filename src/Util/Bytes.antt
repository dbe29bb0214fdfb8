-- ===== src/Util/Bytes.antt =====
-- SetLowByte and SetLowWord of bytemanip.hpp replace the low digits of a number.
use native.Mathlib.Nat.{mod-eq_of_lt}
use virt.Base.{ℕ, ◌+◌, ◌-◌, ◌*◌, ◌/◌, ◌^◌, ◌<◌, ◌%◌, ◌≡◌, ◌∙◌, bit_or, bit_and, arith}
use virt.Base.Bits.{bit_and_ones, bit_and_shifted, bit_and_split, bit_or_above, bit_or_shifted}
use virt.Util.{set_low_byte, set_high_byte, set_low_word}

replaced :
    (k j lhs rhs : ℕ)
    → lhs / 2 ^ k < 2 ^ j
    → rhs < 2 ^ k
    → bit_or (bit_and lhs ((2 ^ j - 1) * 2 ^ k)) rhs ≡ lhs / 2 ^ k * 2 ^ k + rhs
replaced k j lhs rhs high low =
    rw (bit_and_shifted k lhs (2 ^ j - 1), bit_and_ones j (lhs / 2 ^ k), mod-eq_of_lt high)
      (bit_or_above k (lhs / 2 ^ k) rhs low)

-- For a 64-bit number, SetLowByte puts the byte in place of its low 8 bits, and SetLowWord the
-- word in place of its low 16 bits; the bits above stay.
pub set_low_lem :
    (lhs byte word : ℕ)
    → lhs < 2 ^ 64
    → byte < 2 ^ 8
    → word < 2 ^ 16
    → (set_low_byte lhs byte ≡ lhs / 2 ^ 8 * 2 ^ 8 + byte)
      × (set_low_word lhs word ≡ lhs / 2 ^ 16 * 2 ^ 16 + word)
unfolding set_low_byte set_low_word
set_low_lem lhs byte word h hb hw =
    (replaced 8 56 lhs byte (omega arith) hb, replaced 16 48 lhs word (omega arith) hw)

-- SetHighByte puts the byte in place of bits 8 to 15.
pub set_high_byte_lem :
    (lhs byte : ℕ)
    → lhs < 2 ^ 64
    → byte < 2 ^ 8
    → set_high_byte lhs byte ≡ lhs / 2 ^ 16 * 2 ^ 16 + byte * 2 ^ 8 + lhs % 2 ^ 8
unfolding set_high_byte
set_high_byte_lem lhs byte h hb =
    let low : bit_and (lhs % 2 ^ 16) 0xff ≡ lhs % 2 ^ 16 % 2 ^ 8 = bit_and_ones 8 (lhs % 2 ^ 16) in
    let high : bit_and (lhs / 2 ^ 16) (2 ^ 48 - 1) ≡ lhs / 2 ^ 16 % 2 ^ 48 =
      bit_and_ones 48 (lhs / 2 ^ 16) in
    let masked : bit_and lhs 0xffff_ffff_ffff_00ff ≡ lhs % 2 ^ 8 + lhs / 2 ^ 16 * 2 ^ 8 * 2 ^ 8 =
      bit_and_split 16 lhs (2 ^ 48 - 1) 0xff (omega arith) ∙ rw (low, high) (omega arith) in
    rw
      (
        masked,
        bit_or_shifted 8 (lhs / 2 ^ 16 * 2 ^ 8) (lhs % 2 ^ 8) byte (omega arith),
        bit_or_above 8 (lhs / 2 ^ 16) byte hb,
      )
      (omega arith)
