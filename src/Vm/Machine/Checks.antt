-- ===== src/Vm/Machine/Checks.antt =====
-- What the bit tests of the checks mean: page alignment, and the host's limit on addresses.
use native.Mathlib.Nat.{
  pow-suc, one-le-pow, zero-add, suc-add, mod-eq_of_lt, div-lt_iff_lt-mul, suc-mul, div-eq_of_lt,
  le-div_iff_mul-le, mul-le-mul_right,
}
use native.Mathlib.Decide.{dec_lt}
use virt.Base.{
  ℕ, zero, suc, ◌+◌, ◌-◌, ◌*◌, ◌/◌, ◌%◌, ◌^◌, ◌≤◌, ◌<◌, ◌≡◌, not, leb, ◌==◌, has_any, not64, arith,
}
use virt.Base.Bits.{bit_and_ones, bit_and_shifted}

pub has_any-page : (x : ℕ) → has_any x 0xfff ≡ not (x % 4096 == 0)
has_any-page x = rw (bit_and_ones 12 x)

pub has_any-low3 : (x : ℕ) → has_any x 0x7 ≡ not (x % 8 == 0)
has_any-low3 x = rw (bit_and_ones 3 x)

pub pow_add : (j k : ℕ) → 2 ^ (j + k) ≡ 2 ^ j * 2 ^ k
pow_add zero k = rw zero-add (omega arith)
pow_add (suc j) k = rw (suc-add, pow-suc 2 (j + k), pow-suc 2 j, pow_add j k) (omega arith)

complement : (q p w : ℕ) → w ≡ q * p → 0 < p → w - 1 - (p - 1) ≡ (q - 1) * p
complement zero p w e h = omega arith
complement (suc q) p w e h =
    let q' : suc q - 1 ≡ q = omega arith in rw (e, q', suc-mul) (omega arith)

above_mask : (j k : ℕ) → j + k ≡ 64 → not64 (2 ^ k - 1) ≡ (2 ^ j - 1) * 2 ^ k
above_mask j k e =
    let whole : 2 ^ 64 ≡ 2 ^ j * 2 ^ k = rw e at (pow_add j k) in
    complement (2 ^ j) (2 ^ k) (2 ^ 64) whole (one-le-pow k 2 (omega arith))

high_part : (x p q : ℕ) → 0 < p → x < q * p → x / p % q ≡ x / p
high_part x p q h lt = mod-eq_of_lt ((div-lt_iff_lt-mul h).1 lt)

quotient_test : (x p : ℕ) → 0 < p → not (x / p * p == 0) ≡ leb p x
quotient_test x p h = elim (dec_lt x p) [
  | yes less ↦ rw (div-eq_of_lt less) (ground arith)
  | no more ↦
      let one : 1 ≤ x / p = (le-div_iff_mul-le h).1 (omega arith) in
      let prod : 1 * p ≤ x / p * p = mul-le-mul_right p one in ground arith
]

-- No bit from `k` up is set exactly in the numbers below 2 ^ k.
pub has_any-above : (k x : ℕ) → k ≤ 64 → x < 2 ^ 64 → has_any x (not64 (2 ^ k - 1)) ≡ leb (2 ^ k) x
has_any-above k x h lt =
    let whole : (64 - k) + k ≡ 64 = omega arith in
    let prod : 2 ^ 64 ≡ 2 ^ (64 - k) * 2 ^ k = rw whole at (pow_add (64 - k) k) in
    rw
      (
        above_mask (64 - k) k whole,
        bit_and_shifted k x (2 ^ (64 - k) - 1),
        bit_and_ones (64 - k) (x / 2 ^ k),
        high_part x (2 ^ k) (2 ^ (64 - k)) (one-le-pow k 2 (omega arith)) (rw (← prod) lt),
      )
      (quotient_test x (2 ^ k) (one-le-pow k 2 (omega arith)))
