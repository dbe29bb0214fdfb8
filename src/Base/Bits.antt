-- ===== src/Base/Bits.antt =====
-- The laws of `&` and `|` that the code relies on, at every width: masks are remainders, disjoint
-- fields add up, and a mask with `k` zero bits below works on the number shifted by `k`.
use Prim.Native.Nat.{
  ℕ, zero, suc, ◌+◌, ◌*◌, ◌-◌, ◌/◌, ◌%◌, ◌^◌, ◌≤◌, ◌<◌, min, max, bit_and, bit_or, digits,
  bit_and-bitwise, bit_or-bitwise,
}
use mathlib.Core.Path.{◌≡◌, refl, ap, ◌∙◌}
use native.Mathlib.Nat.{
  pow-suc, one-le-pow, pow-le-pow_right, mul-div_cancel, div-eq_of_lt, mul-mod_left, mod-eq_of_lt,
}
use mathlib.Core.Logic.{◌⊎◌, inl, inr}
use native.Mathlib.Omega.{arith}
use virt.Base.Tests.{◌==◌}
use virt.Base.Words.{has_any, bits}

-- Any count of digits from `a` on gives the same result.
digits_any :
    (z : ℕ → ℕ) (f : ℕ → ℕ → ℕ) (m n a b : ℕ) → a ≤ m → a ≤ n → digits z f m a b ≡ digits z f n a b
digits_any z f zero zero a b p q = refl
digits_any z f zero (suc n) zero b p q = refl
digits_any z f zero (suc n) (suc a) b p q = absurd (omega arith)
digits_any z f (suc m) zero zero b p q = refl
digits_any z f (suc m) zero (suc a) b p q = absurd (omega arith)
digits_any z f (suc m) (suc n) zero b p q = refl
digits_any z f (suc m) (suc n) (suc a) b p q =
    ap (λ t. t * 2 + f (suc a % 2) (b % 2))
      (digits_any z f m n (suc a / 2) (b / 2) (omega arith) (omega arith))

-- One digit at a time.
pub bit_or-halves : (a b : ℕ) → bit_or a b ≡ bit_or (a / 2) (b / 2) * 2 + max (a % 2) (b % 2)
bit_or-halves zero b = simp bit_or-bitwise (omega arith)
bit_or-halves (suc a) b = omega (
  arith,
  bit_or-bitwise (suc a) b,
  bit_or-bitwise (suc a / 2) (b / 2),
  digits_any (λ y. y) max a (suc a / 2) (suc a / 2) (b / 2) (omega arith) (omega arith),
)

pub bit_and-halves : (a b : ℕ) → bit_and a b ≡ bit_and (a / 2) (b / 2) * 2 + min (a % 2) (b % 2)
bit_and-halves zero b = simp bit_and-bitwise (omega arith)
bit_and-halves (suc a) b = omega (
  arith,
  bit_and-bitwise (suc a) b,
  bit_and-bitwise (suc a / 2) (b / 2),
  digits_any (λ y. 0) min a (suc a / 2) (suc a / 2) (b / 2) (omega arith) (omega arith),
)

mod_double : (a p : ℕ) → 0 < p → a % (2 * p) ≡ a / 2 % p * 2 + a % 2
mod_double a p h = grind arith

div_double : (a p : ℕ) → 0 < p → a / (2 * p) ≡ a / 2 / p
div_double a p h = grind arith

-- The laws at zero, below a bound on the first number.
bit_and-zero_below : (n a : ℕ) → a ≤ n → bit_and a 0 ≡ 0
bit_and-zero_below n zero h = refl
bit_and-zero_below zero (suc a) h = absurd (omega arith)
bit_and-zero_below (suc n) (suc a) h =
    omega (arith, bit_and-halves (suc a) 0, bit_and-zero_below n (suc a / 2) (omega arith))

bit_or-zero_below : (n a : ℕ) → a ≤ n → bit_or a 0 ≡ a
bit_or-zero_below n zero h = refl
bit_or-zero_below zero (suc a) h = absurd (omega arith)
bit_or-zero_below (suc n) (suc a) h =
    omega (arith, bit_or-halves (suc a) 0, bit_or-zero_below n (suc a / 2) (omega arith))

pub bit_and-zero : (a : ℕ) → bit_and a 0 ≡ 0
bit_and-zero a = bit_and-zero_below a a (omega arith)

pub bit_or-zero : (a : ℕ) → bit_or a 0 ≡ a
bit_or-zero a = bit_or-zero_below a a (omega arith)

pub zero-bit_or : (b : ℕ) → bit_or 0 b ≡ b
zero-bit_or b = simp bit_or-bitwise

two_pow_suc : (k : ℕ) → 2 ^ suc k ≡ 2 * 2 ^ k
two_pow_suc k = omega (arith, pow-suc 2 k)

ones_step : (a p : ℕ) → 0 < p → bit_and a (2 * p - 1) ≡ bit_and (a / 2) (p - 1) * 2 + a % 2
ones_step a p h = rw (bit_and-halves a (2 * p - 1), halved, odd) (omega arith)
  where
    halved : (2 * p - 1) / 2 ≡ p - 1
    halved = omega arith

    odd : (2 * p - 1) % 2 ≡ 1
    odd = omega arith

-- `&` with `k` ones keeps the low `k` bits.
pub bit_and_ones : (k a : ℕ) → bit_and a (2 ^ k - 1) ≡ a % 2 ^ k
bit_and_ones zero a = omega (arith, bit_and-zero a)
bit_and_ones (suc k) a = rw (
  two_pow_suc k,
  ones_step a (2 ^ k) (one-le-pow k 2 (omega arith)),
  bit_and_ones k (a / 2),
  mod_double a (2 ^ k) (one-le-pow k 2 (omega arith)),
)

shifted_step : (a m p : ℕ) → bit_and a (m * (2 * p)) ≡ bit_and (a / 2) (m * p) * 2
shifted_step a m p = rw (bit_and-halves a (m * (2 * p)), halved) (omega arith)
  where
    halved : m * (2 * p) / 2 ≡ m * p
    halved = omega arith

-- A mask with `k` zeros below works on the bits from `k` up.
pub bit_and_shifted : (k a m : ℕ) → bit_and a (m * 2 ^ k) ≡ bit_and (a / 2 ^ k) m * 2 ^ k
bit_and_shifted zero a m = ground arith
bit_and_shifted (suc k) a m =
    rw
      (
        two_pow_suc k,
        shifted_step a m (2 ^ k),
        bit_and_shifted k (a / 2) m,
        div_double a (2 ^ k) (one-le-pow k 2 (omega arith)),
      )
      (omega arith)

-- A mask with a part above bit `k` and one below works on the two parts of the number.
pub bit_and_split :
    (k a m l : ℕ)
    → l < 2 ^ k
    → bit_and a (l + m * 2 ^ k) ≡ bit_and (a % 2 ^ k) l + bit_and (a / 2 ^ k) m * 2 ^ k
bit_and_split zero a m l h = ground (arith, bit_and-zero 0)
bit_and_split (suc k) a m l h = ground (
  arith,
  bit_and-halves a (l + m * 2 ^ suc k),
  bit_and-halves (a % 2 ^ suc k) l,
  two_pow_suc k,
  mod_double a (2 ^ k) (one-le-pow k 2 (omega arith)),
  div_double a (2 ^ k) (one-le-pow k 2 (omega arith)),
  ap (λ (t : ℕ). m * t) (two_pow_suc k),
  ap (λ (t : ℕ). bit_and (a / 2 ^ suc k) m * t) (two_pow_suc k),
  bit_and_split k (a / 2) m (l / 2) (grind (arith, two_pow_suc k)),
)

-- `|` of a field of `k` bits and one above it is their sum, in either order.
pub bit_or_above : (k q r : ℕ) → r < 2 ^ k → bit_or (q * 2 ^ k) r ≡ q * 2 ^ k + r
bit_or_above zero q r h = ground (arith, bit_or-zero q)
bit_or_above (suc k) q r h = ground (
  arith,
  bit_or-halves (q * 2 ^ suc k) r,
  pow-suc 2 k,
  ap (λ (t : ℕ). q * t) (pow-suc 2 k),
  bit_or_above k q (r / 2) (omega (arith, pow-suc 2 k)),
)

pub bit_or_below : (k q r : ℕ) → r < 2 ^ k → bit_or r (q * 2 ^ k) ≡ r + q * 2 ^ k
bit_or_below zero q r h = ground (arith, zero-bit_or q)
bit_or_below (suc k) q r h = ground (
  arith,
  bit_or-halves r (q * 2 ^ suc k),
  pow-suc 2 k,
  ap (λ (t : ℕ). q * t) (pow-suc 2 k),
  bit_or_below k q (r / 2) (omega (arith, pow-suc 2 k)),
)

-- A mask of one bit.
pub bit_or_ones : (k a : ℕ) → a < 2 ^ k → bit_or (2 ^ k - 1) a ≡ 2 ^ k - 1
bit_or_ones zero a h = ground (arith, bit_or-zero 0)
bit_or_ones (suc k) a h = ground (
  arith,
  bit_or-halves (2 ^ suc k - 1) a,
  pow-suc 2 k,
  one-le-pow k 2,
  bit_or_ones k (a / 2) (grind (arith, pow-suc 2 k)),
)

-- Fields from bit `k` on are put together without a look at those below.
pub bit_or_shifted :
    (k q r s : ℕ) → r < 2 ^ k → bit_or (r + q * 2 ^ k) (s * 2 ^ k) ≡ r + bit_or q s * 2 ^ k
bit_or_shifted zero q r s h = ground arith
bit_or_shifted (suc k) q r s h = ground (
  arith,
  bit_or-halves (r + q * 2 ^ suc k) (s * 2 ^ suc k),
  pow-suc 2 k,
  ap (λ (t : ℕ). q * t) (pow-suc 2 k),
  ap (λ (t : ℕ). s * t) (pow-suc 2 k),
  ap (λ (t : ℕ). bit_or q s * t) (pow-suc 2 k),
  bit_or_shifted k q (r / 2) s (grind (arith, pow-suc 2 k)),
)

pub bit_and_bit : (k a : ℕ) → bit_and a (2 ^ k) ≡ a / 2 ^ k % 2 * 2 ^ k
bit_and_bit k a =
    let one_bit : bit_and a (1 * 2 ^ k) ≡ bit_and (a / 2 ^ k) 1 * 2 ^ k = bit_and_shifted k a 1 in
    let low : bit_and (a / 2 ^ k) 1 ≡ a / 2 ^ k % 2 = bit_and_ones 1 (a / 2 ^ k) in
    let unit : 1 * 2 ^ k ≡ 2 ^ k = omega arith in rw (← low) (rw unit at one_bit)

-- A flag test reads one binary digit.
pub has_any_bit : (k a : ℕ) → has_any a (2 ^ k) ≡ (a / 2 ^ k % 2 == 1)
has_any_bit k a = ground (arith, bit_and_bit k a, one-le-pow k 2)

-- Bits above and bits below are `|`-ed apart.
bit_or_halved : (a b : ℕ) → bit_or a b / 2 ≡ bit_or (a / 2) (b / 2)
bit_or_halved a b = omega (arith, bit_or-halves a b)

bit_or_high : (k a b : ℕ) → bit_or a b / 2 ^ k ≡ bit_or (a / 2 ^ k) (b / 2 ^ k)
bit_or_high zero a b = ground arith
bit_or_high (suc k) a b =
    let positive = one-le-pow k 2 (omega arith) in
    rw
      (
        two_pow_suc k,
        div_double (bit_or a b) (2 ^ k) positive,
        div_double a (2 ^ k) positive,
        div_double b (2 ^ k) positive,
        bit_or_halved a b,
      )
      (bit_or_high k (a / 2) (b / 2))

mod_double-halves : (a p : ℕ) → 0 < p → (a % (2 * p) / 2 ≡ a / 2 % p) × (a % (2 * p) % 2 ≡ a % 2)
mod_double-halves a p h = (omega (arith, mod_double a p h), omega (arith, mod_double a p h))

bit_or_low : (k a b : ℕ) → bit_or a b % 2 ^ k ≡ bit_or (a % 2 ^ k) (b % 2 ^ k)
bit_or_low zero a b = ground (arith, bit_or-zero 0)
bit_or_low (suc k) a b =
    let positive = one-le-pow k 2 (omega arith) in
    let (high_a, low_a) = mod_double-halves a (2 ^ k) positive in
    let (high_b, low_b) = mod_double-halves b (2 ^ k) positive in
    rw
      (
        two_pow_suc k,
        bit_or-halves (a % (2 * 2 ^ k)) (b % (2 * 2 ^ k)),
        mod_double (bit_or a b) (2 ^ k) positive,
        bit_or_halved a b,
        bit_or_low k (a / 2) (b / 2),
        high_a,
        low_a,
        high_b,
        low_b,
      )
      (omega (arith, bit_or-halves a b))

-- A field of a `|` is the `|` of the fields.
pub bits-bit_or :
    (low width a b : ℕ) → bits low width (bit_or a b) ≡ bit_or (bits low width a) (bits low width b)
bits-bit_or low width a b = rw (bit_or_high low a b, bit_or_low width (a / 2 ^ low) (b / 2 ^ low))

two_pow_add : (a b : ℕ) → 2 ^ (a + b) ≡ 2 ^ a * 2 ^ b
two_pow_add a zero = ground arith
two_pow_add a (suc b) =
    let whole : 2 ^ (a + suc b) ≡ 2 * 2 ^ (a + b) =
      ap (λ (t : ℕ). 2 ^ t) (omega arith) ∙ two_pow_suc (a + b) in
    rw (whole, two_pow_suc b, two_pow_add a b) (omega arith)

-- A number shifted to bit `k`, seen at its own place, and at one apart from it.
pub bits_shifted-same : (k w x : ℕ) → x < 2 ^ w → bits k w (x * 2 ^ k) ≡ x
bits_shifted-same k w x h = rw (mul-div_cancel x (one-le-pow k 2 (omega arith))) (mod-eq_of_lt h)

le_pow : (a b : ℕ) → a ≤ b → 2 ^ a ≤ 2 ^ b
le_pow a b h = pow-le-pow_right (omega arith) h

scaled_lt : (x v k low : ℕ) → x < v → v * k ≤ low → 0 < k → x * k < low
scaled_lt x v k low h le p = grind arith

product_assoc : (x a b c : ℕ) → x * (a * b * c) ≡ x * a * b * c
product_assoc x a b c = grind arith

pub bits_shifted-apart :
    (low w x k v : ℕ) → x < 2 ^ v → (k + v ≤ low) ⊎ (low + w ≤ k) → bits low w (x * 2 ^ k) ≡ 0
bits_shifted-apart low w x k v h = elim [
  | inl below ↦
      let fits : 2 ^ v * 2 ^ k ≤ 2 ^ low =
        omega (arith, two_pow_add v k, le_pow (v + k) low (omega arith)) in
      let tiny = scaled_lt x (2 ^ v) (2 ^ k) (2 ^ low) h fits (one-le-pow k 2 (omega arith)) in
      rw (div-eq_of_lt tiny) (omega arith)
  | inr above ↦
      let d = k - w - low in
      let all : 2 ^ k ≡ 2 ^ d * 2 ^ w * 2 ^ low =
        ap (λ (t : ℕ). 2 ^ t) (omega arith)
        ∙ two_pow_add (d + w) low
        ∙ ap (λ (t : ℕ). t * 2 ^ low) (two_pow_add d w) in
      let split : x * 2 ^ k ≡ x * 2 ^ d * 2 ^ w * 2 ^ low =
        ap (λ (t : ℕ). x * t) all ∙ product_assoc x (2 ^ d) (2 ^ w) (2 ^ low) in
      rw (split, mul-div_cancel (x * 2 ^ d * 2 ^ w) (one-le-pow low 2 (omega arith)))
        (mul-mod_left (x * 2 ^ d) (2 ^ w))
]
