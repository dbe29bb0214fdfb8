-- ===== src/Vp/Layout.antt =====
-- Structures in memory: the little-endian numbers of x86 at a block's offsets.
use native.Mathlib.Nat.{pow-suc, add_assoc, one-le-pow}
use virt.Base.{
  ℕ, zero, suc, ◌+◌, ◌*◌, ◌/◌, ◌%◌, ◌^◌, ◌≤◌, ◌<◌, ◌≡◌, refl, ap, sym, ◌∙◌, ◌⊎◌, ◌&&◌, leb,
  if◌then◌else◌, arith,
}
use virt.Vm.Region.{Bytes}

-- The number in the `n` bytes from offset `at` on.
unfoldable pub load : Bytes → ℕ → ℕ → ℕ
load block at zero = 0
load block at (suc n) = block at % 256 + 256 * load block (at + 1) n

-- The block with the low `n` bytes of `x` stored from offset `at` on.
unfoldable pub store : Bytes → ℕ → ℕ → ℕ → Bytes
store block at zero x = block
store block at (suc n) x =
    let rest = store block (at + 1) n (x / 256) in
    λ i. if leb at i && leb i at then x % 256 else rest i

pub load-lt : (block : Bytes) (at n : ℕ) → load block at n < 256 ^ n
unfolding load
load-lt block at zero = omega arith
load-lt block at (suc n) = omega (arith, load-lt block (at + 1) n, pow-suc 256 n)

-- Only the bytes of the range count.
pub load_ext :
    (b c : Bytes) (at n : ℕ)
    → ((i : ℕ) → i < n → b (at + i) ≡ c (at + i))
    → load b at n ≡ load c at n
unfolding load
load_ext b c at zero h = refl
load_ext b c at (suc n) h =
    let first : b at ≡ c at = ap b (omega arith) ∙ h 0 (omega arith) ∙ ap c (omega arith) in
    let rest : load b (at + 1) n ≡ load c (at + 1) n =
      load_ext b c (at + 1) n (λ i lt.
        ap b (add_assoc at 1 i) ∙ h (1 + i) (omega arith) ∙ ap c (sym (add_assoc at 1 i))) in
    rw (first, rest)

pub store_below : (b : Bytes) (at n x i : ℕ) → i < at → store b at n x i ≡ b i
unfolding store
store_below b at zero x i h = refl
store_below b at (suc n) x i h = ground (arith, store_below b (at + 1) n (x / 256) i (omega arith))

pub store_above : (b : Bytes) (at n x i : ℕ) → at + n ≤ i → store b at n x i ≡ b i
unfolding store
store_above b at zero x i h = refl
store_above b at (suc n) x i h = ground (arith, store_above b (at + 1) n (x / 256) i (omega arith))

mod_256_step : (x p : ℕ) → 0 < p → x % (p * 256) ≡ x % 256 + 256 * (x / 256 % p)
mod_256_step x p h = grind arith

-- What is stored is loaded back, cut to `n` bytes.
pub load-store : (b : Bytes) (at n x : ℕ) → load (store b at n x) at n ≡ x % 256 ^ n
unfolding load
load-store b at zero x = omega arith
load-store b at (suc n) x =
    let first : store b at (suc n) x at ≡ x % 256 = unfold store in ground arith in
    let rest : load (store b at (suc n) x) (at + 1) n ≡ x / 256 % 256 ^ n =
      load_ext (store b at (suc n) x) (store b (at + 1) n (x / 256)) (at + 1) n
        (λ i h. unfold store in ground arith)
      ∙ load-store b (at + 1) n (x / 256) in
    let step = mod_256_step x (256 ^ n) (one-le-pow n 256 (omega arith)) in
    rw (first, rest, pow-suc 256 n, step) (omega arith)

-- A load apart from a store sees nothing of it.
pub load-store_apart :
    (b : Bytes) (at n x from k : ℕ)
    → (from + k ≤ at) ⊎ (at + n ≤ from)
    → load (store b at n x) from k ≡ load b from k
load-store_apart b at n x from k apart =
    load_ext _ b from k
      (λ i h. ground (arith, store_below b at n x (from + i), store_above b at n x (from + i)))
