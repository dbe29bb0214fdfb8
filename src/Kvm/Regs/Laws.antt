-- ===== src/Kvm/Regs/Laws.antt =====
-- The helpers of modules/kvm/src/kvm_helpers.cpp give back what they have stored.
use native.Mathlib.Nat.{mod-eq_of_lt}
use virt.Base.{ℕ, ◌+◌, ◌*◌, ◌/◌, ◌%◌, ◌^◌, ◌≤◌, ◌<◌, ◌≡◌, refl, ap, ◌∙◌, inl, ltb, true, arith}
use virt.Vm.Region.{Bytes}
use virt.Vp.Layout.{load, store, load-lt, load-store, load-store_apart}
use virt.Vp.Registers.{RegValue}
use virt.Kvm.Regs.{
  KvmSegment, KvmFpu, put, attributes_of, set_at, load_segment, store_segment, load_xmm_register,
  store_xmm_register,
}

pub set_at-same :
    {I A : Type 0} (number : I → ℕ) (f : I → A) (i : I) (a : A) → set_at number f i a i ≡ a
set_at-same number f i a = ground arith

pub low_part : (w : RegValue) (n x y : ℕ) → x % 256 ^ n ≡ y → load (store w 0 n x) 0 n ≡ y
low_part w n x y h = load-store w 0 n x ∙ h

-- Two parts, the second stored last.
pub two_parts :
    (w : RegValue) (n at k x y x' y' : ℕ)
    → n ≤ at
    → x % 256 ^ n ≡ x'
    → y % 256 ^ k ≡ y'
    → (load (store (store w 0 n x) at k y) 0 n ≡ x')
      × (load (store (store w 0 n x) at k y) at k ≡ y')
two_parts w n at k x y x' y' apart hx hy = (
  load-store_apart (store w 0 n x) at k y 0 n (inl (omega arith)) ∙ load-store w 0 n x ∙ hx,
  load-store (store w 0 n x) at k y ∙ hy,
)

-- A number that was loaded fits its size.
pub fits : (v : RegValue) (at n : ℕ) → load v at n % 256 ^ n ≡ load v at n
fits v at n = mod-eq_of_lt (load-lt v at n)

-- The four parts of a segment's value.
pub four_parts :
    (w : RegValue) (selector base limit attributes : ℕ)
    → let v = store (store (store (store w 0 2 selector) 8 8 base) 16 4 limit) 20 2 attributes in
      (load v 0 2 ≡ selector % 256 ^ 2)
      × (load v 8 8 ≡ base % 256 ^ 8)
      × (load v 16 4 ≡ limit % 256 ^ 4)
      × (load v 20 2 ≡ attributes % 256 ^ 2)
four_parts w selector base limit attributes =
    let one = store w 0 2 selector in
    let two = store one 8 8 base in
    let three = store two 16 4 limit in
    (
      load-store_apart three 20 2 attributes 0 2 (inl (omega arith))
          ∙ load-store_apart two 16 4 limit 0 2 (inl (omega arith))
          ∙ load-store_apart one 8 8 base 0 2 (inl (omega arith))
          ∙ load-store w 0 2 selector,
      load-store_apart three 20 2 attributes 8 8 (inl (omega arith))
          ∙ load-store_apart two 16 4 limit 8 8 (inl (omega arith))
          ∙ load-store one 8 8 base,
      load-store_apart three 20 2 attributes 16 4 (inl (omega arith)) ∙ load-store two 16 4 limit,
      load-store three 20 2 attributes,
    )

load_segment_parts :
    (w : RegValue) (d : KvmSegment)
    → (load (load_segment w d) 0 2 ≡ d.selector % 256 ^ 2)
      × (load (load_segment w d) 8 8 ≡ d.base % 256 ^ 8)
      × (load (load_segment w d) 16 4 ≡ d.limit % 256 ^ 4)
      × (load (load_segment w d) 20 2 ≡ attributes_of d % 256 ^ 2)
unfolding load_segment
load_segment_parts w d = four_parts w d.selector d.base d.limit (attributes_of d)

-- The attributes come back but for the four bits that have no name.
attributes_back :
    (v : RegValue)
    → attributes_of (store_segment v) % 256 ^ 2 ≡ load v 20 2 % 256 + load v 20 2 / 4096 * 4096
unfolding attributes_of store_segment
attributes_back v = omega (arith, load-lt v 20 2)

pub segment_back :
    (v w : RegValue) (d : KvmSegment)
    → d ≡ store_segment v
    → (load (load_segment w d) 0 2 ≡ load v 0 2)
      × (load (load_segment w d) 8 8 ≡ load v 8 8)
      × (load (load_segment w d) 16 4 ≡ load v 16 4)
      × (load (load_segment w d) 20 2 ≡ load v 20 2 % 256 + load v 20 2 / 4096 * 4096)
unfolding store_segment
segment_back v w d e =
    let (selector, base, limit, attributes) = load_segment_parts w d in
    (
      selector ∙ ap (λ t. t.selector % 256 ^ 2) e ∙ fits v 0 2,
      base ∙ ap (λ t. t.base % 256 ^ 8) e ∙ fits v 8 8,
      limit ∙ ap (λ t. t.limit % 256 ^ 4) e ∙ fits v 16 4,
      attributes ∙ ap (λ t. attributes_of t % 256 ^ 2) e ∙ attributes_back v,
    )

-- A block of a floating point register that was copied into a value, of which it was a copy.
block_back :
    (v w block : Bytes) (k : ℕ)
    → load block 0 8 ≡ load v 0 8
    → load block 8 k ≡ load v 8 k
    → let out = store (store w 0 8 (load block 0 8)) 8 k (load block 8 k) in
      (load out 0 8 ≡ load v 0 8) × (load out 8 k ≡ load v 8 k)
block_back v w block k h h' =
    two_parts w 8 8 k (load block 0 8) (load block 8 k) (load v 0 8) (load v 8 k) (omega arith)
      (ap (λ t. t % 256 ^ 8) h ∙ fits v 0 8) (ap (λ t. t % 256 ^ k) h' ∙ fits v 8 k)

block_of :
    (v f : Bytes) (k : ℕ)
    → let block = store (store f 0 8 (load v 0 8)) 8 k (load v 8 k) in
      (load block 0 8 ≡ load v 0 8) × (load block 8 k ≡ load v 8 k)
block_of v f k =
    two_parts f 8 8 k (load v 0 8) (load v 8 k) (load v 0 8) (load v 8 k) (omega arith) (fits v 0 8)
      (fits v 8 k)

pub file_back :
    (v w : Bytes) (file : ℕ → Bytes) (i k : ℕ)
    → let block = put file i (store (store (file i) 0 8 (load v 0 8)) 8 k (load v 8 k)) i in
      let out = store (store w 0 8 (load block 0 8)) 8 k (load block 8 k) in
      (load out 0 8 ≡ load v 0 8) × (load out 8 k ≡ load v 8 k)
file_back v w file i k =
    let made = store (store (file i) 0 8 (load v 0 8)) 8 k (load v 8 k) in
    let same : put file i made i ≡ made = set_at-same (λ j. j) file i made in
    block_back v w (put file i made i) k (ap (λ b. load b 0 8) same ∙ (block_of v (file i) k).0)
      (ap (λ b. load b 8 k) same ∙ (block_of v (file i) k).1)

pub load_low4 : (b : Bytes) → load b 0 4 ≡ load b 0 8 % 256 ^ 4
unfolding load
load_low4 b = omega arith

pub xmm_whole :
    (v w : RegValue) (i : ℕ) (fpu : KvmFpu)
    → i < 16
    → let block = put fpu.xmm i (store (store (fpu.xmm i) 0 8 (load v 0 8)) 8 8 (load v 8 8)) i in
      (load_xmm_register w i (store_xmm_register v i fpu).0).0
      ≡ store (store w 0 8 (load block 0 8)) 8 8 (load block 8 8)
unfolding load_xmm_register store_xmm_register
xmm_whole v w i fpu h =
    let inside : ltb i 16 ≡ true = ground arith in
    rw (inside, load_xmm_register, store_xmm_register) refl

-- The switch names only the sixteen registers that KVM has.
