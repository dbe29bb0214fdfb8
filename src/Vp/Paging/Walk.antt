-- ===== src/Vp/Paging/Walk.antt =====
-- The page walk of the processor manuals, as one recursion over the levels of the tables, and that
-- the 4-level translation of the code is this walk.
use native.Mathlib.Nat.{mul-le-mul_right, suc-mul, mod-lt, mod-eq_of_lt, mod-mod, one-le-pow}
use virt.Base.{
  ℕ, suc, ◌+◌, ◌-◌, ◌/◌, ◌*◌, ◌%◌, ◌^◌, ◌≤◌, ◌<◌, ◌≡◌, refl, ap, ◌∙◌, ◌==◌, ◌&&◌, ◌||◌, ltb, not,
  if◌then◌else◌, bits, u64, Option, none, some, List, [], ◌∷◌, arith,
}
use virt.Base.Bits.{bit_and_ones, bit_or_above}
use virt.Vp.Status.{ok}
use virt.Vp.Reg.{Reg}
use virt.Vp.Registers.{RegValue, u64_of, Platform}
use virt.Vp.Paging.{
  GuestMemory, mask_of, build_address, entry_at, get_entry, ◌>>=◌, linear_to_physical4_level,
  read-ok,
}

product-lt : (x t p w : ℕ) → x < t → 0 < p → t * p ≤ w → x * p < w
product-lt x t p w h k fits =
    let step : suc x * p ≤ t * p = mul-le-mul_right p h in omega (arith, suc-mul x p)

-- If the masks of the two widths are those of 2 ^ b and 2 ^ t, and both widths fit 64 bits,
-- BuildAddress is the table's base, cut to t bits and shifted by b, plus the low b bits of the
-- linear address.
pub build_address_lem :
    (b t l a : ℕ)
    → mask_of b ≡ 2 ^ b - 1
    → mask_of t ≡ 2 ^ t - 1
    → 2 ^ t * 2 ^ b ≤ 2 ^ 64
    → build_address b t l a ≡ a % 2 ^ t * 2 ^ b + l % 2 ^ b
unfolding build_address
build_address_lem b t l a mb mt fits =
    let small : a % 2 ^ t * 2 ^ b < 2 ^ 64 =
      product-lt _ _ _ (2 ^ 64) (mod-lt a (one-le-pow t 2 (omega arith)))
        (one-le-pow b 2 (omega arith)) fits in
    rw (mt, mb, bit_and_ones t a, bit_and_ones b l, mod-eq_of_lt small)
      (bit_or_above b (a % 2 ^ t) (l % 2 ^ b) (mod-lt l (one-le-pow b 2 (omega arith))))

-- What an entry at the level of `shift` says: a frame, or the next table's answer.
after_entry : ℕ → ℕ → ℕ → Option ℕ → Option ℕ
after_entry shift laddr entry next =
    if shift == 12 || (ltb shift 39 && bits 7 1 entry == 1)
    then some (entry / 2 ^ shift % 2 ^ (52 - shift) * 2 ^ shift + laddr % 2 ^ shift)
    else next

>>=-ext : (o : Option ℕ) {f g : ℕ → Option ℕ} → ((a : ℕ) → f a ≡ g a) → (o >>= f) ≡ (o >>= g)
>>=-ext none h = refl
>>=-ext (some a) h = h a

module _ (m : GuestMemory) where
  -- One step takes 9 bits of the linear address as the index into a table of 8-byte entries. At
  -- bit 12, or where the entry has the large-page bit and the level is below the top one, the
  -- frame's address is bits 51 down to `shift` of the entry; else the next table's is bits 51 to 12.
  walk : ℕ → List ℕ → ℕ → Option ℕ
  walk table [] laddr = none
  walk table (shift ∷ rest) laddr = entry_at m 8 (table + laddr / 2 ^ shift % 512 * 8) >>= λ entry.
      after_entry shift laddr entry (walk (bits 12 40 entry * 4096) rest laddr)

  pub walk4_level : ℕ → ℕ → Option ℕ
  unfolding walk
  walk4_level cr3 laddr = walk (bits 12 40 cr3 * 4096) (39 ∷ 30 ∷ 21 ∷ 12 ∷ []) laddr

  get_entry_index :
      (y t : ℕ)
      → get_entry m 8 12 40 (u64 (y * 8)) t ≡ entry_at m 8 (t % 2 ^ 40 * 4096 + y % 512 * 8)
  unfolding get_entry
  get_entry_index y t =
      let index : u64 (y * 8) % 2 ^ 12 ≡ y % 512 * 8 = omega arith in
      rw (build_address_lem 12 40 (u64 (y * 8)) t refl refl (omega arith), index)

  frame :
      (k w laddr e : ℕ)
      → mask_of k ≡ 2 ^ k - 1
      → mask_of w ≡ 2 ^ w - 1
      → 2 ^ w * 2 ^ k ≤ 2 ^ 64
      → build_address k w laddr (bits k w e) ≡ e / 2 ^ k % 2 ^ w * 2 ^ k + laddr % 2 ^ k
  frame k w laddr e mk mw fits =
      rw (build_address_lem k w laddr (bits k w e) mk mw fits, mod-mod (e / 2 ^ k) (2 ^ w))

  module _ (laddr : ℕ) where
    frame12 :
        (e : ℕ)
        → build_address 12 40 laddr (bits 12 40 e) ≡ e / 2 ^ 12 % 2 ^ 40 * 2 ^ 12 + laddr % 2 ^ 12
    frame12 e = frame 12 40 laddr e refl refl (omega arith)

    frame21 :
        (e : ℕ)
        → build_address 21 31 laddr (bits 21 31 e) ≡ e / 2 ^ 21 % 2 ^ 31 * 2 ^ 21 + laddr % 2 ^ 21
    frame21 e = frame 21 31 laddr e refl refl (omega arith)

    frame30 :
        (e : ℕ)
        → build_address 30 22 laddr (bits 30 22 e) ≡ e / 2 ^ 30 % 2 ^ 22 * 2 ^ 30 + laddr % 2 ^ 30
    frame30 e = frame 30 22 laddr e refl refl (omega arith)

    -- From the page table on, and from the page directory on.
    walk12 :
        (t : ℕ)
        → (get_entry m 8 12 40 (u64 (laddr / 2 ^ 12 * 8)) t >>= λ pte.
            some (build_address 12 40 laddr (bits 12 40 pte)))
          ≡ walk (t % 2 ^ 40 * 4096) (12 ∷ []) laddr
    unfolding walk after_entry
    walk12 t = simp (get_entry_index, frame12)

    abbrev table12 : ℕ → Option ℕ
    table12 t = get_entry m 8 12 40 (u64 (laddr / 2 ^ 12 * 8)) t >>= λ pte.
        some (build_address 12 40 laddr (bits 12 40 pte))

    abbrev next21 : ℕ → Option ℕ
    next21 pde =
        if not (bits 7 1 pde == 0)
        then some (build_address 21 31 laddr (bits 21 31 pde))
        else table12 (bits 12 40 pde)

    next21-walk :
        (e : ℕ) → next21 e ≡ after_entry 21 laddr e (walk (bits 12 40 e * 4096) (12 ∷ []) laddr)
    unfolding after_entry
    next21-walk e =
        let same : bits 12 40 e % 2 ^ 40 ≡ bits 12 40 e = mod-mod (e / 2 ^ 12) (2 ^ 40) in
        let below : table12 (bits 12 40 e) ≡ walk (bits 12 40 e * 4096) (12 ∷ []) laddr =
          walk12 (bits 12 40 e) ∙ ap (λ t. walk (t * 4096) (12 ∷ []) laddr) same in
        ground (arith, frame21 e, below)

    abbrev table21 : ℕ → Option ℕ
    table21 t = get_entry m 8 12 40 (u64 (laddr / 2 ^ 21 * 8)) t >>= next21

    walk21 : (t : ℕ) → table21 t ≡ walk (t % 2 ^ 40 * 4096) (21 ∷ 12 ∷ []) laddr
    unfolding walk
    walk21 t = rw (get_entry_index (laddr / 2 ^ 21) t) (>>=-ext _ next21-walk)

    abbrev next30 : ℕ → Option ℕ
    next30 e =
        if not (bits 7 1 e == 0)
        then some (build_address 30 22 laddr (bits 30 22 e))
        else table21 (bits 12 40 e)

    next30-walk :
        (e : ℕ)
        → next30 e ≡ after_entry 30 laddr e (walk (bits 12 40 e * 4096) (21 ∷ 12 ∷ []) laddr)
    unfolding after_entry
    next30-walk e =
        let same : bits 12 40 e % 2 ^ 40 ≡ bits 12 40 e = mod-mod (e / 2 ^ 12) (2 ^ 40) in
        let below : table21 (bits 12 40 e) ≡ walk (bits 12 40 e * 4096) (21 ∷ 12 ∷ []) laddr =
          walk21 (bits 12 40 e) ∙ ap (λ t. walk (t * 4096) (21 ∷ 12 ∷ []) laddr) same in
        ground (arith, frame30 e, below)

    abbrev table30 : ℕ → Option ℕ
    table30 t = get_entry m 8 12 40 (u64 (laddr / 2 ^ 30 * 8)) t >>= next30

    walk30 : (t : ℕ) → table30 t ≡ walk (t % 2 ^ 40 * 4096) (30 ∷ 21 ∷ 12 ∷ []) laddr
    unfolding walk
    walk30 t = rw (get_entry_index (laddr / 2 ^ 30) t) (>>=-ext _ next30-walk)

    next39-walk :
        (e : ℕ)
        → table30 (bits 12 40 e)
          ≡ after_entry 39 laddr e (walk (bits 12 40 e * 4096) (30 ∷ 21 ∷ 12 ∷ []) laddr)
    unfolding after_entry
    next39-walk e =
        let same : bits 12 40 e % 2 ^ 40 ≡ bits 12 40 e = mod-mod (e / 2 ^ 12) (2 ^ 40) in
        walk30 (bits 12 40 e) ∙ ap (λ t. walk (t * 4096) (30 ∷ 21 ∷ 12 ∷ []) laddr) same

    walk39 :
        (cr3 : ℕ)
        → get_entry m 8 12 40 (u64 (laddr / 2 ^ 39 * 8)) (cr3 / 2 ^ 12)
            >>= (λ e. table30 (bits 12 40 e))
          ≡ walk4_level cr3 laddr
    unfolding walk4_level
    walk39 cr3 = rw (get_entry_index (laddr / 2 ^ 39) (cr3 / 2 ^ 12)) (>>=-ext _ next39-walk)

-- If CR3 can be read, then 4-level translation of a linear address is the walk of the tables at
-- CR3 through the indices from bits 39, 30, 21 and 12.
pub linear_to_physical4_level-walk :
    {S : Type 0} (p : Platform S) (s : S) (m : GuestMemory) (laddr : ℕ) (cr3 : RegValue)
    → p.reg_read s Reg.cr3 ≡ ok cr3
    → linear_to_physical4_level p s m laddr ≡ walk4_level m (u64_of cr3) laddr
unfolding linear_to_physical4_level
linear_to_physical4_level-walk p s m laddr cr3 e =
    rw (read-ok p s Reg.cr3 e) (walk39 m laddr (u64_of cr3))
