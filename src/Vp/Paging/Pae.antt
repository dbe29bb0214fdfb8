-- ===== src/Vp/Paging/Pae.antt =====
-- LinearToPhysicalPAE of modules/core/src/vp/vp.cpp: what of a linear address it looks at.
use virt.Base.{
  ℕ, ◌-◌, ◌*◌, ◌/◌, ◌%◌, ◌^◌, ◌≡◌, refl, ap, ◌∙◌, bit_and, not64, ◌==◌, not, if◌then◌else◌, u8,
  ◌<<<◌, ◌>>>◌, Bool, true, false, Option, none, some, arith,
}
use virt.Base.Bits.{bit_and_ones, bit_and_shifted}
use virt.Vp.Reg.{Reg}
use virt.Vp.Registers.{u64_of, Platform}
use virt.Vp.Paging.{
  ◌>>=◌, GuestMemory, mask_of, build_address, entry_at, get_entry, read, linear_to_physical_pae,
}
use virt.Vp.Paging.Entries.{pdpte_table, pde64, pde64_large, pde64_table, pte64}

build_address-mod :
    (b t l l' a : ℕ)
    → mask_of b ≡ 2 ^ b - 1
    → l % 2 ^ b ≡ l' % 2 ^ b
    → build_address b t l a ≡ build_address b t l' a
unfolding build_address
build_address-mod b t l l' a mask same = rw (mask, bit_and_ones b l, bit_and_ones b l', same) refl

get_entry-mod :
    (m : GuestMemory) (size b t l l' a : ℕ)
    → mask_of b ≡ 2 ^ b - 1
    → l % 2 ^ b ≡ l' % 2 ^ b
    → get_entry m size b t l a ≡ get_entry m size b t l' a
unfolding get_entry
get_entry-mod m size b t l l' a mask same =
    ap (λ x. entry_at m size x) (build_address-mod b t l l' a mask same)

>>=-ext :
    {A B : Type 0} (o : Option A) {f g : A → Option B} → ((a : A) → f a ≡ g a) → o >>= f ≡ o >>= g
>>=-ext none h = refl
>>=-ext (some a) h = h a

if-ext :
    {A : Type 0} (c : Bool) {a a' b b' : A}
    → a ≡ a'
    → b ≡ b'
    → (if c then a else b) ≡ (if c then a' else b')
if-ext true h k = h
if-ext false h k = k

low_bits : (l : ℕ) → bit_and l (not64 7) % 2 ^ 12 ≡ l / 2 ^ 3 % 2 ^ 9 * 2 ^ 3
low_bits l =
    let whole : bit_and l (not64 7) ≡ l / 2 ^ 3 % 2 ^ 61 * 2 ^ 3 =
      bit_and_shifted 3 l (2 ^ 61 - 1) ∙ ap (λ t. t * 2 ^ 3) (bit_and_ones 61 (l / 2 ^ 3)) in
    rw whole (omega arith)

-- Two linear addresses that agree on bits 30 and up and on bits 20 to 0, and so differ at most in
-- bits 29 to 21, are translated alike by LinearToPhysicalPAE.
pub linear_to_physical_pae-ignores :
    {S : Type 0} (p : Platform S) (s : S) (m : GuestMemory) (l l' : ℕ)
    → l / 2 ^ 30 ≡ l' / 2 ^ 30
    → l % 2 ^ 21 ≡ l' % 2 ^ 21
    → linear_to_physical_pae p s m l ≡ linear_to_physical_pae p s m l'
unfolding linear_to_physical_pae
linear_to_physical_pae-ignores p s m l l' top low = >>=-ext (read p s Reg.cr3) (λ cr3.
    ap (λ o. o >>= next l) (get_entry-mod m 8 5 27 _ _ (u64_of cr3 >>> 5) refl (omega arith))
    ∙ >>=-ext (get_entry m 8 5 27 (u8 (l' >>> 30) <<< 3) (u64_of cr3 >>> 5)) (λ pdpte.
      ap (λ o. o >>= last l) (get_entry-mod m 8 12 40 _ _ (pdpte_table pdpte).address refl pde_bits)
      ∙ >>=-ext (get_entry m 8 12 40 (bit_and l' (not64 7)) (pdpte_table pdpte).address)
          (λ pde. both pde)))
  where
    last : ℕ → ℕ → Option ℕ
    last x pde =
        if not ((pde64 pde).large_page == 0)
        then some (build_address 21 31 x (pde64_large pde).address)
        else get_entry m 8 12 40 ((x >>> 12) <<< 3) (pde64_table pde).address >>= λ pte.
            some (build_address 12 40 x (pte64 pte).address)

    next : ℕ → ℕ → Option ℕ
    next x pdpte = get_entry m 8 12 40 (bit_and x (not64 7)) (pdpte_table pdpte).address >>= last x

    pde_bits : bit_and l (not64 7) % 2 ^ 12 ≡ bit_and l' (not64 7) % 2 ^ 12
    pde_bits = rw (low_bits l, low_bits l') (omega arith)

    both : (pde : ℕ) → last l pde ≡ last l' pde
    both pde =
        if-ext (not ((pde64 pde).large_page == 0))
          (ap (λ x. some x) (build_address-mod 21 31 l l' (pde64_large pde).address refl low))
          (ap (λ o. o >>= (λ pte. some (build_address 12 40 l (pte64 pte).address)))
              (get_entry-mod m 8 12 40 _ _ (pde64_table pde).address refl (omega arith))
            ∙ >>=-ext (get_entry m 8 12 40 ((l' >>> 12) <<< 3) (pde64_table pde).address) (λ pte.
              ap (λ x. some x)
                (build_address-mod 12 40 l l' (pte64 pte).address refl (omega arith))))
