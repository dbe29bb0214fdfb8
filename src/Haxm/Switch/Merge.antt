-- ===== src/Haxm/Switch/Merge.antt =====
-- What a write to a register does to the general registers that HAXM keeps, against KVM.
use mathlib.Core.Path.{subst}
use virt.Base.{
  ◌^◌, ◌<◌, ◌≡◌, refl, sym, ap, ◌∙◌, ◌==◌, ◌||◌, Bool, false, if◌then◌else◌, Option, none, some,
  ◌>>=◌, arith,
}
use virt.Vp.Layout.{load, load-lt}
use virt.Vp.Reg.{Reg, number, reg_between}
use virt.Vp.Registers.{RegValue}
use virt.Util.Bytes.{set_low_lem}
use virt.Kvm.Regs.{Gpr, gpr_number, set_at}
use virt.Kvm.Place as KvmPlace
use virt.Kvm.Switch.{kvm_reg_write}
use virt.Kvm.Switch.Merge.{encoded, merged, kvm_reg_write-merged}
use virt.Haxm.Msrs.{MsrDriver}
use virt.Haxm.Place.{
  Place, high_byte, low_byte, low_word, set_byte, set_word, double_word, whole, Cache, write_place,
}
use virt.Haxm.WriteCases.{write_case}
use virt.Haxm.Switch.{haxm_reg_write}

-- SPL, BPL, SIL and DIL, which are written as words, the instruction pointer below 64 bits, whose upper
-- half is kept, and the flags, whose reserved bits are set right.
abbrev pub differs : Reg → Bool
differs r =
    reg_between r Reg.spl Reg.dil
    || reg_between r Reg.ip Reg.flags
    || reg_between r Reg.eip Reg.eflags
    || number r == number Reg.rflags

-- The place on KVM that is written like one on HAXM.
abbrev as_kvm : Place → Option KvmPlace.Place
as_kvm (high_byte r) = some (KvmPlace.high_byte r)
as_kvm (low_byte r) = some (KvmPlace.low_byte r)
as_kvm (set_byte r) = some (KvmPlace.low_byte r)
as_kvm (low_word r) = some (KvmPlace.low_word r)
as_kvm (set_word r) = some (KvmPlace.low_word r)
as_kvm (double_word r) = some (KvmPlace.double_word r)
as_kvm (whole r) = some (KvmPlace.whole r)
as_kvm _ = none

write_case-encoded :
    (r : Reg)
    → (if differs r then none else write_case r >>= as_kvm)
      ≡ (if differs r then none else encoded r)
unfolding write_case reg_between number
write_case-encoded Reg.cs = refl
write_case-encoded _ = refl

bind-cases :
    {A B : Type 0} (o : Option A) (f : A → Option B) (b : B)
    → (o >>= f) ≡ some b
    → (a : A) × (o ≡ some a) × (f a ≡ some b)
bind-cases none f b e = cc
bind-cases (some a) f b e = (a, refl, e)

module _ {K : Type 0} (driver : MsrDriver K) (msr : Bool) where
  -- The general registers after a write on HAXM, if there is a place like it on KVM.
  abbrev Merges : Place → RegValue → Cache K → Gpr → Option KvmPlace.Place → Type 0
  Merges p v c h none = Unit
  Merges p v c h (some place) =
      (write_place driver msr p v c).state.regs h ≡ merged place v c.state.regs h

  write_place-Merges :
      (p : Place) (v : RegValue) (c : Cache K) (h : Gpr)
      → ((r : Gpr) → c.state.regs r < 2 ^ 64)
      → Merges p v c h (as_kvm p)
  unfolding write_place
  write_place-Merges (high_byte r) v c h words = refl
  write_place-Merges (low_byte r) v c h words = refl
  write_place-Merges (low_word r) v c h words = refl
  write_place-Merges (double_word r) v c h words = refl
  write_place-Merges (whole r) v c h words = refl
  write_place-Merges (set_byte r) v c h words =
      ap (λ t. set_at gpr_number c.state.regs r t h)
        ((set_low_lem (c.state.regs r) (load v 0 1) 0 (words r) (load-lt v 0 1) (omega arith)).0
          ∙ omega arith)
  write_place-Merges (set_word r) v c h words =
      ap (λ t. set_at gpr_number c.state.regs r t h)
        ((set_low_lem (c.state.regs r) 0 (load v 0 2) (words r) (omega arith) (load-lt v 0 2)).1
          ∙ omega arith)
  write_place-Merges _ v c h words = tt

  -- For the same general registers of 64 bits on HAXM and KVM, and every register that names one
  -- of them or a part by the numbering of Reg, except SPL, BPL, SIL, DIL, IP, EIP and the three
  -- names of the flags: a write on HAXM returns OK, replaces exactly the bits of that part (a
  -- 32-bit part takes the upper half with it, which becomes 0), and leaves the general registers
  -- that a write on KVM leaves.
  pub haxm_reg_write-kvm_reg_write :
      (reg : Reg) (place : KvmPlace.Place) (v : RegValue) (c : Cache K) (d : KvmPlace.Cache)
      (h : Gpr)
      → ((r : Gpr) → c.state.regs r < 2 ^ 64)
      → d.regs ≡ c.state.regs
      → encoded reg ≡ some place
      → differs reg ≡ false
      → ((haxm_reg_write driver msr reg v c).0 ≡ none)
        × ((haxm_reg_write driver msr reg v c).1.state.regs h ≡ merged place v c.state.regs h)
        × ((haxm_reg_write driver msr reg v c).1.state.regs h ≡ (kvm_reg_write reg v d).1.regs h)
  unfolding haxm_reg_write
  haxm_reg_write-kvm_reg_write reg place v c d h words same e alike =
      let found : (write_case reg >>= as_kvm) ≡ some place =
        subst
          (λ b. (if b then none else write_case reg >>= as_kvm) ≡ (if b then none else encoded reg))
          alike (write_case-encoded reg)
        ∙ e in
      let (p, at_p, like) = bind-cases (write_case reg) as_kvm place found in
      let after : haxm_reg_write driver msr reg v c ≡ (none, write_place driver msr p v c) =
        rw (at_p, haxm_reg_write) refl in
      let merges : (write_place driver msr p v c).state.regs h ≡ merged place v c.state.regs h =
        subst (Merges p v c h) like (write_place-Merges p v c h words) in
      let here = ap (λ o. o.1.state.regs h) after ∙ merges in
      let there =
        kvm_reg_write-merged reg place v d h (λ r. subst (λ f. f r < 2 ^ 64) (sym same) (words r))
          e in
      (ap (λ o. o.0) after, here, here ∙ ap (λ f. merged place v f h) (sym same) ∙ sym there.1)
