-- ===== src/Kvm/Switch/Merge.antt =====
-- What a write to a register does to the general-purpose registers that KVM keeps: the bits of the
-- part that was written are replaced, and no other register changes.
use virt.Base.{
  replaced, ℕ, ◌+◌, ◌/◌, ◌%◌, ◌^◌, ◌<◌, ◌≡◌, refl, ap, ◌∙◌, ◌-◌, ◌==◌, if◌then◌else◌, get_elem?,
  List, [], ◌∷◌, Option, none, some, arith,
}
use virt.Vp.Layout.{load, load-lt}
use virt.Vp.Reg.{Reg, number, reg_between}
use virt.Vp.Registers.{RegValue}
use virt.Util.Bytes.{set_low_lem, set_high_byte_lem}
use virt.Kvm.Regs.{Gpr, gpr_number, KvmRegs, set_at}
use virt.Kvm.Place.{
  Place, segment, table, high_byte, low_byte, low_word, double_word, whole, control, debug,
  st_register, mm_register, xmm_register, extended_word, control_double_word, Cache, write_place,
}
use virt.Kvm.WriteCases.{write_case}
use virt.Kvm.Switch.{kvm_reg_write}

-- The general-purpose registers after a write of `v` at a place.
abbrev pub merged : Place → RegValue → KvmRegs → KvmRegs
merged (high_byte r) v f = set_at gpr_number f r (replaced 8 8 (load v 0 1) (f r))
merged (low_byte r) v f = set_at gpr_number f r (replaced 0 8 (load v 0 1) (f r))
merged (low_word r) v f = set_at gpr_number f r (replaced 0 16 (load v 0 2) (f r))
merged (extended_word r) v f = set_at gpr_number f r (load v 0 2)
merged (double_word r) v f = set_at gpr_number f r (load v 0 4)
merged (whole r) v f = set_at gpr_number f r (load v 0 8)
merged _ v f = f

write_place-merged :
    (place : Place) (v : RegValue) (c : Cache) (h : Gpr)
    → ((r : Gpr) → c.regs r < 2 ^ 64)
    → (write_place place v c).regs h ≡ merged place v c.regs h
unfolding write_place
write_place-merged (high_byte r) v c h words =
    ap (λ t. set_at gpr_number c.regs r t h)
      (set_high_byte_lem (c.regs r) (load v 0 1) (words r) (load-lt v 0 1))
write_place-merged (low_byte r) v c h words =
    ap (λ t. set_at gpr_number c.regs r t h)
      ((set_low_lem (c.regs r) (load v 0 1) 0 (words r) (load-lt v 0 1) (omega arith)).0
        ∙ omega arith)
write_place-merged (low_word r) v c h words =
    ap (λ t. set_at gpr_number c.regs r t h)
      ((set_low_lem (c.regs r) 0 (load v 0 2) (words r) (omega arith) (load-lt v 0 2)).1
        ∙ omega arith)
write_place-merged (extended_word r) v c h words = refl
write_place-merged _ v c h words = refl

-- The general-purpose registers by their numbers in the encoding of instructions.
abbrev pub by_encoding : ℕ → Gpr
by_encoding n = elim (get_elem? encoding_order n) [ none ↦ Gpr.rflags | some r ↦ r ]
  where
    encoding_order : List Gpr
    encoding_order =
        Gpr.rax ∷ Gpr.rcx ∷ Gpr.rdx ∷ Gpr.rbx ∷ Gpr.rsp ∷ Gpr.rbp ∷ Gpr.rsi ∷ Gpr.rdi ∷ Gpr.r8
        ∷ Gpr.r9 ∷ Gpr.r10 ∷ Gpr.r11 ∷ Gpr.r12 ∷ Gpr.r13 ∷ Gpr.r14 ∷ Gpr.r15 ∷ []

-- The place of a register by the range of the enumeration that it is in and by its offset there:
-- the bytes of the first four registers come in pairs, low and high; `none` outside the ranges.
abbrev pub encoded : Reg → Option Place
encoded r =
    let from = λ (first : Reg). number r - number first in
    if reg_between r Reg.al Reg.bh
    then some
        ((if from Reg.al % 2 == 0 then low_byte else high_byte) (by_encoding (from Reg.al / 2)))
    else if reg_between r Reg.spl Reg.r15b
    then some (low_byte (by_encoding (4 + from Reg.spl)))
    else if reg_between r Reg.ax Reg.r15w
    then some (low_word (by_encoding (from Reg.ax)))
    else if reg_between r Reg.ip Reg.flags
    then some (extended_word (if from Reg.ip == 0 then Gpr.rip else Gpr.rflags))
    else if reg_between r Reg.eax Reg.r15d
    then some (double_word (by_encoding (from Reg.eax)))
    else if reg_between r Reg.eip Reg.eflags
    then some (double_word (if from Reg.eip == 0 then Gpr.rip else Gpr.rflags))
    else if reg_between r Reg.rax Reg.r15
    then some (whole (by_encoding (from Reg.rax)))
    else if reg_between r Reg.rip Reg.rflags
    then some (whole (if from Reg.rip == 0 then Gpr.rip else Gpr.rflags))
    else none

-- The cases that are about kvm_regs.
abbrev pub general : Option Place → Option Place
general none = none
general (some (segment _)) = none
general (some (table _)) = none
general (some (control _)) = none
general (some (control_double_word _)) = none
general (some (debug _)) = none
general (some (st_register _)) = none
general (some (mm_register _)) = none
general (some (xmm_register _)) = none
general (some place) = some place

write_case-encoded : (r : Reg) → general (write_case r) ≡ encoded r
unfolding write_case reg_between number
write_case-encoded Reg.cs = refl
write_case-encoded _ = refl

general-some : (o : Option Place) (place : Place) → general o ≡ some place → o ≡ some place
general-some none place e = cc
general-some (some (segment _)) place e = cc
general-some (some (table _)) place e = cc
general-some (some (control _)) place e = cc
general-some (some (control_double_word _)) place e = cc
general-some (some (debug _)) place e = cc
general-some (some (st_register _)) place e = cc
general-some (some (mm_register _)) place e = cc
general-some (some (xmm_register _)) place e = cc
general-some _ place e = e

-- For cached general registers of 64 bits: the place that a formula over the numbering of Reg
-- names for a register is the one that the switch of KvmRegWrite writes to; the write returns OK,
-- changes only the one general register that has the place, and replaces the bits of the place. It
-- keeps the other bits of that register, except that a write of a 32-bit part, of IP or of FLAGS
-- sets all bits above to 0.
pub kvm_reg_write-merged :
    (reg : Reg) (place : Place) (v : RegValue) (c : Cache) (h : Gpr)
    → ((r : Gpr) → c.regs r < 2 ^ 64)
    → encoded reg ≡ some place
    → ((kvm_reg_write reg v c).0 ≡ none)
      × ((kvm_reg_write reg v c).1.regs h ≡ merged place v c.regs h)
unfolding kvm_reg_write
kvm_reg_write-merged reg place v c h words e =
    let found = general-some (write_case reg) place (write_case-encoded reg ∙ e) in
    rw (found, kvm_reg_write) (refl, write_place-merged place v c h words)
