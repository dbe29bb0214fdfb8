-- ===== src/Kvm/Switch/RoundTrip.antt =====
-- What a write to a register stores is what a read of the same register gives back, for every register
-- that the backend can write.
use mathlib.Core.Option
use mathlib.Core.Path.{subst}
use virt.Base.{
  ℕ, ◌%◌, ◌^◌, ◌<◌, ◌≡◌, refl, ap, sym, ◌∙◌, ltb, ltb→lt, Bool, true, ◌>>>◌, u8, u16, u32, List, [],
  ◌∷◌, All, Option, none, some, arith,
}
use virt.Vp.Layout.{load, store, load-lt, load-store}
use virt.Vp.Reg.{Reg}
use virt.Vp.Registers.{RegValue}
use virt.Util.Bytes.{set_low_lem, set_high_byte_lem}
use virt.Kvm.Regs.{
  Gpr, gpr_number, segment_number, table_number, control_number, set_at, store_segment, load_table,
  store_table, load_st_register, store_st_register, load_mm_register, store_mm_register,
  load_xmm_register, store_xmm_register,
}
use virt.Kvm.Regs.Laws.{
  set_at-same, low_part, two_parts, fits, segment_back, file_back, load_low4, xmm_whole,
}
use virt.Kvm.Place.{
  Place, segment, table, high_byte, low_byte, low_word, double_word, whole, control, debug,
  st_register, mm_register, xmm_register, extended_word, control_double_word, Cache, read_place,
  write_place,
}
use virt.Kvm.ReadCases.{read_case}
use virt.Kvm.WriteCases.{write_case}
use virt.Kvm.Switch.{kvm_reg_read, kvm_reg_write}

-- How the switch for reads names the place that the switch for writes names so.
abbrev pub read_back : Place → Place
read_back (extended_word r) = low_word r
read_back (control_double_word r) = control r
read_back place = place

-- The parts of a RegValue that go into a place and come back, each with its offset and its size. Of a
-- segment these are selector, base and limit.
abbrev pub fields : Place → List (ℕ × ℕ)
fields (segment _) = (0, 2) ∷ (8, 8) ∷ (16, 4) ∷ []
fields (table _) = (0, 8) ∷ (8, 2) ∷ []
fields (high_byte _) = (0, 1) ∷ []
fields (low_byte _) = (0, 1) ∷ []
fields (low_word _) = (0, 2) ∷ []
fields (extended_word _) = (0, 2) ∷ []
fields (double_word _) = (0, 4) ∷ []
fields (whole _) = (0, 8) ∷ []
fields (control _) = (0, 8) ∷ []
fields (control_double_word _) = (0, 4) ∷ []
fields (debug _) = (0, 8) ∷ []
fields (st_register _) = (0, 8) ∷ (8, 2) ∷ []
fields (mm_register _) = (0, 8) ∷ []
fields (xmm_register _) = (0, 8) ∷ (8, 8) ∷ []

-- The two values agree on these parts.
abbrev pub Agree : RegValue → RegValue → List (ℕ × ℕ) → Type 0
Agree v w fs = All (λ (at, n). load v at n ≡ load w at n) fs

read_case-write_case : (r : Reg) → read_case r ≡ Option.map read_back (write_case r)
unfolding read_case write_case
read_case-write_case Reg.cs = refl
read_case-write_case _ = refl

abbrev few : Option Place → Bool
few (some (xmm_register i)) = ltb i 16
few _ = true

write_case-few : (r : Reg) → few (write_case r) ≡ true
unfolding write_case
write_case-few Reg.cs = refl
write_case-few _ = refl

xmm_few :
    (reg : Reg) (place : Place)
    → write_case reg ≡ some place
    → (i : ℕ) → place ≡ xmm_register i
    → i < 16
xmm_few reg place e i p = ltb→lt i 16 (sym (ap few (e ∙ ap (λ t. some t) p)) ∙ write_case-few reg)

module _ (v w : RegValue) (c : Cache) (words : (r : Gpr) → c.regs r < 2 ^ 64) where
  gpr_back :
      (r : Gpr) (new n : ℕ) (f : ℕ → ℕ)
      → f new % 256 ^ n ≡ load v 0 n
      → load (store w 0 n (f (set_at gpr_number c.regs r new r))) 0 n ≡ load v 0 n
  gpr_back r new n f h =
      low_part w n _ _ (ap (λ t. f t % 256 ^ n) (set_at-same gpr_number c.regs r new) ∙ h)

  place_back :
      (place : Place)
      → ((i : ℕ) → place ≡ xmm_register i → i < 16)
      → Agree (read_place (write_place place v c) (read_back place) w) v (fields place)
  unfolding read_place write_place load_table store_table load_st_register store_st_register
      load_mm_register store_mm_register load_xmm_register store_xmm_register
  place_back (segment n) few =
      let back =
        segment_back v w _ (set_at-same segment_number c.sregs.segments n (store_segment v)) in
      (back.0, (back.1, (back.2, tt)))
  place_back (table n) few =
      let same = set_at-same table_number c.sregs.tables n (store_table v) in
      let (base, limit) =
        two_parts w 8 8 2 _ _ (load v 0 8) (load v 8 2) (omega arith)
          (ap (λ t. t.base % 256 ^ 8) same ∙ fits v 0 8)
          (ap (λ t. t.limit % 256 ^ 2) same ∙ fits v 8 2) in
      (base, (limit, tt))
  place_back (high_byte r) few = (
    gpr_back r _ 1 (λ t. u8 (t >>> 8))
        (omega (
          arith,
          load-lt v 0 1,
          words r,
          set_high_byte_lem (c.regs r) (load v 0 1) (words r) (load-lt v 0 1),
        )),
    tt,
  )
  place_back (low_byte r) few = (
    gpr_back r _ 1 (λ t. u8 t)
        (omega (
          arith,
          load-lt v 0 1,
          (set_low_lem (c.regs r) (load v 0 1) 0 (words r) (load-lt v 0 1) (omega arith)).0,
        )),
    tt,
  )
  place_back (low_word r) few = (
    gpr_back r _ 2 (λ t. u16 t)
        (omega (
          arith,
          load-lt v 0 2,
          (set_low_lem (c.regs r) 0 (load v 0 2) (words r) (omega arith) (load-lt v 0 2)).1,
        )),
    tt,
  )
  place_back (extended_word r) few =
      (gpr_back r _ 2 (λ t. u16 t) (omega (arith, load-lt v 0 2)), tt)
  place_back (double_word r) few = (gpr_back r _ 4 (λ t. u32 t) (omega (arith, load-lt v 0 4)), tt)
  place_back (whole r) few = (gpr_back r _ 8 (λ t. t) (fits v 0 8), tt)
  place_back (control r) few = (
    low_part w 8 _ _
        (ap (λ t. t % 256 ^ 8) (set_at-same control_number c.sregs.controls r _) ∙ fits v 0 8),
    tt,
  )
  place_back (control_double_word r) few = (
    load_low4 (store w 0 8 (set_at control_number c.sregs.controls r (load v 0 4) r))
        ∙ ap (λ t. t % 256 ^ 4)
            (low_part w 8 _ (load v 0 4) (
              ap (λ t. t % 256 ^ 8) (set_at-same control_number c.sregs.controls r _)
              ∙ omega (arith, load-lt v 0 4)))
        ∙ fits v 0 4,
    tt,
  )
  place_back (debug i) few = (
    low_part w 8 _ _ (ap (λ t. t % 256 ^ 8) (set_at-same (λ j. j) c.debug_regs i _) ∙ fits v 0 8),
    tt,
  )
  place_back (st_register i) few =
      let (low, high) = file_back v w c.fpu_regs.fpr i 2 in (low, (high, tt))
  place_back (mm_register i) few =
      let made = store (c.fpu_regs.fpr i) 0 8 (load v 0 8) in
      (
        low_part w 8 _ _ (
            ap (λ b. load b 0 8 % 256 ^ 8) (set_at-same (λ j. j) c.fpu_regs.fpr i made)
            ∙ ap (λ t. t % 256 ^ 8) (load-store (c.fpu_regs.fpr i) 0 8 (load v 0 8) ∙ fits v 0 8)
            ∙ fits v 0 8),
        tt,
      )
  place_back (xmm_register i) few =
      let (low, high) = file_back v w c.fpu_regs.xmm i 8 in
      let same = xmm_whole v w i c.fpu_regs (few i refl) in
      (ap (λ t. load t 0 8) same ∙ low, (ap (λ t. load t 8 8) same ∙ high, tt))

-- For cached general registers of 64 bits and every register that KvmRegWrite accepts: the write
-- returns OK, a read of the same register returns OK, and gives the value that was written in each
-- field that belongs to the register's width or kind; of a segment these are selector, base and
-- limit, and of EFER the lower half only.
pub kvm_reg_read-kvm_reg_write :
    (reg : Reg) (place : Place) (v w : RegValue) (c : Cache)
    → ((r : Gpr) → c.regs r < 2 ^ 64)
    → write_case reg ≡ some place
    → ((kvm_reg_write reg v c).0 ≡ none)
      × ((kvm_reg_read (kvm_reg_write reg v c).1 reg w).0 ≡ none)
      × Agree (kvm_reg_read (kvm_reg_write reg v c).1 reg w).1 v (fields place)
unfolding kvm_reg_read kvm_reg_write
kvm_reg_read-kvm_reg_write reg place v w c words e =
    let back : read_case reg ≡ some (read_back place) =
      read_case-write_case reg ∙ ap (Option.map read_back) e in
    let written : kvm_reg_write reg v c ≡ (none, write_place place v c) =
      rw (e, kvm_reg_write) refl in
    let c' = (kvm_reg_write reg v c).1 in
    let read : kvm_reg_read c' reg w ≡ (none, read_place c' (read_back place) w) =
      rw (back, kvm_reg_read) refl in
    let value : read_place (write_place place v c) (read_back place) w ≡ (kvm_reg_read c' reg w).1 =
      sym (ap (λ t. t.1) read ∙ ap (λ t. read_place t.1 (read_back place) w) written) in
    (
      ap (λ t. t.0) written,
      ap (λ t. t.0) read,
      subst (λ x. Agree x v (fields place)) value
          (place_back v w c words place (xmm_few reg place e)),
    )
