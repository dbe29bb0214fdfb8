-- ===== src/Haxm/Switch/RoundTrip.antt =====
-- What a write to a register stores is what a read of the same register gives back.
use mathlib.Core.Option
use mathlib.Core.Path.{subst}
use virt.Base.{
  ℕ, ◌-◌, ◌%◌, ◌^◌, ◌<◌, ◌≡◌, refl, ap, sym, ◌∙◌, ltb, ltb→lt, Bool, true, false, ◌>>>◌, u8, u16,
  u32, List, [], ◌∷◌, Option, none, some, inl, inr, Bool-cases, arith,
}
use virt.Vp.Layout.{load, store, load-lt, load-store}
use virt.Vp.Reg.{Reg}
use virt.Vp.Registers.{RegValue}
use virt.Util.Bytes.{set_low_lem}
use virt.Kvm.Regs.{Gpr, Control, gpr_number, segment_number, table_number, control_number, set_at}
use virt.Kvm.Regs.Laws.{set_at-same, low_part, two_parts, four_parts, fits, file_back, load_low4}
use virt.Kvm.Switch.RoundTrip.{Agree}
use virt.Haxm.Msrs.{MsrDriver}
use virt.Haxm.Regs.{
  SegmentDesc, FxLayout, load_segment, store_segment, load_table, store_table, load_st_register,
  store_st_register, load_mm_register, store_mm_register, load_xmm_register, store_xmm_register,
}
use virt.Haxm.Place.{
  Place, segment, table, high_byte, low_byte, low_word, low_double, byte_word, word_double,
  set_byte, set_word, double_word, whole, flags_word, flags_double, flags_whole, control,
  efer_place, debug, st_register, mm_register, xmm_register, Cache, fixup_flags, read_place,
  write_place,
}
use virt.Haxm.ReadCases.{read_case}
use virt.Haxm.WriteCases.{write_case}
use virt.Haxm.Switch.{haxm_reg_read, haxm_reg_write}

-- How the switch for reads names the place that the switch for writes names so.
abbrev pub read_back : Place → Place
read_back (byte_word r) = low_byte r
read_back (set_byte r) = low_byte r
read_back (set_word r) = low_word r
read_back (word_double r) = low_word r
read_back (double_word r) = low_double r
read_back flags_word = low_word Gpr.rflags
read_back flags_double = low_double Gpr.rflags
read_back flags_whole = whole Gpr.rflags
read_back place = place

read_case-write_case : (r : Reg) → read_case r ≡ Option.map read_back (write_case r)
unfolding read_case write_case
read_case-write_case Reg.cs = refl
read_case-write_case _ = refl

-- The parts of a RegValue that go into a place and come back, each with its offset and its size. EFER
-- comes back from the structures only.
abbrev pub fields : Bool → Place → List (ℕ × ℕ)
fields msr (segment _) = (0, 2) ∷ (8, 8) ∷ (16, 4) ∷ (20, 2) ∷ []
fields msr (table _) = (0, 8) ∷ (8, 2) ∷ []
fields msr (high_byte _) = (0, 1) ∷ []
fields msr (low_byte _) = (0, 1) ∷ []
fields msr (byte_word _) = (0, 1) ∷ []
fields msr (set_byte _) = (0, 1) ∷ []
fields msr (low_word _) = (0, 2) ∷ []
fields msr (word_double _) = (0, 2) ∷ []
fields msr (set_word _) = (0, 2) ∷ []
fields msr flags_word = (0, 2) ∷ []
fields msr (low_double _) = (0, 4) ∷ []
fields msr (double_word _) = (0, 4) ∷ []
fields msr flags_double = (0, 4) ∷ []
fields true efer_place = []
fields false efer_place = (0, 4) ∷ []
fields msr (st_register _) = (0, 8) ∷ (8, 2) ∷ []
fields msr (xmm_register _) = (0, 8) ∷ (8, 8) ∷ []
fields msr _ = (0, 8) ∷ []

-- The value that comes back: that of the flags has its reserved bits set right.
abbrev pub kept_value : Place → RegValue → RegValue
kept_value flags_word v = store v 0 2 (fixup_flags (load v 0 2))
kept_value flags_double v = store v 0 4 (fixup_flags (load v 0 4))
kept_value flags_whole v = store v 0 8 (fixup_flags (load v 0 8))
kept_value place v = v

xmm_back :
    (v w : RegValue) (i : ℕ) (f : FxLayout)
    → i < 16
    → Agree (load_xmm_register w i (store_xmm_register v i f).0).0 v ((0, 8) ∷ (8, 8) ∷ [])
unfolding load_xmm_register store_xmm_register
xmm_back v w i f h = elim (Bool-cases (ltb i 8)) [
  | inl low ↦ rw low (let (a, b) = file_back v w f.mmx_1 i 8 in (a, (b, tt)))
  | inr high ↦
      let inside : ltb i 16 ≡ true = ground arith in
      rw (high, inside) (let (a, b) = file_back v w f.mmx_2 (i - 8) 8 in (a, (b, tt)))
]

segment_back :
    (v w : RegValue)
    → Agree (load_segment w (store_segment v)) v ((0, 2) ∷ (8, 8) ∷ (16, 4) ∷ (20, 2) ∷ [])
unfolding load_segment store_segment
segment_back v w =
    let back = four_parts w (load v 0 2) (load v 8 8) (load v 16 4) (load v 20 2) in
    (back.0 ∙ fits v 0 2, (back.1 ∙ fits v 8 8, (back.2 ∙ fits v 16 4, (back.3 ∙ fits v 20 2, tt))))

table_back :
    (v w : RegValue) (t : SegmentDesc)
    → Agree (load_table w (store_table v t)) v ((0, 8) ∷ (8, 2) ∷ [])
unfolding load_table store_table
table_back v w t =
    let back =
      two_parts w 8 8 2 (load v 0 8) (load v 8 2) (load v 0 8) (load v 8 2) (omega arith)
        (fits v 0 8) (fits v 8 2) in
    (back.0, (back.1, tt))

efer_back :
    {K : Type 0} (driver : MsrDriver K) (msr : Bool) (v w : RegValue) (c : Cache K)
    → Agree
        (read_place driver msr (write_place driver msr efer_place v c) efer_place w)
        v
        (fields msr efer_place)
unfolding read_place write_place
efer_back driver true v w c = tt
efer_back driver false v w c =
    let new = set_at control_number c.state.controls Control.efer (load v 0 4) Control.efer in
    (
      load_low4 (store w 0 8 new)
          ∙ ap (λ t. t % 256 ^ 4)
              (low_part w 8 new (load v 0 4) (
                ap (λ t. t % 256 ^ 8) (set_at-same control_number c.state.controls Control.efer _)
                ∙ omega (arith, load-lt v 0 4)))
          ∙ fits v 0 4,
      tt,
    )

module _ {K : Type 0} (driver : MsrDriver K) (msr : Bool) (v w : RegValue) (c : Cache K)
    (words : (r : Gpr) → c.state.regs r < 2 ^ 64) where
  gpr_back :
      (r : Gpr) (new n x : ℕ) (f : ℕ → ℕ)
      → f new % 256 ^ n ≡ x
      → load (store w 0 n (f (set_at gpr_number c.state.regs r new r))) 0 n ≡ x
  gpr_back r new n x f h =
      low_part w n _ _ (ap (λ t. f t % 256 ^ n) (set_at-same gpr_number c.state.regs r new) ∙ h)

  place_back :
      (place : Place)
      → ((i : ℕ) → place ≡ xmm_register i → i < 16)
      → Agree
          (read_place driver msr (write_place driver msr place v c) (read_back place) w)
          (kept_value place v)
          (fields msr place)
  unfolding read_place write_place load_st_register store_st_register load_mm_register
      store_mm_register
  place_back (segment n) few =
      subst (λ d. Agree (load_segment w d) v (fields msr (segment n)))
        (sym (set_at-same segment_number c.state.segments n (store_segment v))) (segment_back v w)
  place_back (table n) few =
      subst (λ d. Agree (load_table w d) v (fields msr (table n)))
        (sym (set_at-same table_number c.state.tables n _)) (table_back v w (c.state.tables n))
  place_back (high_byte r) few =
      (gpr_back r _ 1 (load v 0 1) (λ t. u8 (t >>> 8)) (omega (arith, load-lt v 0 1)), tt)
  place_back (low_byte r) few =
      (gpr_back r _ 1 (load v 0 1) (λ t. u8 t) (omega (arith, load-lt v 0 1)), tt)
  place_back (byte_word r) few =
      (gpr_back r _ 1 (load v 0 1) (λ t. u8 t) (omega (arith, load-lt v 0 1)), tt)
  place_back (low_word r) few =
      (gpr_back r _ 2 (load v 0 2) (λ t. u16 t) (omega (arith, load-lt v 0 2)), tt)
  place_back (word_double r) few =
      (gpr_back r _ 2 (load v 0 2) (λ t. u16 t) (omega (arith, load-lt v 0 2)), tt)
  place_back (low_double r) few =
      (gpr_back r _ 4 (load v 0 4) (λ t. u32 t) (omega (arith, load-lt v 0 4)), tt)
  place_back (set_byte r) few = (
    gpr_back r _ 1 (load v 0 1) (λ t. u8 t)
        (omega (
          arith,
          load-lt v 0 1,
          (set_low_lem (c.state.regs r) (load v 0 1) 0 (words r) (load-lt v 0 1) (omega arith)).0,
        )),
    tt,
  )
  place_back (set_word r) few = (
    gpr_back r _ 2 (load v 0 2) (λ t. u16 t)
        (omega (
          arith,
          load-lt v 0 2,
          (set_low_lem (c.state.regs r) 0 (load v 0 2) (words r) (omega arith) (load-lt v 0 2)).1,
        )),
    tt,
  )
  place_back (double_word r) few =
      (gpr_back r _ 4 (load v 0 4) (λ t. u32 t) (omega (arith, load-lt v 0 4)), tt)
  place_back flags_word few =
      let new = fixup_flags (load v 0 2) in
      (
        gpr_back Gpr.rflags _ 2 (new % 256 ^ 2) (λ t. u16 t) (omega arith)
            ∙ sym (load-store v 0 2 new),
        tt,
      )
  place_back flags_double few =
      let new = fixup_flags (load v 0 4) in
      (
        gpr_back Gpr.rflags _ 4 (new % 256 ^ 4) (λ t. u32 t) (omega arith)
            ∙ sym (load-store v 0 4 new),
        tt,
      )
  place_back flags_whole few =
      let new = fixup_flags (load v 0 8) in
      (gpr_back Gpr.rflags _ 8 (new % 256 ^ 8) (λ t. t) refl ∙ sym (load-store v 0 8 new), tt)
  place_back (whole r) few = (gpr_back r _ 8 (load v 0 8) (λ t. t) (fits v 0 8), tt)
  place_back (control r) few = (
    low_part w 8 _ _
        (ap (λ t. t % 256 ^ 8) (set_at-same control_number c.state.controls r _) ∙ fits v 0 8),
    tt,
  )
  place_back efer_place few = efer_back driver msr v w c
  place_back (debug i) few = (
    low_part w 8 _ _ (ap (λ t. t % 256 ^ 8) (set_at-same (λ j. j) c.state.debug i _) ∙ fits v 0 8),
    tt,
  )
  place_back (st_register i) few = let (a, b) = file_back v w c.fpu_regs.st_mm i 2 in (a, (b, tt))
  place_back (mm_register i) few =
      let made = store (c.fpu_regs.st_mm i) 0 8 (load v 0 8) in
      (
        low_part w 8 _ _ (
            ap (λ b. load b 0 8 % 256 ^ 8) (set_at-same (λ j. j) c.fpu_regs.st_mm i made)
            ∙ ap (λ t. t % 256 ^ 8) (load-store (c.fpu_regs.st_mm i) 0 8 (load v 0 8) ∙ fits v 0 8)
            ∙ fits v 0 8),
        tt,
      )
  place_back (xmm_register i) few = xmm_back v w i c.fpu_regs (few i refl)

abbrev few : Option Place → Bool
few (some (xmm_register i)) = ltb i 16
few _ = true

write_case-few : (r : Reg) → few (write_case r) ≡ true
unfolding write_case
write_case-few Reg.cs = refl
write_case-few _ = refl

xmm_few :
    (reg : Reg) (place : Place)
    → write_case reg ≡ some place
    → (i : ℕ) → place ≡ xmm_register i
    → i < 16
xmm_few reg place e i p = ltb→lt i 16 (sym (ap few (e ∙ ap (λ t. some t) p)) ∙ write_case-few reg)

-- For 64-bit general registers.
pub haxm_reg_read-haxm_reg_write :
    {K : Type 0} (driver : MsrDriver K) (msr : Bool) (reg : Reg) (place : Place) (v w : RegValue)
    (c : Cache K)
    → ((r : Gpr) → c.state.regs r < 2 ^ 64)
    → write_case reg ≡ some place
    → ((haxm_reg_write driver msr reg v c).0 ≡ none)
      × ((haxm_reg_read driver msr (haxm_reg_write driver msr reg v c).1 reg w).0 ≡ none)
      × Agree
          (haxm_reg_read driver msr (haxm_reg_write driver msr reg v c).1 reg w).1
          (kept_value place v)
          (fields msr place)
unfolding haxm_reg_read haxm_reg_write
haxm_reg_read-haxm_reg_write {K = K} driver msr reg place v w c words e =
    let back : read_case reg ≡ some (read_back place) =
      read_case-write_case reg ∙ ap (Option.map read_back) e in
    let written : haxm_reg_write driver msr reg v c ≡ (none, write_place driver msr place v c) =
      rw (e, haxm_reg_write) refl in
    let read : (d : Cache K)
        → haxm_reg_read driver msr d reg w ≡ (none, read_place driver msr d (read_back place) w) =
      λ d. rw (back, haxm_reg_read) refl in
    let c' = (haxm_reg_write driver msr reg v c).1 in
    let value : read_place driver msr (write_place driver msr place v c) (read_back place) w
        ≡ (haxm_reg_read driver msr c' reg w).1 =
      sym (
        ap (λ t. t.1) (read c')
        ∙ ap (λ t. read_place driver msr t.1 (read_back place) w) written) in
    (
      ap (λ t. t.0) written,
      ap (λ t. t.0) (read c'),
      subst (λ x. Agree x (kept_value place v) (fields msr place)) value
          (place_back driver msr v w c words place (xmm_few reg place e)),
    )
