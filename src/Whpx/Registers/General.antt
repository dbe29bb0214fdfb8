-- ===== src/Whpx/Registers/General.antt =====
-- The general registers on WHPX, against the numbering of Reg.
use mathlib.Core.Option
use mathlib.Core.Path.{subst}
use native.Mathlib.Nat.{mod-eq_of_lt}
use virt.Base.{ℕ, ◌≡◌, refl, ap, ◌∙◌, Bool, true, Option, none, some, [], ◌∷◌, arith}
use virt.Vp.Layout.{load, load-lt, load-store}
use virt.Vp.Reg.{Reg, number, reg_between}
use virt.Vp.Registers.{RegValue}
use virt.Util.Bytes.{set_low_lem, set_high_byte_lem}
use virt.Kvm.Regs.{Gpr, gpr_number, set_at}
use virt.Kvm.Place.{
  Place, high_byte, low_byte, low_word, double_word, whole, extended_word, segment, table, control,
  control_double_word, debug, st_register, mm_register, xmm_register,
}
use virt.Kvm.Switch.Merge.{encoded, merged, general}
use virt.Whpx.Names.{
  Name, name_number, gpr, Kind, low_byte_kind, high_byte_kind, low_word_kind, double_word_kind,
  reg64_kind, Views,
}
use virt.Whpx.Names.Laws.{Layout}
use virt.Whpx.NameCases.{translate_register_name}
use virt.Whpx.FromCases.{from_kind}
use virt.Whpx.IntoCases.{into_kind}
use virt.Whpx.Values.{zeros, value_into, translate_from, translate_into}
use virt.Whpx.Dispatch.{Dispatch, Answers}
use virt.Whpx.Registers.{reg_read, reg_write}
use virt.Whpx.Registers.Single.{reg_read-file, reg_write-file}

-- The general register that a place is in, and how WHPX treats a value for it.
abbrev pub gpr_of : Place → Gpr
gpr_of (high_byte r) = r
gpr_of (low_byte r) = r
gpr_of (low_word r) = r
gpr_of (extended_word r) = r
gpr_of (double_word r) = r
gpr_of (whole r) = r
gpr_of _ = Gpr.rflags

abbrev kind_of : Place → Kind
kind_of (high_byte _) = high_byte_kind
kind_of (low_byte _) = low_byte_kind
kind_of (low_word _) = low_word_kind
kind_of (extended_word _) = low_word_kind
kind_of (double_word _) = double_word_kind
kind_of _ = reg64_kind

-- KVM clears the bits of the instruction pointer and the flags above a word that is written to them,
-- WHPX keeps them.
abbrev pub kept : Place → Place
kept (extended_word r) = low_word r
kept place = place

abbrev at_place {ℓ} : {A : Type ℓ} → Option Place → Option A → Option A
at_place none o = none
at_place (some place) o = o

general_names :
    (rs5 : Bool) (r : Reg)
    → at_place (encoded r) (translate_register_name rs5 r)
      ≡ Option.map (λ p. gpr (gpr_of p)) (encoded r)
unfolding translate_register_name reg_between number
general_names rs5 Reg.cs = refl
general_names rs5 _ = refl

general_from :
    (r : Reg) → at_place (encoded r) (from_kind r) ≡ Option.map (λ p. reg64_kind) (encoded r)
unfolding from_kind reg_between number
general_from Reg.cs = refl
general_from _ = refl

general_into : (r : Reg) → at_place (encoded r) (into_kind r) ≡ Option.map kind_of (encoded r)
unfolding into_kind reg_between number
general_into Reg.cs = refl
general_into _ = refl

at_place-some :
    {A : Type 0} (o : Option Place) (found : Option A) (f : Place → A) (place : Place)
    → at_place o found ≡ Option.map f o
    → o ≡ some place
    → found ≡ some (f place)
at_place-some o found f place h e = subst (λ t. at_place t found ≡ Option.map f t) e h

encoded-general : (r : Reg) → general (encoded r) ≡ encoded r
unfolding reg_between number
encoded-general Reg.cs = refl
encoded-general _ = refl

gprs_set :
    {V : Type 0} (x : Views V) (file : Name → V) (r h : Gpr) (w : V)
    → x.reg64.get (set_at name_number file (gpr r) w (gpr h))
      ≡ set_at gpr_number (λ g. x.reg64.get (file (gpr g))) r (x.reg64.get w) h
gprs_set x file r h w = grind arith

module _ {V K : Type 0} (x : Views V) (laws : Layout x) (d : Dispatch V K) (a : Answers d)
    (rs5 : Bool) where
  -- The general registers of the processor.
  abbrev pub general_file : K → Gpr → ℕ
  general_file k r = x.reg64.get (a.file k (gpr r))

  -- For a hypervisor that answers as documented, enough memory, and every register that names a
  -- general register or a part of one by the numbering of Reg: a read returns OK and gives all 64
  -- bits of that general register, whichever part the name is of, AH included.
  pub reg_read-general :
      (reg : Reg) (place : Place) (v : RegValue) (k : K)
      → encoded reg ≡ some place
      → (out : RegValue) × (reg_read x d rs5 true k reg v ≡ (none, out ∷ []))
        × (load out 0 8 ≡ general_file k (gpr_of place))
  unfolding translate_from
  reg_read-general reg place v k e =
      let named =
        at_place-some (encoded reg) _ (λ p. gpr (gpr_of p)) place (general_names rs5 reg) e in
      let from = at_place-some (encoded reg) _ (λ p. reg64_kind) place (general_from reg) e in
      let old = a.file k (gpr (gpr_of place)) in
      let value : load (translate_from x reg old) 0 8 ≡ x.reg64.get old =
        rw (from, translate_from)
          (load-store zeros 0 8 (x.reg64.get old) ∙ mod-eq_of_lt (laws.reg64_lt old)) in
      (translate_from x reg old, reg_read-file x laws d a rs5 reg _ v k named, value)

  word :
      (r : Gpr) (v : RegValue) (k : K) (h : Gpr)
      → set_at gpr_number
          (general_file k)
          r
          (x.reg64.get (value_into x low_word_kind v (a.file k (gpr r))))
          h
        ≡ merged (low_word r) v (general_file k) h
  unfolding value_into
  word r v k h =
      let w = a.file k (gpr r) in
      let new =
        (set_low_lem (x.reg64.get w) 0 (load v 0 2) (laws.reg64_lt w) (omega arith)
          (load-lt v 0 2)).1 in
      ap (λ t. set_at gpr_number (general_file k) r t h)
        (laws.reg64_back _ w (omega (arith, new, laws.reg64_lt w, load-lt v 0 2))
          ∙ new
          ∙ omega arith)

  -- What a value does to the general register that it is written into.
  value_into-merged :
      (place : Place) (v : RegValue) (k : K) (h : Gpr)
      → general (some place) ≡ some place
      → set_at gpr_number
          (general_file k)
          (gpr_of place)
          (x.reg64.get (value_into x (kind_of place) v (a.file k (gpr (gpr_of place)))))
          h
        ≡ merged (kept place) v (general_file k) h
  unfolding value_into
  value_into-merged (high_byte r) v k h g =
      let w = a.file k (gpr r) in
      let new = set_high_byte_lem (x.reg64.get w) (load v 0 1) (laws.reg64_lt w) (load-lt v 0 1) in
      ap (λ t. set_at gpr_number (general_file k) r t h)
        (laws.reg64_back _ w (omega (arith, new, laws.reg64_lt w, load-lt v 0 1)) ∙ new)
  value_into-merged (low_byte r) v k h g =
      let w = a.file k (gpr r) in
      let new =
        (set_low_lem (x.reg64.get w) (load v 0 1) 0 (laws.reg64_lt w) (load-lt v 0 1)
          (omega arith)).0 in
      ap (λ t. set_at gpr_number (general_file k) r t h)
        (laws.reg64_back _ w (omega (arith, new, laws.reg64_lt w, load-lt v 0 1))
          ∙ new
          ∙ omega arith)
  value_into-merged (low_word r) v k h g = word r v k h
  value_into-merged (extended_word r) v k h g = word r v k h
  value_into-merged (double_word r) v k h g =
      ap (λ t. set_at gpr_number (general_file k) r t h)
        (laws.reg64_back _ _ (omega (arith, load-lt v 0 4)))
  value_into-merged (whole r) v k h g =
      ap (λ t. set_at gpr_number (general_file k) r t h) (laws.reg64_back _ _ (load-lt v 0 8))
  value_into-merged (segment _) v k h g = cc
  value_into-merged (table _) v k h g = cc
  value_into-merged (control _) v k h g = cc
  value_into-merged (control_double_word _) v k h g = cc
  value_into-merged (debug _) v k h g = cc
  value_into-merged (st_register _) v k h g = cc
  value_into-merged (mm_register _) v k h g = cc
  value_into-merged (xmm_register _) v k h g = cc

  -- For a hypervisor that answers as documented, enough memory, and every register that names a
  -- general register or a part of one by the numbering of Reg: a write returns OK, replaces
  -- exactly the bits of that part in that general register (a 32-bit part takes the upper half
  -- with it, which becomes 0), and leaves all other general registers as they were.
  pub reg_write-general :
      (reg : Reg) (place : Place) (v : RegValue) (k : K) (h : Gpr)
      → encoded reg ≡ some place
      → ((reg_write x d rs5 true reg v k).0 ≡ none)
        × (general_file (reg_write x d rs5 true reg v k).1 h
            ≡ merged (kept place) v (general_file k) h)
  unfolding translate_into
  reg_write-general reg place v k h e =
      let named =
        at_place-some (encoded reg) _ (λ p. gpr (gpr_of p)) place (general_names rs5 reg) e in
      let into = at_place-some (encoded reg) _ kind_of place (general_into reg) e in
      let (done, stored) = reg_write-file x laws d a rs5 reg _ v k named in
      (
        done,
        ap (λ f. x.reg64.get (f (gpr h))) stored
            ∙ gprs_set x (a.file k) (gpr_of place) h _
            ∙ ap (λ w. set_at gpr_number (general_file k) (gpr_of place) (x.reg64.get w) h)
                (rw (into, translate_into) refl)
            ∙ value_into-merged place v k h (subst (λ o. general o ≡ o) e (encoded-general reg)),
      )
