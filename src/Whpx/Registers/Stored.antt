-- ===== src/Whpx/Registers/Stored.antt =====
-- The registers that TranslateRegisterName names hold what is written to them.
use virt.Base.{◌≡◌, refl, sym, ap, ◌∙◌, Bool, true, false, Option, none, some}
use virt.Vp.Reg.{Reg}
use virt.Whpx.Names.{Name, is_stored, Stored}
use virt.Whpx.NameCases.{translate_register_name}

abbrev stored_name : Option Name → Bool
stored_name none = true
stored_name (some n) = is_stored n

stored_names : (rs5 : Bool) (r : Reg) → stored_name (translate_register_name rs5 r) ≡ true
unfolding translate_register_name
stored_names true Reg.cs = refl
stored_names true _ = refl
stored_names false Reg.cs = refl
stored_names false _ = refl

pub translate_register_name-Stored :
    (rs5 : Bool) (r : Reg) (n : Name) → translate_register_name rs5 r ≡ some n → Stored n
translate_register_name-Stored rs5 r n e = sym (ap stored_name e) ∙ stored_names rs5 r
