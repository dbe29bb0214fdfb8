-- ===== src/Whpx/Msrs/Distinct.antt =====
-- TranslateMSR gives different MSRs different registers.
use virt.Base.{
  ℕ, ◌==◌, ◌≡◌, ◌≢◌, refl, sym, ap, ◌∙◌, Bool, true, if◌then◌else◌, some, List, [], ◌∷◌, ◌&&◌,
  arith,
}
use virt.Whpx.Names.{Name, name_number}
use virt.Whpx.Msrs.{msr_cases, find_msr, translate_msr}

-- The MSR of the first case for a register's number.
abbrev msr_of : List (ℕ × Bool × Name) → ℕ → ℕ
msr_of [] n = 0
msr_of ((number, old, name) ∷ rest) n =
    let found = msr_of rest n in if name_number name == n then number else found

-- A function of the registers' numbers gives the MSRs of all cases.
abbrev gives_back : (ℕ → ℕ) → List (ℕ × Bool × Name) → Bool
gives_back f [] = true
gives_back f ((number, old, name) ∷ rest) = f (name_number name) == number && gives_back f rest

cases_back : gives_back (msr_of msr_cases) msr_cases ≡ true
cases_back = refl

find_msr-back :
    (f : ℕ → ℕ) (rs5 : Bool) (cases : List (ℕ × Bool × Name)) (msr : ℕ) (n : Name)
    → gives_back f cases ≡ true
    → find_msr rs5 cases msr ≡ some n
    → f (name_number n) ≡ msr
find_msr-back f rs5 [] msr n all e = cc
find_msr-back f rs5 ((number, old, name) ∷ rest) msr n all e =
    grind (arith, find_msr-back f rs5 rest msr n)

-- Two different MSRs that WHPX has stand for different registers of the hypervisor.
pub translate_msr-Apart :
    (rs5 : Bool) (m m' : ℕ) (n n' : Name)
    → translate_msr rs5 m ≡ some n
    → translate_msr rs5 m' ≡ some n'
    → m ≢ m'
    → name_number n ≢ name_number n'
unfolding translate_msr
translate_msr-Apart rs5 m m' n n' e e' different same = different (
    sym (find_msr-back (msr_of msr_cases) rs5 msr_cases m n cases_back e)
    ∙ ap (msr_of msr_cases) same
    ∙ find_msr-back (msr_of msr_cases) rs5 msr_cases m' n' cases_back e')
