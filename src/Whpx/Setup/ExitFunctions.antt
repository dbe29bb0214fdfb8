-- ===== src/Whpx/Setup/ExitFunctions.antt =====
-- The CPUID functions that the hypervisor is given.
use virt.Base.{
  ℕ, zero, suc, ◌+◌, ◌%◌, ◌==◌, ◌≡◌, refl, ◌∙◌, if◌then◌else◌, Option, none, some, List, [], ◌∷◌,
  get_elem?, arith,
}
use virt.Whpx.Setup.{exit_functions}

-- An element of the array for the function that stands there in the specifications.
abbrev pub exit_function : (ℕ → ℕ) → ℕ → ℕ → Option ℕ → Option ℕ
exit_function fresh i j none = none
exit_function fresh i j (some f) = some (if j % 2 == 0 then f else fresh (i + j))

shift :
    (fresh : ℕ → ℕ) (i j : ℕ) (o : Option ℕ)
    → exit_function fresh (i + 2) j o ≡ exit_function fresh i (suc (suc j)) o
shift fresh i j none = refl
shift fresh i j (some f) =
    let place : i + 2 + j ≡ i + suc (suc j) = omega arith in
    let parity : (suc (suc j)) % 2 ≡ j % 2 = omega arith in rw (place, parity) refl

-- The list of CPUID functions that WHPX is given is as long as that of the specifications. It has
-- the function of the specifications at places 0, 2 and so on, but at places 1, 3 and so on what
-- was in the memory of the new array.
pub exit_functions-exit_function :
    (fresh : ℕ → ℕ) (i : ℕ) (fs : List ℕ) (j : ℕ)
    → get_elem? (exit_functions fresh i fs) j ≡ exit_function fresh i j (get_elem? fs j)
unfolding exit_functions
exit_functions-exit_function fresh i [] j = refl
exit_functions-exit_function fresh i (f ∷ []) zero = refl
exit_functions-exit_function fresh i (f ∷ []) (suc j) = refl
exit_functions-exit_function fresh i (f ∷ g ∷ fs) zero = refl
exit_functions-exit_function fresh i (f ∷ g ∷ fs) (suc zero) = refl
exit_functions-exit_function fresh i (f ∷ g ∷ fs) (suc (suc j)) =
    exit_functions-exit_function fresh (i + 2) fs j ∙ shift fresh i j (get_elem? fs j)
