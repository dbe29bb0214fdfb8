-- ===== src/Whpx/Msrs/RoundTrip.antt =====
-- MSRs that are set in bulk are read back.
use virt.Base.{
  ℕ, ◌^◌, ◌<◌, ◌≡◌, ◌≢◌, refl, ap, ◌∙◌, Bool, true, false, none, some, List, [], ◌∷◌, map, length,
  All, arith,
}
use virt.Vp.Registers.Bulk.{Both, nil, cons}
use virt.Kvm.Regs.{set_at}
use virt.Whpx.Names.{Name, name_number, Stored, Views}
use virt.Whpx.Names.Laws.{Layout}
use virt.Whpx.Dispatch.{Dispatch, Keeps, written, Apart}
use virt.Whpx.Msrs.{translate_msr, translate_msrs, msr_values, value_array, get_msrs, set_msrs}
use virt.Whpx.Msrs.Distinct.{translate_msr-Apart}

-- WHPX has all these MSRs, as these registers.
abbrev pub Known : Bool → List ℕ → List Name → Type 0
Known rs5 = Both (λ m n. translate_msr rs5 m ≡ some n)

-- No MSR comes twice.
abbrev pub Different : List ℕ → Type 0
Different [] = Unit
Different (m ∷ ms) = All (λ m'. m ≢ m') ms × Different ms

Known-translate_msrs :
    (rs5 : Bool) (ms : List ℕ) (ns : List Name) → Known rs5 ms ns → translate_msrs rs5 ms ≡ some ns
Known-translate_msrs rs5 ms ns nil = refl
Known-translate_msrs rs5 ms ns (cons e b) = rw (e, Known-translate_msrs rs5 _ _ b) refl

one_away :
    (rs5 : Bool) (m : ℕ) (n : Name) (ms : List ℕ) (ns : List Name)
    → translate_msr rs5 m ≡ some n
    → Known rs5 ms ns
    → All (λ m'. m ≢ m') ms
    → All (λ n'. name_number n ≢ name_number n') ns
one_away rs5 m n ms ns e nil away = tt
one_away rs5 m n ms ns e (cons e' b) (here, away) =
    (translate_msr-Apart rs5 m _ n _ e e' here, one_away rs5 m n _ _ e b away)

Different-Apart :
    (rs5 : Bool) (ms : List ℕ) (ns : List Name) → Known rs5 ms ns → Different ms → Apart ns
Different-Apart rs5 ms ns nil different = tt
Different-Apart rs5 ms ns (cons e b) (away, different) =
    (one_away rs5 _ _ _ _ e b away, Different-Apart rs5 _ _ b different)

written_other :
    {V : Type 0} (n : Name) (ns : List Name) (ws : List V) (f : Name → V)
    → All (λ m. name_number n ≢ name_number m) ns
    → written ns ws f n ≡ f n
written_other n [] ws f away = refl
written_other n (m ∷ ns) [] f away = refl
written_other n (m ∷ ns) (w ∷ ws) f (here, away) =
    written_other n ns ws (set_at name_number f m w) away ∙ grind arith

-- Different registers that are written hold what was written.
map-written :
    {V : Type 0} (ns : List Name) (ws : List V) (f : Name → V)
    → length ns ≡ length ws
    → Apart ns
    → map (written ns ws f) ns ≡ ws
map-written [] [] f h apart = refl
map-written [] (w ∷ ws) f h apart = absurd (omega arith)
map-written (n ∷ ns) [] f h apart = absurd (omega arith)
map-written (n ∷ ns) (w ∷ ws) f h (away, apart) =
    let f' = set_at name_number f n w in
    let first : written ns ws f' n ≡ w = written_other n ns ws f' away ∙ ground arith in
    rw (first, map-written ns ws f' (omega arith) apart) refl

module _ {V K : Type 0} (x : Views V) (laws : Layout x) (d : Dispatch V K) (a : Keeps d)
    (rs5 : Bool) where
  length-value_array : (fresh : V) (vs : List ℕ) → length (value_array x fresh vs) ≡ length vs
  length-value_array fresh [] = refl
  length-value_array fresh (v ∷ vs) = omega (arith, length-value_array fresh vs)

  Known-length : (ms : List ℕ) (ns : List Name) → Known rs5 ms ns → length ms ≡ length ns
  Known-length ms ns nil = refl
  Known-length ms ns (cons e b) = omega (arith, Known-length _ _ b)

  values_back :
      (fresh : V) (vs old : List ℕ)
      → All (λ v. v < 2 ^ 64) vs
      → length old ≡ length vs
      → msr_values x (value_array x fresh vs) old ≡ vs
  values_back fresh [] [] small h = refl
  values_back fresh [] (o ∷ os) small h = absurd (omega arith)
  values_back fresh (v ∷ vs) [] small h = absurd (omega arith)
  values_back fresh (v ∷ vs) (o ∷ os) (here, small) h =
      rw (laws.reg64_back v fresh here, values_back fresh vs os small (omega arith)) refl

  -- Let there be enough memory, different MSRs that WHPX has and that hold what is written to them
  -- (not the TSC, MTRRCAP or PRED_CMD), and a 64-bit value for each; the hypervisor's reads of
  -- such registers succeed and give what a call that succeeded has set. If its call that sets
  -- these succeeds, SetMSRs returns OK, and then GetMSRs of the same MSRs returns OK and gives the
  -- values.
  pub get_msrs-set_msrs :
      (fresh : V) (ms : List ℕ) (ns : List Name) (vs old : List ℕ) (k : K)
      → Known rs5 ms ns
      → All Stored ns
      → Different ms
      → length ms ≡ length vs
      → length old ≡ length vs
      → All (λ v. v < 2 ^ 64) vs
      → (d.set_registers ns (value_array x fresh vs) k).0 ≡ true
      → ((set_msrs x d rs5 fresh false true ms vs k).0 ≡ none)
        × (get_msrs x d rs5 false true (set_msrs x d rs5 fresh false true ms vs k).1 ms old
            ≡ (none, vs))
  unfolding get_msrs set_msrs
  get_msrs-set_msrs fresh ms ns vs old k known stored_all different h h' small done =
      let names = Known-translate_msrs rs5 ms ns known in
      let ws = value_array x fresh vs in
      let k' = (d.set_registers ns ws k).1 in
      let stored : map (a.file k') ns ≡ ws =
        ap (λ f. map f ns) (a.set_lem ns ws k stored_all done)
        ∙ map-written ns ws (a.file k)
            (omega (arith, length-value_array fresh vs, Known-length ms ns known))
            (Different-Apart rs5 ms ns known different) in
      let set : set_msrs x d rs5 fresh false true ms vs k ≡ (none, k') =
        rw (names, set_msrs) refl in
      let get : get_msrs x d rs5 false true k' ms old ≡ (none, msr_values x ws old) =
        rw (names, a.get_lem ns k' stored_all, stored, get_msrs) refl in
      (
        ap (λ o. o.0) set,
        ap (λ o. get_msrs x d rs5 false true o.1 ms old) set
            ∙ get
            ∙ ap (λ v. (none, v)) (values_back fresh vs old small h'),
      )
