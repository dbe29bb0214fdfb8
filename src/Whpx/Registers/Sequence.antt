-- ===== src/Whpx/Registers/Sequence.antt =====
-- Writes of several registers at once on WHPX, against the same writes one after the other.
use virt.Base.{
  ◌≡◌, ◌≢◌, refl, sym, ap, ◌∙◌, Bool, true, false, none, some, List, [], ◌∷◌, map, length, All,
  arith,
}
use virt.Vp.Reg.{Reg}
use virt.Vp.Registers.{RegValue, write_loop}
use virt.Vp.Registers.Bulk.{Both, nil, cons}
use virt.Kvm.Regs.{set_at}
use virt.Whpx.Names.{Name, name_number, Stored, Views}
use virt.Whpx.Names.Laws.{Layout}
use virt.Whpx.NameCases.{translate_register_name}
use virt.Whpx.Values.{translate_into}
use virt.Whpx.Dispatch.{Dispatch, Answers, written, Apart}
use virt.Whpx.Registers.{translate_names, values_into, reg_write_array, reg_write}
use virt.Whpx.Registers.Stored.{translate_register_name-Stored}
use virt.Whpx.Registers.Single.{reg_write-file}

-- The hypervisor has all these registers, under these names.
abbrev pub Named : Bool → List Reg → List Name → Type 0
Named rs5 = Both (λ r n. translate_register_name rs5 r ≡ some n)

Named-translate_names :
    (rs5 : Bool) (rs : List Reg) (ns : List Name)
    → Named rs5 rs ns
    → translate_names rs5 rs ≡ some ns
Named-translate_names rs5 rs ns nil = refl
Named-translate_names rs5 rs ns (cons e b) = rw (e, Named-translate_names rs5 _ _ b) refl

Named-Stored : (rs5 : Bool) (rs : List Reg) (ns : List Name) → Named rs5 rs ns → All Stored ns
Named-Stored rs5 rs ns nil = tt
Named-Stored rs5 rs ns (cons e b) =
    (translate_register_name-Stored rs5 _ _ e, Named-Stored rs5 _ _ b)

All-kept :
    {V : Type 0} (n : Name) (y : V) (ns : List Name) (g f : Name → V)
    → All (λ m. name_number n ≢ name_number m) ns
    → All (λ m. g m ≡ f m) ns
    → All (λ m. set_at name_number g n y m ≡ f m) ns
All-kept n y [] g f apart same = tt
All-kept n y (m ∷ ns) g f (away, apart) (here, same) =
    (ground (arith, here), All-kept n y ns g f apart same)

module _ {V : Type 0} (x : Views V) (rs5 : Bool) where
  -- Each value goes into its register in turn, as the hypervisor's register then is.
  abbrev pub replay : List Reg → List RegValue → (Name → V) → Name → V
  replay (r ∷ rs) (v ∷ vs) file = elim (translate_register_name rs5 r) [
    | none ↦ file
    | some n ↦ replay rs vs (set_at name_number file n (translate_into x r v (file n)))
  ]
  replay _ _ file = file

  written-replay :
      (rs : List Reg) (ns : List Name) (vs : List RegValue) (g f : Name → V)
      → Named rs5 rs ns
      → length rs ≡ length vs
      → Apart ns
      → All (λ m. g m ≡ f m) ns
      → written ns (values_into x rs vs (map f ns)) g ≡ replay rs vs g
  written-replay rs ns [] g f nil h apart same = refl
  written-replay rs ns (v ∷ vs) g f nil h apart same = refl
  written-replay rs ns [] g f (cons e b) h apart same = absurd (omega arith)
  written-replay rs ns (v ∷ vs) g f (cons {i = r} {v = n} {is = is} {vs = ms} e b) h (away, apart)
        (here, same) =
      let new = translate_into x r v (g n) in
      let rest =
        written-replay is ms vs (set_at name_number g n new) f b (omega arith) apart
          (All-kept n new ms g f away same) in
      ap
        (λ t.
          written ms (values_into x is vs (map f ms))
            (set_at name_number g n (translate_into x r v t)))
        (sym here)
      ∙ rest
      ∙ sym (rw (e, replay) refl)

module _ {V K : Type 0} (x : Views V) (laws : Layout x) (d : Dispatch V K) (a : Answers d)
    (rs5 : Bool) where
  All-same : (ns : List Name) (f : Name → V) → All (λ m. f m ≡ f m) ns
  All-same [] f = tt
  All-same (n ∷ ns) f = (refl, All-same ns f)

  reg_write_array-replay :
      (rs : List Reg) (ns : List Name) (vs : List RegValue) (k : K)
      → Named rs5 rs ns
      → length rs ≡ length vs
      → Apart ns
      → ((reg_write_array x d rs5 false true rs vs k).0 ≡ none)
        × (a.file (reg_write_array x d rs5 false true rs vs k).1 ≡ replay x rs5 rs vs (a.file k))
  unfolding reg_write_array
  reg_write_array-replay rs ns vs k named h apart =
      let names = Named-translate_names rs5 rs ns named in
      let ws = values_into x rs vs (map (a.file k) ns) in
      let stored = Named-Stored rs5 rs ns named in
      rw (names, a.get_lem ns k stored, a.set_done ns ws k stored)
        (
          refl,
          a.set_lem ns ws k stored
              ∙ written-replay x rs5 rs ns vs (a.file k) (a.file k) named h apart
                  (All-same ns (a.file k)),
        )

  write_loop-replay :
      (rs : List Reg) (ns : List Name) (vs : List RegValue) (k : K)
      → Named rs5 rs ns
      → length rs ≡ length vs
      → ((write_loop (reg_write x d rs5 true) rs vs k).0 ≡ none)
        × (a.file (write_loop (reg_write x d rs5 true) rs vs k).1 ≡ replay x rs5 rs vs (a.file k))
  unfolding write_loop
  write_loop-replay rs ns [] k nil h = (refl, refl)
  write_loop-replay rs ns (v ∷ vs) k nil h = (refl, refl)
  write_loop-replay rs ns [] k (cons e b) h = absurd (omega arith)
  write_loop-replay rs ns (v ∷ vs) k (cons {i = r} {v = n} {is = is} {vs = ms} e b) h =
      let (done, stored) = reg_write-file x laws d a rs5 r n v k e in
      let k' = (reg_write x d rs5 true r v k).1 in
      let split : reg_write x d rs5 true r v k ≡ (none, k') = ap (λ o. (o, k')) done in
      let (rest_done, rest) = write_loop-replay is ms vs k' b (omega arith) in
      rw (split, e, write_loop, replay) (rest_done, rest ∙ ap (replay x rs5 is vs) stored)

  -- For a hypervisor that answers as documented, enough memory, a value for each register, and
  -- registers that WHPX has, no two of them in the same register of the hypervisor: a write of all
  -- at once and writes of one after the other return OK and leave the same registers.
  pub reg_write_array-write_loop :
      (rs : List Reg) (ns : List Name) (vs : List RegValue) (k : K)
      → Named rs5 rs ns
      → length rs ≡ length vs
      → Apart ns
      → ((reg_write_array x d rs5 false true rs vs k).0 ≡ none)
        × ((write_loop (reg_write x d rs5 true) rs vs k).0 ≡ none)
        × (a.file (reg_write_array x d rs5 false true rs vs k).1
            ≡ a.file (write_loop (reg_write x d rs5 true) rs vs k).1)
  reg_write_array-write_loop rs ns vs k named h apart =
      let (bulk, all) = reg_write_array-replay rs ns vs k named h apart in
      let (each, one) = write_loop-replay rs ns vs k named h in (bulk, each, all ∙ sym one)
