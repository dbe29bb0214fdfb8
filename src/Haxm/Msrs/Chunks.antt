-- ===== src/Haxm/Msrs/Chunks.antt =====
-- How many registers the loops of GetMSRs and SetMSRs give to the driver.
use virt.Base.{
  ℕ, zero, suc, ◌+◌, ◌*◌, ◌<◌, ◌≤◌, ◌≡◌, refl, ltb, lt→ltb, true, false, none, some, List, ◌⊎◌, inl,
  inr, arith,
}
use virt.Haxm.Msrs.{MsrDriver, width, part, set_loop, set_msrs}

below_or : (a b : ℕ) → (a < b) ⊎ (b ≤ a)
below_or a b = grind arith

not_below : (a b : ℕ) → b ≤ a → ltb a b ≡ false
not_below a b h = ground arith

width-positive : (n : ℕ) → 0 < n → 0 < width n
width-positive n h = ground arith

none_or : (calls w n : ℕ) → 0 < n → (calls ≡ 0) ⊎ (0 + calls * w < n + w) → calls * w < n + w
none_or calls w n pos = elim [ inl e ↦ rw e (omega arith) | inr lt ↦ omega (arith, lt) ]

module _ {K : Type 0} (driver : MsrDriver K) where
  -- `calls` calls of SetMSRData with `n` registers each, from an index on.
  abbrev pub sends : (ℕ → ℕ × ℕ) → ℕ → ℕ → ℕ → K → K
  sends entries n zero index s = s
  sends entries n (suc calls) index s =
      sends entries n calls (index + n) (driver.set_msr_data (part entries index n) s).1

  loop_sends :
      ((es : List (ℕ × ℕ)) (s : K) → (driver.set_msr_data es s).0 ≡ true)
      → (entries : ℕ → ℕ × ℕ) (num_regs fuel index : ℕ) (s : K) → 0 < num_regs
      → 0 < fuel
      → num_regs < index + fuel
      → (calls : ℕ) × (set_loop driver entries num_regs fuel index s
          ≡ some (none, sends entries (width num_regs) calls index s))
        × (num_regs ≤ index + calls * width num_regs)
        × ((calls ≡ 0) ⊎ (index + calls * width num_regs < num_regs + width num_regs))
  unfolding set_loop
  loop_sends accepts entries num_regs zero index s pos some_fuel lt = absurd (omega arith)
  loop_sends accepts entries num_regs (suc fuel) index s pos some_fuel lt =
      elim (below_or index num_regs) [
        | inl more ↦
            let n = width num_regs in
            let positive = width-positive num_regs pos in
            let done = accepts (part entries index n) s in
            let (calls, runs, enough, tight) =
              loop_sends accepts entries num_regs fuel (index + n)
                (driver.set_msr_data (part entries index n) s).1 pos (omega arith) (omega arith) in
            (
              suc calls,
              rw (lt→ltb index num_regs more, done) runs,
              grind arith,
              inr (grind (arith, tight)),
            )
        | inr over ↦ (0, rw (not_below index num_regs over), omega arith, inl refl)
      ]

  -- If the driver accepts every call and there is a register to set, SetMSRs of HAXM ends and
  -- returns OK after calls with min(num_regs, 32) registers each, from the start of the arrays on
  -- and one behind the other: as few as cover all registers, so that the last goes past the end
  -- unless the number is below 32 or a multiple of 32.
  pub set_msrs-rounds_up :
      ((es : List (ℕ × ℕ)) (s : K) → (driver.set_msr_data es s).0 ≡ true)
      → (entries : ℕ → ℕ × ℕ) (num_regs : ℕ) (s : K) → 0 < num_regs
      → (calls : ℕ) × (set_msrs driver false entries num_regs s
          ≡ some (none, sends entries (width num_regs) calls 0 s))
        × (num_regs ≤ calls * width num_regs)
        × (calls * width num_regs < num_regs + width num_regs)
  unfolding set_msrs
  set_msrs-rounds_up accepts entries num_regs s pos =
      let (calls, runs, enough, tight) =
        loop_sends accepts entries num_regs (num_regs + 1) 0 s pos (omega arith) (omega arith) in
      (calls, runs, omega (arith, enough), none_or calls (width num_regs) num_regs pos tight)
