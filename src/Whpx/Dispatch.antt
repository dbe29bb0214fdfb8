-- ===== src/Whpx/Dispatch.antt =====
-- The calls of the Windows hypervisor on the registers of one virtual processor, of
-- modules/whpx/src/whpx_dispatch.hpp, and what its documentation says of them.
use virt.Base.{Bool, true, ◌≡◌, ◌≢◌, All, Option, some, List, [], ◌∷◌, map}
use virt.Kvm.Regs.{set_at}
use virt.Whpx.Names.{Name, name_number, Stored}

-- WHvGetVirtualProcessorRegisters, where `none` is a result other than S_OK, and
-- WHvSetVirtualProcessorRegisters, with whether the result is S_OK. The number of registers is the length
-- of the lists.
pub record Dispatch (V K : Type 0) : Type 0 where
  pub get_registers : List Name → K → Option (List V)
  pub set_registers : List Name → List V → K → Bool × K

-- No register of the hypervisor comes twice.
abbrev pub Apart : List Name → Type 0
Apart [] = Unit
Apart (n ∷ ns) = All (λ m. name_number n ≢ name_number m) ns × Apart ns

-- A processor's registers after values have been set in order.
abbrev pub written {ℓ} : {V : Type ℓ} → List Name → List V → (Name → V) → Name → V
written (n ∷ ns) (w ∷ ws) file = written ns ws (set_at name_number file n w)
written _ _ file = file

-- The calls on registers that hold what is written succeed, and act on the registers of the processor,
-- which are `file` of a state.
pub record Answers {V K : Type 0} (d : Dispatch V K) : Type 0 where
  pub file : K → Name → V
  pub get_lem :
      (ns : List Name) (k : K) → All Stored ns → d.get_registers ns k ≡ some (map (file k) ns)
  pub set_done :
      (ns : List Name) (ws : List V) (k : K) → All Stored ns → (d.set_registers ns ws k).0 ≡ true
  pub set_lem :
      (ns : List Name) (ws : List V) (k : K)
      → All Stored ns
      → file (d.set_registers ns ws k).1 ≡ written ns ws (file k)

-- As Answers, for calls that set registers and may fail: a call that succeeds has set them.
pub record Keeps {V K : Type 0} (d : Dispatch V K) : Type 0 where
  pub file : K → Name → V
  pub get_lem :
      (ns : List Name) (k : K) → All Stored ns → d.get_registers ns k ≡ some (map (file k) ns)
  pub set_lem :
      (ns : List Name) (ws : List V) (k : K)
      → All Stored ns
      → (d.set_registers ns ws k).0 ≡ true
      → file (d.set_registers ns ws k).1 ≡ written ns ws (file k)
