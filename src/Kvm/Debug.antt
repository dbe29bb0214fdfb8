-- ===== src/Kvm/Debug.antt =====
-- Breakpoints of modules/kvm/src/kvm_vp.cpp: SetDebug, EnableSoftwareBreakpoints, SetHardwareBreakpoints,
-- ClearHardwareBreakpoints and GetBreakpointAddress.
pub mod Fields
use virt.Base.{
  ℕ, zero, suc, ◌+◌, ◌*◌, ◌%◌, ◌^◌, ◌==◌, Bool, true, false, ◌&&◌, ◌||◌, if◌then◌else◌, bit_or,
  ◌<<<◌, u64, bits, Option, none, some,
}
use virt.Vp.Status.{Failure, failed, breakpoint_never_hit}
use virt.Kvm.Regs.{set_at}
use virt.Kvm.State.{GuestDebug, Exec, Calls}

-- One of HardwareBreakpoints.bp. The trigger and the length are the enumerators' numbers, of 8 bits.
pub record Breakpoint : Type 0 where
  pub address : ℕ
  pub local_enable : Bool
  pub global_enable : Bool
  pub trigger : ℕ
  pub length : ℕ

abbrev pub digit : Bool → ℕ
digit b = if b then 1 else 0

-- One turn of the loop of SetHardwareBreakpoints.
unfoldable pub set_breakpoint : ℕ → Breakpoint → (ℕ → ℕ) → (ℕ → ℕ)
set_breakpoint i bp regs =
    let enabled =
      bit_or (bit_or (regs 7) (digit bp.local_enable <<< (0 + i * 2)))
        (digit bp.global_enable <<< (1 + i * 2)) in
    let dr7 =
      bit_or (bit_or enabled ((bp.trigger % 2 ^ 2) <<< (16 + i * 4)))
        ((bp.length % 2 ^ 2) <<< (18 + i * 4)) in
    set_at (λ n. n) (set_at (λ n. n) regs i bp.address) 7 dr7

-- The loop from index `i` on, for `n` turns.
unfoldable pub set_breakpoints : (ℕ → Breakpoint) → ℕ → ℕ → (ℕ → ℕ) → (ℕ → ℕ)
unfolding set_breakpoint
set_breakpoints bp i zero regs = regs
set_breakpoints bp i (suc n) regs = set_breakpoints bp (i + 1) n (set_breakpoint i (bp i) regs)

-- The search for an enabled breakpoint.
unfoldable pub any_enabled : (ℕ → Breakpoint) → ℕ → ℕ → Bool
any_enabled bp i zero = false
any_enabled bp i (suc n) =
    let rest = any_enabled bp (i + 1) n in
    if (bp i).local_enable || (bp i).global_enable then true else rest

module _ {K W : Type 0} (calls : Calls K) where
  unfoldable pub set_debug : Exec K W → Bool × Exec K W
  set_debug x =
      let enable = x.debug.single_step || x.debug.use_sw_bp || x.debug.use_hw_bp in
      let debug = record x.debug { enable = enable } in
      let (done, kernel) = calls.set_guest_debug debug x.vcpu.kernel in
      (done, record x { debug = debug; vcpu = record x.vcpu { kernel = kernel } })

  abbrev checked : Bool × Exec K W → Option Failure × Exec K W
  checked (done, x) = (if done then none else some failed, x)

  unfoldable pub enable_software_breakpoints : Bool → Exec K W → Option Failure × Exec K W
  unfolding set_debug
  enable_software_breakpoints enable x =
      checked (set_debug (record x { debug = record x.debug { use_sw_bp = enable } }))

  unfoldable pub clear_hardware_breakpoints : Exec K W → Option Failure × Exec K W
  unfolding set_debug
  clear_hardware_breakpoints x =
      checked
        (set_debug (record x { debug = record x.debug { use_hw_bp = false; debugreg = λ _. 0 } }))

  unfoldable pub set_hardware_breakpoints : (ℕ → Breakpoint) → Exec K W → Option Failure × Exec K W
  unfolding set_debug clear_hardware_breakpoints any_enabled set_breakpoints
  set_hardware_breakpoints bp x =
      if any_enabled bp 0 4
      then checked (
          set_debug (record x {
            debug = record x.debug {
              use_hw_bp = true;
              debugreg = set_breakpoints bp 0 4 x.debug.debugreg;
            };
          }))
      else clear_hardware_breakpoints x

  -- The second component is what is written to the caller's variable, if it is.
  unfoldable pub get_breakpoint_address : Exec K W → Option Failure × Option ℕ
  get_breakpoint_address x =
      let hit = bits 0 4 x.kvm_run.dr6 in
      if hit == 0 && x.kvm_run.pc == 0
      then (some breakpoint_never_hit, none)
      else if bits 0 1 hit == 1
      then (none, some (x.debug.debugreg 0))
      else if bits 1 1 hit == 1
      then (none, some (x.debug.debugreg 1))
      else if bits 2 1 hit == 1
      then (none, some (x.debug.debugreg 2))
      else if bits 3 1 hit == 1
      then (none, some (x.debug.debugreg 3))
      else (none, some x.kvm_run.pc)
