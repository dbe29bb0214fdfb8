-- ===== src/Vp/Status.antt =====
-- modules/core/include/virt86/vp/status.hpp: the outcomes of operations on a virtual processor.

-- VPOperationStatus without OK, which is the constructor `ok` of Result.
pub data Failure : Type 0 where
  failed invalid_arguments invalid_selector invalid_register breakpoint_never_hit unsupported :
      Failure

pub data Result {ℓ} (A : Type ℓ) : Type ℓ where
  ok : A → Result A
  err : Failure → Result A

infixl 5 ◌>>=◌
abbrev pub ◌>>=◌ {ℓ κ} : {A : Type ℓ} {B : Type κ} → Result A → (A → Result B) → Result B
ok a >>= f = f a
err e >>= f = err e

pub data VpExecutionStatus : Type 0 where
  ok failed unsupported : VpExecutionStatus

pub data VmExitReason : Type 0 where
  normal cancelled interrupt pio mmio step software_breakpoint hardware_breakpoint hlt cpuid
        msr_access exception shutdown error unhandled :
      VmExitReason
