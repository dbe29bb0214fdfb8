-- ===== src/Vp/Interrupts.antt =====
-- Execution and the interrupt queue of modules/core/src/vp/vp.cpp: Run, Step, EnqueueInterrupt,
-- HandleInterruptQueue and InjectPendingInterrupt, over the operations that a platform implements.
-- The queue's lock makes each call one step.
pub mod Fifo
pub mod Delivery
use virt.Base.{ℕ, Bool, if◌then◌else◌, Option, List, [], ◌∷◌, ◌++◌}
use virt.Vp.Status.{Failure, VpExecutionStatus}

-- The pure virtual operations, on the platform's state.
pub record Backend (S : Type 0) : Type 0 where
  pub run_impl : S → VpExecutionStatus × S
  pub step_impl : S → VpExecutionStatus × S
  pub prepare_interrupt : ℕ → S → Bool × S
  pub inject_interrupt : ℕ → S → Option Failure × S
  pub can_inject_interrupt : S → Bool
  pub request_interrupt_window : S → S

pub record Vp (S : Type 0) : Type 0 where
  pub pending_interrupts : List ℕ
  pub state : S

module _ {S : Type 0} (b : Backend S) where
  -- The status of the injection is not looked at.
  unfoldable pub inject_pending_interrupt : Vp S → Vp S
  inject_pending_interrupt vp = elim vp.pending_interrupts [
    | [] ↦ vp
    | vector ∷ rest ↦
        let (_, t) = b.inject_interrupt vector vp.state in
        record { pending_interrupts = rest; state = t }
  ]

  unfoldable pub handle_interrupt_queue : Vp S → Vp S
  unfolding inject_pending_interrupt
  handle_interrupt_queue vp = elim vp.pending_interrupts [
    | [] ↦ vp
    | _ ∷ _ ↦
        if b.can_inject_interrupt vp.state
        then inject_pending_interrupt vp
        else record vp { state = b.request_interrupt_window vp.state }
  ]

  unfoldable pub run : Vp S → VpExecutionStatus × Vp S
  unfolding handle_interrupt_queue
  run vp =
      let ready = handle_interrupt_queue vp in
      let (status, t) = b.run_impl ready.state in (status, record ready { state = t })

  -- `guest_debugging` is the platform's feature.
  unfoldable pub step : Bool → Vp S → VpExecutionStatus × Vp S
  unfolding handle_interrupt_queue
  step guest_debugging vp =
      let ready = handle_interrupt_queue vp in
      let (status, t) = b.step_impl ready.state in
      if guest_debugging
      then (status, record ready { state = t })
      else (VpExecutionStatus.unsupported, vp)

  unfoldable pub enqueue_interrupt : ℕ → Vp S → Bool × Vp S
  enqueue_interrupt vector vp =
      let (prepared, t) = b.prepare_interrupt vector vp.state in
      (prepared, record { pending_interrupts = vp.pending_interrupts ++ vector ∷ []; state = t })
