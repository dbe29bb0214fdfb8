-- ===== src/Whpx/Run/Overwritten.antt =====
-- An interrupt that is injected on WHPX replaces one that the processor has not taken yet.
use virt.Base.{ℕ, ◌≡◌, refl, ap, ◌∙◌, none, some, List, [], ◌∷◌}
use virt.Vm.Io.{IoHandlers}
use virt.Vp.Interrupts.{handle_interrupt_queue, inject_pending_interrupt}
use virt.Kvm.Regs.Laws.{set_at-same}
use virt.Whpx.Names.{name_number, pending_interruption}
use virt.Whpx.Dispatch.{Dispatch, Answers}
use virt.Whpx.State.{RunCalls, PendingViews, WhpxVp}
use virt.Whpx.Run.{with_interrupt, inject_interrupt, whpx_backend}

module _ {V C K W : Type 0} (calls : RunCalls C K W) (d : Dispatch V K) (a : Answers d)
    (p : PendingViews V) (fresh : V) (h : IoHandlers W) where
  -- The hypervisor after an injection.
  abbrev after : ℕ → K → K
  after vector k =
      let new = with_interrupt calls d p fresh h vector (a.file k pending_interruption) in
      (d.set_registers (pending_interruption ∷ []) (new ∷ []) k).1

  inject_interrupt-after :
      (vector : ℕ) (k : K) → inject_interrupt calls d p fresh h vector k ≡ (none, after vector k)
  unfolding inject_interrupt
  inject_interrupt-after vector k =
      let new = with_interrupt calls d p fresh h vector (a.file k pending_interruption) in
      rw
        (
          a.get_lem (pending_interruption ∷ []) k (refl, tt),
          a.set_done (pending_interruption ∷ []) (new ∷ []) k (refl, tt),
          inject_interrupt,
        )
        refl

  pending_after :
      (vector : ℕ) (k : K)
      → a.file (after vector k) pending_interruption
        ≡ with_interrupt calls d p fresh h vector (a.file k pending_interruption)
  pending_after vector k =
      ap (λ f. f pending_interruption) (a.set_lem (pending_interruption ∷ []) _ k (refl, tt))
      ∙ set_at-same name_number (a.file k) pending_interruption _

  -- The head of the queue is always injected.
  handle_interrupt_queue-after :
      (vector : ℕ) (rest : List ℕ) (vp : WhpxVp C K W)
      → handle_interrupt_queue
          (whpx_backend calls d p fresh h)
          (record { pending_interrupts = vector ∷ rest; state = some vp })
        ≡ record {
          pending_interrupts = rest;
          state = some (record vp { kernel = after vector vp.kernel });
        }
  unfolding handle_interrupt_queue inject_pending_interrupt whpx_backend
  handle_interrupt_queue-after vector rest vp =
      ap (λ o. record { pending_interrupts = rest; state = some (record vp { kernel = o.1 }) })
        (inject_interrupt-after vector vp.kernel)

  -- For a hypervisor that answers as documented, and a pending interruption whose fields a second
  -- injection replaces: if the queue is handled twice before the processor takes an interrupt, the
  -- first two interrupts leave the queue, and the pending interruption is what the second of them
  -- alone makes of it.
  pub handle_interrupt_queue-overwrites :
      (first second : ℕ) (rest : List ℕ) (vp : WhpxVp C K W)
      → ((v w : ℕ) (old : V)
          → with_interrupt calls d p fresh h w (with_interrupt calls d p fresh h v old)
            ≡ with_interrupt calls d p fresh h w old)
      → (out : WhpxVp C K W) × (handle_interrupt_queue (whpx_backend calls d p fresh h) (
            handle_interrupt_queue
              (whpx_backend calls d p fresh h)
              (record { pending_interrupts = first ∷ second ∷ rest; state = some vp }))
          ≡ record { pending_interrupts = rest; state = some out })
        × (a.file out.kernel pending_interruption
            ≡ with_interrupt calls d p fresh h second (a.file vp.kernel pending_interruption))
  handle_interrupt_queue-overwrites first second rest vp replaces =
      let one = record vp { kernel = after first vp.kernel } in
      let two = record one { kernel = after second one.kernel } in
      (
        two,
        ap (handle_interrupt_queue (whpx_backend calls d p fresh h))
              (handle_interrupt_queue-after first (second ∷ rest) vp)
            ∙ handle_interrupt_queue-after second rest one,
        pending_after second one.kernel
            ∙ ap (with_interrupt calls d p fresh h second) (pending_after first vp.kernel)
            ∙ replaces first second (a.file vp.kernel pending_interruption),
      )
