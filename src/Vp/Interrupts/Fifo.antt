-- ===== src/Vp/Interrupts/Fifo.antt =====
-- The order of interrupts: what was enqueued is what was injected and, after it, what is pending.
use mathlib.Core.List.{append_assoc, append-nil}
use virt.Base.{ℕ, Bool, true, false, List, [], ◌∷◌, ◌++◌, ◌≡◌, refl, sym, ◌∙◌, inl, inr, Bool-cases}
use virt.Vp.Interrupts.{
  Backend, Vp, inject_pending_interrupt, handle_interrupt_queue, run, step, enqueue_interrupt,
}

pub data Call : Type 0 where
  enqueued : ℕ → Call
  ran : Call
  stepped : Bool → Call

-- The backend that also keeps the vectors that were handed to InjectInterrupt.
abbrev pub logged : {S : Type 0} → Backend S → Backend (S × List ℕ)
logged b = record {
  run_impl = λ (s, log). let (r, t) = b.run_impl s in (r, (t, log));
  step_impl = λ (s, log). let (r, t) = b.step_impl s in (r, (t, log));
  prepare_interrupt = λ v (s, log). let (r, t) = b.prepare_interrupt v s in (r, (t, log));
  inject_interrupt = λ v (s, log). let (r, t) = b.inject_interrupt v s in (r, (t, log ++ v ∷ []));
  can_inject_interrupt = λ (s, log). b.can_inject_interrupt s;
  request_interrupt_window = λ (s, log). (b.request_interrupt_window s, log);
}

pub call : {S : Type 0} → Backend S → Call → Vp S → Vp S
call b (enqueued v) vp = (enqueue_interrupt b v vp).1
call b ran vp = (run b vp).1
call b (stepped debugging) vp = (step b debugging vp).1

pub calls : {S : Type 0} → Backend S → List Call → Vp S → Vp S
calls b [] vp = vp
calls b (c ∷ cs) vp = calls b cs (call b c vp)

unfoldable pub vectors : List Call → List ℕ
vectors [] = []
vectors (enqueued v ∷ cs) = v ∷ vectors cs
vectors (ran ∷ cs) = vectors cs
vectors (stepped _ ∷ cs) = vectors cs

-- What was injected so far, then what is pending.
history : {S : Type 0} → Vp (S × List ℕ) → List ℕ
history vp = vp.state.1 ++ vp.pending_interrupts

module _ {S : Type 0} (b : Backend S) where
  handled :
      (s : S) (log q : List ℕ)
      → history
          (handle_interrupt_queue (logged b) (record { pending_interrupts = q; state = (s, log) }))
        ≡ log ++ q
  unfolding handle_interrupt_queue inject_pending_interrupt history
  handled s log [] = refl
  handled s log (v ∷ q) = elim (Bool-cases (b.can_inject_interrupt s)) [
    | inl able ↦ rw (able, handle_interrupt_queue) (append_assoc log (v ∷ []) q)
    | inr unable ↦ rw (unable, handle_interrupt_queue) refl
  ]

  one_call :
      (c : Call) (vp : Vp (S × List ℕ))
      → history (call (logged b) c vp) ≡ history vp ++ vectors (c ∷ [])
  unfolding history call vectors run step enqueue_interrupt
  one_call (enqueued v) vp = sym (append_assoc vp.state.1 vp.pending_interrupts (v ∷ []))
  one_call ran vp =
      handled vp.state.0 vp.state.1 vp.pending_interrupts ∙ sym (append-nil (history vp))
  one_call (stepped true) vp =
      handled vp.state.0 vp.state.1 vp.pending_interrupts ∙ sym (append-nil (history vp))
  one_call (stepped false) vp = sym (append-nil (history vp))

  vectors_cons : (c : Call) (cs : List Call) → vectors (c ∷ cs) ≡ vectors (c ∷ []) ++ vectors cs
  unfolding vectors
  vectors_cons (enqueued v) cs = refl
  vectors_cons ran cs = refl
  vectors_cons (stepped _) cs = refl

  -- Whatever the sequence of calls of EnqueueInterrupt, Run and Step, and whatever the platform
  -- answers: the vectors handed to InjectInterrupt, followed by those still pending, are those
  -- that were there at first, followed by those enqueued, in their order.
  pub calls-history :
      (cs : List Call) (vp : Vp (S × List ℕ))
      → (calls (logged b) cs vp).state.1 ++ (calls (logged b) cs vp).pending_interrupts
        ≡ vp.state.1 ++ vp.pending_interrupts ++ vectors cs
  unfolding calls vectors history
  calls-history [] vp = sym (append-nil (history vp))
  calls-history (c ∷ cs) vp =
      calls-history cs (call (logged b) c vp)
      ∙ rw
          (
            one_call c vp,
            vectors_cons c cs,
            append_assoc (history vp) (vectors (c ∷ [])) (vectors cs),
          )
          refl
