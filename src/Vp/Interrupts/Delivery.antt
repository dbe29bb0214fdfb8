-- ===== src/Vp/Interrupts/Delivery.antt =====
-- The interrupt queue empties: how many calls of Run are enough.
use virt.Base.{
  ℕ, zero, suc, ◌+◌, ◌*◌, ◌≤◌, ◌≡◌, refl, ap, ◌∙◌, Bool, true, false, Bool-cases, if◌then◌else◌,
  inl, inr, List, [], ◌∷◌, length, arith,
}
use virt.Vp.Interrupts.{Backend, Vp, inject_pending_interrupt, handle_interrupt_queue, run}

module _ {S : Type 0} (b : Backend S) where
  -- Run again and again.
  abbrev pub runs : ℕ → Vp S → Vp S
  runs zero vp = vp
  runs (suc n) vp = runs n (run b vp).1

  run_able :
      (v : ℕ) (q : List ℕ) (s : S)
      → b.can_inject_interrupt s ≡ true
      → (run b (record { pending_interrupts = v ∷ q; state = s })).1.pending_interrupts ≡ q
  unfolding run handle_interrupt_queue inject_pending_interrupt
  run_able v q s able = rw able

  run_unable :
      (v : ℕ) (q : List ℕ) (s : S)
      → b.can_inject_interrupt s ≡ false
      → (run b (record { pending_interrupts = v ∷ q; state = s })).1 ≡ record {
        pending_interrupts = v ∷ q;
        state = (b.run_impl (b.request_interrupt_window s)).1;
      }
  unfolding run handle_interrupt_queue
  run_unable v q s unable = rw unable

  run_idle :
      (s : S)
      → (run b (record { pending_interrupts = []; state = s })).1
        ≡ record { pending_interrupts = []; state = (b.run_impl s).1 }
  unfolding run handle_interrupt_queue
  run_idle s = refl

  -- A processor that can take an interrupt is one call ahead.
  abbrev ahead : S → ℕ
  ahead s = if b.can_inject_interrupt s then 1 else 0

  runs-ahead :
      ((s : S)
        → b.can_inject_interrupt s ≡ false
        → b.can_inject_interrupt (b.run_impl (b.request_interrupt_window s)).1 ≡ true)
      → (n : ℕ) (q : List ℕ) (s : S) → 2 * length q ≤ n + ahead s
      → (runs n (record { pending_interrupts = q; state = s })).pending_interrupts ≡ []
  runs-ahead opens zero [] s le = refl
  runs-ahead opens zero (v ∷ q) s le = absurd (too_many (b.can_inject_interrupt s) (length q) le)
    where
      too_many : (able : Bool) (n : ℕ) → 2 * suc n ≤ 0 + (if able then 1 else 0) → ⊥
      too_many able n le = ground arith
  runs-ahead opens (suc n) [] s le =
      ap (λ t. (runs n t).pending_interrupts) (run_idle s)
      ∙ runs-ahead opens n [] (b.run_impl s).1 (omega arith)
  runs-ahead opens (suc n) (v ∷ q) s le = elim (Bool-cases (b.can_inject_interrupt s)) [
    | inl able ↦
        let after = (run b (record { pending_interrupts = v ∷ q; state = s })).1 in
        let rest : after ≡ record { pending_interrupts = q; state = after.state } =
          ap (λ p. record { pending_interrupts = p; state = after.state }) (run_able v q s able) in
        ap (λ t. (runs n t).pending_interrupts) rest
        ∙ runs-ahead opens n q after.state (ground arith)
    | inr unable ↦
        ap (λ t. (runs n t).pending_interrupts) (run_unable v q s unable)
        ∙ runs-ahead opens n (v ∷ q) (b.run_impl (b.request_interrupt_window s)).1
            (grind (arith, opens s unable))
  ]

  -- If a platform that cannot take an interrupt can do so after its window was requested and the
  -- guest has run, then twice as many calls of Run as there are pending interrupts, or more, empty
  -- the queue.
  pub runs-empty :
      ((s : S)
        → b.can_inject_interrupt s ≡ false
        → b.can_inject_interrupt (b.run_impl (b.request_interrupt_window s)).1 ≡ true)
      → (n : ℕ) (vp : Vp S) → 2 * length vp.pending_interrupts ≤ n
      → (runs n vp).pending_interrupts ≡ []
  runs-empty opens n vp le = runs-ahead opens n vp.pending_interrupts vp.state (omega arith)
