-- ===== src/Kvm/Vcpu/Invariant.antt =====
-- Every operation on the registers of a virtual processor keeps the cache coherent with the kernel.
use mathlib.Core.Path.{subst}
use virt.Base.{ℕ, ◌≡◌, refl, sym, ◌⊎◌, inl, inr, Bool-cases, true, false, Option, none, some, arith}
use virt.Vp.Reg.{Reg}
use virt.Vp.Registers.{RegValue}
use virt.Kvm.Regs.{Gpr, KvmSregs, KvmDebugRegs, KvmFpu}
use virt.Kvm.Place.{
  Place, segment, table, high_byte, low_byte, low_word, double_word, whole, control, debug,
  st_register, mm_register, xmm_register, extended_word, control_double_word, Cache, write_place,
  set_gpr, set_sregs, set_fpu,
}
use virt.Kvm.WriteCases.{write_case}
use virt.Kvm.Switch.{kvm_reg_write}
use virt.Kvm.Vcpu.{
  Kernel, Vcpu, update_registers, refresh_registers, refreshed, reg_read, reg_write,
}
use virt.Kvm.Controls.{set_mxcsr}
use virt.Kvm.Vcpu.Coherence.{KernelLaws, Coherent}

-- A structure is marked as changed, or it and its mark are as before.
record Tracked (c d : Cache) : Type 0 where
  regs : (d.regs_changed ≡ true) ⊎ ((d.regs ≡ c.regs) × (d.regs_changed ≡ c.regs_changed))
  sregs : (d.sregs_changed ≡ true) ⊎ ((d.sregs ≡ c.sregs) × (d.sregs_changed ≡ c.sregs_changed))
  debug :
      (d.debug_regs_changed ≡ true)
      ⊎ ((d.debug_regs ≡ c.debug_regs) × (d.debug_regs_changed ≡ c.debug_regs_changed))
  fpu :
      (d.fpu_regs_changed ≡ true)
      ⊎ ((d.fpu_regs ≡ c.fpu_regs) × (d.fpu_regs_changed ≡ c.fpu_regs_changed))

set_regs-Tracked : (c : Cache) (r : Gpr) (x : ℕ) → Tracked c (set_gpr c r x)
set_regs-Tracked c r x = record {
  regs = inl refl;
  sregs = inr (refl, refl);
  debug = inr (refl, refl);
  fpu = inr (refl, refl);
}

set_sregs-Tracked : (c : Cache) (s : KvmSregs) → Tracked c (set_sregs c s)
set_sregs-Tracked c s = record {
  regs = inr (refl, refl);
  sregs = inl refl;
  debug = inr (refl, refl);
  fpu = inr (refl, refl);
}

set_debug-Tracked :
    (c : Cache) (d : KvmDebugRegs)
    → Tracked c (record c { debug_regs = d; debug_regs_changed = true })
set_debug-Tracked c d = record {
  regs = inr (refl, refl);
  sregs = inr (refl, refl);
  debug = inl refl;
  fpu = inr (refl, refl);
}

set_fpu-Tracked : (c : Cache) (f : KvmFpu) → Tracked c (set_fpu c f)
set_fpu-Tracked c f = record {
  regs = inr (refl, refl);
  sregs = inr (refl, refl);
  debug = inr (refl, refl);
  fpu = inl refl;
}

write_place-Tracked : (place : Place) (v : RegValue) (c : Cache) → Tracked c (write_place place v c)
unfolding write_place
write_place-Tracked (segment name) v c = set_sregs-Tracked c _
write_place-Tracked (table name) v c = set_sregs-Tracked c _
write_place-Tracked (high_byte r) v c = set_regs-Tracked c r _
write_place-Tracked (low_byte r) v c = set_regs-Tracked c r _
write_place-Tracked (low_word r) v c = set_regs-Tracked c r _
write_place-Tracked (extended_word r) v c = set_regs-Tracked c r _
write_place-Tracked (double_word r) v c = set_regs-Tracked c r _
write_place-Tracked (whole r) v c = set_regs-Tracked c r _
write_place-Tracked (control r) v c = set_sregs-Tracked c _
write_place-Tracked (control_double_word r) v c = set_sregs-Tracked c _
write_place-Tracked (debug i) v c = set_debug-Tracked c _
write_place-Tracked (st_register i) v c = set_fpu-Tracked c _
write_place-Tracked (mm_register i) v c = set_fpu-Tracked c _
write_place-Tracked (xmm_register i) v c = set_fpu-Tracked c _

same-Tracked : (c : Cache) → Tracked c c
same-Tracked c = record {
  regs = inr (refl, refl);
  sregs = inr (refl, refl);
  debug = inr (refl, refl);
  fpu = inr (refl, refl);
}

kvm_reg_write-Tracked : (reg : Reg) (v : RegValue) (c : Cache) → Tracked c (kvm_reg_write reg v c).1
unfolding kvm_reg_write
kvm_reg_write-Tracked reg v c = split (write_case reg) refl
  where
    split : (o : Option Place) → write_case reg ≡ o → Tracked c (kvm_reg_write reg v c).1
    split none e = subst (λ d. Tracked c d) (sym (rw (e, kvm_reg_write))) (same-Tracked c)
    split (some place) e =
        subst (λ d. Tracked c d) (sym (rw (e, kvm_reg_write))) (write_place-Tracked place v c)

module _ {K : Type 0} (k : Kernel K) where
  -- A tracked change of a coherent and fetched cache.
  Tracked-Coherent :
      (vp : Vcpu K) (d : Cache)
      → vp.regs_dirty ≡ false
      → Coherent k vp
      → Tracked vp.cache d
      → Coherent k (record vp { cache = d })
  Tracked-Coherent vp d clean h t = record {
    dirty_regs = λ w. grind arith;
    dirty_sregs = λ w. grind arith;
    dirty_debug = λ w. grind arith;
    dirty_fpu = λ w. grind arith;
    held_regs = λ _ n. grind (arith, t.regs, h.held_regs);
    held_sregs = λ _ n. grind (arith, t.sregs, h.held_sregs);
    held_debug = λ _ n. grind (arith, t.debug, h.held_debug);
    held_fpu = λ _ n. grind (arith, t.fpu, h.held_fpu);
  }

  refresh_registers-clean :
      (vp : Vcpu K)
      → (refresh_registers k vp).0 ≡ true
      → (refresh_registers k vp).1.regs_dirty ≡ false
  unfolding refresh_registers
  refresh_registers-clean vp ok = grind arith

  pub refresh_registers-Coherent :
      (vp : Vcpu K) → Coherent k vp → Coherent k (refresh_registers k vp).1
  unfolding refresh_registers
  refresh_registers-Coherent vp h = record {
    dirty_regs = grind (arith, h.dirty_regs);
    dirty_sregs = grind (arith, h.dirty_sregs);
    dirty_debug = grind (arith, h.dirty_debug);
    dirty_fpu = grind (arith, h.dirty_fpu);
    held_regs = grind (arith, h.held_regs);
    held_sregs = grind (arith, h.held_sregs);
    held_debug = grind (arith, h.held_debug);
    held_fpu = grind (arith, h.held_fpu);
  }

  pub update_registers-Coherent :
      KernelLaws k → (vp : Vcpu K) → Coherent k vp → Coherent k (update_registers k vp).1
  unfolding update_registers
  update_registers-Coherent laws vp h = record {
    dirty_regs = grind (arith, h.dirty_regs);
    dirty_sregs = grind (arith, h.dirty_sregs);
    dirty_debug = grind (arith, h.dirty_debug);
    dirty_fpu = grind (arith, h.dirty_fpu);
    held_regs =
        grind (arith, laws.regs_set, laws.sregs_regs, laws.debug_regs, laws.fpu_regs, h.held_regs);
    held_sregs =
        grind
          (arith, laws.regs_sregs, laws.sregs_set, laws.debug_sregs, laws.fpu_sregs, h.held_sregs);
    held_debug =
        grind
          (arith, laws.regs_debug, laws.sregs_debug, laws.debug_set, laws.fpu_debug, h.held_debug);
    held_fpu =
        grind (arith, laws.regs_fpu, laws.sregs_fpu, laws.debug_fpu, laws.fpu_set, h.held_fpu);
  }

  pub reg_write-Coherent :
      (reg : Reg) (v : RegValue) (vp : Vcpu K) → Coherent k vp → Coherent k (reg_write k reg v vp).1
  unfolding refreshed reg_write
  reg_write-Coherent reg v vp h = elim (Bool-cases (refresh_registers k vp).0) [
    | inl e ↦
        subst (λ x. Coherent k x) (sym (rw (e, reg_write)))
          (Tracked-Coherent (refresh_registers k vp).1
            (kvm_reg_write reg v (refresh_registers k vp).1.cache).1 (refresh_registers-clean vp e)
            (refresh_registers-Coherent vp h) (kvm_reg_write-Tracked reg v _))
    | inr e ↦ subst (λ x. Coherent k x) (sym (rw (e, reg_write))) (refresh_registers-Coherent vp h)
  ]

  pub set_mxcsr-Coherent : (v : ℕ) (vp : Vcpu K) → Coherent k vp → Coherent k (set_mxcsr k v vp).1
  unfolding refreshed set_mxcsr
  set_mxcsr-Coherent v vp h = elim (Bool-cases (refresh_registers k vp).0) [
    | inl e ↦
        subst (λ x. Coherent k x) (sym (rw (e, set_mxcsr)))
          (Tracked-Coherent (refresh_registers k vp).1 _ (refresh_registers-clean vp e)
            (refresh_registers-Coherent vp h)
            (set_fpu-Tracked (refresh_registers k vp).1.cache
              (record (refresh_registers k vp).1.cache.fpu_regs { mxcsr = v })))
    | inr e ↦ subst (λ x. Coherent k x) (sym (rw (e, set_mxcsr))) (refresh_registers-Coherent vp h)
  ]

  reg_read-state :
      (reg : Reg) (v : RegValue) (vp : Vcpu K)
      → (reg_read k vp reg v).1 ≡ (refresh_registers k vp).1
  unfolding reg_read
  reg_read-state reg v vp = elim (Bool-cases (refresh_registers k vp).0) [
    | inl e ↦ rw (e, reg_read)
    | inr e ↦ rw (e, reg_read)
  ]

  pub reg_read-Coherent :
      (reg : Reg) (v : RegValue) (vp : Vcpu K) → Coherent k vp → Coherent k (reg_read k vp reg v).1
  reg_read-Coherent reg v vp h =
      subst (λ x. Coherent k x) (sym (reg_read-state reg v vp)) (refresh_registers-Coherent vp h)

  -- Once the changes are sent, the guest may do what it likes.
  pub ran-Coherent :
      (vp : Vcpu K) (s : K)
      → (update_registers k vp).0 ≡ true
      → Coherent k (record (update_registers k vp).1 { kernel = s; regs_dirty = true })
  unfolding update_registers
  ran-Coherent vp s ok = record {
    dirty_regs = λ _. grind arith;
    dirty_sregs = λ _. grind arith;
    dirty_debug = λ _. grind arith;
    dirty_fpu = λ _. grind arith;
    held_regs = λ w. grind arith;
    held_sregs = λ w. grind arith;
    held_debug = λ w. grind arith;
    held_fpu = λ w. grind arith;
  }
