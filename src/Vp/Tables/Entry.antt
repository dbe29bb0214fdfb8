-- ===== src/Vp/Tables/Entry.antt =====
-- What is stored in a descriptor table is what is read back.
use virt.Base.{
  ℕ, ◌+◌, ◌*◌, ◌^◌, ◌≤◌, ◌<◌, ◌≡◌, refl, ◌∙◌, ap, sym, ◌%◌, ◌/◌, ltb, ◌==◌, Bool, true, false,
  Option, none, some, All, if◌then◌else◌, add64, arith,
}
use virt.Vm.Region.{IsPlaced, Bytes}
use virt.Vm.Access.{mem_read, mem_write}
use virt.Vm.Access.Served.{IsCopy, mem_read-mem_write}
use virt.Vp.Layout.{load}
use virt.Vp.Status.{Failure, failed, invalid_selector, ok}
use virt.Vp.Reg.{Reg}
use virt.Vp.Registers.{RegValue, Platform, table_base, table_limit}
use virt.Vp.Paging.{GuestMemory}
use virt.Vp.Tables.{
  system_of, whole_entry, get_gdt_entry, set_gdt_entry, get_idt_entry, set_idt_entry,
}

refusal :
    {A : Type 0} {a b : A} {x : Failure} → ¬ (◌≡◌ {A = Option Failure × A} (some x, a) (none, b))
refusal {a = a} {b = b} {x = x} e = let failure : some x ≡ none = ap (λ t. t.0) e in cc

-- A success of the two tests that the table operations begin with.
guarded_ok :
    {A : Type 0} (refused : Bool) (o : Option A) (a : A) {b : A} (f : A → Option Failure × A)
    → ◌≡◌ {A = Option Failure × A}
        (if refused
          then (some invalid_selector, a)
          else (elim o [ none ↦ (some failed, a) | some c ↦ f c ]))
        (none, b)
    → (refused ≡ false) × (c : A) × (o ≡ some c) × ◌≡◌ {A = Option Failure × A} (f c) (none, b)
guarded_ok true o a f e = absurd (refusal e)
guarded_ok false none a f e = absurd (refusal e)
guarded_ok false (some c) a f e = (refl, c, refl, e)

system_same : (v entry : Bytes) → v 5 ≡ entry 5 → system_of v ≡ system_of entry
unfolding load
system_same v entry h = ap (λ x. (x % 256 + 256 * 0) / 2 ^ 4 % 2 ^ 1) h

whole_entry-user :
    {S A : Type 0} (p : Platform S) (s : S) (again : ℕ → A → Option A) (selector limit : ℕ)
    (entry : Bytes) (a : A)
    → (system_of entry == 0) ≡ false
    → whole_entry p s again selector limit entry a ≡ (none, a)
unfolding whole_entry
whole_entry-user p s again selector limit entry a user = rw (user, whole_entry) refl

module _ {S : Type 0} (p : Platform S) (s : S) (m : GuestMemory) where
  -- Let IDTR be readable, the vector be below 256, the eight bytes of the entry lie within 2 ^ 64,
  -- and the regions be placed. If SetIDTEntry succeeds, GetIDTEntry on the new memory succeeds,
  -- and fills in the same eight bytes.
  pub get_idt_entry-set_idt_entry :
      (vector : ℕ) (entry host' out : Bytes) (idt : RegValue)
      → p.reg_read s Reg.idtr ≡ ok idt
      → vector < 256
      → table_base idt + vector * 8 + 8 ≤ 2 ^ 64
      → All IsPlaced m.regions
      → set_idt_entry p s m vector entry ≡ (none, host')
      → (v : Bytes) × (get_idt_entry p s (record m { host = host' }) vector out ≡ (none, v))
        × IsCopy v 0 entry 0 8 out
  unfolding set_idt_entry get_idt_entry
  get_idt_entry-set_idt_entry vector entry host' out idt readable byte fits placed stored =
      let (allowed, h, written, same) =
        guarded_ok (ltb (table_limit idt) (vector * 8)) _ m.host (λ c. (none, c))
          (rw (readable, set_idt_entry) at stored) in
      let put = written ∙ ap (λ t. some t) (ap (λ t. t.1) same) in
      let (v, e, copied) =
        mem_read-mem_write m.regions m.host (add64 (table_base idt) (vector * 8)) 8 entry 0
          (omega arith) (omega arith) placed host' out 0 put in
      (v, rw (readable, get_idt_entry, allowed, e) refl, copied)

  -- Let GDTR be readable, the eight bytes of the entry lie within 2 ^ 64, the regions be placed,
  -- and the entry's system bit be set, as in code and data descriptors. If SetGDTEntry succeeds,
  -- GetGDTEntry on the new memory succeeds, and fills in the same eight bytes, in every mode.
  pub get_gdt_entry-set_gdt_entry :
      (selector : ℕ) (entry host' out : Bytes) (gdt : RegValue)
      → p.reg_read s Reg.gdtr ≡ ok gdt
      → table_base gdt + selector + 8 ≤ 2 ^ 64
      → All IsPlaced m.regions
      → (system_of entry == 0) ≡ false
      → set_gdt_entry p s m selector entry ≡ (none, host')
      → (v : Bytes) × (get_gdt_entry p s (record m { host = host' }) selector out ≡ (none, v))
        × IsCopy v 0 entry 0 8 out
  unfolding set_gdt_entry get_gdt_entry
  get_gdt_entry-set_gdt_entry selector entry host' out gdt readable fits placed user stored =
      let (allowed, h, written, same) =
        guarded_ok (ltb (table_limit gdt) (selector + 8)) _ m.host _
          (rw (readable, set_gdt_entry) at stored) in
      let kept : ◌≡◌ {A = Option Failure × Bytes} (none, h) (none, host') =
        sym (
          whole_entry-user p s
            (λ n t. mem_write m.regions t (add64 (table_base gdt) selector) n entry 0) selector
            (table_limit gdt) entry h user)
        ∙ same in
      let put = written ∙ ap (λ t. some t) (ap (λ t. t.1) kept) in
      let (v, e, copied) =
        mem_read-mem_write m.regions m.host (add64 (table_base gdt) selector) 8 entry 0
          (omega arith) (omega arith) placed host' out 0 put in
      let still : (system_of v == 0) ≡ false =
        ap (λ x. x == 0) (system_same v entry (copied.copied 5 (omega arith))) ∙ user in
      (
        v,
        rw (readable, get_gdt_entry, allowed, e)
            (whole_entry-user p s
              (λ n t. mem_read m.regions host' (add64 (table_base gdt) selector) n t 0) selector
              (table_limit gdt) v v still),
        copied,
      )
