-- ===== src/Vp/Linear/Loop.antt =====
-- The loop of LMemRead and LMemWrite ends, and on success has moved as many bytes as were asked for.
use mathlib.Core.Path.{subst}
use native.Mathlib.Decide.{dec_lt}
use virt.Base.{
  ℕ, zero, suc, ◌+◌, ◌-◌, ◌%◌, ◌^◌, ◌≤◌, ◌<◌, ◌≡◌, refl, ap, ◌∙◌, ◌*◌, ◌/◌, ◌⊎◌, inl, inr, ltb,
  ltb→lt, Option-cases, sym, if◌then◌else◌, bit_and, true, false, Bool-cases, Option, none, some,
  add64, sub64, u64, not64, arith,
}
use virt.Vm.Region.{Bytes}
use virt.Vp.Registers.{Platform}
use virt.Vm.Access.{mem_read, mem_write}
use virt.Vp.Paging.{GuestMemory, linear_to_physical}
use virt.Base.Bits.{bit_and_shifted, bit_and_ones}
use virt.Vp.Linear.{Transfer, done, refused, transfer_loop, transfer, lmem_read, lmem_write}

-- The page that follows that of an address.
next_page :
    (laddr : ℕ)
    → bit_and (add64 laddr 0x1000) (not64 (0x1000 - 1)) ≡ add64 laddr 0x1000 / 2 ^ 12 * 2 ^ 12
next_page laddr =
    bit_and_shifted 12 (add64 laddr 0x1000) (2 ^ 52 - 1)
    ∙ rw (bit_and_ones 52 (add64 laddr 0x1000 / 2 ^ 12)) (omega arith)

-- From an address to the end of its page.
page_rest :
    (laddr : ℕ)
    → laddr < 2 ^ 64
    → add64 (sub64 (sub64 (bit_and (add64 laddr 0x1000) (not64 (0x1000 - 1))) 1) laddr) 1
      ≡ 0x1000 - laddr % 0x1000
page_rest laddr inside = rw (next_page laddr) (omega arith)

-- What is left of a transfer, or of the page that an address is in, whichever is less.
abbrev pub part : ℕ → ℕ → ℕ
part laddr left = let rest = 0x1000 - laddr % 0x1000 in if ltb left rest then left else rest

module _ {A : Type 0} (locate : ℕ → A → Option ℕ) (copy : ℕ → ℕ → ℕ → A → Option A) where
  -- A transfer of `left` bytes from `laddr` on, of which the first goes to or comes from position `pos`
  -- of the buffer. Each part of it is located by its own first address and then copied whole.
  pub data Moved : ℕ → ℕ → ℕ → A → Transfer × A → Type 0 where
    moved_all : (laddr pos : ℕ) (a : A) → Moved laddr pos 0 a (done pos, a)
    not_located :
        (laddr pos left : ℕ) (a : A)
        → 0 < left
        → locate laddr a ≡ none
        → Moved laddr pos left a (refused, a)
    not_copied :
        (laddr pos left physical : ℕ) (a : A)
        → 0 < left
        → locate laddr a ≡ some physical
        → copy physical (part laddr left) pos a ≡ none
        → Moved laddr pos left a (refused, a)
    moved_part :
        (laddr pos left physical : ℕ) (a b : A) (r : Transfer × A)
        → 0 < left
        → locate laddr a ≡ some physical
        → copy physical (part laddr left) pos a ≡ some b
        → Moved (add64 laddr (part laddr left)) (pos + part laddr left) (left - part laddr left) b r
        → Moved laddr pos left a r

  module _ (size : ℕ) (small : size < 2 ^ 64) where
    -- What holds of the loop's variables before a pass.
    pub record Ready (start end pos n : ℕ) : Type 0 where
      pub inside : start < 2 ^ 64
      pub within : pos ≤ size
      pub fitting : n ≡ part start (size - pos)
      pub aligned : add64 end 1 % 0x1000 ≡ 0
      pub onward : n < size - pos → add64 end 1 ≡ add64 start n

    Ready-next :
        (start end pos n : ℕ)
        → Ready start end pos n
        → pos < size
        → let left = sub64 size (u64 (pos + n)) in
          Ready
            (add64 end 1)
            (add64 end 0x1000)
            (u64 (pos + n))
            (if ltb 0x1000 left then 0x1000 else left)
    Ready-next start end pos n r more = record {
      inside = omega arith;
      within = ground (arith, r.within, r.fitting);
      fitting = ground (arith, r.within, r.fitting, r.aligned);
      aligned = omega (arith, r.aligned);
      onward = λ h. ground (arith, r.within, r.fitting, r.aligned);
    }

    -- Where nothing is left, the address does not matter.
    Moved-nothing :
        (start start' pos left : ℕ) (a : A) (r : Transfer × A)
        → left ≡ 0
        → Moved start pos left a r
        → Moved start' pos left a r
    Moved-nothing start start' pos left a r e (moved_all _ _ _) = moved_all start' pos a
    Moved-nothing start start' pos left a r e (not_located _ _ _ _ h _) = absurd (omega arith)
    Moved-nothing start start' pos left a r e (not_copied _ _ _ _ _ h _ _) = absurd (omega arith)
    Moved-nothing start start' pos left a r e (moved_part _ _ _ _ _ _ _ h _ _ _) =
        absurd (omega arith)

    Moved-same :
        (start start' pos pos' left left' : ℕ) (a : A) (r : Transfer × A)
        → (left ≡ 0) ⊎ (start ≡ start')
        → pos ≡ pos'
        → left ≡ left'
        → Moved start pos left a r
        → Moved start' pos' left' a r
    Moved-same start start' pos pos' left left' a r (inl none_left) p l m =
        subst (λ t. Moved start' pos' t a r) l
          (subst (λ t. Moved start' t left a r) p
            (Moved-nothing start start' pos left a r none_left m))
    Moved-same start start' pos pos' left left' a r (inr e) p l m =
        subst (λ t. Moved start' pos' t a r) l
          (subst (λ t. Moved start' t left a r) p (subst (λ t. Moved t pos left a r) e m))

    Moved-all : (start pos left : ℕ) (a : A) → left ≡ 0 → Moved start pos left a (done pos, a)
    Moved-all start pos left a e = rw e (moved_all start pos a)

    loop-Moved :
        (fuel start end pos n : ℕ) (a : A)
        → size ≤ pos + fuel
        → Ready start end pos n
        → Moved start pos (size - pos) a (transfer_loop locate copy fuel size start end pos n a)
    unfolding transfer_loop
    loop-Moved zero start end pos n a enough r =
        let stop : ltb pos size ≡ false = ground arith in
        rw (stop, transfer_loop) (Moved-all start pos (size - pos) a (omega arith))
    loop-Moved (suc fuel) start end pos n a enough r = elim (Bool-cases (ltb pos size)) [
      | inr stop ↦
          rw (stop, transfer_loop) (Moved-all start pos (size - pos) a (ground (arith, r.within)))
      | inl again ↦ elim (Option-cases (locate start a)) [
        | inl nowhere ↦
            rw (again, nowhere, transfer_loop)
              (not_located start pos (size - pos) a (ground arith) nowhere)
        | inr (physical, found) ↦ elim (Option-cases (copy physical n pos a)) [
          | inl failed ↦
              rw (again, found, failed, transfer_loop)
                (not_copied start pos (size - pos) physical a (ground arith) found
                  (ap (λ t. copy physical t pos a) (sym r.fitting) ∙ failed))
          | inr (b, copied) ↦
              let next = Ready-next start end pos n r (ltb→lt pos size again) in
              let plain : u64 (pos + n) ≡ pos + n = ground (arith, r.within, r.fitting) in
              let onward : (size - u64 (pos + n) ≡ 0)
                  ⊎ (add64 end 1 ≡ add64 start (part start (size - pos))) =
                elim (dec_lt n (size - pos)) [
                  | yes h ↦ inr (r.onward h ∙ ap (add64 start) r.fitting)
                  | no h ↦ inl (omega (arith, plain))
                ] in
              let rest =
                loop-Moved fuel (add64 end 1) (add64 end 0x1000) (u64 (pos + n)) _ b
                  (ground (arith, r.within, r.fitting)) next in
              rw (again, found, copied, transfer_loop)
                (moved_part start pos (size - pos) physical a b _ (ground arith) found
                  (ap (λ t. copy physical t pos a) (sym r.fitting) ∙ copied)
                  (Moved-same (add64 end 1) (add64 start (part start (size - pos))) (u64 (pos + n))
                    _ (size - u64 (pos + n)) _ b _ onward (plain ∙ ap (λ t. pos + t) r.fitting)
                    (omega (arith, plain, r.fitting)) rest))
        ]
      ]
    ]

    Ready-first :
        (laddr : ℕ)
        → laddr < 2 ^ 64
        → let end = sub64 (bit_and (add64 laddr 0x1000) (not64 (0x1000 - 1))) 1 in
          let whole = add64 (sub64 end laddr) 1 in
          Ready laddr end 0 (if ltb size whole then size else whole)
    Ready-first laddr inside = record {
      inside = inside;
      within = omega arith;
      fitting = ground (arith, page_rest laddr inside);
      aligned = omega (arith, next_page laddr);
      onward = λ h. ground (arith, next_page laddr);
    }

    transfer-Moved :
        (laddr : ℕ) (a : A)
        → laddr < 2 ^ 64
        → Moved laddr 0 size a (transfer locate copy laddr size a)
    unfolding transfer
    transfer-Moved laddr a inside =
        subst (λ t. Moved laddr 0 t a (transfer locate copy laddr size a)) (omega arith)
          (loop-Moved size laddr _ 0 _ a (omega arith) (Ready-first laddr inside))

  Moved-Ends :
      (laddr pos left total : ℕ) (a : A) (r : Transfer × A)
      → pos + left ≡ total
      → Moved laddr pos left a r
      → (r.0 ≡ refused) ⊎ (r.0 ≡ done total)
  Moved-Ends laddr pos left total a r e (moved_all _ _ _) = inr (ap done (omega arith))
  Moved-Ends laddr pos left total a r e (not_located _ _ _ _ _ _) = inl refl
  Moved-Ends laddr pos left total a r e (not_copied _ _ _ _ _ _ _ _) = inl refl
  Moved-Ends laddr pos left total a r e (moved_part _ _ _ _ _ b _ _ _ _ m) =
      Moved-Ends _ _ _ total b r (ground arith) m

-- On a given buffer, and with address and size below 2 ^ 64, LMemRead and LMemWrite always return:
-- each fails, or returns the count `size`. The range is moved in parts, each to the end of its
-- page or of the range, one after the other: LinearToPhysical of its first address locates a part,
-- and MemRead or MemWrite moves all of it to or from the next bytes of the buffer. A part that is
-- not located or not moved is the last, and makes the call fail; otherwise the parts are the whole
-- range.
pub lmem-transfer :
    {S : Type 0} (p : Platform S) (s : S) (m : GuestMemory) (laddr size : ℕ) (value : Bytes)
    → laddr < 2 ^ 64
    → size < 2 ^ 64
    → ((r : Transfer × Bytes) × (lmem_read p s m laddr size (some value) ≡ (r.0, some r.1))
        × Moved
            (λ l _. linear_to_physical p s m l true)
            (λ physical n pos out. mem_read m.regions m.host physical n out pos)
            laddr
            0
            size
            value
            r
        × ((r.0 ≡ refused) ⊎ (r.0 ≡ done size)))
      × (Moved
            (λ l host. linear_to_physical p s (record m { host = host }) l true)
            (λ physical n pos host. mem_write m.regions host physical n value pos)
            laddr
            0
            size
            m.host
            (lmem_write p s m laddr size (some value))
          × (((lmem_write p s m laddr size (some value)).0 ≡ refused)
              ⊎ ((lmem_write p s m laddr size (some value)).0 ≡ done size)))
unfolding lmem_read lmem_write
lmem-transfer p s m laddr size value inside small =
    let read =
      transfer-Moved (λ l _. linear_to_physical p s m l true)
        (λ physical n pos out. mem_read m.regions m.host physical n out pos) size small laddr value
        inside in
    let write =
      transfer-Moved (λ l host. linear_to_physical p s (record m { host = host }) l true)
        (λ physical n pos host. mem_write m.regions host physical n value pos) size small laddr
        m.host inside in
    (
      (_, refl, read, Moved-Ends _ _ laddr 0 size size value _ (omega arith) read),
      (write, Moved-Ends _ _ laddr 0 size size m.host _ (omega arith) write),
    )
