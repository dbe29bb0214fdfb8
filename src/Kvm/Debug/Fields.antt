-- ===== src/Kvm/Debug/Fields.antt =====
-- What SetHardwareBreakpoints leaves in the control register of the breakpoints, DR7.
use mathlib.Core.Path.{subst}
use virt.Base.{
  ◌==◌, if◌then◌else◌, ℕ, zero, suc, ◌+◌, ◌*◌, ◌%◌, ◌^◌, ◌<◌, ◌≤◌, ◌≡◌, refl, ap, ◌∙◌, ◌⊎◌, inl,
  inr, true, bit_or, ◌<<<◌, bits, arith,
}
use virt.Base.Bits.{bits-bit_or, bits_shifted-same, bits_shifted-apart, bit_or-zero}
use virt.Kvm.Debug.{
  Breakpoint, digit, set_breakpoint, set_breakpoints, any_enabled, set_debug,
  set_hardware_breakpoints,
}
use virt.Kvm.State.{Exec, Calls}

-- The fields of DR7 that belong to one breakpoint.
pub data Dr7Field : Type 0 where
  local_bit global_bit condition size : Dr7Field

abbrev pub position : Dr7Field → ℕ → ℕ
position local_bit i = 0 + i * 2
position global_bit i = 1 + i * 2
position condition i = 16 + i * 4
position size i = 18 + i * 4

abbrev pub width : Dr7Field → ℕ
width local_bit = 1
width global_bit = 1
width condition = 2
width size = 2

-- What the breakpoint asks for.
abbrev pub asked : Dr7Field → Breakpoint → ℕ
asked local_bit bp = digit bp.local_enable
asked global_bit bp = digit bp.global_enable
asked condition bp = bp.trigger % 2 ^ 2
asked size bp = bp.length % 2 ^ 2

abbrev pub field : Dr7Field → ℕ → ℕ → ℕ
field f i dr7 = bits (position f i) (width f) dr7

asked-lt : (f : Dr7Field) (bp : Breakpoint) → asked f bp < 2 ^ width f
asked-lt local_bit bp = ground arith
asked-lt global_bit bp = ground arith
asked-lt condition bp = omega arith
asked-lt size bp = omega arith

-- Two fields that differ in kind or in breakpoint do not overlap.
abbrev Apart : Dr7Field → ℕ → Dr7Field → ℕ → Type 0
Apart f i g j = (position g j + width g ≤ position f i) ⊎ (position f i + width f ≤ position g j)

others-Apart : (f g : Dr7Field) (i j : ℕ) → i < 4 → j < 4 → (i < j) ⊎ (j < i) → Apart f i g j
others-Apart local_bit local_bit i j a b c = grind arith
others-Apart local_bit global_bit i j a b c = grind arith
others-Apart local_bit condition i j a b c = inr (omega arith)
others-Apart local_bit size i j a b c = inr (omega arith)
others-Apart global_bit local_bit i j a b c = grind arith
others-Apart global_bit global_bit i j a b c = grind arith
others-Apart global_bit condition i j a b c = inr (omega arith)
others-Apart global_bit size i j a b c = inr (omega arith)
others-Apart condition local_bit i j a b c = inl (omega arith)
others-Apart condition global_bit i j a b c = inl (omega arith)
others-Apart condition condition i j a b c = grind arith
others-Apart condition size i j a b c = grind arith
others-Apart size local_bit i j a b c = inl (omega arith)
others-Apart size global_bit i j a b c = inl (omega arith)
others-Apart size condition i j a b c = grind arith
others-Apart size size i j a b c = grind arith

-- One field as the loop stores it, seen at another.
elsewhere :
    (f g : Dr7Field) (i j : ℕ) (bp : Breakpoint)
    → Apart f i g j
    → field f i (asked g bp <<< position g j) ≡ 0
elsewhere f g i j bp apart =
    bits_shifted-apart (position f i) (width f) (asked g bp) (position g j) (width g)
      (asked-lt g bp) apart

-- One turn of the loop puts its four fields in.
turn :
    (f : Dr7Field) (i j : ℕ) (bp : Breakpoint) (regs : ℕ → ℕ)
    → field f i (set_breakpoint j bp regs 7)
      ≡ bit_or
          (bit_or
            (bit_or
              (bit_or
                (field f i (regs 7))
                (field f i (asked local_bit bp <<< position local_bit j)))
              (field f i (asked global_bit bp <<< position global_bit j)))
            (field f i (asked condition bp <<< position condition j)))
          (field f i (asked size bp <<< position size j))
unfolding set_breakpoint
turn f i j bp regs = rw (
  bits-bit_or (position f i) (width f),
  bits-bit_or (position f i) (width f),
  bits-bit_or (position f i) (width f),
  bits-bit_or (position f i) (width f),
)

turn_other :
    (f : Dr7Field) (i j : ℕ) (bp : Breakpoint) (regs : ℕ → ℕ)
    → i < 4
    → j < 4
    → (i < j) ⊎ (j < i)
    → field f i (set_breakpoint j bp regs 7) ≡ field f i (regs 7)
turn_other f i j bp regs a b c =
    let none_of : (g : Dr7Field) → field f i (asked g bp <<< position g j) ≡ 0 =
      λ g. elsewhere f g i j bp (others-Apart f g i j a b c) in
    turn f i j bp regs
    ∙ rw (
      none_of local_bit,
      none_of global_bit,
      none_of condition,
      none_of size,
      bit_or-zero (field f i (regs 7)),
      bit_or-zero (field f i (regs 7)),
      bit_or-zero (field f i (regs 7)),
      bit_or-zero (field f i (regs 7)),
    )

turn_own :
    (f : Dr7Field) (i : ℕ) (bp : Breakpoint) (regs : ℕ → ℕ)
    → i < 4
    → field f i (set_breakpoint i bp regs 7) ≡ bit_or (field f i (regs 7)) (asked f bp)
turn_own local_bit i bp regs a =
    turn local_bit i i bp regs
    ∙ rw (
      bits_shifted-same (position local_bit i) (width local_bit) (asked local_bit bp)
          (asked-lt local_bit bp),
      elsewhere local_bit global_bit i i bp (inr (omega arith)),
      elsewhere local_bit condition i i bp (inr (omega arith)),
      elsewhere local_bit size i i bp (inr (omega arith)),
      bit_or-zero (bit_or (field local_bit i (regs 7)) (asked local_bit bp)),
      bit_or-zero (bit_or (field local_bit i (regs 7)) (asked local_bit bp)),
      bit_or-zero (bit_or (field local_bit i (regs 7)) (asked local_bit bp)),
    )
turn_own global_bit i bp regs a =
    turn global_bit i i bp regs
    ∙ rw (
      elsewhere global_bit local_bit i i bp (inl (omega arith)),
      bits_shifted-same (position global_bit i) (width global_bit) (asked global_bit bp)
          (asked-lt global_bit bp),
      elsewhere global_bit condition i i bp (inr (omega arith)),
      elsewhere global_bit size i i bp (inr (omega arith)),
      bit_or-zero (field global_bit i (regs 7)),
      bit_or-zero (bit_or (field global_bit i (regs 7)) (asked global_bit bp)),
      bit_or-zero (bit_or (field global_bit i (regs 7)) (asked global_bit bp)),
    )
turn_own condition i bp regs a =
    turn condition i i bp regs
    ∙ rw (
      elsewhere condition local_bit i i bp (inl (omega arith)),
      elsewhere condition global_bit i i bp (inl (omega arith)),
      bits_shifted-same (position condition i) (width condition) (asked condition bp)
          (asked-lt condition bp),
      elsewhere condition size i i bp (inr (omega arith)),
      bit_or-zero (field condition i (regs 7)),
      bit_or-zero (field condition i (regs 7)),
      bit_or-zero (bit_or (field condition i (regs 7)) (asked condition bp)),
    )
turn_own size i bp regs a =
    turn size i i bp regs
    ∙ rw (
      elsewhere size local_bit i i bp (inl (omega arith)),
      elsewhere size global_bit i i bp (inl (omega arith)),
      elsewhere size condition i i bp (inl (omega arith)),
      bits_shifted-same (position size i) (width size) (asked size bp) (asked-lt size bp),
      bit_or-zero (field size i (regs 7)),
      bit_or-zero (field size i (regs 7)),
      bit_or-zero (field size i (regs 7)),
    )

-- The loop has no effect on the breakpoints before its first.
loop_before :
    (f : Dr7Field) (bp : ℕ → Breakpoint) (i j n : ℕ) (regs : ℕ → ℕ)
    → i < j
    → j + n ≤ 4
    → field f i (set_breakpoints bp j n regs 7) ≡ field f i (regs 7)
unfolding set_breakpoints
loop_before f bp i j zero regs lt le = refl
loop_before f bp i j (suc n) regs lt le =
    loop_before f bp i (j + 1) n (set_breakpoint j (bp j) regs) (omega arith) (omega arith)
    ∙ turn_other f i j (bp j) regs (omega arith) (omega arith) (inl lt)

loop_within :
    (f : Dr7Field) (bp : ℕ → Breakpoint) (i j n : ℕ) (regs : ℕ → ℕ)
    → j ≤ i
    → i < j + n
    → j + n ≤ 4
    → field f i (set_breakpoints bp j n regs 7) ≡ bit_or (field f i (regs 7)) (asked f (bp i))
unfolding set_breakpoints
loop_within f bp i j zero regs ge lt le = absurd (omega arith)
loop_within f bp i j (suc n) regs ge lt le = elim (eq_or_above i j ge) [
  | inl e ↦
      subst
        (λ t.
          field f i (set_breakpoints bp (t + 1) n (set_breakpoint t (bp t) regs) 7)
          ≡ bit_or (field f i (regs 7)) (asked f (bp i)))
        e
        (loop_before f bp i (i + 1) n (set_breakpoint i (bp i) regs) (omega arith) (omega arith)
          ∙ turn_own f i (bp i) regs (omega arith))
  | inr above ↦
      loop_within f bp i (j + 1) n (set_breakpoint j (bp j) regs) (omega arith) (omega arith)
        (omega arith)
      ∙ ap (λ t. bit_or t (asked f (bp i)))
          (turn_other f i j (bp j) regs (omega arith) (omega arith) (inr above))
]
  where
    eq_or_above : (i j : ℕ) → j ≤ i → (i ≡ j) ⊎ (j < i)
    eq_or_above i j h = grind arith

turn_address :
    (i j : ℕ) (bp : Breakpoint) (regs : ℕ → ℕ)
    → i < 4
    → set_breakpoint j bp regs i ≡ (if j == i then bp.address else regs i)
unfolding set_breakpoint
turn_address i j bp regs lt = ground arith

address_loop :
    (bp : ℕ → Breakpoint) (i : ℕ) (regs : ℕ → ℕ)
    → i < 4
    → set_breakpoints bp 0 4 regs i ≡ (bp i).address
unfolding set_breakpoints
address_loop bp zero regs lt = rw (
  turn_address 0 3 (bp 3),
  turn_address 0 2 (bp 2),
  turn_address 0 1 (bp 1),
  turn_address 0 0 (bp 0),
)
address_loop bp (suc zero) regs lt =
    rw (turn_address 1 3 (bp 3), turn_address 1 2 (bp 2), turn_address 1 1 (bp 1))
address_loop bp (suc (suc zero)) regs lt = rw (turn_address 2 3 (bp 3), turn_address 2 2 (bp 2))
address_loop bp (suc (suc (suc zero))) regs lt = rw (turn_address 3 3 (bp 3))
address_loop bp (suc (suc (suc (suc i)))) regs lt = absurd (omega arith)

module _ {K W : Type 0} (calls : Calls K) where
  -- If any of four breakpoints is enabled, then after SetHardwareBreakpoints each has its address
  -- in the debug register of its index, and its four fields in DR7 (local and global enable,
  -- condition, size) are the old fields `|` those asked for.
  pub set_hardware_breakpoints-fields :
      (bp : ℕ → Breakpoint) (x : Exec K W) (f : Dr7Field) (i : ℕ)
      → i < 4
      → any_enabled bp 0 4 ≡ true
      → ((set_hardware_breakpoints calls bp x).1.debug.debugreg i ≡ (bp i).address)
        × (field f i ((set_hardware_breakpoints calls bp x).1.debug.debugreg 7)
            ≡ bit_or (field f i (x.debug.debugreg 7)) (asked f (bp i)))
  unfolding set_hardware_breakpoints set_debug
  set_hardware_breakpoints-fields bp x f i lt some_enabled = rw some_enabled (
    address_loop bp i x.debug.debugreg lt,
    loop_within f bp i 0 4 x.debug.debugreg (omega arith) (omega arith) (omega arith),
  )
