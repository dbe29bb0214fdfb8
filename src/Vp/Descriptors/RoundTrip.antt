-- ===== src/Vp/Descriptors/RoundTrip.antt =====
-- What the setters of the descriptors store, the getters give back; and where they do not.
use native.Mathlib.Decide.{dec_lt}
use virt.Base.{
  refl, ap, ltb, ℕ, ◌-◌, ◌≤◌, ◌+◌, ◌/◌, ◌*◌, ◌%◌, ◌^◌, ◌<◌, ◌≡◌, ◌∙◌, ◌==◌, if◌then◌else◌, bit_and,
  bit_or, has_any, u8, u16, u32, arith,
}
use virt.Base.Bits.{
  bit_and_ones, bit_or_below, bit_or_above, bit_or_ones, bit_or_shifted, has_any_bit,
}
use virt.Vp.Descriptors.{
  NonTaskGateDescriptor, IdtType, gdt_set, gdt_get_base, gdt_get_limit, gdt_get_attributes, ldt_set,
  ldt_get_base, gate_set_offset, gate_get_offset, idt_set, idt_get_offset, idt_set_offset,
  int_to_u64,
}

-- The fields of a base and of a limit, put together.
base_fields :
    (base : ℕ)
    → bit_or
        (bit_or (bit_and base 0xffff) (bit_and (base / 2 ^ 16) 0xff * 2 ^ 16))
        (u8 (base / 2 ^ 24) * 2 ^ 24)
      ≡ base % 2 ^ 32
base_fields base =
    rw
      (
        bit_and_ones 16 base,
        bit_and_ones 8 (base / 2 ^ 16),
        bit_or_below 16 (base / 2 ^ 16 % 2 ^ 8) (base % 2 ^ 16) (omega arith),
        bit_or_below 24 (u8 (base / 2 ^ 24)) (base % 2 ^ 16 + base / 2 ^ 16 % 2 ^ 8 * 2 ^ 16)
            (omega arith),
      )
      (omega arith)

limit_fields :
    (limit : ℕ)
    → bit_or (bit_and limit 0xffff) (bit_and (limit / 2 ^ 16) 0xf * 2 ^ 16) ≡ limit % 2 ^ 20
limit_fields limit =
    rw
      (
        bit_and_ones 16 limit,
        bit_and_ones 4 (limit / 2 ^ 16),
        bit_or_below 16 (limit / 2 ^ 16 % 2 ^ 4) (limit % 2 ^ 16) (omega arith),
      )
      (omega arith)

granularity : (flags : ℕ) → has_any (bit_and flags 0xf) 0x8 ≡ (flags / 8 % 2 == 1)
granularity flags = rw (has_any_bit 3 (bit_and flags 0xf), bit_and_ones 4 flags) (ground arith)

limit_units :
    (limit flags : ℕ)
    → limit < 2 ^ 20
    → gdt_get_limit (gdt_set 0 limit 0 flags)
      ≡ (if flags / 8 % 2 == 1 then limit * 4096 + 4095 else limit)
unfolding gdt_get_limit gdt_set
limit_units limit flags hl =
    let small : limit % 2 ^ 20 ≡ limit = omega arith in
    let fits : u32 (limit * 2 ^ 12) ≡ limit * 2 ^ 12 = omega arith in
    rw (
      limit_fields limit,
      granularity flags,
      small,
      fits,
      bit_or_above 12 limit 0xfff (omega arith),
    )

attribute_fields :
    (access flags : ℕ)
    → access < 2 ^ 8
    → flags < 2 ^ 4
    → u16 (bit_or access (bit_and flags 0xf * 2 ^ 12)) ≡ access + flags * 4096
attribute_fields access flags ha hf =
    rw (bit_and_ones 4 flags, bit_or_below 12 (flags % 2 ^ 4) access (omega arith)) (omega arith)

-- For a base of 32 bits, a limit of 20, an access byte and four flags: a descriptor set by
-- GDTDescriptor::Set gives back its base, its limit in bytes (with 4 KiB pages as units if the
-- granularity flag is set), and the access byte and flags as attributes.
pub gdt_set_fields :
    (base limit access flags : ℕ)
    → base < 2 ^ 32
    → limit < 2 ^ 20
    → access < 2 ^ 8
    → flags < 2 ^ 4
    → let d = gdt_set base limit access flags in
      (gdt_get_base d ≡ base)
      × (gdt_get_limit d ≡ (if flags / 8 % 2 == 1 then limit * 4096 + 4095 else limit))
      × (gdt_get_attributes d ≡ access + flags * 4096)
unfolding gdt_set gdt_get_base gdt_get_limit gdt_get_attributes
gdt_set_fields base limit access flags hb hl ha hf = (
  base_fields base ∙ omega arith,
  limit_units limit flags hl,
  attribute_fields access flags ha hf,
)

-- The last step of the 64-bit getters, on a clear and on a set sign bit.
signed_sum :
    (x : ℕ)
    → x < 2 ^ 64
    → x % 2 ^ 32 < 2 ^ 31
    → bit_or (int_to_u64 (x % 2 ^ 32)) (u32 (x / 2 ^ 32) * 2 ^ 32) ≡ x
signed_sum x h clear =
    let low : int_to_u64 (x % 2 ^ 32) ≡ x % 2 ^ 32 = ground arith in
    rw (low, bit_or_below 32 (u32 (x / 2 ^ 32)) (x % 2 ^ 32) (omega arith)) (omega arith)

signed_ones :
    (x : ℕ)
    → 2 ^ 31 ≤ x % 2 ^ 32
    → bit_or (int_to_u64 (x % 2 ^ 32)) (u32 (x / 2 ^ 32) * 2 ^ 32) ≡ x % 2 ^ 32 + (2 ^ 64 - 2 ^ 32)
signed_ones x sign =
    let low : int_to_u64 (x % 2 ^ 32) ≡ x % 2 ^ 32 + (2 ^ 32 - 1) * 2 ^ 32 = ground arith in
    rw (
      low,
      bit_or_shifted 32 (2 ^ 32 - 1) (x % 2 ^ 32) (u32 (x / 2 ^ 32)) (omega arith),
      bit_or_ones 32 (u32 (x / 2 ^ 32)) (omega arith),
    )

-- A 64-bit base whose bit 31 is clear comes back from LDTDescriptor::GetBase.
pub ldt_get_base-ldt_set :
    (base limit access flags : ℕ)
    → base < 2 ^ 64
    → base % 2 ^ 32 < 2 ^ 31
    → ldt_get_base (ldt_set base limit access flags) ≡ base
unfolding ldt_get_base ldt_set
ldt_get_base-ldt_set base limit access flags h clear =
    ap (λ t. bit_or (int_to_u64 t) (u32 (base / 2 ^ 32) * 2 ^ 32)) (base_fields base)
    ∙ signed_sum base h clear

-- If bit 31 of the base is set, LDTDescriptor::GetBase returns the base's lower 32 bits under
-- upper bits that are all ones, whatever they were: its expression of type int is negative.
pub ldt_get_base-sign :
    (base limit access flags : ℕ)
    → 2 ^ 31 ≤ base % 2 ^ 32
    → ldt_get_base (ldt_set base limit access flags) ≡ base % 2 ^ 32 + (2 ^ 64 - 2 ^ 32)
unfolding ldt_get_base ldt_set
ldt_get_base-sign base limit access flags sign =
    ap (λ t. bit_or (int_to_u64 t) (u32 (base / 2 ^ 32) * 2 ^ 32)) (base_fields base)
    ∙ signed_ones base sign

halves : (x : ℕ) → bit_or (bit_and x 0xffff) (bit_and (x / 2 ^ 16) 0xffff * 2 ^ 16) ≡ x % 2 ^ 32
halves x =
    rw
      (
        bit_and_ones 16 x,
        bit_and_ones 16 (x / 2 ^ 16),
        bit_or_below 16 (x / 2 ^ 16 % 2 ^ 16) (x % 2 ^ 16) (omega arith),
      )
      (omega arith)

-- The 64-bit offset that NonTaskGateDescriptor::SetOffset stores is the one that GetOffset returns
-- if its bit 31 is clear; if it is set, the upper 32 bits come back as all ones.
pub gate_get_offset-gate_set_offset :
    (d : NonTaskGateDescriptor) (offset : ℕ)
    → offset < 2 ^ 64
    → gate_get_offset (gate_set_offset d offset)
      ≡ (if ltb (offset % 2 ^ 32) (2 ^ 31) then offset else offset % 2 ^ 32 + (2 ^ 64 - 2 ^ 32))
unfolding gate_get_offset gate_set_offset
gate_get_offset-gate_set_offset d offset h =
    ap (λ t. bit_or (int_to_u64 t) (u32 (offset / 2 ^ 32) * 2 ^ 32)) (halves offset)
    ∙ elim (dec_lt (offset % 2 ^ 32) (2 ^ 31)) [
      | yes clear ↦ signed_sum offset h clear ∙ ground arith
      | no set ↦ signed_ones offset (omega arith) ∙ ground arith
    ]

-- For offsets of 32 bits, IDTEntry::GetOffset returns the offset that Set or, after it, SetOffset
-- has stored last, and setting the first offset again gives the first entry back.
pub idt_get_offset-idt_set_offset :
    (offset next selector attributes : ℕ) (type : IdtType)
    → offset < 2 ^ 32
    → next < 2 ^ 32
    → let d = idt_set offset selector type attributes in
      (idt_get_offset d ≡ offset)
      × (idt_get_offset (idt_set_offset d next) ≡ next)
      × (idt_set_offset (idt_set_offset d next) offset ≡ d)
unfolding idt_set idt_get_offset idt_set_offset
idt_get_offset-idt_set_offset offset next selector attributes type h h' =
    (offset_fields offset h, offset_fields next h', refl)
  where
    offset_fields :
        (x : ℕ) → x < 2 ^ 32 → bit_or (bit_and x 0xffff) (u32 (u16 (x / 2 ^ 16) * 2 ^ 16)) ≡ x
    offset_fields x lt =
        let high : u32 (u16 (x / 2 ^ 16) * 2 ^ 16) ≡ x / 2 ^ 16 * 2 ^ 16 = omega arith in
        rw (bit_and_ones 16 x, high, bit_or_below 16 (x / 2 ^ 16) (x % 2 ^ 16) (omega arith))
          (omega arith)
