-- ===== src/Vp/Tables.antt =====
-- Descriptor tables of modules/core/src/vp/vp.cpp: the entries of the GDT and the IDT in guest
-- memory, and what segments they describe.
pub mod Entry
use virt.Base.{
  ℕ, ◌+◌, ◌*◌, ◌%◌, ◌^◌, ◌/◌, ◌==◌, ltb, not, ◌&&◌, ◌||◌, Bool, true, false, if◌then◌else◌, Option,
  none, some, bits, bit_and, add64, u16,
}
use virt.Vm.Region.{Bytes}
use virt.Vm.Access.{mem_read, mem_write}
use virt.Vp.Layout.{load, store}
use virt.Vp.Status.{Failure, failed, invalid_selector, invalid_register, Result, ok, err}
use virt.Vp.Reg.{Reg, reg_between}
use virt.Vp.Registers.{RegValue, Platform, table_base, table_limit, segment_attributes}
use virt.Vp.Modes.{is_ia32e_mode}
use virt.Vp.Paging.{GuestMemory}
use virt.Vp.Descriptors.{
  gdt_get_base, gdt_get_limit, gdt_get_attributes, ldt_get_base, ldt_get_limit, ldt_get_attributes,
  gdt_of, ldt_of,
}

-- GDTEntry is the bytes that its views share; these are fields of its generic view.
abbrev pub system_of : Bytes → ℕ
system_of entry = bits 4 1 (load entry 5 1)

abbrev pub type_of : Bytes → ℕ
type_of entry = bits 0 4 (load entry 5 1)

-- The system descriptors of 16 bytes in IA-32e mode, and those reserved in the other modes.
abbrev is_extended : ℕ → Bool
is_extended t =
    t == 0b0010 || t == 0b1001 || t == 0b1011 || t == 0b1100 || t == 0b1110 || t == 0b1111

abbrev is_reserved : ℕ → Bool
is_reserved t = t == 0b0000 || t == 0b1000 || t == 0b1010 || t == 0b1101

module _ {S : Type 0} (p : Platform S) (s : S) where
  -- What GetGDTEntry and SetGDTEntry do with an entry of which `again n` moves `n` bytes, once the
  -- first eight have been moved; `a` is the place they went to.
  unfoldable pub whole_entry :
      {A : Type 0} → (ℕ → A → Option A) → ℕ → ℕ → Bytes → A → Option Failure × A
  whole_entry again selector limit entry a =
      let size : ℕ = 16 in
      if not (system_of entry == 0)
      then (none, a)
      else if is_ia32e_mode p s
      then if is_extended (type_of entry)
        then if ltb limit (selector + size)
          then (some invalid_selector, a)
          else (elim (again size a) [ none ↦ (some failed, a) | some b ↦ (none, b) ])
        else (some invalid_selector, a)
      else if is_reserved (type_of entry)
      then (some invalid_selector, a)
      else (none, a)

  module _ (m : GuestMemory) where
    -- `entry` is the caller's GDTEntry, which is filled in.
    unfoldable pub get_gdt_entry : ℕ → Bytes → Option Failure × Bytes
    unfolding whole_entry
    get_gdt_entry selector entry = elim (p.reg_read s Reg.gdtr) [
      | err e ↦ (some e, entry)
      | ok gdt ↦
          let at = add64 (table_base gdt) selector in
          if ltb (table_limit gdt) (selector + 8)
          then (some invalid_selector, entry)
          else (elim (mem_read m.regions m.host at 8 entry 0) [
            | none ↦ (some failed, entry)
            | some generic ↦
                whole_entry (λ n out. mem_read m.regions m.host at n out 0) selector
                  (table_limit gdt) generic generic
          ])
    ]

    -- The second component is the host's memory.
    unfoldable pub set_gdt_entry : ℕ → Bytes → Option Failure × Bytes
    unfolding whole_entry
    set_gdt_entry selector entry = elim (p.reg_read s Reg.gdtr) [
      | err e ↦ (some e, m.host)
      | ok gdt ↦
          let at = add64 (table_base gdt) selector in
          if ltb (table_limit gdt) (selector + 8)
          then (some invalid_selector, m.host)
          else (elim (mem_write m.regions m.host at 8 entry 0) [
            | none ↦ (some failed, m.host)
            | some host ↦
                whole_entry (λ n out. mem_write m.regions out at n entry 0) selector
                  (table_limit gdt) entry host
          ])
    ]

    -- `vector` is a uint8_t.
    unfoldable pub get_idt_entry : ℕ → Bytes → Option Failure × Bytes
    get_idt_entry vector entry = elim (p.reg_read s Reg.idtr) [
      | err e ↦ (some e, entry)
      | ok idt ↦
          if ltb (table_limit idt) (vector * 8)
          then (some invalid_selector, entry)
          else (elim (mem_read m.regions m.host (add64 (table_base idt) (vector * 8)) 8 entry 0) [
            | none ↦ (some failed, entry)
            | some out ↦ (none, out)
          ])
    ]

    unfoldable pub set_idt_entry : ℕ → Bytes → Option Failure × Bytes
    set_idt_entry vector entry = elim (p.reg_read s Reg.idtr) [
      | err e ↦ (some e, m.host)
      | ok idt ↦
          if ltb (table_limit idt) (vector * 8)
          then (some invalid_selector, m.host)
          else (elim (mem_write m.regions m.host (add64 (table_base idt) (vector * 8)) 8 entry 0) [
            | none ↦ (some failed, m.host)
            | some host ↦ (none, host)
          ])
    ]

pub data SegmentSize : Type 0 where
  invalid seg16 seg32 seg64 : SegmentSize

-- The segment view of a RegValue, with its four fields stored.
abbrev segment_value : RegValue → ℕ → ℕ → ℕ → ℕ → RegValue
segment_value v selector base limit attributes =
    store (store (store (store v 0 2 selector) 8 8 base) 16 4 limit) 20 2 attributes

module _ {S : Type 0} (p : Platform S) (s : S) where
  unfoldable pub compute_segment_size : RegValue → SegmentSize
  unfolding is_ia32e_mode
  compute_segment_size v =
      if is_ia32e_mode p s && not (bits 13 1 (segment_attributes v) == 0)
      then seg64
      else if not (bits 14 1 (segment_attributes v) == 0)
      then seg32
      else seg16

  -- `value` from the entry that GetGDTEntry has filled in.
  unfoldable pub segment_of : ℕ → Bytes → RegValue → Option Failure × RegValue
  unfolding gdt_of ldt_of
  segment_of selector entry value =
      let d = ldt_of entry in
      let g = gdt_of entry in
      let t = type_of entry in
      let wide =
        segment_value value selector (ldt_get_base d) (ldt_get_limit d) (ldt_get_attributes d) in
      if system_of entry == 0
      then if t == 0b0010
        then (none, wide)
        else if t == 0b0001 || t == 0b0011 || t == 0b1001 || t == 0b1011
        then if bit_and t 0b1000 == 0 && is_ia32e_mode p s
          then (some invalid_selector, value)
          else (none, wide)
        else (some invalid_selector, value)
      else (
        none,
        segment_value value selector (gdt_get_base g) (gdt_get_limit g) (gdt_get_attributes g),
      )

  module _ (m : GuestMemory) (unset : Bytes) where
    -- `unset` is what the local GDTEntry, or RegValue, holds before it is filled in.
    unfoldable pub read_segment : ℕ → RegValue → Option Failure × RegValue
    unfolding get_gdt_entry segment_of
    read_segment selector value =
        let (status, entry) = get_gdt_entry p s m selector unset in
        elim status [ some e ↦ (some e, value) | none ↦ segment_of selector entry value ]

    unfoldable pub get_segment_size : ℕ → SegmentSize → Option Failure × SegmentSize
    unfolding read_segment compute_segment_size
    get_segment_size selector size =
        let (status, value) = read_segment selector unset in
        elim status [ some e ↦ (some e, size) | none ↦ (none, compute_segment_size value) ]

  -- The overload that takes a segment register.
  unfoldable pub get_segment_register_size : Reg → SegmentSize → Option Failure × SegmentSize
  unfolding reg_between compute_segment_size
  get_segment_register_size reg size =
      let read = p.reg_read s reg in
      if not (reg_between reg Reg.cs Reg.tr)
      then (some invalid_register, size)
      else (elim read [ err e ↦ (some e, size) | ok v ↦ (none, compute_segment_size v) ])
