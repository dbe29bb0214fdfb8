-- ===== src/Vp/Descriptors.antt =====
-- Descriptors of modules/core/src/vp/gdt.cpp and idt.cpp, with the layouts of gdt.hpp and idt.hpp. A
-- descriptor is the record of its fields; the access byte is its `u8` view.
pub mod RoundTrip
use virt.Base.{
  ℕ, ◌+◌, ◌-◌, ◌/◌, ◌*◌, ◌%◌, ◌^◌, ltb, if◌then◌else◌, bit_and, bit_or, has_any, u8, u16, u32, u64,
  ◌<<<◌, ◌>>>◌, bits,
}
use virt.Vm.Region.{Bytes}
use virt.Vp.Layout.{load}

abbrev pub gdt_fl_granularity : ℕ
gdt_fl_granularity = 0x8

-- A value of type int, by its 32 bits, converted to uint64_t.
abbrev pub int_to_u64 : ℕ → ℕ
int_to_u64 x = if ltb x 0x8000_0000 then x else x + (2 ^ 64 - 2 ^ 32)

pub record GdtDescriptor : Type 0 where
  pub limit_low : ℕ
  pub base_low : ℕ
  pub base_mid : ℕ
  pub access : ℕ
  pub limit_high : ℕ
  pub flags : ℕ
  pub base_high : ℕ

-- The LDT and TSS descriptors: the same eight bytes, and eight more.
pub record LdtDescriptor : Type 0 where
  pub low : GdtDescriptor
  pub base_top : ℕ
  pub reserved : ℕ

pub gdt_set : ℕ → ℕ → ℕ → ℕ → GdtDescriptor
gdt_set base limit access flags = record {
  base_low = bit_and base 0xffff;
  base_mid = bit_and (base >>> 16) 0xff;
  base_high = u8 (base >>> 24);
  limit_low = bit_and limit 0xffff;
  limit_high = bit_and (limit >>> 16) 0xf;
  access = access;
  flags = bit_and flags 0xf;
}

-- The bits of the int expression that both GetBase functions begin with.
base_bits : GdtDescriptor → ℕ
base_bits d = bit_or (bit_or d.base_low (d.base_mid <<< 16)) (d.base_high <<< 24)

unfoldable pub gdt_get_base : GdtDescriptor → ℕ
unfolding base_bits
gdt_get_base d = base_bits d

unfoldable pub gdt_get_limit : GdtDescriptor → ℕ
gdt_get_limit d =
    let limit = bit_or d.limit_low (d.limit_high <<< 16) in
    if has_any d.flags gdt_fl_granularity then bit_or (u32 (limit <<< 12)) 0xfff else limit

unfoldable pub gdt_get_attributes : GdtDescriptor → ℕ
gdt_get_attributes d = u16 (bit_or d.access (d.flags <<< 12))

pub ldt_set : ℕ → ℕ → ℕ → ℕ → LdtDescriptor
ldt_set base limit access flags = record {
  low = record {
    base_low = bit_and base 0xffff;
    base_mid = bit_and (base >>> 16) 0xff;
    base_high = u8 (base >>> 24);
    limit_low = bit_and limit 0xffff;
    limit_high = bit_and (limit >>> 16) 0xf;
    access = access;
    flags = bit_and flags 0xf;
  };
  base_top = u32 (base >>> 32);
  reserved = 0;
}

unfoldable pub ldt_get_base : LdtDescriptor → ℕ
unfolding base_bits
ldt_get_base d = bit_or (int_to_u64 (base_bits d.low)) (d.base_top <<< 32)

unfoldable pub ldt_get_limit : LdtDescriptor → ℕ
ldt_get_limit d =
    let limit = bit_or d.low.limit_low (d.low.limit_high <<< 16) in
    if has_any d.low.flags gdt_fl_granularity then bit_or (u32 (limit <<< 12)) 0xfff else limit

unfoldable pub ldt_get_attributes : LdtDescriptor → ℕ
ldt_get_attributes d = u16 (bit_or d.low.access (d.low.flags <<< 12))

-- Call gates, interrupt gates and trap gates.
pub record NonTaskGateDescriptor : Type 0 where
  pub offset_low : ℕ
  pub cs_selector : ℕ
  pub params : ℕ
  pub access : ℕ
  pub offset_high : ℕ
  pub offset_top : ℕ
  pub reserved : ℕ

pub gate_set_offset : NonTaskGateDescriptor → ℕ → NonTaskGateDescriptor
gate_set_offset d offset = record d {
  offset_low = bit_and offset 0xffff;
  offset_high = bit_and (offset >>> 16) 0xffff;
  offset_top = u32 (offset >>> 32);
}

pub gate_get_offset : NonTaskGateDescriptor → ℕ
gate_get_offset d =
    bit_or (int_to_u64 (bit_or d.offset_low (d.offset_high <<< 16))) (d.offset_top <<< 32)

pub data IdtType : Type 0 where
  null00 task32 intr32 trap32 : IdtType

abbrev idt_type_number : IdtType → ℕ
idt_type_number null00 = 0x0
idt_type_number task32 = 0x5
idt_type_number intr32 = 0xe
idt_type_number trap32 = 0xf

pub record IdtEntry : Type 0 where
  pub offset_low : ℕ
  pub selector : ℕ
  pub zero_byte : ℕ
  pub type : ℕ
  pub storage_segment : ℕ
  pub privilege_level : ℕ
  pub present : ℕ
  pub offset_high : ℕ

pub idt_set : ℕ → ℕ → IdtType → ℕ → IdtEntry
idt_set offset selector type attributes = record {
  offset_low = bit_and offset 0xffff;
  offset_high = u16 (offset >>> 16);
  selector = selector;
  zero_byte = 0;
  type = bit_and (idt_type_number type) 0xf;
  storage_segment = bit_and attributes 0x1;
  privilege_level = bit_and (attributes >>> 1) 0x3;
  present = bit_and (attributes >>> 3) 0x1;
}

pub idt_get_offset : IdtEntry → ℕ
idt_get_offset d = bit_or d.offset_low (u32 (d.offset_high <<< 16))

pub idt_set_offset : IdtEntry → ℕ → IdtEntry
idt_set_offset d offset = record d {
  offset_low = bit_and offset 0xffff;
  offset_high = u16 (offset >>> 16);
}

-- The descriptors in the bytes of a table entry.
unfoldable pub gdt_of : Bytes → GdtDescriptor
gdt_of b = record {
  limit_low = load b 0 2;
  base_low = load b 2 2;
  base_mid = load b 4 1;
  access = load b 5 1;
  limit_high = bits 0 4 (load b 6 1);
  flags = bits 4 4 (load b 6 1);
  base_high = load b 7 1;
}

unfoldable pub ldt_of : Bytes → LdtDescriptor
unfolding gdt_of
ldt_of b = record { low = gdt_of b; base_top = load b 8 4; reserved = load b 12 4 }
