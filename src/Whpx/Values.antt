-- ===== src/Whpx/Values.antt =====
-- TranslateRegisterValue of modules/whpx/src/whpx_regs.cpp, both ways.
pub mod RoundTrip
use virt.Base.{ℕ, bit_and, bit_or, ◌<<<◌, ◌>>>◌, Option, none, some}
use virt.Vp.Layout.{load, store}
use virt.Vp.Reg.{Reg}
use virt.Vp.Registers.{RegValue}
use virt.Util.{set_low_byte, set_high_byte, set_low_word}
use virt.Whpx.Names.{
  Kind, segment_kind, table_kind, low_byte_kind, high_byte_kind, low_word_kind, double_word_kind,
  reg64_kind, st_kind, mm_kind, xmm_kind, Views,
}
use virt.Whpx.FromCases.{from_kind}
use virt.Whpx.IntoCases.{into_kind}

-- `RegValue result{ 0 }`.
abbrev pub zeros : RegValue
zeros = λ i. 0

module _ {V : Type 0} (x : Views V) where
  -- All cases for parts of general registers read the whole register.
  unfoldable pub value_from : Kind → V → RegValue
  value_from segment_kind w =
      let s = x.segment.get w in
      store (store (store (store zeros 0 2 s.selector) 8 8 s.base) 16 4 s.limit) 20 2 s.attributes
  value_from table_kind w = let t = x.table.get w in store (store zeros 0 8 t.base) 8 2 t.limit
  value_from st_kind w =
      let f = x.fp.get w in
      store (store zeros 0 8 f.mantissa) 8 2 (bit_or f.biased_exponent (f.sign <<< 15))
  value_from xmm_kind w = let (low, high) = x.reg128.get w in store (store zeros 0 8 low) 8 8 high
  value_from _ w = store zeros 0 8 (x.reg64.get w)

  unfoldable pub value_into : Kind → RegValue → V → V
  value_into segment_kind v w =
      x.segment.set
        (record {
          selector = load v 0 2;
          base = load v 8 8;
          limit = load v 16 4;
          attributes = load v 20 2;
        })
        w
  value_into table_kind v w = x.table.set (record { base = load v 0 8; limit = load v 8 2 }) w
  value_into low_byte_kind v w = x.reg64.set (set_low_byte (x.reg64.get w) (load v 0 1)) w
  value_into high_byte_kind v w = x.reg64.set (set_high_byte (x.reg64.get w) (load v 0 1)) w
  value_into low_word_kind v w = x.reg64.set (set_low_word (x.reg64.get w) (load v 0 2)) w
  value_into double_word_kind v w = x.reg64.set (load v 0 4) w
  value_into reg64_kind v w = x.reg64.set (load v 0 8) w
  value_into st_kind v w =
      x.fp.set
        (record {
          mantissa = load v 0 8;
          biased_exponent = bit_and (load v 8 2) 0x7fff;
          sign = load v 8 2 >>> 15;
        })
        w
  value_into mm_kind v w = x.reg64.set (load v 0 8) w
  value_into xmm_kind v w = x.reg128.set (load v 0 8, load v 8 8) w

  unfoldable pub translate_from : Reg → V → RegValue
  unfolding value_from
  translate_from reg w = elim (from_kind reg) [ none ↦ zeros | some kind ↦ value_from kind w ]

  unfoldable pub translate_into : Reg → RegValue → V → V
  unfolding value_into
  translate_into reg v w = elim (into_kind reg) [ none ↦ w | some kind ↦ value_into kind v w ]
