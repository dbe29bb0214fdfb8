-- ===== src/Whpx/Example.antt =====
-- A hypervisor that keeps its registers in a function.
use virt.Base.{ℕ, ◌%◌, ◌^◌, refl, true, some, map, arith}
use virt.Whpx.Names.{Name, WhvSegment, WhvTable, WhvFp, Views}
use virt.Whpx.Names.Laws.{Layout}
use virt.Whpx.Dispatch.{Dispatch, Answers, Keeps, written}

-- A value with a component for each of its views.
pub record Plain : Type 0 where
  pub word : ℕ
  pub pair : ℕ × ℕ
  pub segment_part : WhvSegment
  pub table_part : WhvTable
  pub fp_part : WhvFp
  pub mxcsr : ℕ
  pub mask : ℕ
  pub other : ℕ

abbrev pub nothing : Plain
nothing = record {
  word = 0;
  pair = (0, 0);
  segment_part = record { selector = 0; base = 0; limit = 0; attributes = 0 };
  table_part = record { base = 0; limit = 0 };
  fp_part = record { mantissa = 0; biased_exponent = 0; sign = 0 };
  mxcsr = 0;
  mask = 0;
  other = 0;
}

abbrev pub plain : Views Plain
plain = record {
  zero = nothing;
  reg64 = record { get = λ w. w.word % 2 ^ 64; set = λ a w. record w { word = a } };
  reg128 = record { get = λ w. w.pair; set = λ a w. record w { pair = a } };
  segment = record { get = λ w. w.segment_part; set = λ a w. record w { segment_part = a } };
  table = record { get = λ w. w.table_part; set = λ a w. record w { table_part = a } };
  fp = record { get = λ w. w.fp_part; set = λ a w. record w { fp_part = a } };
}

pub plain-Layout : Layout plain
plain-Layout = record {
  reg64_lt = λ w. omega arith;
  reg64_back = λ a w h. omega arith;
  reg128_back = λ a b w h h'. refl;
  segment_back = λ s w h h' h'' h'''. refl;
  table_back = λ t w h h'. refl;
  fp_back = λ f w h h' h''. refl;
}

-- The hypervisor's state is the registers of its processor.
abbrev pub kept_registers : Dispatch Plain (Name → Plain)
kept_registers = record {
  get_registers = λ ns k. some (map k ns);
  set_registers = λ ns ws k. (true, written ns ws k);
}

abbrev pub keeping : Answers kept_registers
keeping = record {
  file = λ k. k;
  get_lem = λ ns k h. refl;
  set_done = λ ns ws k h. refl;
  set_lem = λ ns ws k h. refl;
}

abbrev pub storing : Keeps kept_registers
storing = record { file = λ k. k; get_lem = λ ns k h. refl; set_lem = λ ns ws k h e. refl }
