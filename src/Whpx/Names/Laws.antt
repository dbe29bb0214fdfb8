-- ===== src/Whpx/Names/Laws.antt =====
-- What the header of the Windows hypervisor says of the views of a register value: what is set in a view
-- is what it shows, for numbers that fit.
use virt.Base.{ℕ, ◌^◌, ◌<◌, ◌≡◌}
use virt.Whpx.Names.{WhvSegment, WhvTable, WhvFp, Views}

pub record Layout {V : Type 0} (x : Views V) : Type 0 where
  pub reg64_lt : (w : V) → x.reg64.get w < 2 ^ 64
  pub reg64_back : (a : ℕ) (w : V) → a < 2 ^ 64 → x.reg64.get (x.reg64.set a w) ≡ a
  pub reg128_back :
      (a b : ℕ) (w : V) → a < 2 ^ 64 → b < 2 ^ 64 → x.reg128.get (x.reg128.set (a, b) w) ≡ (a, b)
  pub segment_back :
      (s : WhvSegment) (w : V)
      → s.selector < 2 ^ 16
      → s.base < 2 ^ 64
      → s.limit < 2 ^ 32
      → s.attributes < 2 ^ 16
      → x.segment.get (x.segment.set s w) ≡ s
  pub table_back :
      (t : WhvTable) (w : V)
      → t.base < 2 ^ 64
      → t.limit < 2 ^ 16
      → x.table.get (x.table.set t w) ≡ t
  pub fp_back :
      (f : WhvFp) (w : V)
      → f.mantissa < 2 ^ 64
      → f.biased_exponent < 2 ^ 15
      → f.sign < 2
      → x.fp.get (x.fp.set f w) ≡ f
