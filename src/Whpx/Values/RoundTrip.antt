-- ===== src/Whpx/Values/RoundTrip.antt =====
-- A register value that goes into the hypervisor comes back.
use mathlib.Core.Option
use virt.Base.{
  ℕ, ◌/◌, ◌%◌, ◌^◌, ◌<◌, ◌≡◌, refl, ap, ◌∙◌, ◌>>>◌, ◌<<<◌, bit_and, bit_or, List, [], ◌∷◌, arith,
}
use virt.Base.Bits.{bit_and_ones, bit_or_below}
use virt.Vp.Layout.{load, store, load-lt, load-store}
use virt.Vp.Reg.{Reg}
use virt.Vp.Registers.{RegValue}
use virt.Util.{set_low_byte, set_low_word}
use virt.Util.Bytes.{set_low_lem}
use virt.Kvm.Regs.Laws.{two_parts, four_parts, fits, load_low4}
use virt.Kvm.Switch.RoundTrip.{Agree}
use virt.Whpx.Names.{
  Kind, segment_kind, table_kind, low_byte_kind, high_byte_kind, low_word_kind, double_word_kind,
  reg64_kind, st_kind, mm_kind, xmm_kind, Views,
}
use virt.Whpx.Names.Laws.{Layout}
use virt.Whpx.FromCases.{from_kind}
use virt.Whpx.IntoCases.{into_kind}
use virt.Whpx.Values.{zeros, value_from, value_into}

-- How the translation from the hypervisor treats what the translation into it treats so.
abbrev pub from_of : Kind → Kind
from_of low_byte_kind = reg64_kind
from_of high_byte_kind = reg64_kind
from_of low_word_kind = reg64_kind
from_of double_word_kind = reg64_kind
from_of kind = kind

-- The parts of a RegValue that come back, each with its offset and its size.
abbrev pub parts : Kind → List (ℕ × ℕ)
parts segment_kind = (0, 2) ∷ (8, 8) ∷ (16, 4) ∷ (20, 2) ∷ []
parts table_kind = (0, 8) ∷ (8, 2) ∷ []
parts low_byte_kind = (0, 1) ∷ []
parts high_byte_kind = []
parts low_word_kind = (0, 2) ∷ []
parts double_word_kind = (0, 4) ∷ []
parts reg64_kind = (0, 8) ∷ []
parts st_kind = (0, 8) ∷ (8, 2) ∷ []
parts mm_kind = (0, 8) ∷ []
parts xmm_kind = (0, 8) ∷ (8, 8) ∷ []

pub from_kind-into_kind : (r : Reg) → from_kind r ≡ Option.map from_of (into_kind r)
unfolding from_kind into_kind
from_kind-into_kind Reg.cs = refl
from_kind-into_kind _ = refl

load_low : (b : RegValue) → (load b 0 1 ≡ load b 0 8 % 256) × (load b 0 2 ≡ load b 0 8 % 256 ^ 2)
unfolding load
load_low b = (omega arith, omega arith)

-- The sign and the exponent of a floating point number make up the 16 bits again.
sign_back : (e : ℕ) → e < 2 ^ 16 → bit_or (bit_and e 0x7fff) ((e >>> 15) <<< 15) ≡ e
sign_back e h =
    rw (bit_and_ones 15 e) (bit_or_below 15 (e / 2 ^ 15) (e % 2 ^ 15) (omega arith) ∙ omega arith)

module _ {V : Type 0} (x : Views V) (laws : Layout x) where
  -- What a general register holds, cut to the low bytes.
  low_back :
      (w : V) (y : ℕ)
      → y < 2 ^ 64
      → let out = store zeros 0 8 (x.reg64.get (x.reg64.set y w)) in
        (load out 0 1 ≡ y % 256)
        × (load out 0 2 ≡ y % 256 ^ 2)
        × (load out 0 4 ≡ y % 256 ^ 4)
        × (load out 0 8 ≡ y)
  low_back w y h =
      let out = store zeros 0 8 (x.reg64.get (x.reg64.set y w)) in
      let all : load out 0 8 ≡ y =
        load-store zeros 0 8 _ ∙ ap (λ t. t % 256 ^ 8) (laws.reg64_back y w h) ∙ omega arith in
      (
        (load_low out).0 ∙ ap (λ t. t % 256) all,
        (load_low out).1 ∙ ap (λ t. t % 256 ^ 2) all,
        load_low4 out ∙ ap (λ t. t % 256 ^ 4) all,
        all,
      )

  pub value_back :
      (kind : Kind) (v : RegValue) (w : V)
      → Agree (value_from x (from_of kind) (value_into x kind v w)) v (parts kind)
  unfolding value_from value_into
  value_back segment_kind v w =
      let made =
        laws.segment_back
          (record {
            selector = load v 0 2;
            base = load v 8 8;
            limit = load v 16 4;
            attributes = load v 20 2;
          })
          w (load-lt v 0 2) (load-lt v 8 8) (load-lt v 16 4) (load-lt v 20 2) in
      let back = four_parts zeros (load v 0 2) (load v 8 8) (load v 16 4) (load v 20 2) in
      rw made (
        back.0 ∙ fits v 0 2,
        (back.1 ∙ fits v 8 8, (back.2 ∙ fits v 16 4, (back.3 ∙ fits v 20 2, tt))),
      )
  value_back table_kind v w =
      let made =
        laws.table_back (record { base = load v 0 8; limit = load v 8 2 }) w (load-lt v 0 8)
          (load-lt v 8 2) in
      let back =
        two_parts zeros 8 8 2 (load v 0 8) (load v 8 2) (load v 0 8) (load v 8 2) (omega arith)
          (fits v 0 8) (fits v 8 2) in
      rw made (back.0, (back.1, tt))
  value_back low_byte_kind v w =
      let old = laws.reg64_lt w in
      let new = (set_low_lem (x.reg64.get w) (load v 0 1) 0 old (load-lt v 0 1) (omega arith)).0 in
      (
        (low_back w (set_low_byte (x.reg64.get w) (load v 0 1))
              (omega (arith, new, old, load-lt v 0 1))).0
            ∙ omega (arith, new, load-lt v 0 1),
        tt,
      )
  value_back high_byte_kind v w = tt
  value_back low_word_kind v w =
      let old = laws.reg64_lt w in
      let new = (set_low_lem (x.reg64.get w) 0 (load v 0 2) old (omega arith) (load-lt v 0 2)).1 in
      (
        (low_back w (set_low_word (x.reg64.get w) (load v 0 2))
              (omega (arith, new, old, load-lt v 0 2))).1
            ∙ omega (arith, new, load-lt v 0 2),
        tt,
      )
  value_back double_word_kind v w =
      ((low_back w (load v 0 4) (omega (arith, load-lt v 0 4))).2 ∙ fits v 0 4, tt)
  value_back reg64_kind v w = ((low_back w (load v 0 8) (load-lt v 0 8)).3, tt)
  value_back st_kind v w =
      let low = load v 0 8 in
      let high = load v 8 2 in
      let cut = bit_and_ones 15 high in
      let made =
        laws.fp_back
          (record { mantissa = low; biased_exponent = bit_and high 0x7fff; sign = high >>> 15 }) w
          (load-lt v 0 8) (omega (arith, cut)) (omega (arith, load-lt v 8 2)) in
      let whole = sign_back high (load-lt v 8 2) in
      let back = two_parts zeros 8 8 2 low high low high (omega arith) (fits v 0 8) (fits v 8 2) in
      rw (made, whole) (back.0, (back.1, tt))
  value_back mm_kind v w = ((low_back w (load v 0 8) (load-lt v 0 8)).3, tt)
  value_back xmm_kind v w =
      let made = laws.reg128_back (load v 0 8) (load v 8 8) w (load-lt v 0 8) (load-lt v 8 8) in
      let back =
        two_parts zeros 8 8 8 (load v 0 8) (load v 8 8) (load v 0 8) (load v 8 8) (omega arith)
          (fits v 0 8) (fits v 8 8) in
      rw made (back.0, (back.1, tt))
