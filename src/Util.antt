-- ===== src/Util.antt =====
-- Host information and byte helpers: modules/core/src/util/host_info.cpp, the enumeration
-- FloatingPointExtension of features.hpp, and bytemanip.hpp. The CPUID instruction is a parameter:
-- `cpuid leaf` is what it leaves in the four registers.
pub mod Bytes
use virt.Base.{
  ℕ, ◌-◌, ◌*◌, ◌/◌, ◌%◌, ◌^◌, ◌==◌, Bool, if◌then◌else◌, bit_and, bit_or, has_any, not, u8, u64,
  not64, ◌<<<◌, ◌>>>◌, sub64, List, [], ◌∷◌,
}

pub record CpuidRegisters : Type 0 where
  pub eax : ℕ
  pub ebx : ℕ
  pub ecx : ℕ
  pub edx : ℕ

-- FloatingPointExtension without None, which is the number 0.
pub data FloatingPointExtension : Type 0 where
  mmx sse sse2 sse3 ssse3 sse4_1 sse4_2 sse4a xop f16c fma4 avx fma3 avx2 avx512f avx512dq :
      FloatingPointExtension
  avx512ifma avx512pf avx512er avx512cd avx512bw avx512vl avx512vbmi avx512vbmi2 avx512gfni :
      FloatingPointExtension
  avx512vaes avx512vnni avx512bitalg avx512vpopcntdq avx512qvnniw avx512qfma fxsave xsave :
      FloatingPointExtension

-- The enumerators' values on 64 bits: FXSAVE is the int `1 << 31`, which is negative.
unfoldable pub value : FloatingPointExtension → ℕ
value mmx = 2 ^ 0
value sse = 2 ^ 1
value sse2 = 2 ^ 2
value sse3 = 2 ^ 3
value ssse3 = 2 ^ 4
value sse4_1 = 2 ^ 5
value sse4_2 = 2 ^ 6
value sse4a = 2 ^ 7
value xop = 2 ^ 8
value f16c = 2 ^ 9
value fma4 = 2 ^ 10
value avx = 2 ^ 11
value fma3 = 2 ^ 12
value avx2 = 2 ^ 13
value avx512f = 2 ^ 14
value avx512dq = 2 ^ 15
value avx512ifma = 2 ^ 16
value avx512pf = 2 ^ 17
value avx512er = 2 ^ 18
value avx512cd = 2 ^ 19
value avx512bw = 2 ^ 20
value avx512vl = 2 ^ 21
value avx512vbmi = 2 ^ 22
value avx512vbmi2 = 2 ^ 23
value avx512gfni = 2 ^ 24
value avx512vaes = 2 ^ 25
value avx512vnni = 2 ^ 26
value avx512bitalg = 2 ^ 27
value avx512vpopcntdq = 2 ^ 28
value avx512qvnniw = 2 ^ 29
value avx512qfma = 2 ^ 30
value fxsave = 2 ^ 64 - 2 ^ 31
value xsave = 2 ^ 32

-- `if (test) result |= extension;` for one test after the other.
unfoldable pub set_tested : List (Bool × FloatingPointExtension) → ℕ → ℕ
unfolding value
set_tested [] result = result
set_tested ((test, extension) ∷ rest) result =
    set_tested rest (if test then bit_or result (value extension) else result)

module _ (cpuid : ℕ → CpuidRegisters) where
  unfoldable pub get_max_gpa_bits : ℕ
  get_max_gpa_bits =
      let eax = (cpuid 0x8000_0008).eax in
      let max_gpa_bits = u8 (eax >>> 16) in if not (max_gpa_bits == 0) then max_gpa_bits else u8 eax

  unfoldable pub get_fp_exts : ℕ
  unfolding set_tested
  get_fp_exts =
      let ecx1 = (cpuid 0x1).ecx in
      let edx1 = (cpuid 0x1).edx in
      let ebx7 = (cpuid 0x7).ebx in
      let ecx7 = (cpuid 0x7).ecx in
      let edx7 = (cpuid 0x7).edx in
      let ecx81 = (cpuid 0x8000_0001).ecx in
      set_tested
        ((has_any edx1 (2 ^ 23), mmx)
          ∷ (has_any edx1 (2 ^ 25), sse)
          ∷ (has_any edx1 (2 ^ 26), sse2)
          ∷ (has_any ecx1 (2 ^ 0), sse3)
          ∷ (has_any ecx1 (2 ^ 9), ssse3)
          ∷ (has_any ecx1 (2 ^ 19), sse4_1)
          ∷ (has_any ecx1 (2 ^ 20), sse4_2)
          ∷ (has_any ecx81 (2 ^ 6), sse4a)
          ∷ (has_any ecx81 (2 ^ 11), xop)
          ∷ (has_any ecx1 (2 ^ 29), f16c)
          ∷ (has_any ecx81 (2 ^ 16), fma4)
          ∷ (has_any ecx1 (2 ^ 28), avx)
          ∷ (has_any ecx1 (2 ^ 12), fma3)
          ∷ (has_any ebx7 (2 ^ 5), avx2)
          ∷ (has_any ebx7 (2 ^ 16), avx512f)
          ∷ (has_any ebx7 (2 ^ 17), avx512dq)
          ∷ (has_any ebx7 (2 ^ 21), avx512ifma)
          ∷ (has_any ebx7 (2 ^ 26), avx512pf)
          ∷ (has_any ebx7 (2 ^ 27), avx512er)
          ∷ (has_any ebx7 (2 ^ 28), avx512cd)
          ∷ (has_any ebx7 (2 ^ 30), avx512bw)
          ∷ (has_any ebx7 (2 ^ 31), avx512vl)
          ∷ (has_any ecx7 (2 ^ 1), avx512vbmi)
          ∷ (has_any ecx7 (2 ^ 6), avx512vbmi2)
          ∷ (has_any ecx7 (2 ^ 8), avx512gfni)
          ∷ (has_any ecx7 (2 ^ 9), avx512vaes)
          ∷ (has_any ecx7 (2 ^ 11), avx512vnni)
          ∷ (has_any ecx7 (2 ^ 12), avx512bitalg)
          ∷ (has_any ecx7 (2 ^ 14), avx512vpopcntdq)
          ∷ (has_any edx7 (2 ^ 2), avx512qvnniw)
          ∷ (has_any edx7 (2 ^ 3), avx512qfma)
          ∷ (has_any edx1 (2 ^ 24), fxsave)
          ∷ (has_any ecx1 (2 ^ 26), xsave)
          ∷ [])
        0

  -- HostInfo::GPA.
  unfoldable pub gpa_max_address : ℕ
  unfolding get_max_gpa_bits
  gpa_max_address = u64 (1 <<< get_max_gpa_bits)

  unfoldable pub gpa_mask_of : ℕ
  unfolding gpa_max_address
  gpa_mask_of = sub64 gpa_max_address 1

unfoldable pub set_low_byte : ℕ → ℕ → ℕ
set_low_byte lhs rhs = bit_or (bit_and lhs 0xffff_ffff_ffff_ff00) rhs

unfoldable pub set_high_byte : ℕ → ℕ → ℕ
set_high_byte lhs rhs = bit_or (bit_and lhs 0xffff_ffff_ffff_00ff) (rhs <<< 8)

unfoldable pub set_low_word : ℕ → ℕ → ℕ
set_low_word lhs rhs = bit_or (bit_and lhs 0xffff_ffff_ffff_0000) rhs
