-- ===== src/Vp/Reg.antt =====
-- enum class Reg of modules/core/include/virt86/vp/regs.hpp, in its order, and the arithmetic on
-- register numbers. The aliases (R0B = AL, ...) are names of registers that are listed.
use native.Mathlib.Nat.{pow-le-pow_right, mod-eq_of_lt, add-mod_right}
use native.Mathlib.Decide.{dec_lt}
use virt.Base.{
  ℕ, ◌+◌, ◌-◌, ◌%◌, ◌^◌, ◌≤◌, ◌<◌, ◌≡◌, refl, Bool, ◌&&◌, leb, Option, some, List, [], ◌∷◌,
  get_elem?, arith, ap, ◌∙◌,
}

pub data Reg : Type 0 where
  cs ss ds es fs gs ldtr tr gdtr idtr al ah cl ch dl dh bl bh spl bpl sil dil r8b : Reg
  r9b r10b r11b r12b r13b r14b r15b ax cx dx bx sp bp si di r8w r9w r10w r11w r12w : Reg
  r13w r14w r15w ip flags eax ecx edx ebx esp ebp esi edi r8d r9d r10d r11d r12d : Reg
  r13d r14d r15d eip eflags rax rcx rdx rbx rsp rbp rsi rdi r8 r9 r10 r11 r12 r13 : Reg
  r14 r15 rip rflags cr0 cr2 cr3 cr4 cr8 efer xcr0 dr0 dr1 dr2 dr3 dr6 dr7 st0 st1 : Reg
  st2 st3 st4 st5 st6 st7 mm0 mm1 mm2 mm3 mm4 mm5 mm6 mm7 xmm0 xmm1 xmm2 xmm3 xmm4 : Reg
  xmm5 xmm6 xmm7 xmm8 xmm9 xmm10 xmm11 xmm12 xmm13 xmm14 xmm15 xmm16 xmm17 xmm18 : Reg
  xmm19 xmm20 xmm21 xmm22 xmm23 xmm24 xmm25 xmm26 xmm27 xmm28 xmm29 xmm30 xmm31 : Reg
  ymm0 ymm1 ymm2 ymm3 ymm4 ymm5 ymm6 ymm7 ymm8 ymm9 ymm10 ymm11 ymm12 ymm13 ymm14 : Reg
  ymm15 ymm16 ymm17 ymm18 ymm19 ymm20 ymm21 ymm22 ymm23 ymm24 ymm25 ymm26 ymm27 : Reg
  ymm28 ymm29 ymm30 ymm31 zmm0 zmm1 zmm2 zmm3 zmm4 zmm5 zmm6 zmm7 zmm8 zmm9 zmm10 : Reg
  zmm11 zmm12 zmm13 zmm14 zmm15 zmm16 zmm17 zmm18 zmm19 zmm20 zmm21 zmm22 zmm23 : Reg
  zmm24 zmm25 zmm26 zmm27 zmm28 zmm29 zmm30 zmm31 : Reg

-- static_cast<size_t>(reg)
unfoldable pub number : Reg → ℕ
number cs = 0
number ss = 1
number ds = 2
number es = 3
number fs = 4
number gs = 5
number ldtr = 6
number tr = 7
number gdtr = 8
number idtr = 9
number al = 10
number ah = 11
number cl = 12
number ch = 13
number dl = 14
number dh = 15
number bl = 16
number bh = 17
number spl = 18
number bpl = 19
number sil = 20
number dil = 21
number r8b = 22
number r9b = 23
number r10b = 24
number r11b = 25
number r12b = 26
number r13b = 27
number r14b = 28
number r15b = 29
number ax = 30
number cx = 31
number dx = 32
number bx = 33
number sp = 34
number bp = 35
number si = 36
number di = 37
number r8w = 38
number r9w = 39
number r10w = 40
number r11w = 41
number r12w = 42
number r13w = 43
number r14w = 44
number r15w = 45
number ip = 46
number flags = 47
number eax = 48
number ecx = 49
number edx = 50
number ebx = 51
number esp = 52
number ebp = 53
number esi = 54
number edi = 55
number r8d = 56
number r9d = 57
number r10d = 58
number r11d = 59
number r12d = 60
number r13d = 61
number r14d = 62
number r15d = 63
number eip = 64
number eflags = 65
number rax = 66
number rcx = 67
number rdx = 68
number rbx = 69
number rsp = 70
number rbp = 71
number rsi = 72
number rdi = 73
number r8 = 74
number r9 = 75
number r10 = 76
number r11 = 77
number r12 = 78
number r13 = 79
number r14 = 80
number r15 = 81
number rip = 82
number rflags = 83
number cr0 = 84
number cr2 = 85
number cr3 = 86
number cr4 = 87
number cr8 = 88
number efer = 89
number xcr0 = 90
number dr0 = 91
number dr1 = 92
number dr2 = 93
number dr3 = 94
number dr6 = 95
number dr7 = 96
number st0 = 97
number st1 = 98
number st2 = 99
number st3 = 100
number st4 = 101
number st5 = 102
number st6 = 103
number st7 = 104
number mm0 = 105
number mm1 = 106
number mm2 = 107
number mm3 = 108
number mm4 = 109
number mm5 = 110
number mm6 = 111
number mm7 = 112
number xmm0 = 113
number xmm1 = 114
number xmm2 = 115
number xmm3 = 116
number xmm4 = 117
number xmm5 = 118
number xmm6 = 119
number xmm7 = 120
number xmm8 = 121
number xmm9 = 122
number xmm10 = 123
number xmm11 = 124
number xmm12 = 125
number xmm13 = 126
number xmm14 = 127
number xmm15 = 128
number xmm16 = 129
number xmm17 = 130
number xmm18 = 131
number xmm19 = 132
number xmm20 = 133
number xmm21 = 134
number xmm22 = 135
number xmm23 = 136
number xmm24 = 137
number xmm25 = 138
number xmm26 = 139
number xmm27 = 140
number xmm28 = 141
number xmm29 = 142
number xmm30 = 143
number xmm31 = 144
number ymm0 = 145
number ymm1 = 146
number ymm2 = 147
number ymm3 = 148
number ymm4 = 149
number ymm5 = 150
number ymm6 = 151
number ymm7 = 152
number ymm8 = 153
number ymm9 = 154
number ymm10 = 155
number ymm11 = 156
number ymm12 = 157
number ymm13 = 158
number ymm14 = 159
number ymm15 = 160
number ymm16 = 161
number ymm17 = 162
number ymm18 = 163
number ymm19 = 164
number ymm20 = 165
number ymm21 = 166
number ymm22 = 167
number ymm23 = 168
number ymm24 = 169
number ymm25 = 170
number ymm26 = 171
number ymm27 = 172
number ymm28 = 173
number ymm29 = 174
number ymm30 = 175
number ymm31 = 176
number zmm0 = 177
number zmm1 = 178
number zmm2 = 179
number zmm3 = 180
number zmm4 = 181
number zmm5 = 182
number zmm6 = 183
number zmm7 = 184
number zmm8 = 185
number zmm9 = 186
number zmm10 = 187
number zmm11 = 188
number zmm12 = 189
number zmm13 = 190
number zmm14 = 191
number zmm15 = 192
number zmm16 = 193
number zmm17 = 194
number zmm18 = 195
number zmm19 = 196
number zmm20 = 197
number zmm21 = 198
number zmm22 = 199
number zmm23 = 200
number zmm24 = 201
number zmm25 = 202
number zmm26 = 203
number zmm27 = 204
number zmm28 = 205
number zmm29 = 206
number zmm30 = 207
number zmm31 = 208

-- The registers by number, which static_cast<Reg> reads.
abbrev all_regs : List Reg
all_regs =
    cs ∷ ss ∷ ds ∷ es ∷ fs ∷ gs ∷ ldtr ∷ tr ∷ gdtr ∷ idtr ∷ al ∷ ah ∷ cl ∷ ch ∷ dl ∷ dh ∷ bl ∷ bh
    ∷ spl ∷ bpl ∷ sil ∷ dil ∷ r8b ∷ r9b ∷ r10b ∷ r11b ∷ r12b ∷ r13b ∷ r14b ∷ r15b ∷ ax ∷ cx ∷ dx
    ∷ bx ∷ sp ∷ bp ∷ si ∷ di ∷ r8w ∷ r9w ∷ r10w ∷ r11w ∷ r12w ∷ r13w ∷ r14w ∷ r15w ∷ ip ∷ flags
    ∷ eax ∷ ecx ∷ edx ∷ ebx ∷ esp ∷ ebp ∷ esi ∷ edi ∷ r8d ∷ r9d ∷ r10d ∷ r11d ∷ r12d ∷ r13d ∷ r14d
    ∷ r15d ∷ eip ∷ eflags ∷ rax ∷ rcx ∷ rdx ∷ rbx ∷ rsp ∷ rbp ∷ rsi ∷ rdi ∷ r8 ∷ r9 ∷ r10 ∷ r11
    ∷ r12 ∷ r13 ∷ r14 ∷ r15 ∷ rip ∷ rflags ∷ cr0 ∷ cr2 ∷ cr3 ∷ cr4 ∷ cr8 ∷ efer ∷ xcr0 ∷ dr0 ∷ dr1
    ∷ dr2 ∷ dr3 ∷ dr6 ∷ dr7 ∷ st0 ∷ st1 ∷ st2 ∷ st3 ∷ st4 ∷ st5 ∷ st6 ∷ st7 ∷ mm0 ∷ mm1 ∷ mm2 ∷ mm3
    ∷ mm4 ∷ mm5 ∷ mm6 ∷ mm7 ∷ xmm0 ∷ xmm1 ∷ xmm2 ∷ xmm3 ∷ xmm4 ∷ xmm5 ∷ xmm6 ∷ xmm7 ∷ xmm8 ∷ xmm9
    ∷ xmm10 ∷ xmm11 ∷ xmm12 ∷ xmm13 ∷ xmm14 ∷ xmm15 ∷ xmm16 ∷ xmm17 ∷ xmm18 ∷ xmm19 ∷ xmm20 ∷ xmm21
    ∷ xmm22 ∷ xmm23 ∷ xmm24 ∷ xmm25 ∷ xmm26 ∷ xmm27 ∷ xmm28 ∷ xmm29 ∷ xmm30 ∷ xmm31 ∷ ymm0 ∷ ymm1
    ∷ ymm2 ∷ ymm3 ∷ ymm4 ∷ ymm5 ∷ ymm6 ∷ ymm7 ∷ ymm8 ∷ ymm9 ∷ ymm10 ∷ ymm11 ∷ ymm12 ∷ ymm13 ∷ ymm14
    ∷ ymm15 ∷ ymm16 ∷ ymm17 ∷ ymm18 ∷ ymm19 ∷ ymm20 ∷ ymm21 ∷ ymm22 ∷ ymm23 ∷ ymm24 ∷ ymm25 ∷ ymm26
    ∷ ymm27 ∷ ymm28 ∷ ymm29 ∷ ymm30 ∷ ymm31 ∷ zmm0 ∷ zmm1 ∷ zmm2 ∷ zmm3 ∷ zmm4 ∷ zmm5 ∷ zmm6 ∷ zmm7
    ∷ zmm8 ∷ zmm9 ∷ zmm10 ∷ zmm11 ∷ zmm12 ∷ zmm13 ∷ zmm14 ∷ zmm15 ∷ zmm16 ∷ zmm17 ∷ zmm18 ∷ zmm19
    ∷ zmm20 ∷ zmm21 ∷ zmm22 ∷ zmm23 ∷ zmm24 ∷ zmm25 ∷ zmm26 ∷ zmm27 ∷ zmm28 ∷ zmm29 ∷ zmm30 ∷ zmm31
    ∷ []

-- RegOffset<T>, with T of w bits.
unfoldable pub reg_offset : ℕ → Reg → Reg → ℕ
reg_offset w base reg = (number reg % 2 ^ w + 2 ^ w - number base % 2 ^ w) % 2 ^ w

-- RegAdd<T>, with T of w bits; `none` is a number that no register has.
unfoldable pub reg_add : ℕ → Reg → ℕ → Option Reg
reg_add w base offset = get_elem? all_regs ((number base % 2 ^ w + offset) % 2 ^ w)

unfoldable pub reg_between : Reg → Reg → Reg → Bool
reg_between reg first last = leb (number first) (number reg) && leb (number reg) (number last)

get_elem?-number : (r : Reg) → get_elem? all_regs (number r) ≡ some r
unfolding number
get_elem?-number cs = refl
get_elem?-number _ = refl

number-lt : (r : Reg) → number r < 209
unfolding number
number-lt cs = omega arith
number-lt _ = omega arith

offset_back : (a b p : ℕ) → a < p → b < p → (b % p + (a % p + p - b % p) % p) % p ≡ a
offset_back a b p ha hb =
    rw (mod-eq_of_lt ha, mod-eq_of_lt hb)
      (elim (dec_lt a b) [
        | yes less ↦
            let small : a + p - b < p = omega arith in
            let sum : b + (a + p - b) ≡ a + p = omega arith in
            rw (mod-eq_of_lt small, sum, add-mod_right a p) (mod-eq_of_lt ha)
        | no more ↦
            let wraps : a + p - b ≡ a - b + p = omega arith in
            let small : a - b < p = omega arith in
            let sum : b + (a - b) ≡ a = omega arith in
            rw (wraps, add-mod_right (a - b) p, mod-eq_of_lt small, sum) (mod-eq_of_lt ha)
      ])

-- In an unsigned type of 8 bits or more, adding to a register the offset of another gives the
-- other back.
pub reg_add-reg_offset :
    (w : ℕ) (base reg : Reg) → 8 ≤ w → reg_add w base (reg_offset w base reg) ≡ some reg
unfolding reg_add reg_offset
reg_add-reg_offset w base reg h =
    let wide : 2 ^ 8 ≤ 2 ^ w = pow-le-pow_right (omega arith) {i = 8} {j = w} h in
    ap (get_elem? all_regs) (
      offset_back (number reg) (number base) (2 ^ w) (omega (arith, number-lt reg))
        (omega (arith, number-lt base)))
    ∙ get_elem?-number reg
