-- ===== src/Whpx/IntoCases.antt =====
-- The cases of TranslateRegisterValue of modules/whpx/src/whpx_regs.cpp, into the hypervisor's values; `none` is no case.
use virt.Base.{Option, none, some}
use virt.Vp.Reg.{Reg}
use virt.Whpx.Names.{
  Kind, segment_kind, table_kind, low_byte_kind, high_byte_kind, low_word_kind, double_word_kind,
  reg64_kind, st_kind, mm_kind, xmm_kind,
}

unfoldable pub into_kind : Reg → Option Kind
into_kind Reg.cs = some segment_kind
into_kind Reg.ss = some segment_kind
into_kind Reg.ds = some segment_kind
into_kind Reg.es = some segment_kind
into_kind Reg.fs = some segment_kind
into_kind Reg.gs = some segment_kind
into_kind Reg.ldtr = some segment_kind
into_kind Reg.tr = some segment_kind
into_kind Reg.gdtr = some table_kind
into_kind Reg.idtr = some table_kind
into_kind Reg.efer = some reg64_kind
into_kind Reg.al = some low_byte_kind
into_kind Reg.cl = some low_byte_kind
into_kind Reg.dl = some low_byte_kind
into_kind Reg.bl = some low_byte_kind
into_kind Reg.spl = some low_byte_kind
into_kind Reg.bpl = some low_byte_kind
into_kind Reg.sil = some low_byte_kind
into_kind Reg.dil = some low_byte_kind
into_kind Reg.r8b = some low_byte_kind
into_kind Reg.r9b = some low_byte_kind
into_kind Reg.r10b = some low_byte_kind
into_kind Reg.r11b = some low_byte_kind
into_kind Reg.r12b = some low_byte_kind
into_kind Reg.r13b = some low_byte_kind
into_kind Reg.r14b = some low_byte_kind
into_kind Reg.r15b = some low_byte_kind
into_kind Reg.ah = some high_byte_kind
into_kind Reg.ch = some high_byte_kind
into_kind Reg.dh = some high_byte_kind
into_kind Reg.bh = some high_byte_kind
into_kind Reg.ax = some low_word_kind
into_kind Reg.cx = some low_word_kind
into_kind Reg.dx = some low_word_kind
into_kind Reg.bx = some low_word_kind
into_kind Reg.sp = some low_word_kind
into_kind Reg.bp = some low_word_kind
into_kind Reg.si = some low_word_kind
into_kind Reg.di = some low_word_kind
into_kind Reg.r8w = some low_word_kind
into_kind Reg.r9w = some low_word_kind
into_kind Reg.r10w = some low_word_kind
into_kind Reg.r11w = some low_word_kind
into_kind Reg.r12w = some low_word_kind
into_kind Reg.r13w = some low_word_kind
into_kind Reg.r14w = some low_word_kind
into_kind Reg.r15w = some low_word_kind
into_kind Reg.ip = some low_word_kind
into_kind Reg.flags = some low_word_kind
into_kind Reg.eax = some double_word_kind
into_kind Reg.ecx = some double_word_kind
into_kind Reg.edx = some double_word_kind
into_kind Reg.ebx = some double_word_kind
into_kind Reg.esp = some double_word_kind
into_kind Reg.ebp = some double_word_kind
into_kind Reg.esi = some double_word_kind
into_kind Reg.edi = some double_word_kind
into_kind Reg.r8d = some double_word_kind
into_kind Reg.r9d = some double_word_kind
into_kind Reg.r10d = some double_word_kind
into_kind Reg.r11d = some double_word_kind
into_kind Reg.r12d = some double_word_kind
into_kind Reg.r13d = some double_word_kind
into_kind Reg.r14d = some double_word_kind
into_kind Reg.r15d = some double_word_kind
into_kind Reg.eip = some double_word_kind
into_kind Reg.eflags = some double_word_kind
into_kind Reg.rax = some reg64_kind
into_kind Reg.rcx = some reg64_kind
into_kind Reg.rdx = some reg64_kind
into_kind Reg.rbx = some reg64_kind
into_kind Reg.rsp = some reg64_kind
into_kind Reg.rbp = some reg64_kind
into_kind Reg.rsi = some reg64_kind
into_kind Reg.rdi = some reg64_kind
into_kind Reg.r8 = some reg64_kind
into_kind Reg.r9 = some reg64_kind
into_kind Reg.r10 = some reg64_kind
into_kind Reg.r11 = some reg64_kind
into_kind Reg.r12 = some reg64_kind
into_kind Reg.r13 = some reg64_kind
into_kind Reg.r14 = some reg64_kind
into_kind Reg.r15 = some reg64_kind
into_kind Reg.rip = some reg64_kind
into_kind Reg.rflags = some reg64_kind
into_kind Reg.cr0 = some reg64_kind
into_kind Reg.cr2 = some reg64_kind
into_kind Reg.cr3 = some reg64_kind
into_kind Reg.cr4 = some reg64_kind
into_kind Reg.cr8 = some reg64_kind
into_kind Reg.dr0 = some reg64_kind
into_kind Reg.dr1 = some reg64_kind
into_kind Reg.dr2 = some reg64_kind
into_kind Reg.dr3 = some reg64_kind
into_kind Reg.dr6 = some reg64_kind
into_kind Reg.dr7 = some reg64_kind
into_kind Reg.xcr0 = some reg64_kind
into_kind Reg.st0 = some st_kind
into_kind Reg.st1 = some st_kind
into_kind Reg.st2 = some st_kind
into_kind Reg.st3 = some st_kind
into_kind Reg.st4 = some st_kind
into_kind Reg.st5 = some st_kind
into_kind Reg.st6 = some st_kind
into_kind Reg.st7 = some st_kind
into_kind Reg.mm0 = some mm_kind
into_kind Reg.mm1 = some mm_kind
into_kind Reg.mm2 = some mm_kind
into_kind Reg.mm3 = some mm_kind
into_kind Reg.mm4 = some mm_kind
into_kind Reg.mm5 = some mm_kind
into_kind Reg.mm6 = some mm_kind
into_kind Reg.mm7 = some mm_kind
into_kind Reg.xmm0 = some xmm_kind
into_kind Reg.xmm1 = some xmm_kind
into_kind Reg.xmm2 = some xmm_kind
into_kind Reg.xmm3 = some xmm_kind
into_kind Reg.xmm4 = some xmm_kind
into_kind Reg.xmm5 = some xmm_kind
into_kind Reg.xmm6 = some xmm_kind
into_kind Reg.xmm7 = some xmm_kind
into_kind Reg.xmm8 = some xmm_kind
into_kind Reg.xmm9 = some xmm_kind
into_kind Reg.xmm10 = some xmm_kind
into_kind Reg.xmm11 = some xmm_kind
into_kind Reg.xmm12 = some xmm_kind
into_kind Reg.xmm13 = some xmm_kind
into_kind Reg.xmm14 = some xmm_kind
into_kind Reg.xmm15 = some xmm_kind
into_kind _ = none
