-- ===== src/Whpx/FromCases.antt =====
-- The cases of TranslateRegisterValue of modules/whpx/src/whpx_regs.cpp, from the hypervisor's values; `none` is no case.
use virt.Base.{Option, none, some}
use virt.Vp.Reg.{Reg}
use virt.Whpx.Names.{Kind, segment_kind, table_kind, reg64_kind, st_kind, mm_kind, xmm_kind}

unfoldable pub from_kind : Reg → Option Kind
from_kind Reg.cs = some segment_kind
from_kind Reg.ss = some segment_kind
from_kind Reg.ds = some segment_kind
from_kind Reg.es = some segment_kind
from_kind Reg.fs = some segment_kind
from_kind Reg.gs = some segment_kind
from_kind Reg.ldtr = some segment_kind
from_kind Reg.tr = some segment_kind
from_kind Reg.gdtr = some table_kind
from_kind Reg.idtr = some table_kind
from_kind Reg.efer = some reg64_kind
from_kind Reg.al = some reg64_kind
from_kind Reg.ah = some reg64_kind
from_kind Reg.cl = some reg64_kind
from_kind Reg.ch = some reg64_kind
from_kind Reg.dl = some reg64_kind
from_kind Reg.dh = some reg64_kind
from_kind Reg.bl = some reg64_kind
from_kind Reg.bh = some reg64_kind
from_kind Reg.spl = some reg64_kind
from_kind Reg.bpl = some reg64_kind
from_kind Reg.sil = some reg64_kind
from_kind Reg.dil = some reg64_kind
from_kind Reg.r8b = some reg64_kind
from_kind Reg.r9b = some reg64_kind
from_kind Reg.r10b = some reg64_kind
from_kind Reg.r11b = some reg64_kind
from_kind Reg.r12b = some reg64_kind
from_kind Reg.r13b = some reg64_kind
from_kind Reg.r14b = some reg64_kind
from_kind Reg.r15b = some reg64_kind
from_kind Reg.ax = some reg64_kind
from_kind Reg.cx = some reg64_kind
from_kind Reg.dx = some reg64_kind
from_kind Reg.bx = some reg64_kind
from_kind Reg.sp = some reg64_kind
from_kind Reg.bp = some reg64_kind
from_kind Reg.si = some reg64_kind
from_kind Reg.di = some reg64_kind
from_kind Reg.r8w = some reg64_kind
from_kind Reg.r9w = some reg64_kind
from_kind Reg.r10w = some reg64_kind
from_kind Reg.r11w = some reg64_kind
from_kind Reg.r12w = some reg64_kind
from_kind Reg.r13w = some reg64_kind
from_kind Reg.r14w = some reg64_kind
from_kind Reg.r15w = some reg64_kind
from_kind Reg.ip = some reg64_kind
from_kind Reg.flags = some reg64_kind
from_kind Reg.eax = some reg64_kind
from_kind Reg.ecx = some reg64_kind
from_kind Reg.edx = some reg64_kind
from_kind Reg.ebx = some reg64_kind
from_kind Reg.esp = some reg64_kind
from_kind Reg.ebp = some reg64_kind
from_kind Reg.esi = some reg64_kind
from_kind Reg.edi = some reg64_kind
from_kind Reg.r8d = some reg64_kind
from_kind Reg.r9d = some reg64_kind
from_kind Reg.r10d = some reg64_kind
from_kind Reg.r11d = some reg64_kind
from_kind Reg.r12d = some reg64_kind
from_kind Reg.r13d = some reg64_kind
from_kind Reg.r14d = some reg64_kind
from_kind Reg.r15d = some reg64_kind
from_kind Reg.eip = some reg64_kind
from_kind Reg.eflags = some reg64_kind
from_kind Reg.rax = some reg64_kind
from_kind Reg.rcx = some reg64_kind
from_kind Reg.rdx = some reg64_kind
from_kind Reg.rbx = some reg64_kind
from_kind Reg.rsp = some reg64_kind
from_kind Reg.rbp = some reg64_kind
from_kind Reg.rsi = some reg64_kind
from_kind Reg.rdi = some reg64_kind
from_kind Reg.r8 = some reg64_kind
from_kind Reg.r9 = some reg64_kind
from_kind Reg.r10 = some reg64_kind
from_kind Reg.r11 = some reg64_kind
from_kind Reg.r12 = some reg64_kind
from_kind Reg.r13 = some reg64_kind
from_kind Reg.r14 = some reg64_kind
from_kind Reg.r15 = some reg64_kind
from_kind Reg.rip = some reg64_kind
from_kind Reg.rflags = some reg64_kind
from_kind Reg.cr0 = some reg64_kind
from_kind Reg.cr2 = some reg64_kind
from_kind Reg.cr3 = some reg64_kind
from_kind Reg.cr4 = some reg64_kind
from_kind Reg.cr8 = some reg64_kind
from_kind Reg.dr0 = some reg64_kind
from_kind Reg.dr1 = some reg64_kind
from_kind Reg.dr2 = some reg64_kind
from_kind Reg.dr3 = some reg64_kind
from_kind Reg.dr6 = some reg64_kind
from_kind Reg.dr7 = some reg64_kind
from_kind Reg.xcr0 = some reg64_kind
from_kind Reg.st0 = some st_kind
from_kind Reg.st1 = some st_kind
from_kind Reg.st2 = some st_kind
from_kind Reg.st3 = some st_kind
from_kind Reg.st4 = some st_kind
from_kind Reg.st5 = some st_kind
from_kind Reg.st6 = some st_kind
from_kind Reg.st7 = some st_kind
from_kind Reg.mm0 = some mm_kind
from_kind Reg.mm1 = some mm_kind
from_kind Reg.mm2 = some mm_kind
from_kind Reg.mm3 = some mm_kind
from_kind Reg.mm4 = some mm_kind
from_kind Reg.mm5 = some mm_kind
from_kind Reg.mm6 = some mm_kind
from_kind Reg.mm7 = some mm_kind
from_kind Reg.xmm0 = some xmm_kind
from_kind Reg.xmm1 = some xmm_kind
from_kind Reg.xmm2 = some xmm_kind
from_kind Reg.xmm3 = some xmm_kind
from_kind Reg.xmm4 = some xmm_kind
from_kind Reg.xmm5 = some xmm_kind
from_kind Reg.xmm6 = some xmm_kind
from_kind Reg.xmm7 = some xmm_kind
from_kind Reg.xmm8 = some xmm_kind
from_kind Reg.xmm9 = some xmm_kind
from_kind Reg.xmm10 = some xmm_kind
from_kind Reg.xmm11 = some xmm_kind
from_kind Reg.xmm12 = some xmm_kind
from_kind Reg.xmm13 = some xmm_kind
from_kind Reg.xmm14 = some xmm_kind
from_kind Reg.xmm15 = some xmm_kind
from_kind _ = none
