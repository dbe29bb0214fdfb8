-- ===== src/Kvm/ReadCases.antt =====
-- The cases of KvmRegRead in modules/kvm/src/kvm_vp.cpp; `none` is its default.
use virt.Base.{Option, none, some}
use virt.Vp.Reg.{Reg}
use virt.Kvm.Regs.{Gpr, SegmentName, TableName, Control}
use virt.Kvm.Place.{
  Place, segment, table, high_byte, low_byte, low_word, double_word, whole, control, debug,
  st_register, mm_register, xmm_register,
}

unfoldable pub read_case : Reg → Option Place
read_case Reg.cs = some (segment SegmentName.cs)
read_case Reg.ss = some (segment SegmentName.ss)
read_case Reg.ds = some (segment SegmentName.ds)
read_case Reg.es = some (segment SegmentName.es)
read_case Reg.fs = some (segment SegmentName.fs)
read_case Reg.gs = some (segment SegmentName.gs)
read_case Reg.ldtr = some (segment SegmentName.ldt)
read_case Reg.tr = some (segment SegmentName.tr)
read_case Reg.gdtr = some (table TableName.gdt)
read_case Reg.idtr = some (table TableName.idt)
read_case Reg.ah = some (high_byte Gpr.rax)
read_case Reg.al = some (low_byte Gpr.rax)
read_case Reg.ch = some (high_byte Gpr.rcx)
read_case Reg.cl = some (low_byte Gpr.rcx)
read_case Reg.dh = some (high_byte Gpr.rdx)
read_case Reg.dl = some (low_byte Gpr.rdx)
read_case Reg.bh = some (high_byte Gpr.rbx)
read_case Reg.bl = some (low_byte Gpr.rbx)
read_case Reg.spl = some (low_byte Gpr.rsp)
read_case Reg.bpl = some (low_byte Gpr.rbp)
read_case Reg.sil = some (low_byte Gpr.rsi)
read_case Reg.dil = some (low_byte Gpr.rdi)
read_case Reg.r8b = some (low_byte Gpr.r8)
read_case Reg.r9b = some (low_byte Gpr.r9)
read_case Reg.r10b = some (low_byte Gpr.r10)
read_case Reg.r11b = some (low_byte Gpr.r11)
read_case Reg.r12b = some (low_byte Gpr.r12)
read_case Reg.r13b = some (low_byte Gpr.r13)
read_case Reg.r14b = some (low_byte Gpr.r14)
read_case Reg.r15b = some (low_byte Gpr.r15)
read_case Reg.ax = some (low_word Gpr.rax)
read_case Reg.cx = some (low_word Gpr.rcx)
read_case Reg.dx = some (low_word Gpr.rdx)
read_case Reg.bx = some (low_word Gpr.rbx)
read_case Reg.si = some (low_word Gpr.rsi)
read_case Reg.di = some (low_word Gpr.rdi)
read_case Reg.sp = some (low_word Gpr.rsp)
read_case Reg.bp = some (low_word Gpr.rbp)
read_case Reg.r8w = some (low_word Gpr.r8)
read_case Reg.r9w = some (low_word Gpr.r9)
read_case Reg.r10w = some (low_word Gpr.r10)
read_case Reg.r11w = some (low_word Gpr.r11)
read_case Reg.r12w = some (low_word Gpr.r12)
read_case Reg.r13w = some (low_word Gpr.r13)
read_case Reg.r14w = some (low_word Gpr.r14)
read_case Reg.r15w = some (low_word Gpr.r15)
read_case Reg.ip = some (low_word Gpr.rip)
read_case Reg.flags = some (low_word Gpr.rflags)
read_case Reg.eax = some (double_word Gpr.rax)
read_case Reg.ecx = some (double_word Gpr.rcx)
read_case Reg.edx = some (double_word Gpr.rdx)
read_case Reg.ebx = some (double_word Gpr.rbx)
read_case Reg.esi = some (double_word Gpr.rsi)
read_case Reg.edi = some (double_word Gpr.rdi)
read_case Reg.esp = some (double_word Gpr.rsp)
read_case Reg.ebp = some (double_word Gpr.rbp)
read_case Reg.r8d = some (double_word Gpr.r8)
read_case Reg.r9d = some (double_word Gpr.r9)
read_case Reg.r10d = some (double_word Gpr.r10)
read_case Reg.r11d = some (double_word Gpr.r11)
read_case Reg.r12d = some (double_word Gpr.r12)
read_case Reg.r13d = some (double_word Gpr.r13)
read_case Reg.r14d = some (double_word Gpr.r14)
read_case Reg.r15d = some (double_word Gpr.r15)
read_case Reg.eip = some (double_word Gpr.rip)
read_case Reg.eflags = some (double_word Gpr.rflags)
read_case Reg.rax = some (whole Gpr.rax)
read_case Reg.rcx = some (whole Gpr.rcx)
read_case Reg.rdx = some (whole Gpr.rdx)
read_case Reg.rbx = some (whole Gpr.rbx)
read_case Reg.rsi = some (whole Gpr.rsi)
read_case Reg.rdi = some (whole Gpr.rdi)
read_case Reg.rsp = some (whole Gpr.rsp)
read_case Reg.rbp = some (whole Gpr.rbp)
read_case Reg.r8 = some (whole Gpr.r8)
read_case Reg.r9 = some (whole Gpr.r9)
read_case Reg.r10 = some (whole Gpr.r10)
read_case Reg.r11 = some (whole Gpr.r11)
read_case Reg.r12 = some (whole Gpr.r12)
read_case Reg.r13 = some (whole Gpr.r13)
read_case Reg.r14 = some (whole Gpr.r14)
read_case Reg.r15 = some (whole Gpr.r15)
read_case Reg.rip = some (whole Gpr.rip)
read_case Reg.rflags = some (whole Gpr.rflags)
read_case Reg.cr0 = some (control Control.cr0)
read_case Reg.cr2 = some (control Control.cr2)
read_case Reg.cr3 = some (control Control.cr3)
read_case Reg.cr4 = some (control Control.cr4)
read_case Reg.dr0 = some (debug 0)
read_case Reg.dr1 = some (debug 1)
read_case Reg.dr2 = some (debug 2)
read_case Reg.dr3 = some (debug 3)
read_case Reg.dr6 = some (debug 6)
read_case Reg.dr7 = some (debug 7)
read_case Reg.efer = some (control Control.efer)
read_case Reg.st0 = some (st_register 0)
read_case Reg.st1 = some (st_register 1)
read_case Reg.st2 = some (st_register 2)
read_case Reg.st3 = some (st_register 3)
read_case Reg.st4 = some (st_register 4)
read_case Reg.st5 = some (st_register 5)
read_case Reg.st6 = some (st_register 6)
read_case Reg.st7 = some (st_register 7)
read_case Reg.mm0 = some (mm_register 0)
read_case Reg.mm1 = some (mm_register 1)
read_case Reg.mm2 = some (mm_register 2)
read_case Reg.mm3 = some (mm_register 3)
read_case Reg.mm4 = some (mm_register 4)
read_case Reg.mm5 = some (mm_register 5)
read_case Reg.mm6 = some (mm_register 6)
read_case Reg.mm7 = some (mm_register 7)
read_case Reg.xmm0 = some (xmm_register 0)
read_case Reg.xmm1 = some (xmm_register 1)
read_case Reg.xmm2 = some (xmm_register 2)
read_case Reg.xmm3 = some (xmm_register 3)
read_case Reg.xmm4 = some (xmm_register 4)
read_case Reg.xmm5 = some (xmm_register 5)
read_case Reg.xmm6 = some (xmm_register 6)
read_case Reg.xmm7 = some (xmm_register 7)
read_case Reg.xmm8 = some (xmm_register 8)
read_case Reg.xmm9 = some (xmm_register 9)
read_case Reg.xmm10 = some (xmm_register 10)
read_case Reg.xmm11 = some (xmm_register 11)
read_case Reg.xmm12 = some (xmm_register 12)
read_case Reg.xmm13 = some (xmm_register 13)
read_case Reg.xmm14 = some (xmm_register 14)
read_case Reg.xmm15 = some (xmm_register 15)
read_case _ = none
