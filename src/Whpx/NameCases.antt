-- ===== src/Whpx/NameCases.antt =====
-- TranslateRegisterName of modules/whpx/src/whpx_regs.cpp. `none` is the status Unsupported, and `rs5` is that
-- the version of WHPX is at least 10.0.17763.0.
use virt.Base.{Bool, if◌then◌else◌, Option, none, some}
use virt.Vp.Reg.{Reg}
use virt.Kvm.Regs.{Gpr, SegmentName, TableName, Control}
use virt.Whpx.Names.{Name, segment, table, gpr, control, cr8, xcr0, debug, fp_mmx, xmm}

unfoldable pub translate_register_name : Bool → Reg → Option Name
translate_register_name rs5 Reg.cs = some (segment SegmentName.cs)
translate_register_name rs5 Reg.ss = some (segment SegmentName.ss)
translate_register_name rs5 Reg.ds = some (segment SegmentName.ds)
translate_register_name rs5 Reg.es = some (segment SegmentName.es)
translate_register_name rs5 Reg.fs = some (segment SegmentName.fs)
translate_register_name rs5 Reg.gs = some (segment SegmentName.gs)
translate_register_name rs5 Reg.ldtr = some (segment SegmentName.ldt)
translate_register_name rs5 Reg.tr = some (segment SegmentName.tr)
translate_register_name rs5 Reg.gdtr = some (table TableName.gdt)
translate_register_name rs5 Reg.idtr = some (table TableName.idt)
translate_register_name rs5 Reg.al = some (gpr Gpr.rax)
translate_register_name rs5 Reg.ah = some (gpr Gpr.rax)
translate_register_name rs5 Reg.ax = some (gpr Gpr.rax)
translate_register_name rs5 Reg.eax = some (gpr Gpr.rax)
translate_register_name rs5 Reg.rax = some (gpr Gpr.rax)
translate_register_name rs5 Reg.cl = some (gpr Gpr.rcx)
translate_register_name rs5 Reg.ch = some (gpr Gpr.rcx)
translate_register_name rs5 Reg.cx = some (gpr Gpr.rcx)
translate_register_name rs5 Reg.ecx = some (gpr Gpr.rcx)
translate_register_name rs5 Reg.rcx = some (gpr Gpr.rcx)
translate_register_name rs5 Reg.dl = some (gpr Gpr.rdx)
translate_register_name rs5 Reg.dh = some (gpr Gpr.rdx)
translate_register_name rs5 Reg.dx = some (gpr Gpr.rdx)
translate_register_name rs5 Reg.edx = some (gpr Gpr.rdx)
translate_register_name rs5 Reg.rdx = some (gpr Gpr.rdx)
translate_register_name rs5 Reg.bl = some (gpr Gpr.rbx)
translate_register_name rs5 Reg.bh = some (gpr Gpr.rbx)
translate_register_name rs5 Reg.bx = some (gpr Gpr.rbx)
translate_register_name rs5 Reg.ebx = some (gpr Gpr.rbx)
translate_register_name rs5 Reg.rbx = some (gpr Gpr.rbx)
translate_register_name rs5 Reg.spl = some (gpr Gpr.rsp)
translate_register_name rs5 Reg.sp = some (gpr Gpr.rsp)
translate_register_name rs5 Reg.esp = some (gpr Gpr.rsp)
translate_register_name rs5 Reg.rsp = some (gpr Gpr.rsp)
translate_register_name rs5 Reg.bpl = some (gpr Gpr.rbp)
translate_register_name rs5 Reg.bp = some (gpr Gpr.rbp)
translate_register_name rs5 Reg.ebp = some (gpr Gpr.rbp)
translate_register_name rs5 Reg.rbp = some (gpr Gpr.rbp)
translate_register_name rs5 Reg.sil = some (gpr Gpr.rsi)
translate_register_name rs5 Reg.si = some (gpr Gpr.rsi)
translate_register_name rs5 Reg.esi = some (gpr Gpr.rsi)
translate_register_name rs5 Reg.rsi = some (gpr Gpr.rsi)
translate_register_name rs5 Reg.dil = some (gpr Gpr.rdi)
translate_register_name rs5 Reg.di = some (gpr Gpr.rdi)
translate_register_name rs5 Reg.edi = some (gpr Gpr.rdi)
translate_register_name rs5 Reg.rdi = some (gpr Gpr.rdi)
translate_register_name rs5 Reg.r8b = some (gpr Gpr.r8)
translate_register_name rs5 Reg.r8w = some (gpr Gpr.r8)
translate_register_name rs5 Reg.r8d = some (gpr Gpr.r8)
translate_register_name rs5 Reg.r8 = some (gpr Gpr.r8)
translate_register_name rs5 Reg.r9b = some (gpr Gpr.r9)
translate_register_name rs5 Reg.r9w = some (gpr Gpr.r9)
translate_register_name rs5 Reg.r9d = some (gpr Gpr.r9)
translate_register_name rs5 Reg.r9 = some (gpr Gpr.r9)
translate_register_name rs5 Reg.r10b = some (gpr Gpr.r10)
translate_register_name rs5 Reg.r10w = some (gpr Gpr.r10)
translate_register_name rs5 Reg.r10d = some (gpr Gpr.r10)
translate_register_name rs5 Reg.r10 = some (gpr Gpr.r10)
translate_register_name rs5 Reg.r11b = some (gpr Gpr.r11)
translate_register_name rs5 Reg.r11w = some (gpr Gpr.r11)
translate_register_name rs5 Reg.r11d = some (gpr Gpr.r11)
translate_register_name rs5 Reg.r11 = some (gpr Gpr.r11)
translate_register_name rs5 Reg.r12b = some (gpr Gpr.r12)
translate_register_name rs5 Reg.r12w = some (gpr Gpr.r12)
translate_register_name rs5 Reg.r12d = some (gpr Gpr.r12)
translate_register_name rs5 Reg.r12 = some (gpr Gpr.r12)
translate_register_name rs5 Reg.r13b = some (gpr Gpr.r13)
translate_register_name rs5 Reg.r13w = some (gpr Gpr.r13)
translate_register_name rs5 Reg.r13d = some (gpr Gpr.r13)
translate_register_name rs5 Reg.r13 = some (gpr Gpr.r13)
translate_register_name rs5 Reg.r14b = some (gpr Gpr.r14)
translate_register_name rs5 Reg.r14w = some (gpr Gpr.r14)
translate_register_name rs5 Reg.r14d = some (gpr Gpr.r14)
translate_register_name rs5 Reg.r14 = some (gpr Gpr.r14)
translate_register_name rs5 Reg.r15b = some (gpr Gpr.r15)
translate_register_name rs5 Reg.r15w = some (gpr Gpr.r15)
translate_register_name rs5 Reg.r15d = some (gpr Gpr.r15)
translate_register_name rs5 Reg.r15 = some (gpr Gpr.r15)
translate_register_name rs5 Reg.ip = some (gpr Gpr.rip)
translate_register_name rs5 Reg.eip = some (gpr Gpr.rip)
translate_register_name rs5 Reg.rip = some (gpr Gpr.rip)
translate_register_name rs5 Reg.flags = some (gpr Gpr.rflags)
translate_register_name rs5 Reg.eflags = some (gpr Gpr.rflags)
translate_register_name rs5 Reg.rflags = some (gpr Gpr.rflags)
translate_register_name rs5 Reg.cr0 = some (control Control.cr0)
translate_register_name rs5 Reg.cr2 = some (control Control.cr2)
translate_register_name rs5 Reg.cr3 = some (control Control.cr3)
translate_register_name rs5 Reg.cr4 = some (control Control.cr4)
translate_register_name rs5 Reg.cr8 = some cr8
translate_register_name rs5 Reg.efer = some (control Control.efer)
translate_register_name rs5 Reg.xcr0 = if rs5 then some xcr0 else none
translate_register_name rs5 Reg.dr0 = some (debug 0)
translate_register_name rs5 Reg.dr1 = some (debug 1)
translate_register_name rs5 Reg.dr2 = some (debug 2)
translate_register_name rs5 Reg.dr3 = some (debug 3)
translate_register_name rs5 Reg.dr6 = some (debug 6)
translate_register_name rs5 Reg.dr7 = some (debug 7)
translate_register_name rs5 Reg.st0 = some (fp_mmx 0)
translate_register_name rs5 Reg.mm0 = some (fp_mmx 0)
translate_register_name rs5 Reg.st1 = some (fp_mmx 1)
translate_register_name rs5 Reg.mm1 = some (fp_mmx 1)
translate_register_name rs5 Reg.st2 = some (fp_mmx 2)
translate_register_name rs5 Reg.mm2 = some (fp_mmx 2)
translate_register_name rs5 Reg.st3 = some (fp_mmx 3)
translate_register_name rs5 Reg.mm3 = some (fp_mmx 3)
translate_register_name rs5 Reg.st4 = some (fp_mmx 4)
translate_register_name rs5 Reg.mm4 = some (fp_mmx 4)
translate_register_name rs5 Reg.st5 = some (fp_mmx 5)
translate_register_name rs5 Reg.mm5 = some (fp_mmx 5)
translate_register_name rs5 Reg.st6 = some (fp_mmx 6)
translate_register_name rs5 Reg.mm6 = some (fp_mmx 6)
translate_register_name rs5 Reg.st7 = some (fp_mmx 7)
translate_register_name rs5 Reg.mm7 = some (fp_mmx 7)
translate_register_name rs5 Reg.xmm0 = some (xmm 0)
translate_register_name rs5 Reg.xmm1 = some (xmm 1)
translate_register_name rs5 Reg.xmm2 = some (xmm 2)
translate_register_name rs5 Reg.xmm3 = some (xmm 3)
translate_register_name rs5 Reg.xmm4 = some (xmm 4)
translate_register_name rs5 Reg.xmm5 = some (xmm 5)
translate_register_name rs5 Reg.xmm6 = some (xmm 6)
translate_register_name rs5 Reg.xmm7 = some (xmm 7)
translate_register_name rs5 Reg.xmm8 = some (xmm 8)
translate_register_name rs5 Reg.xmm9 = some (xmm 9)
translate_register_name rs5 Reg.xmm10 = some (xmm 10)
translate_register_name rs5 Reg.xmm11 = some (xmm 11)
translate_register_name rs5 Reg.xmm12 = some (xmm 12)
translate_register_name rs5 Reg.xmm13 = some (xmm 13)
translate_register_name rs5 Reg.xmm14 = some (xmm 14)
translate_register_name rs5 Reg.xmm15 = some (xmm 15)
translate_register_name rs5 _ = none
