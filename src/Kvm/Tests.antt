-- ===== src/Kvm/Tests.antt =====
-- A kernel that keeps what it is given, and runs of the backend on it.
use virt.Base.{
  ℕ, ◌<◌, bit_or, ◌+◌, ◌==◌, ◌≡◌, refl, ◌^◌, arith, true, false, none, some, List, [], ◌∷◌,
}
use virt.Vm.Region.{Bytes}
use virt.Vm.Io.{IoHandlers, io_write}
use virt.Vp.Status.{VpExecutionStatus, VmExitReason}
use virt.Vp.Layout.{load, store}
use virt.Vp.Reg.{Reg}
use virt.Vp.Registers.{RegValue}
use virt.Kvm.Regs.{Gpr, KvmRegs, KvmSegment, KvmSregs, KvmDebugRegs, KvmFpu}
use virt.Kvm.Place.{Place, Cache, write_place}
use virt.Kvm.WriteCases.{write_case}
use virt.Kvm.Switch.{kvm_reg_read, kvm_reg_write}
use virt.Kvm.Switch.RoundTrip.{Agree, fields, kvm_reg_read-kvm_reg_write}
use virt.Kvm.Switch.Merge.{merged, kvm_reg_write-merged}
use virt.Kvm.Vcpu.{Kernel, Vcpu, update_registers, refresh_registers, refreshed, reg_write}
use virt.Kvm.Vcpu.Coherence.{KernelLaws, Coherent, Shown}
use virt.Kvm.State.{ExitReason, KvmRun, Exec, Calls}
use virt.Kvm.Exit.{io_item, io_items, handle_io, handle_exec_result}
use virt.Kvm.Exit.Items.{items, io_writes, handle_io-out}
use virt.Kvm.Debug.{Breakpoint, any_enabled, set_debug, set_hardware_breakpoints}
use virt.Kvm.Debug.Fields.{Dr7Field, field, set_hardware_breakpoints-fields}
use virt.Kvm.Run.{enter_guest, run_impl, step_impl}
use virt.Kvm.Run.Steps.{Session, run_impl-session}
use virt.Kvm.Run.Twice.{output, step_impl-twice}
use virt.Kvm.Controls.{FpuControl, set_fpu_control}
use virt.Kvm.Controls.Lost.{set_fpu_control-lost}

record Kept : Type 0 where
  regs : KvmRegs
  sregs : KvmSregs
  debug : KvmDebugRegs
  fpu : KvmFpu

abbrev kept_kernel : Kernel Kept
kept_kernel = record {
  get_regs = λ s. some s.regs;
  get_sregs = λ s. some s.sregs;
  get_debug_regs = λ s. some s.debug;
  get_fpu = λ s. some s.fpu;
  set_regs = λ r s. (true, record s { regs = r });
  set_sregs = λ r s. (true, record s { sregs = r });
  set_debug_regs = λ r s. (true, record s { debug = r });
  set_fpu = λ r s. (true, record s { fpu = r });
}

kept_kernel-KernelLaws : KernelLaws kept_kernel
kept_kernel-KernelLaws = record {
  regs_set = λ r s _. refl;
  regs_failed = λ r s e. grind arith;
  regs_sregs = λ r s. refl;
  regs_debug = λ r s. refl;
  regs_fpu = λ r s. refl;
  sregs_set = λ r s _. refl;
  sregs_failed = λ r s e. grind arith;
  sregs_regs = λ r s. refl;
  sregs_debug = λ r s. refl;
  sregs_fpu = λ r s. refl;
  debug_set = λ r s _. refl;
  debug_failed = λ r s e. grind arith;
  debug_regs = λ r s. refl;
  debug_sregs = λ r s. refl;
  debug_fpu = λ r s. refl;
  fpu_set = λ r s _. refl;
  fpu_failed = λ r s e. grind arith;
  fpu_regs = λ r s. refl;
  fpu_sregs = λ r s. refl;
  fpu_debug = λ r s. refl;
}

abbrev zero_block : Bytes
zero_block i = 0

abbrev some_regs : KvmRegs
some_regs Gpr.rax = 0x1122334455667788
some_regs _ = 7

abbrev flat : KvmSegment
flat = record {
  base = 0;
  limit = 0xffffffff;
  selector = 8;
  type = 11;
  present = 1;
  dpl = 0;
  db = 1;
  s = 1;
  l = 0;
  g = 1;
  avl = 0;
}

abbrev some_sregs : KvmSregs
some_sregs = record {
  segments = λ _. flat;
  tables = λ _. record { base = 0; limit = 0 };
  controls = λ _. 0;
}

abbrev some_fpu : KvmFpu
some_fpu = record {
  fpr = λ _. zero_block;
  fcw = 0x37f;
  fsw = 0;
  ftwx = 0;
  last_opcode = 0;
  last_ip = 0;
  last_dp = 0;
  xmm = λ _. zero_block;
  mxcsr = 0x1f80;
}

abbrev some_cache : Cache
some_cache = record {
  regs = some_regs;
  sregs = some_sregs;
  debug_regs = λ _. 0;
  fpu_regs = some_fpu;
  regs_changed = false;
  sregs_changed = false;
  debug_regs_changed = false;
  fpu_regs_changed = false;
}

abbrev some_kept : Kept
some_kept = record { regs = some_regs; sregs = some_sregs; debug = λ _. 0; fpu = some_fpu }

abbrev some_vcpu : Vcpu Kept
some_vcpu = record { cache = some_cache; regs_dirty = false; kernel = some_kept }

some_vcpu-Coherent : Coherent kept_kernel some_vcpu
some_vcpu-Coherent = record {
  dirty_regs = λ _. refl;
  dirty_sregs = λ _. refl;
  dirty_debug = λ _. refl;
  dirty_fpu = λ _. refl;
  held_regs = λ _ _. refl;
  held_sregs = λ _ _. refl;
  held_debug = λ _ _. refl;
  held_fpu = λ _ _. refl;
}

abbrev word : RegValue
word i = 0xaa

abbrev clear_value : RegValue
clear_value i = 0

some_regs-small : (r : Gpr) → some_regs r < 2 ^ 64
some_regs-small Gpr.rax = omega arith
some_regs-small _ = omega arith

-- A write to AH.
kvm_reg_read-kvm_reg_write_example :
    ((kvm_reg_write Reg.ah word some_cache).0 ≡ none)
    × ((kvm_reg_read (kvm_reg_write Reg.ah word some_cache).1 Reg.ah clear_value).0 ≡ none)
    × Agree
        (kvm_reg_read (kvm_reg_write Reg.ah word some_cache).1 Reg.ah clear_value).1
        word
        (fields (Place.high_byte Gpr.rax))
kvm_reg_read-kvm_reg_write_example =
    kvm_reg_read-kvm_reg_write Reg.ah (Place.high_byte Gpr.rax) word clear_value some_cache
      some_regs-small (unfold write_case in refl)

kvm_reg_write-merged_example :
    ((kvm_reg_write Reg.ah word some_cache).0 ≡ none)
    × ((kvm_reg_write Reg.ah word some_cache).1.regs Gpr.rax
        ≡ merged (Place.high_byte Gpr.rax) word some_regs Gpr.rax)
unfolding virt.Vp.Reg.reg_between virt.Vp.Reg.number
kvm_reg_write-merged_example =
    kvm_reg_write-merged Reg.ah (Place.high_byte Gpr.rax) word some_cache Gpr.rax some_regs-small
      refl

-- Callbacks that keep what they are given: the port, the size and the value.
abbrev logging : IoHandlers (List (ℕ × ℕ × ℕ))
logging = record {
  io_read_func = λ context port size log. (0x1234, (port, size, 0) ∷ log);
  io_write_func = λ context port size value log. (port, size, value) ∷ log;
  mmio_read_func = λ context address size log. (0, log);
  mmio_write_func = λ context address size value log. log;
  context = 0;
}

-- Two words for port 0x3f8, at offset 16 of the page.
abbrev two_words : KvmRun
two_words = record {
  exit_reason = ExitReason.io;
  exception = 0;
  out = true;
  size = 2;
  port = 0x3f8;
  count = 2;
  data_offset = 16;
  phys_addr = 0;
  len = 0;
  is_write = false;
  data_bytes = zero_block;
  dr6 = 0;
  pc = 0;
  request_interrupt_window = 0;
  ready_for_interrupt_injection = 1;
  page = store (store zero_block 16 2 0xabcd) 18 2 0x55;
}

two_words_written :
    io_writes logging 0x3f8 2 (items two_words.page 16 2 2) []
    ≡ (0x3f8, 2, 0x55) ∷ (0x3f8, 2, 0xabcd) ∷ []
unfolding store load io_write
two_words_written = refl

handle_io-out_example :
    handle_io logging two_words []
    ≡ some (two_words, io_writes logging 0x3f8 2 (items two_words.page 16 2 2) [])
handle_io-out_example = handle_io-out logging two_words [] refl refl (omega arith)

abbrev two_reads : KvmRun
two_reads = record two_words { out = false }

-- A guest that at every entry writes the two words.
abbrev writing_calls : Calls Kept
writing_calls = record {
  run = λ r s. (true, two_words, record s { regs = λ _. 1 });
  set_guest_debug = λ d s. (true, s);
  interrupt = λ v s. (true, s);
}

abbrev some_exec : Exec Kept (List (ℕ × ℕ × ℕ))
some_exec = record {
  vcpu = some_vcpu;
  kvm_run = two_words;
  debug = record {
    enable = false;
    single_step = false;
    use_sw_bp = false;
    use_hw_bp = false;
    debugreg = λ _. 0;
  };
  exit_info = record { reason = VmExitReason.normal; exception_code = 0 };
  world = [];
}

abbrev after_run : Exec Kept (List (ℕ × ℕ × ℕ)) → Exec Kept (List (ℕ × ℕ × ℕ))
after_run x = record x {
  vcpu = record (update_registers kept_kernel x.vcpu).1 {
    regs_dirty = true;
    kernel = record (update_registers kept_kernel x.vcpu).1.kernel { regs = λ _. 1 };
  };
  kvm_run = two_words;
  exit_info = record x.exit_info { reason = VmExitReason.pio };
  world = io_writes logging 0x3f8 2 (items two_words.page 16 2 2) x.world;
}

run_once :
    run_impl kept_kernel writing_calls logging some_exec
    ≡ some (VpExecutionStatus.ok, after_run some_exec)
unfolding run_impl enter_guest update_registers handle_exec_result handle_io io_items io_item
run_once = refl

abbrev after_write : Exec Kept (List (ℕ × ℕ × ℕ))
after_write = record (after_run some_exec) {
  vcpu = (reg_write kept_kernel Reg.rax word (after_run some_exec).vcpu).1;
}

run_twice :
    run_impl kept_kernel writing_calls logging after_write
    ≡ some (VpExecutionStatus.ok, after_run after_write)
unfolding run_impl enter_guest update_registers handle_exec_result handle_io io_items io_item
    reg_write refreshed refresh_registers kvm_reg_write write_case write_place
run_twice = refl

-- The guest runs, RAX is written, and the guest runs again.
run_impl-session_example :
    (s : Kept) × Shown kept_kernel s after_write.vcpu
    × ((writing_calls.run after_write.kvm_run s).0 ≡ true)
    × ((after_run after_write).vcpu.kernel ≡ (writing_calls.run after_write.kvm_run s).2)
run_impl-session_example =
    run_impl-session kept_kernel writing_calls logging kept_kernel-KernelLaws some_exec
      (after_run some_exec) after_write (after_run after_write) run_once
      (Session.write Reg.rax word Session.start) run_twice

step_impl-twice_example :
    (y : Exec Kept (List (ℕ × ℕ × ℕ))) × (step_impl kept_kernel writing_calls logging some_exec
      ≡ some (VpExecutionStatus.ok, y))
    × (y.world ≡ output logging two_words (output logging two_words []))
step_impl-twice_example =
    step_impl-twice kept_kernel writing_calls logging some_exec two_words
      (record some_kept { regs = λ _. 1 }) (λ d t. refl)
      (unfold update_registers in unfold set_debug in refl)
      (unfold update_registers in unfold set_debug in refl)
      (record { reason = refl; out = refl; size = refl; count = omega arith })

abbrev watch : ℕ → Breakpoint
watch i = record {
  address = 0x1000 + i;
  local_enable = i == 2;
  global_enable = false;
  trigger = 1;
  length = 3;
}

set_hardware_breakpoints-fields_example :
    ((set_hardware_breakpoints writing_calls watch some_exec).1.debug.debugreg 2 ≡ 0x1002)
    × (field Dr7Field.size 2
          ((set_hardware_breakpoints writing_calls watch some_exec).1.debug.debugreg 7)
        ≡ bit_or (field Dr7Field.size 2 0) 3)
set_hardware_breakpoints-fields_example =
    set_hardware_breakpoints-fields writing_calls watch some_exec Dr7Field.size 2 (omega arith)
      (unfold any_enabled in refl)

abbrev single_precision : FpuControl
single_precision = record { cw = 0x7f; sw = 0; tw = 0; op = 0; cs = 0; rip = 0; ds = 0; rdp = 0 }

set_fpu_control-lost_example :
    some
      (update_registers kept_kernel
        (set_fpu_control kept_kernel single_precision some_vcpu).1).1.kernel.fpu
    ≡ some some_fpu
set_fpu_control-lost_example =
    set_fpu_control-lost kept_kernel kept_kernel-KernelLaws single_precision some_vcpu
      some_vcpu-Coherent refl
      (unfold set_fpu_control in unfold refreshed in unfold refresh_registers in refl)
      (unfold update_registers in
        unfold set_fpu_control in unfold refreshed in unfold refresh_registers in refl)
