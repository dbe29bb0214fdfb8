-- ===== src/Haxm/RegisterTests.antt =====
-- Registers on HAXM, with a driver that keeps them.
use virt.Base.{ℕ, ◌≡◌, refl, true, false, none, some, arith}
use virt.Vm.Region.{Bytes}
use virt.Vm.Io.{IoHandlers}
use virt.Vp.Layout.{load}
use virt.Vp.Status.{VmExitReason}
use virt.Vp.Reg.{Reg, number, reg_between}
use virt.Vp.Registers.{RegValue}
use virt.Kvm.Regs.{Gpr, Control}
use virt.Kvm.Place as KvmPlace
use virt.Kvm.Switch.{kvm_reg_write}
use virt.Kvm.Switch.Merge.{merged}
use virt.Kvm.Switch.RoundTrip.{Agree}
use virt.Haxm.Regs.{VcpuState, FxLayout}
use virt.Haxm.State.{ExitStatus, SysImpl, HaxmVp}
use virt.Haxm.Run.{refresh_registers}
use virt.Haxm.Msrs.{MsrDriver}
use virt.Haxm.Place.{byte_word, Cache, write_place}
use virt.Haxm.WriteCases.{write_case}
use virt.Haxm.Switch.{haxm_reg_write}
use virt.Haxm.Switch.RoundTrip.{kept_value, fields}
use virt.Haxm.Switch.Merge.{haxm_reg_write-kvm_reg_write}
use virt.Haxm.Registers.{reg_read, reg_write}
use virt.Haxm.Registers.Kept.{reg_read-kept_value}
use virt.Haxm.Create.{probe_efer}
use virt.Haxm.Create.Efer.{Remembers, probe_efer-not}

-- All general registers are 0x1122334455667788.
abbrev state : VcpuState
state = record {
  regs = λ r. 0x1122_3344_5566_7788;
  segments = λ s. record { selector = 0; limit = 0; base = 0; ar = 0 };
  tables = λ t. record { selector = 0; limit = 0; base = 0; ar = 0 };
  controls = λ c. 0;
  debug = λ i. 0;
}

abbrev no_bytes : Bytes
no_bytes i = 0

abbrev fpu : FxLayout
fpu = record {
  fcw = 0x37f;
  fsw = 0;
  ftw = 0;
  fop = 0;
  fip = 0;
  fcs = 0;
  fdp = 0;
  fds = 0;
  mxcsr = 0x1f80;
  mxcsr_mask = 0xffff;
  st_mm = λ i. no_bytes;
  mmx_1 = λ i. no_bytes;
  mmx_2 = λ i. no_bytes;
}

abbrev keeping : SysImpl VcpuState FxLayout VcpuState
keeping = record {
  run = λ t page k. (true, t, page, k);
  set_registers = λ s k. (true, s);
  set_fpu_registers = λ f k. (true, k);
  get_registers = λ k. some k;
  get_fpu_registers = λ k. some fpu;
  set_debug = λ d k. (true, k);
  inject_interrupt = λ v k. (true, k);
}

abbrev msrs : MsrDriver VcpuState
msrs = record { get_msr_data = λ es k. some (λ i. 0); set_msr_data = λ es k. (true, k) }

abbrev handlers : IoHandlers ℕ
handlers = record {
  io_read_func = λ context port size w. (0, w);
  io_write_func = λ context port size value w. w;
  mmio_read_func = λ context address size w. (0, w);
  mmio_write_func = λ context address size value w. w;
  context = 0;
}

-- The structures are out of date.
abbrev vp : HaxmVp VcpuState FxLayout VcpuState ℕ
vp = record {
  regs = state;
  fpu_regs = fpu;
  regs_dirty = true;
  regs_changed = false;
  fpu_regs_changed = false;
  tunnel = record {
    exit_status = ExitStatus.hlt;
    out = true;
    df = false;
    size = 1;
    port = 0;
    count = 0;
    dr6 = 0;
    rip = 0;
    ready_for_interrupt_injection = 1;
    request_interrupt_window = 0;
  };
  io_tunnel = no_bytes;
  debug = record {
    enable = false;
    step = false;
    use_sw_bp = false;
    use_hw_bp = false;
    dr = λ i. 0;
  };
  exit_info = record { reason = VmExitReason.normal; exception_code = 0 };
  world = 0;
  kernel = state;
}

abbrev value : ℕ → RegValue
value b i = b

reg_read-kept_value_example :
    let x' = (reg_write keeping msrs handlers true Reg.spl (value 7) vp).1 in
    ((reg_write keeping msrs handlers true Reg.spl (value 7) vp).0 ≡ none)
    × ((reg_read keeping msrs handlers true Reg.spl (value 0) x').0 ≡ none)
    × Agree
        (reg_read keeping msrs handlers true Reg.spl (value 0) x').2
        (kept_value (byte_word Gpr.rsp) (value 7))
        (fields true (byte_word Gpr.rsp))
unfolding refresh_registers write_case
reg_read-kept_value_example =
    reg_read-kept_value keeping msrs handlers true Reg.spl (byte_word Gpr.rsp) (value 7) (value 0)
      vp refl (λ r. omega arith) refl

abbrev haxm_cache : Cache VcpuState
haxm_cache = record {
  state = state;
  fpu_regs = fpu;
  regs_changed = false;
  fpu_regs_changed = false;
  kernel = state;
}

-- A write of SPL clears bits 8 to 15 of RSP.
spl_clears :
    (haxm_reg_write msrs true Reg.spl (value 7) haxm_cache).1.state.regs Gpr.rsp
    ≡ 0x1122_3344_5566_0007
unfolding haxm_reg_write write_case write_place load
spl_clears = refl

abbrev kvm_cache : KvmPlace.Cache
kvm_cache = record {
  regs = λ r. 0x1122_3344_5566_7788;
  sregs = record {
    segments = λ s. record {
      base = 0;
      limit = 0;
      selector = 0;
      type = 0;
      present = 0;
      dpl = 0;
      db = 0;
      s = 0;
      l = 0;
      g = 0;
      avl = 0;
    };
    tables = λ t. record { base = 0; limit = 0 };
    controls = λ c. 0;
  };
  debug_regs = λ i. 0;
  fpu_regs = record {
    fpr = λ i. no_bytes;
    fcw = 0;
    fsw = 0;
    ftwx = 0;
    last_opcode = 0;
    last_ip = 0;
    last_dp = 0;
    xmm = λ i. no_bytes;
    mxcsr = 0;
  };
  regs_changed = false;
  sregs_changed = false;
  debug_regs_changed = false;
  fpu_regs_changed = false;
}

haxm_reg_write-kvm_reg_write_example :
    ((haxm_reg_write msrs true Reg.ah (value 7) haxm_cache).0 ≡ none)
    × ((haxm_reg_write msrs true Reg.ah (value 7) haxm_cache).1.state.regs Gpr.rax
        ≡ merged (KvmPlace.high_byte Gpr.rax) (value 7) (λ r. 0x1122_3344_5566_7788) Gpr.rax)
    × ((haxm_reg_write msrs true Reg.ah (value 7) haxm_cache).1.state.regs Gpr.rax
        ≡ (kvm_reg_write Reg.ah (value 7) kvm_cache).1.regs Gpr.rax)
unfolding reg_between number
haxm_reg_write-kvm_reg_write_example =
    haxm_reg_write-kvm_reg_write msrs true Reg.ah (KvmPlace.high_byte Gpr.rax) (value 7) haxm_cache
      kvm_cache Gpr.rax (λ r. omega arith) refl refl refl

abbrev remembering : Remembers keeping true
remembering = record {
  regs = λ k. k;
  get_lem = λ k. refl;
  set_done = λ s k. refl;
  set_lem = λ s k. refl;
}

efer_is_kept :
    ((probe_efer keeping state state).0 ≡ false)
    × ((probe_efer keeping state state).1.controls Control.efer ≡ 0)
    × ((probe_efer keeping state state).2.controls Control.efer ≡ 0)
efer_is_kept = probe_efer-not keeping true remembering state state
