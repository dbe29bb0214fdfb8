-- ===== src/Whpx/ControlTests.antt =====
-- What the WHPX backend does with the controls, the interrupts and the start of a machine.
use mathlib.Core.Option
use virt.Base.{ℕ, ◌≡◌, ◌==◌, refl, Bool, true, false, none, some, List, [], ◌∷◌, get_elem?, arith}
use virt.Vm.Io.{IoHandlers}
use virt.Vp.Status.{VmExitReason}
use virt.Vp.Interrupts.{handle_interrupt_queue}
use virt.Kvm.Controls.{FpuControl}
use virt.Whpx.Names.{Name, pending_interruption, View}
use virt.Whpx.Controls.{
  ControlViews, set_fpu_control, get_mxcsr, set_mxcsr, get_mxcsr_mask, set_mxcsr_mask,
}
use virt.Whpx.Controls.Lost.{ControlLayout, get_mxcsr-set_mxcsr}
use virt.Whpx.State.{
  ExitReason, RunCalls, PendingViews, WhpxVp, ExitContext, MsrAccess, CpuidAccess,
}
use virt.Whpx.Run.{with_interrupt, whpx_backend}
use virt.Whpx.Run.Overwritten.{handle_interrupt_queue-overwrites}
use virt.Whpx.Setup.{
  PartitionCalls, Specifications, WhpxVm, exit_functions, initialize, create, set_exits,
  set_functions, set_exceptions, set_results, create_vps, initialize_vp,
}
use virt.Whpx.Setup.Ends.{Outcome, initialize-ends}
use virt.Whpx.Setup.ExitFunctions.{exit_function, exit_functions-exit_function}
use virt.Whpx.Setup.Started.{Succeeds, initialize-numbers}
use virt.Whpx.Example.{Plain, nothing, plain, kept_registers, keeping}

abbrev other_field : View Plain ℕ
other_field = record { get = λ w. w.other; set = λ a w. record w { other = a } }

abbrev controls : ControlViews Plain
controls = record {
  zero = nothing;
  fp_control = other_field;
  fp_status = other_field;
  fp_tag = other_field;
  last_fp_op = other_field;
  last_fp_cs = other_field;
  last_fp_rip = other_field;
  last_fp_ds = other_field;
  last_fp_rdp = other_field;
  xmm_status_control = record { get = λ w. w.mxcsr; set = λ a w. record w { mxcsr = a } };
  xmm_status_control_mask = record { get = λ w. w.mask; set = λ a w. record w { mask = a } };
}

controls-ControlLayout : ControlLayout controls
controls-ControlLayout = record {
  mxcsr_zero = refl;
  mask_zero = refl;
  mxcsr_back = λ a w h. refl;
  mask_mxcsr = λ a w. refl;
  mxcsr_mask = λ a w. refl;
  mxcsr_ds = λ a w. refl;
  mxcsr_rdp = λ a w. refl;
}

-- MXCSR and its mask have their usual values.
abbrev usual : Name → Plain
usual n = record nothing { mxcsr = 0x1f80; mask = 0xffff }

abbrev no_control : FpuControl
no_control = record { cw = 0x37f; sw = 0; tw = 0; op = 0; cs = 0; rip = 0; ds = 0; rdp = 0 }

get_mxcsr-set_mxcsr_example :
    ((set_mxcsr controls kept_registers 0x1fa0 usual).0 ≡ none)
    × (get_mxcsr controls kept_registers nothing
          (set_mxcsr controls kept_registers 0x1fa0 usual).1
          0
        ≡ (none, 0x1fa0))
    × (get_mxcsr_mask controls kept_registers nothing
          (set_mxcsr controls kept_registers 0x1fa0 usual).1
          0
        ≡ (none, 0))
    × ((set_mxcsr_mask controls kept_registers 0xffff usual).0 ≡ none)
    × (get_mxcsr controls kept_registers nothing
          (set_mxcsr_mask controls kept_registers 0xffff usual).1
          0
        ≡ (none, 0))
    × ((set_fpu_control controls kept_registers no_control usual).0 ≡ none)
    × (get_mxcsr controls kept_registers nothing
          (set_fpu_control controls kept_registers no_control usual).1
          0
        ≡ (none, 0))
get_mxcsr-set_mxcsr_example =
    get_mxcsr-set_mxcsr controls controls-ControlLayout kept_registers keeping nothing 0x1fa0 0xffff
      no_control 0 usual (omega arith)

-- The vector is kept in the component for numbers, and the other fields nowhere.
abbrev pending : PendingViews Plain
pending = record {
  interruption_pending = record { get = λ w. 1; set = λ a w. w };
  interruption_type = record { get = λ w. 0; set = λ a w. w };
  interruption_vector = other_field;
  one = 1;
  pending_interrupt = 0;
}

-- A hypervisor whose processor only halts, with one packet for the emulator.
abbrev no_msr : MsrAccess
no_msr = record { is_write = false; msr_number = 0; rax = 0; rdx = 0 }

abbrev no_cpuid : CpuidAccess
no_cpuid = record {
  rax = 0;
  rcx = 0;
  rdx = 0;
  rbx = 0;
  default_rax = 0;
  default_rcx = 0;
  default_rdx = 0;
  default_rbx = 0;
}

abbrev halted : ExitContext ℕ
halted = record {
  exit_reason = ExitReason.halt;
  msr_access = no_msr;
  cpuid_access = no_cpuid;
  packets = 0;
}

abbrev halting : RunCalls ℕ (Name → Plain) ℕ
halting = record {
  run = λ k. (some halted, k);
  try_io = λ callbacks packet o. some ((true, true), o);
  try_mmio = λ callbacks packet o. some ((true, true), o);
  cancel_run = λ k. (true, k);
}

abbrev idle : WhpxVp ℕ (Name → Plain) ℕ
idle = record {
  exit_context = halted;
  exit_info = record { reason = VmExitReason.normal; msr = no_msr; cpuid = no_cpuid };
  kernel = usual;
  world = 0;
}

abbrev handlers : IoHandlers ℕ
handlers = record {
  io_read_func = λ context port size w. (0, w);
  io_write_func = λ context port size value w. w;
  mmio_read_func = λ context address size w. (0, w);
  mmio_write_func = λ context address size value w. w;
  context = 0;
}

-- Of the interrupts 0x20 and 0x21 only the second is there.
handle_interrupt_queue-overwrites_example :
    (out : WhpxVp ℕ (Name → Plain) ℕ) × (handle_interrupt_queue
        (whpx_backend halting kept_registers pending nothing handlers)
        (handle_interrupt_queue
          (whpx_backend halting kept_registers pending nothing handlers)
          (record { pending_interrupts = 0x20 ∷ 0x21 ∷ []; state = some idle }))
      ≡ record { pending_interrupts = []; state = some out })
    × (out.kernel pending_interruption
        ≡ with_interrupt halting kept_registers pending nothing handlers 0x21
            (usual pending_interruption))
handle_interrupt_queue-overwrites_example =
    handle_interrupt_queue-overwrites halting kept_registers keeping pending nothing handlers 0x20
      0x21 [] idle (λ v w old. refl)

-- Every second function is lost.
exit_functions-exit_function_example :
    get_elem? (exit_functions (λ i. 0) 0 (1 ∷ 7 ∷ 0xd ∷ [])) 1
    ≡ exit_function (λ i. 0) 0 1 (get_elem? (1 ∷ 7 ∷ 0xd ∷ []) 1)
exit_functions-exit_function_example = exit_functions-exit_function (λ i. 0) 0 (1 ∷ 7 ∷ 0xd ∷ []) 1

abbrev accepting : PartitionCalls (Name → Plain)
accepting = record {
  create_partition = λ k. (true, k);
  set_processor_count = λ n k. (true, k);
  set_extended_exits = λ e k. (true, k);
  set_cpuid_exit_list = λ fs k. (true, k);
  set_exception_bitmap = λ n k. (true, k);
  set_cpuid_results = λ rs k. (true, k);
  setup_partition = λ k. (true, k);
  close_handle = λ k. k;
  create_vp = λ id k. (true, k);
  delete_vp = λ valid id k. k;
  create_emulator = λ k. (true, k);
  destroy_emulator = λ k. k;
}

accepting-Succeeds : Succeeds (λ id. kept_registers) accepting
accepting-Succeeds = record {
  create_partition_done = λ k. refl;
  processor_count_done = λ n k. refl;
  extended_exits_done = λ e k. refl;
  cpuid_exit_list_done = λ fs k. refl;
  exception_bitmap_done = λ n k. refl;
  cpuid_results_done = λ rs k. refl;
  setup_done = λ k. refl;
  create_vp_done = λ id k. refl;
  create_emulator_done = λ k. refl;
  set_registers_done = λ id ns ws k. refl;
}

abbrev two_processors : Specifications
two_processors = record {
  num_processors = 2;
  extended_vm_exits = 7;
  vm_exit_cpuid_functions = 1 ∷ 7 ∷ [];
  vm_exit_exceptions = 0x4000;
  cpuid_results = [];
}

abbrev new_vm : WhpxVm (Name → Plain)
new_vm = record { handle = false; vps = []; kernel = usual }

initialize-numbers_example :
    (made : WhpxVm (Name → Plain)) × (initialize plain
        (λ id. kept_registers)
        accepting
        nothing
        7
        (λ i. 0)
        two_processors
        new_vm
      ≡ some (true, made))
    × (made.vps ≡ 0 ∷ 1 ∷ [])
    × (made.handle ≡ true)
initialize-numbers_example =
    initialize-numbers plain (λ id. kept_registers) accepting nothing accepting-Succeeds 7 (λ i. 0)
      two_processors new_vm refl (omega arith)

-- The second processor cannot be created.
abbrev single : PartitionCalls (Name → Plain)
single = record accepting { create_vp = λ id k. (id == 0, k) }

initialize-ends_example :
    (done : Bool) × (made : WhpxVm (Name → Plain)) × (n : ℕ) × (initialize plain
        (λ id. kept_registers)
        single
        nothing
        7
        (λ i. 0)
        two_processors
        new_vm
      ≡ some (done, made))
    × Outcome plain (λ id. kept_registers) single nothing 2 done made n
initialize-ends_example =
    initialize-ends plain (λ id. kept_registers) single nothing 7 (λ i. 0) two_processors new_vm
      refl (omega arith)

one_left :
    Option.map {B = List ℕ}
      (λ o. o.1.vps)
      (initialize plain (λ id. kept_registers) single nothing 7 (λ i. 0) two_processors new_vm)
    ≡ some (0 ∷ [])
unfolding initialize create set_exits set_functions set_exceptions set_results create_vps
    initialize_vp
one_left = refl
