-- ===== src/Kvm/SetupTests.antt =====
-- The start-up, the memory slots and the CPUID table of KVM on small inputs.
use virt.Base.{
  ℕ, zero, suc, ◌+◌, ◌*◌, ◌==◌, ◌≡◌, ◌≢◌, ◌⊎◌, refl, inr, ltb, if◌then◌else◌, true, false, some,
  List, [], ◌∷◌, ◌++◌, get_elem?, arith,
}
use virt.Vm.Machine.{MemoryMappingStatus}
use virt.Kvm.Cpuid.{CpuidResult, entry, cpuid_table}
use virt.Kvm.Cpuid.Override.{cpuid_table-custom}
use virt.Kvm.Slots.{Slot, SlotCalls, KvmVm, new_slot, map_guest_memory_impl}
use virt.Kvm.Slots.Fresh.{WellFormed, map_guest_memory_impl-WellFormed}
use virt.Kvm.Platform.{
  PlatformInitStatus, ok, failed, CpuidAnswer, filled, too_small, too_large, Device, HostLimits,
  Features, start,
}
use virt.Kvm.Platform.Supported.{AnswerLaws, start-ends}

abbrev leaf_4 : ℕ → CpuidResult
leaf_4 a = record { function = 4; eax = a; ebx = 0; ecx = 0; edx = 0 }

abbrev leaf_1 : CpuidResult
leaf_1 = record { function = 1; eax = 0x306a9; ebx = 0; ecx = 0; edx = 0 }

-- The second entry of function 4 is taken from the specification.
cpuid_table-custom_example :
    get_elem?
      (cpuid_table (leaf_1 ∷ leaf_4 0 ∷ leaf_4 1 ∷ leaf_4 2 ∷ []) (leaf_4 7 ∷ leaf_4 8 ∷ []))
      2
    ≡ some (entry 4 1 (leaf_4 8))
cpuid_table-custom_example =
    cpuid_table-custom (leaf_1 ∷ leaf_4 0 ∷ []) (leaf_4 2 ∷ []) (leaf_4 7 ∷ []) [] (leaf_4 1)
      (leaf_4 8) (omega arith) refl refl tt

-- A kernel that accepts slots up to number 1.
abbrev two_slots : SlotCalls ℕ
two_slots = record {
  set_user_memory_region = λ s n. (ltb s.slot 2, n + 1);
  get_dirty_log = λ slot bitmap n. (true, n);
  at_iterator = λ s. s;
  new_bitmap = λ n. 0;
}

abbrev ram_slot : ℕ → Slot
ram_slot n = record {
  guest_phys_addr = n * 0x1000;
  memory_size = 0x1000;
  userspace_addr = 0x70000;
  slot = n;
  read_only = false;
  log_dirty_pages = false;
}

abbrev full : KvmVm ℕ
full = record { memory_regions = ram_slot 0 ∷ ram_slot 1 ∷ []; mem_slot = 2; kernel = 2 }

full-WellFormed : WellFormed full
full-WellFormed = record {
  below = (omega arith, (omega arith, tt));
  distinct = (((λ e. absurd (omega arith)), tt), (tt, tt));
}

map_guest_memory_impl-WellFormed_example :
    WellFormed (map_guest_memory_impl two_slots 0x5000 0x1000 7 0x90000 full).1
    × ((((map_guest_memory_impl two_slots 0x5000 0x1000 7 0x90000 full).0 ≡ MemoryMappingStatus.ok)
          × ((map_guest_memory_impl two_slots 0x5000 0x1000 7 0x90000 full).1.memory_regions
              ≡ full.memory_regions ++ new_slot two_slots 0x5000 0x1000 7 0x90000 full ∷ []))
        ⊎ (((map_guest_memory_impl two_slots 0x5000 0x1000 7 0x90000 full).0
              ≡ MemoryMappingStatus.failed)
            × ((map_guest_memory_impl two_slots 0x5000 0x1000 7 0x90000 full).1.memory_regions
                ≡ full.memory_regions)))
map_guest_memory_impl-WellFormed_example =
    map_guest_memory_impl-WellFormed two_slots 0x5000 0x1000 7 0x90000 full full-WellFormed
      (omega arith)

-- A kernel with 50 entries, the same one 50 times.
abbrev copies : ℕ → List CpuidResult
copies zero = []
copies (suc n) = leaf_1 ∷ copies n

abbrev fifty : ℕ → CpuidAnswer
fifty c = if ltb c 50 then too_small else if c == 50 then filled (copies 50) else too_large 50

fifty_laws : AnswerLaws fifty 50 (copies 50)
fifty_laws = record {
  below = λ c lt. ground arith;
  exact = refl;
  above = λ c gt. inr (ground arith);
}

abbrev linux : Device
linux = record {
  opens = true;
  api_version = 12;
  check_extension = λ _. 1;
  supported_cpuid = fifty;
  debug_regs_request = 1;
  set_guest_debug_request = 1;
}

abbrev limits : HostLimits
limits = record {
  max_bits = 40;
  max_address = 0xff_ffff_ffff;
  mask = 0xff_ffff_ffff;
  floating_point_extensions = 0;
}

abbrev nothing : Features
nothing = record {
  max_processors_global = 0;
  max_processors_per_vm = 0;
  guest_physical_address = limits;
  unrestricted_guest = false;
  extended_page_tables = false;
  guest_debugging = false;
  guest_memory_protection = false;
  dirty_page_tracking = false;
  partial_dirty_bitmap = false;
  large_memory_allocation = false;
  memory_aliasing = false;
  memory_unmapping = false;
  partial_unmapping = false;
  partial_mmio_instructions = false;
  extended_control_registers = 0;
  extended_vm_exits = 0;
  exception_exits = 0;
  custom_cpuids = false;
  supported_custom_cpuids = [];
}

start-ends_example :
    (result : PlatformInitStatus × Features) × (start linux limits nothing ≡ some result)
    × (result.0 ≢ failed)
    × (result.0 ≡ ok → result.1.custom_cpuids ≡ true → result.1.supported_custom_cpuids ≡ copies 50)
start-ends_example = start-ends linux limits nothing 50 (copies 50) fifty_laws (omega arith)
