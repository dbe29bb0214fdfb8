-- ===== src/Vp/Tests.antt =====
-- The theorems of the virtual processor's model on small concrete inputs.
use virt.Base.{
  ℕ, ◌+◌, ◌%◌, ◌≡◌, refl, ◌⊎◌, ◌++◌, ◌==◌, true, if◌then◌else◌, List, [], ◌∷◌, none, some, All,
  arith,
}
use virt.Vm.Region.{Bytes, copy_bytes, final_address, IsPlaced}
use virt.Vm.Access.{copy_source, mem_read, mem_write}
use virt.Vm.Access.Served.{IsCopy}
use virt.Vp.Layout.{load, store}
use virt.Vp.Status.{unsupported, ok, VpExecutionStatus}
use virt.Vp.Registers.{RegValue, Platform, table_base, table_limit, u64_of}
use virt.Vp.Paging.{
  GuestMemory, linear_to_physical, linear_to_physical_pae, linear_to_physical4_level,
}
use virt.Vp.Paging.Walk.{walk4_level, linear_to_physical4_level-walk}
use virt.Vp.Paging.Pae.{linear_to_physical_pae-ignores}
use virt.Vp.Descriptors.{
  NonTaskGateDescriptor, gdt_set, gdt_get_base, gdt_get_limit, gdt_get_attributes,
}
use virt.Vp.Descriptors.RoundTrip.{gdt_set_fields}
use virt.Vp.Interrupts.{Backend, Vp}
use virt.Vp.Interrupts.Delivery.{runs, runs-empty}
use virt.Vp.Interrupts.Fifo.{Call, enqueued, ran, stepped, logged, calls, vectors, calls-history}
use virt.Vp.Linear.{Transfer, done, refused, lmem_read, lmem_write}
use virt.Vp.Linear.Loop.{Moved, lmem-transfer}
use virt.Vp.Tables.{whole_entry, get_gdt_entry, set_gdt_entry}
use virt.Vp.Tables.Entry.{get_gdt_entry-set_gdt_entry}

-- A platform on which every register has the value of its state.
abbrev uniform : Platform RegValue
uniform = record {
  reg_read = λ v reg. ok v;
  reg_write = λ reg v s. (none, v);
  get_msr = λ v msr. ok (u64_of v);
  set_msr = λ msr x s. (some unsupported, s);
}

abbrev numbered : ℕ → RegValue
numbered x = store (λ _. 0) 0 8 x

-- The value of a table register: a base of 0x1000 and a limit of 0x27.
abbrev table : RegValue
table i = if i == 1 then 0x10 else if i == 8 then 0x27 else 0

-- Protection, paging, PAE, and long mode enabled and active; RFLAGS.VM is clear.
abbrev long_mode : RegValue
long_mode i = if i == 0 then 0x21 else if i == 1 then 0x05 else if i == 3 then 0x80 else 0

-- Guest memory of eight pages from address 0, at host address 0.
abbrev memory : GuestMemory
memory = record {
  regions = record { base_address = 0; size = 0x8000; host_memory = 0 } ∷ [];
  host = λ a. if a % 8 == 1 then 0x10 else if a % 8 == 0 then 1 else 0;
}

memory-IsPlaced : All IsPlaced memory.regions
memory-IsPlaced =
    (record { filled = omega arith; guest_fits = omega arith; host_fits = omega arith }, tt)

linear_to_physical4_level-walk_example :
    linear_to_physical4_level uniform long_mode memory 0x1234
    ≡ walk4_level memory (u64_of long_mode) 0x1234
linear_to_physical4_level-walk_example =
    linear_to_physical4_level-walk uniform long_mode memory 0x1234 long_mode refl

gdt_set_fields_example :
    (gdt_get_base (gdt_set 0x12345678 0xfffff 0x9a 0xc) ≡ 0x12345678)
    × (gdt_get_limit (gdt_set 0x12345678 0xfffff 0x9a 0xc) ≡ 0xffff_ffff)
    × (gdt_get_attributes (gdt_set 0x12345678 0xfffff 0x9a 0xc) ≡ 0xc09a)
gdt_set_fields_example =
    gdt_set_fields 0x12345678 0xfffff 0x9a 0xc (omega arith) (omega arith) (omega arith)
      (omega arith)

abbrev gate : NonTaskGateDescriptor
gate = record {
  offset_low = 0;
  cs_selector = 8;
  params = 0;
  access = 0x8e;
  offset_high = 0;
  offset_top = 0;
  reserved = 0;
}

-- A platform that counts its calls, and takes an interrupt at every second of them.
abbrev backend : Backend ℕ
backend = record {
  run_impl = λ n. (VpExecutionStatus.ok, n + 1);
  step_impl = λ n. (VpExecutionStatus.ok, n + 1);
  prepare_interrupt = λ v n. (true, n + 1);
  inject_interrupt = λ v n. (none, n + 1);
  can_inject_interrupt = λ n. n % 2 == 0;
  request_interrupt_window = λ n. n + 1;
}

abbrev trace : List Call
trace = enqueued 32 ∷ enqueued 33 ∷ ran ∷ stepped true ∷ ran ∷ enqueued 34 ∷ []

abbrev idle : Vp (ℕ × List ℕ)
idle = record { pending_interrupts = []; state = (0, []) }

calls-history_example :
    (calls (logged backend) trace idle).state.1
      ++ (calls (logged backend) trace idle).pending_interrupts
    ≡ 32 ∷ 33 ∷ 34 ∷ []
unfolding vectors
calls-history_example = calls-history backend trace idle

lmem-transfer_example :
    ((r : Transfer × Bytes) × (lmem_read uniform table memory 0xff0 0x40 (some (λ _. 0))
        ≡ (r.0, some r.1))
      × Moved
          (λ l _. linear_to_physical uniform table memory l true)
          (λ physical n pos out. mem_read memory.regions memory.host physical n out pos)
          0xff0
          0
          0x40
          (λ _. 0)
          r
      × ((r.0 ≡ refused) ⊎ (r.0 ≡ done 0x40)))
    × (Moved
          (λ l host. linear_to_physical uniform table (record memory { host = host }) l true)
          (λ physical n pos host. mem_write memory.regions host physical n (λ _. 0) pos)
          0xff0
          0
          0x40
          memory.host
          (lmem_write uniform table memory 0xff0 0x40 (some (λ _. 0)))
        × (((lmem_write uniform table memory 0xff0 0x40 (some (λ _. 0))).0 ≡ refused)
            ⊎ ((lmem_write uniform table memory 0xff0 0x40 (some (λ _. 0))).0 ≡ done 0x40)))
lmem-transfer_example =
    lmem-transfer uniform table memory 0xff0 0x40 (λ _. 0) (omega arith) (omega arith)

-- The entry's fifth byte is the access byte of a code segment.
abbrev code : Bytes
code i = if i == 5 then 0x9a else 0

get_gdt_entry-set_gdt_entry_example :
    (v : Bytes) × (get_gdt_entry uniform table
        (record memory { host = copy_bytes memory.host 0x1010 code 0 8 })
        16
        (λ _. 0)
      ≡ (none, v))
    × IsCopy v 0 code 0 8 (λ _. 0)
get_gdt_entry-set_gdt_entry_example =
    get_gdt_entry-set_gdt_entry uniform table memory 16 code
      (copy_bytes memory.host 0x1010 code 0 8) (λ _. 0) table refl
      (unfold table_base load in omega arith) memory-IsPlaced (unfold load in refl)
      (unfold set_gdt_entry whole_entry mem_write copy_source final_address table_base table_limit
          load in
        refl)

linear_to_physical_pae-ignores_example :
    linear_to_physical_pae uniform long_mode memory 0x1234
    ≡ linear_to_physical_pae uniform long_mode memory 0x20_1234
linear_to_physical_pae-ignores_example =
    linear_to_physical_pae-ignores uniform long_mode memory 0x1234 0x20_1234 refl refl

-- Three interrupts wait, and the window opens at the end of the run that follows its request.
abbrev opening : Backend ℕ
opening = record backend {
  run_impl = λ n. (VpExecutionStatus.ok, n + 2);
  request_interrupt_window = λ n. 0;
}

abbrev waiting : Vp ℕ
waiting = record { pending_interrupts = 32 ∷ 33 ∷ 34 ∷ []; state = 1 }

runs-empty_example : (runs opening 6 waiting).pending_interrupts ≡ []
runs-empty_example = runs-empty opening (λ n closed. refl) 6 waiting (omega arith)
