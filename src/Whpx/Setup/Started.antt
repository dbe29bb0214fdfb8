-- ===== src/Whpx/Setup/Started.antt =====
-- A machine whose calls all succeed has all its processors.
use mathlib.Core.List.{append-nil, append_assoc}
use virt.Base.{
  ℕ, zero, suc, ◌+◌, ◌≡◌, refl, sym, ap, ◌∙◌, Bool, true, List, [], ◌∷◌, ◌++◌, All, has_any, u32,
  ◌<◌, ◌^◌, some, arith, bit_and, ◌==◌, if◌then◌else◌, false,
}
use virt.Whpx.Names.{Name, Views}
use virt.Whpx.Dispatch.{Dispatch}
use virt.Kvm.Cpuid.{CpuidResult}
use virt.Whpx.Setup.Ends.{numbers, create_vps-stop, create_vps-again}
use virt.Whpx.Setup.{
  ExtendedExits, closing, stopping, create, set_exits, set_functions, set_exceptions, set_results,
  steps, run_steps, PartitionCalls, WhpxVm, Specifications, initialize_vp, create_vps, initialize,
}

-- All calls succeed.
pub record Succeeds {V K : Type 0} (d : ℕ → Dispatch V K) (calls : PartitionCalls K) : Type 0 where
  pub create_partition_done : (k : K) → (calls.create_partition k).0 ≡ true
  pub processor_count_done : (n : ℕ) (k : K) → (calls.set_processor_count n k).0 ≡ true
  pub extended_exits_done : (e : ExtendedExits) (k : K) → (calls.set_extended_exits e k).0 ≡ true
  pub cpuid_exit_list_done : (fs : List ℕ) (k : K) → (calls.set_cpuid_exit_list fs k).0 ≡ true
  pub exception_bitmap_done : (n : ℕ) (k : K) → (calls.set_exception_bitmap n k).0 ≡ true
  pub cpuid_results_done : (rs : List CpuidResult) (k : K) → (calls.set_cpuid_results rs k).0 ≡ true
  pub setup_done : (k : K) → (calls.setup_partition k).0 ≡ true
  pub create_vp_done : (id : ℕ) (k : K) → (calls.create_vp id k).0 ≡ true
  pub create_emulator_done : (k : K) → (calls.create_emulator k).0 ≡ true
  pub set_registers_done :
      (id : ℕ) (ns : List Name) (ws : List V) (k : K) → ((d id).set_registers ns ws k).0 ≡ true

module _ {V K : Type 0} (x : Views V) (d : ℕ → Dispatch V K) (calls : PartitionCalls K)
    (garbage : V) (good : Succeeds d calls) where
  initialize_vp-done : (id : ℕ) (k : K) → (initialize_vp x d calls garbage id k).0 ≡ true
  unfolding initialize_vp
  initialize_vp-done id k =
      rw (good.create_vp_done id k, good.create_emulator_done, good.set_registers_done) refl

  create_vps-numbers :
      (fuel id num : ℕ) (vm : WhpxVm K)
      → id + fuel ≡ num
      → num < 2 ^ 32
      → (k : K) × (create_vps x d calls garbage fuel id num vm
          ≡ some (true, record vm { vps = vm.vps ++ numbers fuel id; kernel = k }))
  create_vps-numbers zero id num vm e few = (
    vm.kernel,
    create_vps-stop x d calls garbage zero id num vm (omega arith)
        ∙ ap (λ l. some (true, record vm { vps = l })) (sym (append-nil vm.vps)),
  )
  create_vps-numbers (suc fuel) id num vm e few =
      let k = (initialize_vp x d calls garbage id vm.kernel).1 in
      let (k', rest) =
        create_vps-numbers fuel (id + 1) num (record vm { vps = vm.vps ++ id ∷ []; kernel = k })
          (omega arith) few in
      (
        k',
        create_vps-again x d calls garbage fuel id num vm (omega arith) few
              (initialize_vp-done id vm.kernel)
            ∙ rest
            ∙ ap (λ l. some (true, record vm { vps = l; kernel = k' }))
                (append_assoc vm.vps (id ∷ []) (numbers fuel (id + 1))),
      )

  -- A step that succeeds and changes the hypervisor only.
  abbrev Keeps : (WhpxVm K → Bool × WhpxVm K) → Type 0
  Keeps step = (vm : WhpxVm K) → (k : K) × (step vm ≡ (true, record vm { kernel = k }))

  nothing-Keeps : Keeps (λ vm. (true, vm))
  nothing-Keeps vm = (vm.kernel, refl)

  closing-Keeps :
      (call : K → Bool × K) → ((k : K) → (call k).0 ≡ true) → Keeps (closing x d calls garbage call)
  closing-Keeps call done vm = ((call vm.kernel).1, rw (done vm.kernel) refl)

  stopping-Keeps :
      (call : K → Bool × K)
      → ((k : K) → (call k).0 ≡ true)
      → Keeps (stopping x d calls garbage call)
  stopping-Keeps call done vm = ((call vm.kernel).1, rw (done vm.kernel) refl)

  if-Keeps :
      (b : Bool) (s t : WhpxVm K → Bool × WhpxVm K)
      → Keeps s
      → Keeps t
      → Keeps (λ vm. if b then s vm else t vm)
  if-Keeps true s t hs ht = hs
  if-Keeps false s t hs ht = ht

  set_functions-Keeps :
      (enabled : ℕ) (fresh : ℕ → ℕ) (fs : List ℕ)
      → Keeps (set_functions x d calls garbage enabled fresh fs)
  unfolding set_functions
  set_functions-Keeps enabled fresh [] = nothing-Keeps
  set_functions-Keeps enabled fresh (f ∷ fs) =
      if-Keeps (has_any enabled 1) _ _ (stopping-Keeps _ (good.cpuid_exit_list_done _))
        nothing-Keeps

  set_results-Keeps : (rs : List CpuidResult) → Keeps (set_results x d calls garbage rs)
  unfolding set_results
  set_results-Keeps [] = nothing-Keeps
  set_results-Keeps (r ∷ rs) = stopping-Keeps _ (good.cpuid_results_done (r ∷ rs))

  run_steps-Keeps :
      (ss : List (WhpxVm K → Bool × WhpxVm K))
      → All Keeps ss
      → Keeps (run_steps x d calls garbage ss)
  run_steps-Keeps [] all vm = (vm.kernel, refl)
  run_steps-Keeps (s ∷ ss) (here, all) vm =
      let (k, e) = here vm in
      let (k', e') = run_steps-Keeps ss all (record vm { kernel = k }) in (k', rw e e')

  steps-Keep :
      (supported : ℕ) (fresh : ℕ → ℕ) (specs : Specifications)
      → All Keeps (steps x d calls garbage supported fresh specs)
  unfolding set_exits set_exceptions
  steps-Keep supported fresh specs =
      let enabled = bit_and specs.extended_vm_exits supported in
      let exits =
        if-Keeps (enabled == 0) _ _ nothing-Keeps (closing-Keeps _ (good.extended_exits_done _)) in
      let exceptions =
        if-Keeps (has_any enabled 4) _ _
          (closing-Keeps _ (good.exception_bitmap_done specs.vm_exit_exceptions)) nothing-Keeps in
      (
        closing-Keeps _ (good.processor_count_done (u32 specs.num_processors)),
        (
          exits,
          (
            set_functions-Keeps enabled fresh specs.vm_exit_cpuid_functions,
            (
              exceptions,
              (set_results-Keeps specs.cpuid_results, (closing-Keeps _ good.setup_done, tt)),
            ),
          ),
        ),
      )

  -- If all calls succeed and fewer than 2 ^ 32 processors are asked for, Initialize of a machine
  -- without processors returns true, with a valid handle and the processors that were asked for,
  -- numbered from 0, whichever extended exits and CPUID results the specifications have.
  pub initialize-numbers :
      (supported : ℕ) (fresh : ℕ → ℕ) (specs : Specifications) (vm : WhpxVm K)
      → vm.vps ≡ []
      → specs.num_processors < 2 ^ 32
      → (made : WhpxVm K) × (initialize x d calls garbage supported fresh specs vm
          ≡ some (true, made))
        × (made.vps ≡ numbers specs.num_processors 0)
        × (made.handle ≡ true)
  unfolding initialize create
  initialize-numbers supported fresh specs vm new few =
      let one = record vm { handle = true; kernel = (calls.create_partition vm.kernel).1 } in
      let (k, before) =
        run_steps-Keeps (steps x d calls garbage supported fresh specs)
          (steps-Keep supported fresh specs) one in
      let n = specs.num_processors in
      let (k', made) = create_vps-numbers n 0 n (record one { kernel = k }) (omega arith) few in
      (
        record one { vps = vm.vps ++ numbers n 0; kernel = k' },
        rw (good.create_partition_done vm.kernel, initialize, create, before) made,
        ap (λ l. l ++ numbers n 0) new,
        refl,
      )
