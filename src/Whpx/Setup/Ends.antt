-- ===== src/Whpx/Setup/Ends.antt =====
-- Initialize ends, whatever the hypervisor answers.
use mathlib.Core.List.{append-nil, append_assoc}
use virt.Base.{
  ℕ, zero, suc, ◌+◌, ◌<◌, ◌≤◌, ◌^◌, ◌≡◌, ◌⊎◌, inl, inr, refl, sym, ap, ◌∙◌, Bool, true, false, ltb,
  u32, some, List, [], ◌∷◌, ◌++◌, Bool-cases, All, if◌then◌else◌, ◌==◌, has_any, bit_and, arith,
}
use virt.Whpx.Names.{Views}
use virt.Whpx.Dispatch.{Dispatch}
use virt.Kvm.Cpuid.{CpuidResult}
use virt.Whpx.Setup.{
  PartitionCalls, WhpxVm, Specifications, initialize_vp, create_vps, closing, stopping, next,
  create, set_exits, set_functions, set_exceptions, set_results, steps, run_steps, initialize,
  exit_functions, ExtendedExits,
}

-- `n` numbers from one on.
abbrev pub numbers : ℕ → ℕ → List ℕ
numbers zero id = []
numbers (suc n) id = id ∷ numbers n (id + 1)

module _ {V K : Type 0} (x : Views V) (d : ℕ → Dispatch V K) (calls : PartitionCalls K)
    (garbage : V) where
  pub create_vps-stop :
      (fuel id num : ℕ) (vm : WhpxVm K)
      → num ≤ id
      → create_vps x d calls garbage fuel id num vm ≡ some (true, vm)
  unfolding create_vps
  create_vps-stop zero id num vm h =
      let stop : ltb id num ≡ false = ground arith in rw (stop, create_vps) refl
  create_vps-stop (suc fuel) id num vm h =
      let stop : ltb id num ≡ false = ground arith in rw (stop, create_vps) refl

  pub create_vps-again :
      (fuel id num : ℕ) (vm : WhpxVm K)
      → id < num
      → num < 2 ^ 32
      → (initialize_vp x d calls garbage id vm.kernel).0 ≡ true
      → create_vps x d calls garbage (suc fuel) id num vm
        ≡ create_vps x d calls garbage fuel (id + 1) num (record vm {
          vps = vm.vps ++ id ∷ [];
          kernel = (initialize_vp x d calls garbage id vm.kernel).1;
        })
  unfolding create_vps
  create_vps-again fuel id num vm h few done =
      let again : ltb id num ≡ true = ground arith in
      let plain : u32 (id + 1) ≡ id + 1 = omega arith in rw (again, done, plain, create_vps) refl

  pub create_vps-closed :
      (fuel id num : ℕ) (vm : WhpxVm K)
      → id < num
      → (initialize_vp x d calls garbage id vm.kernel).0 ≡ false
      → (k : K) × (create_vps x d calls garbage (suc fuel) id num vm
          ≡ some (false, record vm { handle = false; kernel = k }))
  unfolding create_vps
  create_vps-closed fuel id num vm h failed =
      let again : ltb id num ≡ true = ground arith in
      let k = calls.close_handle (initialize_vp x d calls garbage id vm.kernel).1 in
      (calls.delete_vp false id k, rw (again, failed, create_vps) refl)

  -- The loop returns with the processors that are numbered from `id` on: all, or those before one
  -- that failed, with the handle closed.
  create_vps-ends :
      (fuel id num : ℕ) (vm : WhpxVm K)
      → id + fuel ≡ num
      → num < 2 ^ 32
      → (done : Bool) × (made : WhpxVm K) × (n : ℕ) × (create_vps x d calls garbage fuel id num vm
          ≡ some (done, made))
        × (made.vps ≡ vm.vps ++ numbers n id)
        × (((done ≡ true) × (n ≡ fuel) × (made.handle ≡ vm.handle))
            ⊎ ((done ≡ false) × (n < fuel) × (made.handle ≡ false)))
  create_vps-ends zero id num vm e few = (
    true,
    vm,
    0,
    create_vps-stop zero id num vm (omega arith),
    sym (append-nil vm.vps),
    inl (refl, refl, refl),
  )
  create_vps-ends (suc fuel) id num vm e few =
      elim (Bool-cases (initialize_vp x d calls garbage id vm.kernel).0) [
        | inr failed ↦
            let (k, closed) = create_vps-closed fuel id num vm (omega arith) failed in
            (
              false,
              record vm { handle = false; kernel = k },
              0,
              closed,
              sym (append-nil vm.vps),
              inr (refl, omega arith, refl),
            )
        | inl ready ↦
            let (done, made, n, rest, vps, outcome) =
              create_vps-ends fuel (id + 1) num _ (omega arith) few in
            (
              done,
              made,
              suc n,
              create_vps-again fuel id num vm (omega arith) few ready ∙ rest,
              vps ∙ append_assoc vm.vps (id ∷ []) (numbers n (id + 1)),
              elim outcome [
                | inl (a, b, c) ↦ inl (a, omega arith, c)
                | inr (a, b, c) ↦ inr (a, omega arith, c)
              ],
            )
      ]

  -- A step that leaves the processors, and the handle when it succeeds.
  abbrev Leaves : (WhpxVm K → Bool × WhpxVm K) → Type 0
  Leaves step =
      (vm : WhpxVm K)
      → ((step vm).1.vps ≡ vm.vps) × ((step vm).0 ≡ true → (step vm).1.handle ≡ vm.handle)

  closing-Leaves : (call : K → Bool × K) → Leaves (closing x d calls garbage call)
  closing-Leaves call vm = elim (Bool-cases (call vm.kernel).0) [
    | inl done ↦ rw done (refl, λ e. refl)
    | inr failed ↦ rw failed (refl, λ e. absurd cc)
  ]

  stopping-Leaves : (call : K → Bool × K) → Leaves (stopping x d calls garbage call)
  stopping-Leaves call vm = (refl, λ e. refl)

  nothing-Leaves : Leaves (λ vm. (true, vm))
  nothing-Leaves vm = (refl, λ e. refl)

  if-Leaves :
      (b : Bool) (s t : WhpxVm K → Bool × WhpxVm K)
      → Leaves s
      → Leaves t
      → Leaves (λ vm. if b then s vm else t vm)
  if-Leaves true s t hs ht = hs
  if-Leaves false s t hs ht = ht

  set_functions-Leaves :
      (enabled : ℕ) (fresh : ℕ → ℕ) (fs : List ℕ)
      → Leaves (set_functions x d calls garbage enabled fresh fs)
  unfolding set_functions
  set_functions-Leaves enabled fresh [] = nothing-Leaves
  set_functions-Leaves enabled fresh (f ∷ fs) =
      if-Leaves (has_any enabled 1) _ _
        (stopping-Leaves (calls.set_cpuid_exit_list (exit_functions fresh 0 (f ∷ fs))))
        nothing-Leaves

  set_results-Leaves : (rs : List CpuidResult) → Leaves (set_results x d calls garbage rs)
  unfolding set_results
  set_results-Leaves [] = nothing-Leaves
  set_results-Leaves (r ∷ rs) = stopping-Leaves (calls.set_cpuid_results (r ∷ rs))

  next-Leaves :
      (s t : WhpxVm K → Bool × WhpxVm K)
      → Leaves s
      → Leaves t
      → Leaves (λ vm. next x d calls garbage (s vm) t)
  next-Leaves s t hs ht vm = elim (Bool-cases (s vm).0) [
    | inl done ↦
        let (vps, handle) = ht (s vm).1 in rw done (vps ∙ (hs vm).0, λ e. handle e ∙ (hs vm).1 done)
    | inr failed ↦ rw failed ((hs vm).0, λ e. absurd cc)
  ]

  run_steps-Leaves :
      (ss : List (WhpxVm K → Bool × WhpxVm K))
      → All Leaves ss
      → Leaves (run_steps x d calls garbage ss)
  run_steps-Leaves [] all = nothing-Leaves
  run_steps-Leaves (s ∷ ss) (here, all) =
      next-Leaves s (run_steps x d calls garbage ss) here (run_steps-Leaves ss all)

  steps-Leave :
      (supported : ℕ) (fresh : ℕ → ℕ) (specs : Specifications)
      → All Leaves (steps x d calls garbage supported fresh specs)
  unfolding set_exits set_exceptions
  steps-Leave supported fresh specs =
      let enabled = bit_and specs.extended_vm_exits supported in
      let exits : ExtendedExits = record {
        cpuid_exit = true;
        msr_exit = has_any enabled 2;
        exception_exit = has_any enabled 4;
      } in
      let exceptions = calls.set_exception_bitmap specs.vm_exit_exceptions in
      (
        closing-Leaves (calls.set_processor_count (u32 specs.num_processors)),
        (
          if-Leaves (enabled == 0) _ _ nothing-Leaves
              (closing-Leaves (calls.set_extended_exits exits)),
          (
            set_functions-Leaves enabled fresh specs.vm_exit_cpuid_functions,
            (
              if-Leaves (has_any enabled 4) _ _ (closing-Leaves exceptions) nothing-Leaves,
              (set_results-Leaves specs.cpuid_results, (closing-Leaves calls.setup_partition, tt)),
            ),
          ),
        ),
      )

  -- What Initialize returns: true with `num` processors and a handle, or false with fewer or none.
  abbrev pub Outcome : ℕ → Bool → WhpxVm K → ℕ → Type 0
  Outcome num done made n =
      (made.vps ≡ numbers n 0)
      × (((done ≡ true) × (n ≡ num) × (made.handle ≡ true))
          ⊎ ((done ≡ false) × ((n ≡ 0) ⊎ (n < num))))

  -- Whatever the hypervisor answers: if fewer than 2 ^ 32 processors are asked for, Initialize of
  -- a machine without processors returns, with processors numbered from 0; true with as many as
  -- were asked for and a valid handle, or false with fewer or none.
  pub initialize-ends :
      (supported : ℕ) (fresh : ℕ → ℕ) (specs : Specifications) (vm : WhpxVm K)
      → vm.vps ≡ []
      → specs.num_processors < 2 ^ 32
      → (done : Bool) × (made : WhpxVm K) × (n : ℕ) × (initialize x d calls garbage supported fresh
            specs vm
          ≡ some (done, made))
        × Outcome specs.num_processors done made n
  unfolding initialize create
  initialize-ends supported fresh specs vm new few =
      let num = specs.num_processors in
      let (created, k) = calls.create_partition vm.kernel in
      let one = record vm { handle = true; kernel = k } in
      let ss = steps x d calls garbage supported fresh specs in
      let ready = run_steps x d calls garbage ss one in
      let (vps, handle) = run_steps-Leaves ss (steps-Leave supported fresh specs) one in
      elim (Bool-cases created) [
        | inr refused ↦ (
          false,
          record vm { handle = false; kernel = k },
          0,
          rw (refused, initialize, create) refl,
          (new, inr (refl, inl refl)),
        )
        | inl created_one ↦ elim (Bool-cases ready.0) [
          | inr failed ↦ (
            false,
            ready.1,
            0,
            rw (created_one, initialize, create, failed) refl,
            (vps ∙ new, inr (refl, inl refl)),
          )
          | inl configured ↦
              let (done, made, n, ends, numbered, outcome) =
                create_vps-ends num 0 num ready.1 (omega arith) few in
              (
                done,
                made,
                n,
                rw (created_one, initialize, create, configured) ends,
                (
                  numbered ∙ ap (λ l. l ++ numbers n 0) (vps ∙ new),
                  elim outcome [
                    | inl (a, b, c) ↦ inl (a, b, c ∙ handle configured)
                    | inr (a, b, c) ↦ inr (a, inr b)
                  ],
                ),
              )
        ]
      ]
