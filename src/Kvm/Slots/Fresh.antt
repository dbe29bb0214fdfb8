-- ===== src/Kvm/Slots/Fresh.antt =====
-- The numbers of the slots: each region of the machine has its own.
use virt.Base.{
  ℕ, ◌+◌, ◌%◌, ◌^◌, ◌<◌, ◌≡◌, ◌≢◌, refl, ◌⊎◌, Bool-cases, inl, inr, List, [], ◌∷◌, ◌++◌, All, arith,
}
use virt.Vm.Machine.{MemoryMappingStatus}
use virt.Kvm.Slots.{Slot, SlotCalls, KvmVm, erase_slot, new_slot, map_guest_memory_impl}

-- All slots are below a number.
abbrev pub Below : ℕ → List Slot → Type 0
Below n ss = All (λ s. s.slot < n) ss

-- No two slots have a number in common.
abbrev pub Distinct : List Slot → Type 0
Distinct [] = Unit
Distinct (s ∷ ss) = All (λ t. s.slot ≢ t.slot) ss × Distinct ss

pub record WellFormed {K : Type 0} (vm : KvmVm K) : Type 0 where
  pub below : Below vm.mem_slot vm.memory_regions
  pub distinct : Distinct vm.memory_regions

erase_slot-last :
    (n : ℕ) (ss : List Slot) (s : Slot) → Below n ss → s.slot ≡ n → erase_slot n (ss ++ s ∷ []) ≡ ss
unfolding erase_slot
erase_slot-last n [] s below e = ground arith
erase_slot-last n (t ∷ ss) s below e =
    let smaller = below.0 in let rest = erase_slot-last n ss s below.1 e in ground arith

Below-suc : (n : ℕ) (ss : List Slot) → Below n ss → Below (n + 1) ss
Below-suc n [] below = tt
Below-suc n (s ∷ ss) below = (omega (arith, below.0), Below-suc n ss below.1)

Below-append :
    (n : ℕ) (ss : List Slot) (s : Slot) → Below n ss → s.slot ≡ n → Below (n + 1) (ss ++ s ∷ [])
Below-append n [] s below e = (omega arith, tt)
Below-append n (t ∷ ss) s below e = (omega (arith, below.0), Below-append n ss s below.1 e)

new-other :
    (n : ℕ) (t : Slot) (ss : List Slot) (s : Slot)
    → t.slot < n
    → s.slot ≡ n
    → All (λ u. t.slot ≢ u.slot) ss
    → All (λ u. t.slot ≢ u.slot) (ss ++ s ∷ [])
new-other n t [] s lt e others = ((λ same. absurd (omega arith)), tt)
new-other n t (u ∷ ss) s lt e others = (others.0, new-other n t ss s lt e others.1)

Distinct-append :
    (n : ℕ) (ss : List Slot) (s : Slot)
    → Below n ss
    → s.slot ≡ n
    → Distinct ss
    → Distinct (ss ++ s ∷ [])
Distinct-append n [] s below e d = (tt, tt)
Distinct-append n (t ∷ ss) s below e d =
    (new-other n t ss s below.0 e d.0, Distinct-append n ss s below.1 e d.1)

module _ {K : Type 0} (calls : SlotCalls K) where
  -- Let all slots of the machine have different numbers below the next one, which stays below 2 ^
  -- 32. After MapGuestMemoryImpl they do so again, and either it returns OK and the new region was
  -- added behind the others, or it returns Failed and the regions are as they were.
  pub map_guest_memory_impl-WellFormed :
      (base size flags memory : ℕ) (vm : KvmVm K)
      → WellFormed vm
      → vm.mem_slot + 1 < 2 ^ 32
      → WellFormed (map_guest_memory_impl calls base size flags memory vm).1
        × ((((map_guest_memory_impl calls base size flags memory vm).0 ≡ MemoryMappingStatus.ok)
              × ((map_guest_memory_impl calls base size flags memory vm).1.memory_regions
                  ≡ vm.memory_regions ++ new_slot calls base size flags memory vm ∷ []))
            ⊎ (((map_guest_memory_impl calls base size flags memory vm).0
                  ≡ MemoryMappingStatus.failed)
                × ((map_guest_memory_impl calls base size flags memory vm).1.memory_regions
                    ≡ vm.memory_regions)))
  unfolding map_guest_memory_impl
  map_guest_memory_impl-WellFormed base size flags memory vm w small =
      let region = new_slot calls base size flags memory vm in
      let wrap : (vm.mem_slot + 1) % 2 ^ 32 ≡ vm.mem_slot + 1 = omega arith in
      elim (Bool-cases
        (calls.set_user_memory_region (new_slot calls base size flags memory vm) vm.kernel).0) [
          | inl done ↦
              rw (done, wrap)
                (
                  record {
                    below = Below-append vm.mem_slot vm.memory_regions region w.below refl;
                    distinct =
                        Distinct-append vm.mem_slot vm.memory_regions region w.below refl
                          w.distinct;
                  },
                  inl (refl, refl),
                )
          | inr refused ↦
              rw (refused, wrap, erase_slot-last vm.mem_slot vm.memory_regions region w.below refl)
                (
                  record {
                    below = Below-suc vm.mem_slot vm.memory_regions w.below;
                    distinct = w.distinct;
                  },
                  inr (refl, refl),
                )
        ]
