-- ===== src/Kvm/Cpuid.antt =====
-- The CPUID table that KvmVirtualProcessor::Initialize of modules/kvm/src/kvm_vp.cpp sends to the kernel:
-- the supported entries, those of the machine's specification in their place.
pub mod Override
use virt.Base.{
  ℕ, ◌+◌, ◌*◌, ◌^◌, ◌==◌, Bool, true, false, ◌||◌, if◌then◌else◌, bit_or, ◌<<<◌, u32, u64, Option,
  none, some, List, [], ◌∷◌,
}

-- CPUIDResult of modules/core/include/virt86/vp/cpuid.hpp.
pub record CpuidResult : Type 0 where
  pub function : ℕ
  pub eax : ℕ
  pub ebx : ℕ
  pub ecx : ℕ
  pub edx : ℕ

-- kvm_cpuid_entry2; `significant_index` is the only flag that the code sets.
pub record CpuidEntry : Type 0 where
  pub function : ℕ
  pub index : ℕ
  pub significant_index : Bool
  pub eax : ℕ
  pub ebx : ℕ
  pub ecx : ℕ
  pub edx : ℕ

-- `leaf_index` at an entry, from the function and the index of the one before.
unfoldable pub next_leaf : ℕ → ℕ → ℕ → ℕ
next_leaf last leaf function = if function == last then leaf + 1 else 0

abbrev pub key : ℕ → ℕ → ℕ
key function leaf = bit_or function (u64 (leaf <<< 32))

-- The unordered map, with the entry stored last in front.
unfoldable pub customs : ℕ → ℕ → List CpuidResult → List (ℕ × CpuidResult) → List (ℕ × CpuidResult)
unfolding next_leaf
customs last leaf [] table = table
customs last leaf (r ∷ rs) table =
    let leaf' = next_leaf last leaf r.function in
    customs r.function leaf' rs ((key r.function leaf', r) ∷ table)

unfoldable pub find : ℕ → List (ℕ × CpuidResult) → Option CpuidResult
find k [] = none
find k ((j, r) ∷ table) = let rest = find k table in if j == k then some r else rest

abbrev pub indexed : ℕ → Bool
indexed function = function == 4 || function == 7 || function == 0xb || function == 0xd

-- One entry of the list; the registers are those of `source`.
abbrev pub entry : ℕ → ℕ → CpuidResult → CpuidEntry
entry function leaf source = record {
  function = function;
  index = u32 leaf;
  significant_index = indexed function;
  eax = source.eax;
  ebx = source.ebx;
  ecx = source.ecx;
  edx = source.edx;
}

abbrev pub chosen : Option CpuidResult → CpuidResult → CpuidResult
chosen none default = default
chosen (some custom) default = custom

unfoldable pub entries : List (ℕ × CpuidResult) → ℕ → ℕ → List CpuidResult → List CpuidEntry
unfolding next_leaf find
entries table last leaf [] = []
entries table last leaf (r ∷ rs) =
    let leaf' = next_leaf last leaf r.function in
    entry r.function leaf' (chosen (find (key r.function leaf') table) r)
    ∷ entries table r.function leaf' rs

unfoldable pub cpuid_table : List CpuidResult → List CpuidResult → List CpuidEntry
unfolding customs entries
cpuid_table supported specified =
    entries (customs 0xffff_ffff 0 specified []) 0xffff_ffff 0 supported
