-- ===== src/Kvm/Platform/Supported.antt =====
-- The search for the size of the list of supported CPUID entries ends.
use virt.Base.{
  ◌==◌, ◌||◌, not, if◌then◌else◌, ℕ, zero, suc, ◌*◌, ◌^◌, ◌≤◌, ◌<◌, ◌≡◌, ◌≢◌, true, ap, ◌∙◌, ◌⊎◌,
  inl, inr, u32, some, List, arith,
}
use native.Mathlib.Nat.{pow-suc}
use virt.Kvm.Cpuid.{CpuidResult}
use virt.Kvm.Platform.{
  PlatformInitStatus, ok, failed, CpuidAnswer, filled, too_small, too_large, Device, HostLimits,
  Features, unavailable, unsupported, user_memory, set_identity_map_addr, features,
  supported_cpuids, cpuid_fuel, start,
}

-- What KVM's documentation says of the ioctl, for a kernel that has `n` entries: E2BIG below `n`, the entries
-- at `n`, and above `n` the entries, or ENOMEM with `n`.
pub record AnswerLaws (answer : ℕ → CpuidAnswer) (n : ℕ) (entries : List CpuidResult) : Type 0 where
  pub below : (c : ℕ) → c < n → answer c ≡ too_small
  pub exact : answer n ≡ filled entries
  pub above : (c : ℕ) → n < c → (answer c ≡ filled entries) ⊎ (answer c ≡ too_large n)

below_or : (c n : ℕ) → (c < n) ⊎ ((c ≡ n) ⊎ (n < c))
below_or c n = grind arith

module _ (answer : ℕ → CpuidAnswer) (n : ℕ) (entries : List CpuidResult)
    (laws : AnswerLaws answer n entries) where
  at_size : (f : ℕ) → supported_cpuids answer (suc f) n ≡ some (some entries)
  unfolding supported_cpuids
  at_size f = rw (supported_cpuids, laws.exact)

  large_enough : (f c : ℕ) → n ≤ c → supported_cpuids answer (suc (suc f)) c ≡ some (some entries)
  unfolding supported_cpuids
  large_enough f c le = elim (below_or c n) [
    | inl lt ↦ absurd (omega arith)
    | inr (inl same) ↦ ap (λ t. supported_cpuids answer (suc (suc f)) t) same ∙ at_size (suc f)
    | inr (inr more) ↦ elim (laws.above c more) [
      | inl whole ↦ rw (supported_cpuids, whole)
      | inr fewer ↦ rw (supported_cpuids, fewer) (at_size f)
    ]
  ]

  doubled :
      (f c : ℕ)
      → c < n
      → supported_cpuids answer (suc f) c ≡ supported_cpuids answer f (u32 (c * 2))
  unfolding supported_cpuids
  doubled f c lt = rw (supported_cpuids, laws.below c lt)

  enough :
      (f c : ℕ)
      → n ≤ 2 ^ 31
      → n ≤ c * 2 ^ f
      → supported_cpuids answer (suc (suc f)) c ≡ some (some entries)
  enough zero c small le = large_enough zero c (ground arith)
  enough (suc f) c small le = elim (below_or c n) [
    | inl lt ↦
        let fits : u32 (c * 2) ≡ c * 2 = omega arith in
        let twice : c * 2 ^ suc f ≡ c * 2 * 2 ^ f = double_power c f in
        doubled (suc (suc f)) c lt
        ∙ ap (λ t. supported_cpuids answer (suc (suc f)) t) fits
        ∙ enough f (c * 2) small (rw twice at le)
    | inr ge ↦ large_enough (suc f) c (grind arith)
  ]
    where
      double_power : (c f : ℕ) → c * 2 ^ suc f ≡ c * 2 * 2 ^ f
      double_power c f = rw (pow-suc 2 f) (grind arith)

  found : n ≤ 2 ^ 31 → supported_cpuids answer cpuid_fuel 40 ≡ some (some entries)
  found small = enough 26 40 small (omega (arith, small))

-- What the constructor comes to when the list has these entries.
abbrev settled : Device → HostLimits → Features → List CpuidResult → PlatformInitStatus × Features
settled d host empty entries =
    let f = features d host in
    if not d.opens
    then (unavailable, empty)
    else if not (d.api_version == 12)
        || d.check_extension user_memory == 0
        || d.check_extension set_identity_map_addr == 0
    then (unsupported, empty)
    else if f.custom_cpuids
    then (ok, record f { supported_custom_cpuids = entries })
    else (ok, f)

start-settled :
    (d : Device) (host : HostLimits) (empty : Features) (entries : List CpuidResult)
    → supported_cpuids d.supported_cpuid cpuid_fuel 40 ≡ some (some entries)
    → start d host empty ≡ some (settled d host empty entries)
unfolding start features
start-settled d host empty entries list = ground (arith, list)

-- Let the kernel answer KVM_GET_SUPPORTED_CPUID as documented (AnswerLaws) for at most 2 ^ 31
-- entries. Then the constructor of KvmPlatform ends within its fuel, in a status other than
-- Failed; if that is OK and custom CPUIDs are supported, the features list exactly the kernel's
-- entries.
pub start-ends :
    (d : Device) (host : HostLimits) (empty : Features) (n : ℕ) (entries : List CpuidResult)
    → AnswerLaws d.supported_cpuid n entries
    → n ≤ 2 ^ 31
    → (result : PlatformInitStatus × Features) × (start d host empty ≡ some result)
      × (result.0 ≢ failed)
      × (result.0 ≡ ok → result.1.custom_cpuids ≡ true → result.1.supported_custom_cpuids ≡ entries)
unfolding start features
start-ends d host empty n entries laws small = (
  settled d host empty entries,
  start-settled d host empty entries (found d.supported_cpuid n entries laws small),
  λ e. ground arith,
  λ e custom. ground arith,
)
