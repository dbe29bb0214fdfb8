-- ===== src/Haxm/Platform.antt =====
-- The start of the platform on HAXM: the constructor of HaxmPlatform, modules/haxm/src/common/haxm_platform.cpp,
-- and HaxmVersion of haxm_version.hpp.
pub mod Version
use virt.Base.{ℕ, ◌+◌, ◌-◌, ◌*◌, ◌^◌, ltb, Bool, true, not, if◌then◌else◌, has_any, bit_and}
use virt.Kvm.Platform.{PlatformInitStatus, HostLimits, Features}

pub record HaxmVersion : Type 0 where
  pub major : ℕ
  pub minor : ℕ
  pub build : ℕ

-- The number that the versions are compared by: the structure's three words of 16 bits under a last word
-- that the constructor leaves as it was.
unfoldable pub version_u64 : ℕ → HaxmVersion → ℕ
version_u64 last v = v.major + v.minor * 2 ^ 16 + v.build * 2 ^ 32 + last * 2 ^ 48

unfoldable pub version_lt : ℕ → ℕ → HaxmVersion → HaxmVersion → Bool
unfolding version_u64
version_lt last last' v w = ltb (version_u64 last v) (version_u64 last' w)

-- MMX, SSE, SSE2, SSE3, SSSE3, SSE4_1, SSE4_2, F16C and FXSAVE of features.hpp.
abbrev haxm_extensions : ℕ
haxm_extensions = 0x7f + 2 ^ 9 + (2 ^ 64 - 2 ^ 31)

-- `result` is what the driver's start returned; `last` and `last'` are the last words of the two versions.
unfoldable pub start :
    PlatformInitStatus
    → HaxmVersion
    → ℕ
    → ℕ
    → ℕ
    → ℕ
    → HostLimits
    → Features
    → PlatformInitStatus × Features
unfolding version_lt
start result version last last' wstatus winfo host empty =
    let bits = if ltb 43 host.max_bits then 43 else host.max_bits in
    let limits : HostLimits = record {
      max_bits = bits;
      max_address = 2 ^ bits;
      mask = 2 ^ bits - 1;
      floating_point_extensions = bit_and host.floating_point_extensions haxm_extensions;
    } in
    let first_with_partial : HaxmVersion = record { major = 7; minor = 5; build = 1 } in
    let published : Features = record empty {
      max_processors_per_vm = 64;
      max_processors_global = 128;
      guest_physical_address = limits;
      unrestricted_guest = has_any winfo 4;
      extended_page_tables = has_any winfo 1;
      guest_debugging = has_any winfo 128;
      guest_memory_protection = has_any winfo 64;
      large_memory_allocation = has_any winfo 16;
      memory_aliasing = true;
      memory_unmapping = true;
      partial_unmapping = true;
      partial_mmio_instructions = version_lt last last' version first_with_partial;
      extended_control_registers = 4;
    } in
    elim result [
      | PlatformInitStatus.ok ↦
          if has_any wstatus 1
          then (PlatformInitStatus.ok, published)
          else (PlatformInitStatus.unsupported, empty)
      | other ↦ (other, empty)
    ]
