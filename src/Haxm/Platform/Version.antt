-- ===== src/Haxm/Platform/Version.antt =====
-- The order of HaxmVersion.
use virt.Base.{ℕ, ◌^◌, ◌<◌, ◌≡◌, ◌==◌, ltb, if◌then◌else◌, arith}
use virt.Haxm.Platform.{HaxmVersion, version_u64, version_lt}

-- The words of a version have 16 bits.
pub record IsVersion (v : HaxmVersion) : Type 0 where
  pub major_lt : v.major < 2 ^ 16
  pub minor_lt : v.minor < 2 ^ 16
  pub build_lt : v.build < 2 ^ 16

-- For versions of 16-bit words with the same unset last word, `<` compares the build numbers; if
-- they are the same, the minor numbers; and only if these are the same too, the major numbers.
pub version_lt-build_first :
    (last : ℕ) (v w : HaxmVersion)
    → IsVersion v
    → IsVersion w
    → version_lt last last v w ≡ (
        if v.build == w.build
        then (if v.minor == w.minor then ltb v.major w.major else ltb v.minor w.minor)
        else ltb v.build w.build)
unfolding version_lt version_u64
version_lt-build_first last v w hv hw =
    grind (arith, hv.major_lt, hv.minor_lt, hv.build_lt, hw.major_lt, hw.minor_lt, hw.build_lt)
