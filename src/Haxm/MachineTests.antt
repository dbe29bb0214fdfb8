-- ===== src/Haxm/MachineTests.antt =====
-- A driver of HAXM that lists what it has unmapped, and versions.
use virt.Base.{ℕ, ◌≡◌, refl, true, false, some, List, [], ◌∷◌, arith}
use virt.Vm.Machine.{MemoryMappingStatus, Host, Machine, unmap_checked, unmap_guest_memory}
use virt.Haxm.Vm.{VmCalls, unmap_impl, haxm_hypervisor}
use virt.Haxm.Vm.Unmapped.{Refused, unmap_guest_memory-Refused}
use virt.Haxm.Platform.{HaxmVersion, version_lt}
use virt.Haxm.Platform.Version.{IsVersion, version_lt-build_first}

abbrev small_only : VmCalls (List ℕ)
small_only = record {
  winfo = 0;
  cur_version = 4;
  initialize = λ n k. (true, k);
  report_qemu_version = λ a b k. (true, k);
  destroy = λ k. k;
  initialize_vp = λ id k. (true, k);
  map_host_memory = λ m s k. (MemoryMappingStatus.ok, k);
  map_host_memory_large = λ m s k. (MemoryMappingStatus.ok, k);
  map_guest_memory = λ b s f m k. (MemoryMappingStatus.ok, k);
  map_guest_memory_large = λ b s f m k. (MemoryMappingStatus.ok, k);
  unmap_guest_memory = λ base size k. (true, base ∷ k);
  unmap_guest_memory_large = λ base size k. (true, base ∷ k);
  set_guest_memory_flags_large = λ b s f k. (true, k);
}

abbrev host : Host
host = record { large_memory_allocation = false; gpa_mask = 0xffff_ffff }

abbrev machine : Machine (List ℕ)
machine = record {
  regions = record { base_address = 0x1000; size = 0x2000; host_memory = 0x10000 } ∷ [];
  vps = [];
  state = [];
}

unmap_guest_memory-Refused_example :
    Refused small_only refl host machine 0x1000 0x2000
      (unmap_guest_memory (haxm_hypervisor small_only) host machine 0x1000 0x2000)
unmap_guest_memory-Refused_example =
    unmap_guest_memory-Refused small_only refl host machine 0x1000 0x2000

-- The driver has unmapped the range, which the machine keeps.
still_mapped :
    unmap_guest_memory (haxm_hypervisor small_only) host machine 0x1000 0x2000
    ≡ some (MemoryMappingStatus.unsupported, record machine { state = 0x1000 ∷ [] })
unfolding unmap_guest_memory unmap_checked haxm_hypervisor unmap_impl
still_mapped = refl

abbrev older : HaxmVersion
older = record { major = 7; minor = 4; build = 3 }

abbrev newer : HaxmVersion
newer = record { major = 7; minor = 5; build = 1 }

older-IsVersion : IsVersion older
older-IsVersion = record { major_lt = omega arith; minor_lt = omega arith; build_lt = omega arith }

newer-IsVersion : IsVersion newer
newer-IsVersion = record { major_lt = omega arith; minor_lt = omega arith; build_lt = omega arith }

-- 7.4.3 is not below 7.5.1.
version_lt-build_first_example : version_lt 0 0 older newer ≡ false
version_lt-build_first_example =
    version_lt-build_first 0 older newer older-IsVersion newer-IsVersion
