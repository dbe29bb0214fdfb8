-- ===== src/Vm/Tests.antt =====
-- The theorems of the virtual machine's model on small concrete memories.
use virt.Base.{ℕ, ◌+◌, ◌%◌, ◌^◌, ◌-◌, ◌≡◌, ◌↔◌, refl, true, List, [], ◌∷◌, none, some, All, arith}
use virt.Vm.Region.{MemoryRegion, Bytes, copy_bytes, final_address, IsPlaced, Holds}
use virt.Vm.Access.{copy_source, mem_read, mem_write}
use virt.Vm.Access.Search.{host_address}
use virt.Vm.Access.Served.{IsCopy, mem_read-newest, mem_read-fails_iff, mem_read-mem_write}
use virt.Vm.Access.Pages.{newest_byte, Agrees, mem_read-by_byte, mem_read-stale}
use virt.Vm.Subtract.{subtract_memory_range}
use virt.Vm.Subtract.View.{unmapped, subtract-newest_byte, subtract-grows}
use virt.Vm.Machine.{
  map_checked, MemoryMappingStatus, DirtyPageTrackingStatus, Host, Hypervisor, Machine,
  map_guest_memory, unmap_guest_memory,
}
use virt.Vm.Machine.Mapping.{Mapped, Unmapped, map_guest_memory-Mapped, unmap_guest_memory-Unmapped}

-- Three pages of RAM, and a page of ROM that was mapped over the second of them.
abbrev ram : MemoryRegion
ram = record { base_address = 0x1000; size = 0x3000; host_memory = 0x10000 }

abbrev rom : MemoryRegion
rom = record { base_address = 0x2000; size = 0x1000; host_memory = 0x50000 }

abbrev host_bytes : Bytes
host_bytes a = a % 251

abbrev buffer : Bytes
buffer _ = 0

ram-IsPlaced : IsPlaced ram
ram-IsPlaced = record { filled = omega arith; guest_fits = omega arith; host_fits = omega arith }

rom-IsPlaced : IsPlaced rom
rom-IsPlaced = record { filled = omega arith; guest_fits = omega arith; host_fits = omega arith }

mem_read-newest_example :
    (v : Bytes) × (mem_read (ram ∷ rom ∷ []) host_bytes 0x2ffe 0x10 buffer 3 ≡ some v)
    × IsCopy v 3 host_bytes (host_address ram 0x2ffe) 0x10 buffer
mem_read-newest_example =
    mem_read-newest [] ram (rom ∷ []) host_bytes 0x2ffe 0x10 buffer 3 (omega arith) (omega arith)
      (ram-IsPlaced, (rom-IsPlaced, tt)) (omega arith, omega arith)
      ((λ h. omega (arith, h.0, h.1)), tt)

mem_read-fails_iff_example :
    (mem_read (ram ∷ []) host_bytes 0x3ffe 4 buffer 0 ≡ none)
    ↔ All (λ r. ¬ Holds r 0x3ffe 4) (ram ∷ [])
mem_read-fails_iff_example =
    mem_read-fails_iff (ram ∷ []) host_bytes 0x3ffe 4 buffer 0 (omega arith) (omega arith)
      (ram-IsPlaced, tt)

mem_read-mem_write_example :
    (v : Bytes) × (mem_read (ram ∷ []) (copy_bytes host_bytes 0x10ffe buffer 0 4) 0x1ffe 4 buffer 1
      ≡ some v)
    × IsCopy v 1 buffer 0 4 buffer
mem_read-mem_write_example =
    mem_read-mem_write (ram ∷ []) host_bytes 0x1ffe 4 buffer 0 (omega arith) (omega arith)
      (ram-IsPlaced, tt) (copy_bytes host_bytes 0x10ffe buffer 0 4) buffer 1
      (unfold mem_write copy_source final_address in refl)

mem_read-by_byte_example :
    Agrees
      (ram ∷ rom ∷ [])
      host_bytes
      0x2010
      8
      buffer
      0
      (omega arith)
      (omega arith)
      (omega arith)
      (ram-IsPlaced, (rom-IsPlaced, tt))
      ((refl, refl), ((refl, refl), tt))
      5
      (mem_read (ram ∷ rom ∷ []) host_bytes 0x2010 8 buffer 0)
mem_read-by_byte_example =
    mem_read-by_byte (ram ∷ rom ∷ []) host_bytes 0x2010 8 buffer 0 (omega arith) (omega arith)
      (omega arith) (ram-IsPlaced, (rom-IsPlaced, tt)) ((refl, refl), ((refl, refl), tt)) 5
      (omega arith)

mem_read-stale_example :
    (v : Bytes) × (mem_read (ram ∷ rom ∷ []) host_bytes 0x1ffe 4 buffer 0 ≡ some v)
    × (v (0 + 2) ≡ host_bytes (host_address ram (0x1ffe + 2)))
    × (newest_byte (ram ∷ rom ∷ []) (0x1ffe + 2) ≡ some (host_address rom (0x1ffe + 2)))
mem_read-stale_example =
    mem_read-stale [] ram [] rom [] host_bytes 0x1ffe 4 buffer 0 2
      (ram-IsPlaced, (rom-IsPlaced, tt)) (omega arith) (omega arith) (omega arith, omega arith)
      ((λ h. omega (arith, h.0)), tt) (omega arith, omega arith) tt

abbrev top : MemoryRegion
top = record { base_address = 2 ^ 64 - 0x1000; size = 0x1000; host_memory = 0x10000 }

top-IsPlaced : IsPlaced top
top-IsPlaced = record { filled = omega arith; guest_fits = omega arith; host_fits = omega arith }

subtract-newest_byte_example :
    (rs' : List MemoryRegion) × (subtract_memory_range (ram ∷ rom ∷ []) 0x2000 0x1000 ≡ some rs')
    × ((p : ℕ) → newest_byte rs' p ≡ unmapped 0x2000 0x1000 p (newest_byte (ram ∷ rom ∷ []) p))
subtract-newest_byte_example =
    subtract-newest_byte 0x2000 0x1000 (omega arith) (omega arith) (ram ∷ rom ∷ [])
      (ram-IsPlaced, (rom-IsPlaced, tt))
      ((omega arith, omega arith), ((omega arith, omega arith), tt))

subtract-grows_example :
    (rs' : List MemoryRegion) × (subtract_memory_range (ram ∷ rom ∷ []) 0x8000 0x1000 ≡ some rs')
    × (newest_byte (ram ∷ rom ∷ []) 0x4000 ≡ newest_byte (ram ∷ []) 0x4000)
    × (newest_byte rs' 0x4000 ≡ some (0x50000 + (0x4000 - 0x2000)))
subtract-grows_example =
    subtract-grows 0x8000 0x1000 (omega arith) (omega arith) (ram ∷ []) rom [] 0x4000
      (ram-IsPlaced, (rom-IsPlaced, tt)) tt (omega arith) (omega arith) (unfold newest_byte in refl)

-- A hypervisor whose state counts the requests that it has granted.
abbrev counting : Hypervisor ℕ
counting = record {
  map_impl = λ base size flags memory s. (MemoryMappingStatus.ok, s + 1);
  unmap_impl = λ base size s. (MemoryMappingStatus.ok, s + 1);
  set_flags_impl = λ base size flags s. (MemoryMappingStatus.ok, s + 1);
  query_dirty_impl = λ base size bitmap bitmap_size s. (DirtyPageTrackingStatus.ok, s + 1);
  clear_dirty_impl = λ base size s. (DirtyPageTrackingStatus.ok, s + 1);
}

abbrev host40 : Host
host40 = record { large_memory_allocation = true; gpa_mask = 2 ^ 40 - 1 }

abbrev machine : Machine ℕ
machine = record { regions = ram ∷ []; vps = []; state = 0 }

map_guest_memory-Mapped_example : Mapped counting host40 machine 0x2000 0x1000 0 0x50000 40
map_guest_memory-Mapped_example =
    map_guest_memory-Mapped counting host40 machine 0x2000 0x1000 0 0x50000 40 (omega arith) refl
      (omega arith) (unfold map_guest_memory map_checked final_address in refl)

unmap_guest_memory-Unmapped_example :
    (result : MemoryMappingStatus × Machine ℕ) × (unmap_guest_memory counting host40 machine 0x2000
        0x1000
      ≡ some result)
    × Unmapped counting host40 machine 0x2000 0x1000 0 0 result
unmap_guest_memory-Unmapped_example =
    unmap_guest_memory-Unmapped counting host40 machine 0x2000 0x1000 0 0 (omega arith)
      (ram-IsPlaced, tt) ((refl, refl), tt) ((omega arith, omega arith), tt)
