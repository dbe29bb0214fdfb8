-- ===== src/Vp/Paging/Entries.antt =====
-- modules/core/include/virt86/vp/paging.hpp: the entries of the paging structures. Each view of an
-- entry is a record of its bit-fields, read from the entry's number; reserved bits have no field.
use virt.Base.{ℕ, bits}

pub record Pte32 : Type 0 where
  pub valid : ℕ
  pub write : ℕ
  pub owner : ℕ
  pub write_through : ℕ
  pub cache_disable : ℕ
  pub accessed : ℕ
  pub dirty : ℕ
  pub pat : ℕ
  pub global : ℕ
  pub guard : ℕ
  pub persist : ℕ
  pub page_frame_number : ℕ

abbrev pub pte32 : ℕ → Pte32
pte32 e = record {
  valid = bits 0 1 e;
  write = bits 1 1 e;
  owner = bits 2 1 e;
  write_through = bits 3 1 e;
  cache_disable = bits 4 1 e;
  accessed = bits 5 1 e;
  dirty = bits 6 1 e;
  pat = bits 7 1 e;
  global = bits 8 1 e;
  guard = bits 9 1 e;
  persist = bits 10 1 e;
  page_frame_number = bits 12 20 e;
}

pub record Pde32 : Type 0 where
  pub valid : ℕ
  pub write : ℕ
  pub owner : ℕ
  pub write_through : ℕ
  pub accessed : ℕ
  pub dirty : ℕ
  pub large_page : ℕ
  pub global : ℕ
  pub guard : ℕ
  pub persist : ℕ
  pub page_frame_number : ℕ

abbrev pub pde32 : ℕ → Pde32
pde32 e = record {
  valid = bits 0 1 e;
  write = bits 1 1 e;
  owner = bits 2 1 e;
  write_through = bits 3 1 e;
  accessed = bits 5 1 e;
  dirty = bits 6 1 e;
  large_page = bits 7 1 e;
  global = bits 8 1 e;
  guard = bits 9 1 e;
  persist = bits 10 1 e;
  page_frame_number = bits 12 20 e;
}

pub record Pde32Table : Type 0 where
  pub valid : ℕ
  pub write : ℕ
  pub owner : ℕ
  pub write_through : ℕ
  pub cache_disable : ℕ
  pub accessed : ℕ
  pub dirty : ℕ
  pub large_page : ℕ
  pub global : ℕ
  pub guard : ℕ
  pub persist : ℕ
  pub page_frame_number : ℕ

abbrev pub pde32_table : ℕ → Pde32Table
pde32_table e = record {
  valid = bits 0 1 e;
  write = bits 1 1 e;
  owner = bits 2 1 e;
  write_through = bits 3 1 e;
  cache_disable = bits 4 1 e;
  accessed = bits 5 1 e;
  dirty = bits 6 1 e;
  large_page = bits 7 1 e;
  global = bits 8 1 e;
  guard = bits 9 1 e;
  persist = bits 10 1 e;
  page_frame_number = bits 12 20 e;
}

pub record Pde32Large : Type 0 where
  pub valid : ℕ
  pub write : ℕ
  pub owner : ℕ
  pub write_through : ℕ
  pub cache_disable : ℕ
  pub accessed : ℕ
  pub dirty : ℕ
  pub large_page : ℕ
  pub global : ℕ
  pub guard : ℕ
  pub persist : ℕ
  pub pat : ℕ
  pub addr_high : ℕ
  pub addr_low : ℕ

abbrev pub pde32_large : ℕ → Pde32Large
pde32_large e = record {
  valid = bits 0 1 e;
  write = bits 1 1 e;
  owner = bits 2 1 e;
  write_through = bits 3 1 e;
  cache_disable = bits 4 1 e;
  accessed = bits 5 1 e;
  dirty = bits 6 1 e;
  large_page = bits 7 1 e;
  global = bits 8 1 e;
  guard = bits 9 1 e;
  persist = bits 10 1 e;
  pat = bits 12 1 e;
  addr_high = bits 13 8 e;
  addr_low = bits 22 10 e;
}

pub record Pte64 : Type 0 where
  pub valid : ℕ
  pub write : ℕ
  pub owner : ℕ
  pub write_through : ℕ
  pub cache_disable : ℕ
  pub accessed : ℕ
  pub dirty : ℕ
  pub pat : ℕ
  pub global : ℕ
  pub guard : ℕ
  pub persist : ℕ
  pub address : ℕ
  pub protection_key : ℕ
  pub execute_disable : ℕ

abbrev pub pte64 : ℕ → Pte64
pte64 e = record {
  valid = bits 0 1 e;
  write = bits 1 1 e;
  owner = bits 2 1 e;
  write_through = bits 3 1 e;
  cache_disable = bits 4 1 e;
  accessed = bits 5 1 e;
  dirty = bits 6 1 e;
  pat = bits 7 1 e;
  global = bits 8 1 e;
  guard = bits 9 1 e;
  persist = bits 10 1 e;
  address = bits 12 40 e;
  protection_key = bits 59 4 e;
  execute_disable = bits 63 1 e;
}

pub record Pde64 : Type 0 where
  pub valid : ℕ
  pub write : ℕ
  pub owner : ℕ
  pub write_through : ℕ
  pub cache_disable : ℕ
  pub accessed : ℕ
  pub large_page : ℕ
  pub execute_disable : ℕ

abbrev pub pde64 : ℕ → Pde64
pde64 e = record {
  valid = bits 0 1 e;
  write = bits 1 1 e;
  owner = bits 2 1 e;
  write_through = bits 3 1 e;
  cache_disable = bits 4 1 e;
  accessed = bits 5 1 e;
  large_page = bits 7 1 e;
  execute_disable = bits 63 1 e;
}

pub record Pde64Table : Type 0 where
  pub valid : ℕ
  pub write : ℕ
  pub owner : ℕ
  pub write_through : ℕ
  pub cache_disable : ℕ
  pub accessed : ℕ
  pub large_page : ℕ
  pub address : ℕ
  pub protection_key : ℕ
  pub execute_disable : ℕ

abbrev pub pde64_table : ℕ → Pde64Table
pde64_table e = record {
  valid = bits 0 1 e;
  write = bits 1 1 e;
  owner = bits 2 1 e;
  write_through = bits 3 1 e;
  cache_disable = bits 4 1 e;
  accessed = bits 5 1 e;
  large_page = bits 7 1 e;
  address = bits 12 40 e;
  protection_key = bits 59 4 e;
  execute_disable = bits 63 1 e;
}

pub record Pde64Large : Type 0 where
  pub valid : ℕ
  pub write : ℕ
  pub owner : ℕ
  pub write_through : ℕ
  pub cache_disable : ℕ
  pub accessed : ℕ
  pub dirty : ℕ
  pub large_page : ℕ
  pub global : ℕ
  pub pat : ℕ
  pub address : ℕ
  pub protection_key : ℕ
  pub execute_disable : ℕ

abbrev pub pde64_large : ℕ → Pde64Large
pde64_large e = record {
  valid = bits 0 1 e;
  write = bits 1 1 e;
  owner = bits 2 1 e;
  write_through = bits 3 1 e;
  cache_disable = bits 4 1 e;
  accessed = bits 5 1 e;
  dirty = bits 6 1 e;
  large_page = bits 7 1 e;
  global = bits 8 1 e;
  pat = bits 12 1 e;
  address = bits 21 31 e;
  protection_key = bits 59 4 e;
  execute_disable = bits 63 1 e;
}

pub record Pdpte : Type 0 where
  pub valid : ℕ
  pub write : ℕ
  pub owner : ℕ
  pub write_through : ℕ
  pub cache_disable : ℕ
  pub accessed : ℕ
  pub large_page : ℕ
  pub execute_disable : ℕ

abbrev pub pdpte : ℕ → Pdpte
pdpte e = record {
  valid = bits 0 1 e;
  write = bits 1 1 e;
  owner = bits 2 1 e;
  write_through = bits 3 1 e;
  cache_disable = bits 4 1 e;
  accessed = bits 5 1 e;
  large_page = bits 7 1 e;
  execute_disable = bits 63 1 e;
}

pub record PdpteTable : Type 0 where
  pub valid : ℕ
  pub write : ℕ
  pub owner : ℕ
  pub write_through : ℕ
  pub cache_disable : ℕ
  pub accessed : ℕ
  pub large_page : ℕ
  pub address : ℕ
  pub execute_disable : ℕ

abbrev pub pdpte_table : ℕ → PdpteTable
pdpte_table e = record {
  valid = bits 0 1 e;
  write = bits 1 1 e;
  owner = bits 2 1 e;
  write_through = bits 3 1 e;
  cache_disable = bits 4 1 e;
  accessed = bits 5 1 e;
  large_page = bits 7 1 e;
  address = bits 12 40 e;
  execute_disable = bits 63 1 e;
}

pub record PdpteLarge : Type 0 where
  pub valid : ℕ
  pub write : ℕ
  pub owner : ℕ
  pub write_through : ℕ
  pub cache_disable : ℕ
  pub accessed : ℕ
  pub dirty : ℕ
  pub large_page : ℕ
  pub global : ℕ
  pub pat : ℕ
  pub address : ℕ
  pub protection_key : ℕ
  pub execute_disable : ℕ

abbrev pub pdpte_large : ℕ → PdpteLarge
pdpte_large e = record {
  valid = bits 0 1 e;
  write = bits 1 1 e;
  owner = bits 2 1 e;
  write_through = bits 3 1 e;
  cache_disable = bits 4 1 e;
  accessed = bits 5 1 e;
  dirty = bits 6 1 e;
  large_page = bits 7 1 e;
  global = bits 8 1 e;
  pat = bits 12 1 e;
  address = bits 30 22 e;
  protection_key = bits 59 4 e;
  execute_disable = bits 63 1 e;
}

pub record Pml4e : Type 0 where
  pub valid : ℕ
  pub write : ℕ
  pub owner : ℕ
  pub write_through : ℕ
  pub cache_disable : ℕ
  pub accessed : ℕ
  pub address : ℕ
  pub execute_disable : ℕ

abbrev pub pml4e : ℕ → Pml4e
pml4e e = record {
  valid = bits 0 1 e;
  write = bits 1 1 e;
  owner = bits 2 1 e;
  write_through = bits 3 1 e;
  cache_disable = bits 4 1 e;
  accessed = bits 5 1 e;
  address = bits 12 40 e;
  execute_disable = bits 63 1 e;
}
