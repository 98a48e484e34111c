-- ===== src/Platform.antt =====
-- The x86 platform of the simulated machines, gem5utils/systems/*/x86.py: what `initFS` makes of a
-- system, as data. Sizes are in bytes.
pub mod Parts
pub mod Views
pub mod Simple
pub mod Skylake
pub mod Drive
mod Tests
use v_swarm_u.Base.{ℕ, ◌*◌, String, Bool, List}

-- `AddrRange(start, end)`, as it is written.
pub record AddrRange : Type 0 where
  pub start : ℕ
  pub last : ℕ

-- An assignment `a.port = b.port`.
pub record Wire : Type 0 where
  pub from : String
  pub to : String

pub data IntType : Type 0 where
  int ext_int : IntType

pub record IntAssignment : Type 0 where
  pub interrupt_type : IntType
  pub source_bus_id : ℕ
  pub source_bus_irq : ℕ
  pub dest_io_apic_id : ℕ
  pub dest_io_apic_intin : ℕ

-- The entries of the Intel MP table.
pub data MpEntry : Type 0 where
  processor : ℕ → Bool → MpEntry
  io_apic : ℕ → ℕ → MpEntry
  bus : ℕ → String → MpEntry
  interrupt : IntAssignment → MpEntry

-- The hierarchy of the buses: the bus, and its parent.
pub record BusHierarchy : Type 0 where
  pub bus_id : ℕ
  pub parent_bus : ℕ

-- The records of the MADT.
pub data MadtRecord : Type 0 where
  local_apic : ℕ → ℕ → MadtRecord
  io_apic_record : ℕ → ℕ → ℕ → MadtRecord
  source_override : ℕ → ℕ → ℕ → MadtRecord

-- An entry of the memory map; `range_type` is 1 for memory that is available, 2 for reserved.
pub record E820Entry : Type 0 where
  pub addr : ℕ
  pub size : ℕ
  pub range_type : ℕ

-- "kB" in a size, as gem5 reads it.
abbrev pub kb : ℕ → ℕ
kb n = n * 1024

-- A small cache with the parameters that the source gives it.
pub record SmallCache : Type 0 where
  pub size : ℕ
  pub assoc : ℕ
  pub tag_latency : ℕ
  pub data_latency : ℕ
  pub response_latency : ℕ
  pub mshrs : ℕ
  pub tgts_per_mshr : ℕ

-- The cache of the I/O bus, and the sizes of the memory ranges that it serves.
pub record IoCache : Type 0 where
  pub cache : SmallCache
  pub addr_ranges : List ℕ

-- What the ACPI tables say beside the records of the MADT: its address of the local APIC, and the
-- names of the makers of the MADT, of the pointer, of the RSDT and of the XSDT.
pub record Acpi : Type 0 where
  pub local_apic_address : ℕ
  pub madt_oem_id : String
  pub pointer_oem_id : String
  pub rsdt_oem_id : String
  pub xsdt_oem_id : String

-- What `initFS` sets.
pub record Platform : Type 0 where
  pub bridge_ranges : List AddrRange
  pub apic_ranges : List AddrRange
  pub wires : List Wire
  pub base_entries : List MpEntry
  pub ext_entries : List BusHierarchy
  pub madt_records : List MadtRecord
  pub e820_entries : List E820Entry
  pub bridge_delays : List String
  pub io_cache : IoCache
  pub smbios : List String
  pub acpi : Acpi
