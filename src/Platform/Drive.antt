-- ===== src/Platform/Drive.antt =====
-- gem5utils/systems/drive/x86.py: `initFS` of the driving machine. The file has the text of
-- gem5utils/systems/skylake/x86.py, so its definitions are those of Platform/Skylake.
use v_swarm_u.Base.{ℕ, List, ◌∷◌}
use v_swarm_u.Platform.{Wire, MpEntry, MadtRecord, E820Entry, Platform}
use v_swarm_u.Platform.Parts.{
  bridge_ranges, bridge_delays, io_cache, smbios, acpi, apic_ranges, hierarchy,
}
use v_swarm_u.Platform.Skylake

-- `base_entries`
abbrev pub base_entries : ℕ → List MpEntry
base_entries cpus = Skylake.base_entries cpus

-- `madt_records`
abbrev pub madt_records : ℕ → List MadtRecord
madt_records cpus = Skylake.madt_records cpus

-- The ports of the buses, and those of the network card.
abbrev pub wires : List Wire
wires = Skylake.wires

-- The memory map, for the size of the first memory range and those of the others.
abbrev pub e820_entries : ℕ → List ℕ → List E820Entry
e820_entries mem_size others = Skylake.e820_entries mem_size others

-- `initFS`
unfoldable pub init_fs : ℕ → ℕ → List ℕ → ℕ → Platform
unfolding bridge_ranges apic_ranges hierarchy
init_fs addr_max mem_size others cpus = record {
  bridge_ranges = bridge_ranges addr_max;
  apic_ranges = apic_ranges cpus;
  wires = wires;
  base_entries = base_entries cpus;
  ext_entries = hierarchy;
  madt_records = madt_records cpus;
  e820_entries = e820_entries mem_size others;
  bridge_delays = bridge_delays;
  io_cache = io_cache (mem_size ∷ others);
  smbios = smbios;
  acpi = acpi;
}
