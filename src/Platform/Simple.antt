-- ===== src/Platform/Simple.antt =====
-- gem5utils/systems/simple/x86.py: `initFS` of the simple system.
pub mod MemoryMap
pub mod Interrupts
use v_swarm_u.Base.{ℕ, ◌+◌, ◌-◌, List, [], ◌∷◌, ◌++◌}
use v_swarm_u.Platform.{
  MpEntry, io_apic, bus, interrupt, MadtRecord, io_apic_record, source_override, E820Entry, kb,
  Platform,
}
use v_swarm_u.Platform.Parts.{
  bridge_ranges, bridge_delays, io_cache, smbios, acpi, apic_ranges, bus_wires, processors,
  local_apics, hierarchy, pci_interrupt, isa_calls, all_isa_entries, all_isa_records,
}

-- `io_apic.id`, and its address
abbrev pub io_apic_address : ℕ
io_apic_address = 0xfec00000

-- `base_entries`
unfoldable pub base_entries : ℕ → List MpEntry
unfolding processors all_isa_entries
base_entries cpus =
    processors cpus
    ++ (io_apic cpus io_apic_address
        ∷ bus 0 "PCI   "
        ∷ bus 1 "ISA   "
        ∷ interrupt (pci_interrupt 4 cpus 16)
        ∷ all_isa_entries cpus (isa_calls 3))

-- `madt_records`
unfoldable pub madt_records : ℕ → List MadtRecord
unfolding local_apics all_isa_records
madt_records cpus =
    let pci = pci_interrupt 4 cpus 16 in
    local_apics cpus
    ++ (io_apic_record cpus io_apic_address 0
        ∷ source_override pci.source_bus_id pci.source_bus_irq pci.dest_io_apic_intin
        ∷ all_isa_records (isa_calls 3))

-- The memory map. The two differences are those of the source where the memory has at least 1 MB
-- and at most 3 GB.
unfoldable pub e820_entries : ℕ → List E820Entry
e820_entries mem_size =
    record { addr = 0; size = kb 639; range_type = 1 }
    ∷ record { addr = 0x9fc00; size = kb 385; range_type = 2 }
    ∷ record { addr = 0x100000; size = mem_size - 0x100000; range_type = 1 }
    ∷ record { addr = mem_size; size = 0xC0000000 - mem_size; range_type = 2 }
    ∷ record { addr = 0xFFFF0000; size = kb 64; range_type = 2 }
    ∷ []

-- `initFS`, for a system with one memory range of `mem_size` bytes.
unfoldable pub init_fs : ℕ → ℕ → ℕ → Platform
unfolding base_entries madt_records e820_entries bridge_ranges apic_ranges bus_wires hierarchy
init_fs addr_max mem_size cpus = record {
  bridge_ranges = bridge_ranges addr_max;
  apic_ranges = apic_ranges cpus;
  wires = bus_wires;
  base_entries = base_entries cpus;
  ext_entries = hierarchy;
  madt_records = madt_records cpus;
  e820_entries = e820_entries mem_size;
  bridge_delays = bridge_delays;
  io_cache = io_cache (mem_size ∷ []);
  smbios = smbios;
  acpi = acpi;
}
