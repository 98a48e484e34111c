-- ===== src/Platform/Skylake.antt =====
-- gem5utils/systems/skylake/x86.py: `initFS` of the Skylake system, with its network card.
pub mod MemoryMap
pub mod Interrupts
use v_swarm_u.Base.{ℕ, ◌+◌, ◌-◌, List, [], ◌∷◌, ◌++◌}
use v_swarm_u.Platform.{
  Wire, MpEntry, io_apic, bus, interrupt, MadtRecord, io_apic_record, source_override, E820Entry,
  kb, Platform,
}
use v_swarm_u.Platform.Parts.{
  bridge_ranges, bridge_delays, io_cache, smbios, acpi, apic_ranges, bus_wires, processors,
  local_apics, hierarchy, pci_interrupt, isa_calls, all_isa_entries, all_isa_records,
}

abbrev io_apic_address : ℕ
io_apic_address = 0xfec00000

-- `base_entries`: the network card is device 2 and uses the pin 11.
unfoldable pub base_entries : ℕ → List MpEntry
unfolding processors all_isa_entries
base_entries cpus =
    processors cpus
    ++ (io_apic cpus io_apic_address
        ∷ bus 0 "PCI   "
        ∷ bus 1 "ISA   "
        ∷ interrupt (pci_interrupt 4 cpus 16)
        ∷ interrupt (pci_interrupt 2 cpus 11)
        ∷ all_isa_entries cpus (isa_calls 4))

-- `madt_records`
unfoldable pub madt_records : ℕ → List MadtRecord
unfolding local_apics all_isa_records
madt_records cpus =
    let pci = pci_interrupt 4 cpus 16 in
    local_apics cpus
    ++ (io_apic_record cpus io_apic_address 0
        ∷ source_override pci.source_bus_id pci.source_bus_irq pci.dest_io_apic_intin
        ∷ all_isa_records (isa_calls 4))

-- The ports of the buses, and those of the network card.
unfoldable pub wires : List Wire
unfolding bus_wires
wires =
    bus_wires
    ++ (record { from = "pc.ethernet.pio"; to = "iobus.mem_side_ports" }
        ∷ record { from = "pc.ethernet.dma"; to = "iobus.cpu_side_ports" }
        ∷ [])

-- The entry of the memory map for a single memory range, and the one for a second range.
abbrev reserved_below_3gb : ℕ → List ℕ → List E820Entry
reserved_below_3gb mem_size [] =
    record { addr = mem_size; size = 0xC0000000 - mem_size; range_type = 2 } ∷ []
reserved_below_3gb mem_size (_ ∷ _) = []

abbrev above_4gb : List ℕ → List E820Entry
above_4gb (second ∷ []) = record { addr = 0x100000000; size = second; range_type = 1 } ∷ []
above_4gb _ = []

-- The memory map, for the size of the first memory range and those of the others.
unfoldable pub e820_entries : ℕ → List ℕ → List E820Entry
e820_entries mem_size others =
    record { addr = 0; size = kb 639; range_type = 1 }
    ∷ record { addr = 0x9fc00; size = kb 385; range_type = 2 }
    ∷ record { addr = 0x100000; size = mem_size - 0x100000; range_type = 1 }
    ∷ (reserved_below_3gb mem_size others
        ++ (record { addr = 0xFFFF0000; size = kb 64; range_type = 2 } ∷ above_4gb others))

-- `initFS`
unfoldable pub init_fs : ℕ → ℕ → List ℕ → ℕ → Platform
unfolding base_entries madt_records e820_entries bridge_ranges apic_ranges wires hierarchy
init_fs addr_max mem_size others cpus = record {
  bridge_ranges = bridge_ranges addr_max;
  apic_ranges = apic_ranges cpus;
  wires = wires;
  base_entries = base_entries cpus;
  ext_entries = hierarchy;
  madt_records = madt_records cpus;
  e820_entries = e820_entries mem_size others;
  bridge_delays = bridge_delays;
  io_cache = io_cache (mem_size ∷ others);
  smbios = smbios;
  acpi = acpi;
}
