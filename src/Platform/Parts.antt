-- ===== src/Platform/Parts.antt =====
-- The parts of `initFS` that gem5utils/systems/simple/x86.py and skylake/x86.py have in common.
use v_swarm_u.Base.{
  ℕ, ◌+◌, ◌-◌, ◌*◌, ◌^◌, String, List, [], ◌∷◌, ◌++◌, map, range, range_from, ◌==◌,
}
use v_swarm_u.Platform.{
  AddrRange, Wire, int, ext_int, IntAssignment, MpEntry, processor, interrupt, BusHierarchy,
  MadtRecord, local_apic, source_override, IoCache, Acpi, kb,
}

abbrev io_address_space_base : ℕ
io_address_space_base = 0x8000000000000000

abbrev pci_config_address_space_base : ℕ
pci_config_address_space_base = 0xc000000000000000

abbrev pub interrupts_address_space_base : ℕ
interrupts_address_space_base = 0xa000000000000000

-- `1 << 12`
abbrev pub apic_range_size : ℕ
apic_range_size = 0x1000

-- `system.bridge.ranges`; `addr_max` is gem5's `Addr.max`.
unfoldable pub bridge_ranges : ℕ → List AddrRange
bridge_ranges addr_max =
    record { start = 0xC0000000; last = 0xFFFF0000 }
    ∷ record { start = io_address_space_base; last = interrupts_address_space_base - 1 }
    ∷ record { start = pci_config_address_space_base; last = addr_max }
    ∷ []

-- `system.apicbridge.ranges`
unfoldable pub apic_ranges : ℕ → List AddrRange
apic_ranges cpus =
    record {
      start = interrupts_address_space_base;
      last = interrupts_address_space_base + cpus * apic_range_size - 1;
    }
    ∷ []

abbrev wire : String → String → Wire
wire a b = record { from = a; to = b }

-- The ports of the bridges and of the cache of the I/O bus.
unfoldable pub bus_wires : List Wire
bus_wires =
    wire "bridge.mem_side_port" "iobus.cpu_side_ports"
    ∷ wire "bridge.cpu_side_port" "membus.mem_side_ports"
    ∷ wire "apicbridge.cpu_side_port" "iobus.mem_side_ports"
    ∷ wire "apicbridge.mem_side_port" "membus.cpu_side_ports"
    ∷ wire "iocache.cpu_side" "iobus.mem_side_ports"
    ∷ wire "iocache.mem_side" "membus.cpu_side_ports"
    ∷ []

-- The delays of the two bridges.
abbrev pub bridge_delays : List String
bridge_delays = "50ns" ∷ "50ns" ∷ []

-- `system.iocache`
abbrev pub io_cache : List ℕ → IoCache
io_cache mem_ranges = record {
  cache = record {
    size = kb 1;
    assoc = 8;
    tag_latency = 50;
    data_latency = 50;
    response_latency = 50;
    mshrs = 20;
    tgts_per_mshr = 12;
  };
  addr_ranges = mem_ranges;
}

-- `smbios_table.structures`
abbrev pub smbios : List String
smbios = "X86SMBiosBiosInformation" ∷ []

-- `madt` and `acpi_description_table_pointer`
abbrev pub acpi : Acpi
acpi = record {
  local_apic_address = 0;
  madt_oem_id = "madt";
  pointer_oem_id = "gem5";
  rsdt_oem_id = "gem5";
  xsdt_oem_id = "gem5";
}

-- The loop over the CPUs: their entries of the MP table and their records of the MADT.
unfoldable pub processors : ℕ → List MpEntry
processors cpus = map (λ i. processor i (i == 0)) (range cpus)

unfoldable pub local_apics : ℕ → List MadtRecord
local_apics cpus = map (λ i. local_apic i i) (range cpus)

-- `connect_busses`
unfoldable pub hierarchy : List BusHierarchy
hierarchy = record { bus_id = 1; parent_bus = 0 } ∷ []

-- An interrupt of PCI device `dev`: its number is `0 + (dev << 2)`.
abbrev pub pci_interrupt : ℕ → ℕ → ℕ → IntAssignment
pci_interrupt dev apic pin = record {
  interrupt_type = int;
  source_bus_id = 0;
  source_bus_irq = 0 + dev * 2 ^ 2;
  dest_io_apic_id = apic;
  dest_io_apic_intin = pin;
}

-- What `assignISAInt(irq, apicPin)` appends to the MP table and to the MADT.
unfoldable isa_entries : ℕ → ℕ → ℕ → List MpEntry
isa_entries apic irq pin =
    interrupt (record {
      interrupt_type = ext_int;
      source_bus_id = 1;
      source_bus_irq = irq;
      dest_io_apic_id = apic;
      dest_io_apic_intin = 0;
    })
    ∷ interrupt (record {
      interrupt_type = int;
      source_bus_id = 1;
      source_bus_irq = irq;
      dest_io_apic_id = apic;
      dest_io_apic_intin = pin;
    })
    ∷ []

unfoldable isa_record : ℕ → ℕ → MadtRecord
isa_record irq pin = source_override 1 irq pin

-- The calls of `assignISAInt`: 0 to pin 2, 1 to pin 1, and from `low` to 14 each to its own.
abbrev pub isa_calls : ℕ → List (ℕ × ℕ)
isa_calls low = (0, 2) ∷ (1, 1) ∷ map (λ i. (i, i)) (range_from low (15 - low))

unfoldable pub all_isa_entries : ℕ → List (ℕ × ℕ) → List MpEntry
unfolding isa_entries
all_isa_entries apic [] = []
all_isa_entries apic ((irq, pin) ∷ calls) = isa_entries apic irq pin ++ all_isa_entries apic calls

unfoldable pub all_isa_records : List (ℕ × ℕ) → List MadtRecord
unfolding isa_record
all_isa_records [] = []
all_isa_records ((irq, pin) ∷ calls) = isa_record irq pin ∷ all_isa_records calls
