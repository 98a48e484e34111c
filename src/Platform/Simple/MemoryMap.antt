-- ===== src/Platform/Simple/MemoryMap.antt =====
-- What the memory map of gem5utils/systems/simple/x86.py says of each address.
use v_swarm_u.Base.{
  ℕ, ◌+◌, ◌*◌, ◌≤◌, ◌<◌, ◌≡◌, Bool, true, false, ◌&&◌, Option, none, some, List, [], ◌∷◌, arith,
  if◌then◌else◌, ltb, leb, ◌||◌, ◌↔◌,
}
use v_swarm_u.Platform.{AddrRange}
use v_swarm_u.Platform.Parts.{interrupts_address_space_base, apic_range_size}
use v_swarm_u.Platform.Views.{type_at}
use v_swarm_u.Platform.Simple.{init_fs}

-- A memory with one range of `mem_size` bytes: available but for a reserved part below 1 MB, then
-- reserved addresses up to 3 GB, then none up to the last 64 kB below 4 GB, which are reserved.
abbrev pub layout : ℕ → ℕ → Option ℕ
layout mem_size a =
    if ltb a 0x9fc00
    then some 1
    else if ltb a 0x100000
    then some 2
    else if ltb a mem_size
    then some 1
    else if ltb a 0xC0000000
    then some 2
    else if ltb a 0xFFFF0000
    then none
    else if ltb a 0x100000000
    then some 2
    else none

abbrev within : ℕ → AddrRange → Bool
within a r = leb r.start a && ltb a r.last

-- Whether one of the ranges holds an address, its end left out.
abbrev pub passes : ℕ → List AddrRange → Bool
passes a [] = false
passes a (r ∷ rs) = within a r || passes a rs

-- For a memory of 1 MB to 3 GB, the bridge to the I/O bus passes an address below 4 GB exactly if
-- the memory map leaves it open.
pub passes-type_at :
    (addr_max mem_size cpus a : ℕ)
    → 0x100000 ≤ mem_size
    → mem_size ≤ 0xC0000000
    → a < 0x100000000
    → let p = init_fs addr_max mem_size cpus in
      (passes a p.bridge_ranges ≡ true) ↔ (type_at a p.e820_entries ≡ none)
unfolding init_fs
passes-type_at addr_max mem_size cpus a h k l = ground arith

-- Every range of the bridge to the memory bus holds an address.
abbrev AllHold : ℕ → List AddrRange → Type 0
AllHold a [] = Unit
AllHold a (r ∷ rs) = ((r.start ≤ a) × (a ≤ r.last)) × AllHold a rs

-- For up to 256 CPUs, the bridge to the memory bus holds every address of the page of each CPU's
-- local APIC, and the bridge to the I/O bus passes none of them.
apic_pages :
    (addr_max mem_size cpus i offset : ℕ)
    → cpus ≤ 256
    → i < cpus
    → offset < apic_range_size
    → let p = init_fs addr_max mem_size cpus in
      let a = interrupts_address_space_base + i * apic_range_size + offset in
      AllHold a p.apic_ranges × (passes a p.bridge_ranges ≡ false)
unfolding init_fs
apic_pages addr_max mem_size cpus i offset h k l = ((omega arith, tt), ground arith)
