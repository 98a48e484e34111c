-- ===== src/Platform/Skylake/Interrupts.antt =====
-- The processors and interrupts of gem5utils/systems/skylake/x86.py.
use v_swarm_u.Base.{
  ℕ, ◌≤◌, ◌≡◌, if◌then◌else◌, refl, List, ◌∷◌, ◌++◌, map, arith, range, ap, select, count_if, ◌==◌,
  take, drop,
}
use v_swarm_u.Platform.{IntAssignment}
use v_swarm_u.Platform.Parts.{isa_calls}
use v_swarm_u.Platform.Skylake.{init_fs}
use v_swarm_u.Platform.Views.{
  is_int, Route, route_of, mp_routes, madt_routes, assignments-map, madt_routes-map,
}

-- The interrupt of the network card, device 2 of the PCI bus.
abbrev pub card : Route
card = record { source = 0; number = 8; pin = 11 }

abbrev pci_card : Route
pci_card = record { source = 0; number = 16; pin = 16 }

-- The interrupts of the ISA bus: 0 and 1, and from 4 on.
abbrev isa_routes : List Route
isa_routes = map (λ (irq, pin). record { source = 1; number = irq; pin = pin }) (isa_calls 4)

mp_routes_lem :
    (addr_max mem_size cpus : ℕ) (others : List ℕ)
    → mp_routes (init_fs addr_max mem_size others cpus).base_entries ≡ pci_card ∷ card ∷ isa_routes
unfolding init_fs
mp_routes_lem addr_max mem_size cpus others =
    ap (λ (as' : List IntAssignment). map route_of (select is_int as'))
      (assignments-map _ (range cpus))

madt_routes_lem :
    (addr_max mem_size cpus : ℕ) (others : List ℕ)
    → madt_routes (init_fs addr_max mem_size others cpus).madt_records ≡ pci_card ∷ isa_routes
unfolding init_fs
madt_routes_lem addr_max mem_size cpus others = madt_routes-map _ (range cpus)

pins_lem :
    (k : ℕ)
    → count_if (λ n. n == k) (map (λ (r : Route). r.pin) (pci_card ∷ card ∷ isa_routes))
      ≤ (if k == 11 then 2 else 1)
pins_lem k = ground arith

-- The MADT describes the interrupts of the MP table in the same order, but for that of the network
-- card, which it leaves out. Two interrupts of type INT share the pin 11, the card's and number 11
-- of the ISA bus; on any other pin there is at most one.
card_interrupts :
    (addr_max mem_size cpus k : ℕ) (others : List ℕ)
    → let p = init_fs addr_max mem_size others cpus in
      let madt = madt_routes p.madt_records in
      let pins = map (λ (r : Route). r.pin) (mp_routes p.base_entries) in
      (mp_routes p.base_entries ≡ take 1 madt ++ (card ∷ drop 1 madt))
      × (count_if (λ n. n == 11) pins ≡ 2)
      × (count_if (λ n. n == k) pins ≤ (if k == 11 then 2 else 1))
card_interrupts addr_max mem_size cpus k others =
    rw (mp_routes_lem addr_max mem_size cpus others, madt_routes_lem addr_max mem_size cpus others)
      (refl, refl, pins_lem k)
