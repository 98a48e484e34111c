-- ===== src/Platform/Tests.antt =====
-- The theorems on the platforms at concrete data: two CPUs, 2 GB of memory.
use v_swarm_u.Base.{ℕ, ◌≡◌, ◌↔◌, true, none, map, arith, replicate}
use v_swarm_u.Platform.Simple
use v_swarm_u.Platform.Simple.MemoryMap.{passes, passes-type_at}
use v_swarm_u.Platform.Simple.Interrupts.{interrupts_lem}
use v_swarm_u.Platform.Views.{type_at, assignments, mp_routes, madt_routes, Distinct}

abbrev addr_max : ℕ
addr_max = 0xffffffffffffffff

abbrev mem_size : ℕ
mem_size = 0x80000000

passes-type_at_example :
    (passes 0xC0000000 (Simple.init_fs addr_max mem_size 2).bridge_ranges ≡ true)
    ↔ (type_at 0xC0000000 (Simple.init_fs addr_max mem_size 2).e820_entries ≡ none)
passes-type_at_example =
    passes-type_at addr_max mem_size 2 0xC0000000 (omega arith) (omega arith) (omega arith)

interrupts_lem_example :
    let p = Simple.init_fs addr_max mem_size 2 in
    (mp_routes p.base_entries ≡ madt_routes p.madt_records)
    × (map (λ a. a.dest_io_apic_id) (assignments p.base_entries) ≡ replicate 29 2)
    × Distinct (map (λ r. r.pin) (mp_routes p.base_entries))
interrupts_lem_example = interrupts_lem addr_max mem_size 2
