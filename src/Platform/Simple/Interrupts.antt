-- ===== src/Platform/Simple/Interrupts.antt =====
-- The processors and interrupts of gem5utils/systems/simple/x86.py.
use mathlib.Core.List.{append-nil}
use mathlib.Core.Path.{subst}
use v_swarm_u.Base.{ℕ, suc, ◌≡◌, ◌∙◌, List, [], ◌∷◌, map, arith, range, replicate, ap, sym, select}
use v_swarm_u.Platform.{IntAssignment}
use v_swarm_u.Platform.Simple.{init_fs}
use v_swarm_u.Platform.Views.{
  cpu_ids, boot_ids, apic_ids, assignments, is_int, route_of, mp_routes, madt_routes, madt_cpu_ids,
  Distinct, cpu_ids-map, boot_ids-map, apic_ids-map, assignments-map, madt_routes-map,
  madt_cpu_ids-map, zeros-range,
}

-- For n + 1 CPUs, both tables name the CPUs 0 to n, each once and in order. The machine boots on
-- CPU 0 alone, and the one I/O APIC has the id n + 1.
processors_lem :
    (addr_max mem_size n : ℕ)
    → let p = init_fs addr_max mem_size (suc n) in
      (cpu_ids p.base_entries ≡ range (suc n))
      × (madt_cpu_ids p.madt_records ≡ range (suc n))
      × (boot_ids p.base_entries ≡ 0 ∷ [])
      × (apic_ids p.base_entries ≡ suc n ∷ [])
unfolding init_fs
processors_lem addr_max mem_size n = (
  cpu_ids-map _ (range (suc n)) ∙ append-nil (range (suc n)),
  madt_cpu_ids-map _ (range (suc n)) ∙ append-nil (range (suc n)),
  boot_ids-map _ (range (suc n)) ∙ (append-nil _ ∙ zeros-range n),
  apic_ids-map _ (range (suc n)),
)

-- The MADT has one entry for each interrupt of type INT of the MP table, in the same order and with
-- the same source and pin, and no two of these share a pin. All 29 interrupts of the MP table, those
-- of type ExtInt included, go to the I/O APIC.
pub interrupts_lem :
    (addr_max mem_size cpus : ℕ)
    → let p = init_fs addr_max mem_size cpus in
      (mp_routes p.base_entries ≡ madt_routes p.madt_records)
      × (map (λ a. a.dest_io_apic_id) (assignments p.base_entries) ≡ replicate 29 cpus)
      × Distinct (map (λ r. r.pin) (mp_routes p.base_entries))
unfolding init_fs
interrupts_lem addr_max mem_size cpus = (
  ap (λ (as' : List IntAssignment). map route_of (select is_int as'))
        (assignments-map _ (range cpus))
      ∙ sym (madt_routes-map _ (range cpus)),
  ap (λ (as' : List IntAssignment). map (λ a. a.dest_io_apic_id) as')
      (assignments-map _ (range cpus)),
  subst (λ as'. Distinct (map (λ r. r.pin) (map route_of (select is_int as'))))
      (sym (assignments-map _ (range cpus))) (omega arith),
)
