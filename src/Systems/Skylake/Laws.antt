-- ===== src/Systems/Skylake/Laws.antt =====
-- The routes over the links of the Skylake system, and its caches.
use mathlib.Core.List.{Memᴰ}
use mathlib.Core.List.Memᴰ
use v_swarm_u.Base.{
  ◌^◌, ℕ, String, Bool, true, false, ◌<◌, ◌≡◌, refl, some, List, [], ◌∷◌, get_elem?, flat_map,
  range,
}
use v_swarm_u.Systems.{
  CpuModel, CpuPort, int_requestor, membus, cpu_port, cpu_side_ports, mem_side_ports, controller,
  Link, link, connect_cpu_directly, setup_interrupts, Port, cpu_side, mem_side, l2bus, whole_range,
  l3bus, l3cache, mmubus, System,
}
use v_swarm_u.Systems.Routes.{
  Reaches, arrived, over, through_cache, through_bus, is_request, in_loop, in_range, in_at,
  request-Reaches, direct-Reaches, in_interrupts,
}
use v_swarm_u.Systems.Skylake.{
  cpu_caches, create_cache_hierarchy, controller_links, system_links, skl_system,
}
use v_swarm_u.Systems.Interleave.Laws.{get_interleave_ranges-pow}

-- Over the links of `createCacheHierarchy`, each request port of a CPU reaches what the memory bus
-- reaches.
hierarchy-Reaches :
    (ls : List Link) (n i : ℕ) (target : Port)
    → i < n
    → ((l : Link) → Memᴰ l (create_cache_hierarchy n) → Memᴰ l ls)
    → Memᴰ (link (cpu_port i int_requestor) (cpu_side_ports membus)) ls
    → Reaches ls (cpu_side_ports membus) target
    → (port : CpuPort) → is_request port ≡ true
    → Reaches ls (cpu_port i port) target
unfolding cpu_caches create_cache_hierarchy
hierarchy-Reaches ls n i target h hierarchy interrupt memory =
    request-Reaches (over (round 0 refl) (through_cache (over (round 5 refl) l2)))
      (over (round 1 refl) (through_cache (over (round 6 refl) l2))) (over (round 3 refl) walker)
      (over (round 4 refl) walker) (over interrupt memory)
  where
    round : (k : ℕ) {l : Link} → get_elem? (cpu_caches i) k ≡ some l → Memᴰ l ls
    round k e = hierarchy _ (Memᴰ.append_left _ (in_loop cpu_caches n i h (in_at k _ e)))

    last :
        (k : ℕ) {l : Link}
        → get_elem?
            (link (mem_side_ports l3bus) (cpu_side l3cache)
              ∷ link (mem_side l3cache) (cpu_side_ports membus)
              ∷ [])
            k
          ≡ some l
        → Memᴰ l ls
    last k e = hierarchy _ (Memᴰ.append_right (flat_map cpu_caches (range n)) (in_at k _ e))

    l3 : Reaches ls (cpu_side_ports l3bus) target
    l3 = through_bus (over (last 0 refl) (through_cache (over (last 1 refl) memory)))

    l2 : Reaches ls (cpu_side_ports (l2bus i)) target
    l2 = through_bus (over (round 8 refl) (through_cache (over (round 9 refl) l3)))

    walker : Reaches ls (cpu_side_ports (mmubus i)) target
    walker = through_bus (over (round 2 refl) (through_cache (over (round 7 refl) l2)))

in_controllers :
    (n j : ℕ) → j < n → Memᴰ (link (mem_side_ports membus) (controller j)) (controller_links n)
in_controllers n j h = Memᴰ.map (λ i. link (mem_side_ports membus) (controller i)) (in_range n j h)

system_links-Reaches :
    (n_dram n : ℕ) (kvm : Bool) (i j : ℕ) (port : CpuPort)
    → i < n
    → j < n_dram
    → is_request port ≡ true
    → Reaches (system_links n_dram n kvm) (cpu_port i port) (controller j)
unfolding system_links
system_links-Reaches n_dram n true i j port h hj request =
    let front = connect_cpu_directly n in
    let ints = setup_interrupts n in
    direct-Reaches _ n i (controller j) h (λ l m. Memᴰ.tail (Memᴰ.append_left _ m))
      (Memᴰ.tail (Memᴰ.append_right front (Memᴰ.append_left _ (in_interrupts n i h))))
      (through_bus (
        over
          (Memᴰ.tail
            (Memᴰ.append_right front (Memᴰ.append_right ints (in_controllers n_dram j hj))))
          arrived))
      port request
system_links-Reaches n_dram n false i j port h hj request =
    let front = create_cache_hierarchy n in
    let ints = setup_interrupts n in
    hierarchy-Reaches _ n i (controller j) h (λ l m. Memᴰ.tail (Memᴰ.append_left _ m))
      (Memᴰ.tail (Memᴰ.append_right front (Memᴰ.append_left _ (in_interrupts n i h))))
      (through_bus (
        over
          (Memᴰ.tail
            (Memᴰ.append_right front (Memᴰ.append_right ints (in_controllers n_dram j hj))))
          arrived))
      port request

-- With a power of two of memory controllers the system is created, with and without KVM, and every
-- port of every CPU that sends requests, its table walkers and its interrupt controller included,
-- reaches every memory controller over the links of the system.
pub skl_system-Reaches :
    (k addr_max : ℕ) (kernel disk : String) (num_cpus : ℕ) (model : CpuModel) (kvm : Bool) (i j : ℕ)
    (port : CpuPort)
    → i < num_cpus
    → j < 2 ^ k
    → is_request port ≡ true
    → (s : System) × (skl_system (2 ^ k) addr_max kernel disk num_cpus model kvm ≡ some s)
      × Reaches s.links (cpu_port i port) (controller j)
unfolding skl_system
skl_system-Reaches k addr_max kernel disk n model kvm i j port h hj request =
    rw (skl_system, get_interleave_ranges-pow (whole_range 0x80000000) k 7 20)
      (_, refl, system_links-Reaches (2 ^ k) n kvm i j port h hj request)
