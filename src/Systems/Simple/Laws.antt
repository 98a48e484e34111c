-- ===== src/Systems/Simple/Laws.antt =====
-- The routes over the links of the simple system.
use mathlib.Core.List.{Memᴰ}
use mathlib.Core.List.Memᴰ
use v_swarm_u.Base.{
  ℕ, String, Bool, true, false, ◌<◌, ◌≡◌, refl, some, List, get_elem?, map, range, range_from,
  replicate, ltb, ◌&&◌, if◌then◌else◌,
}
use v_swarm_u.Systems.Cpus.{queues, pair_ids, pair_states, queues-assign, pairs_ids, pairs_states}
use v_swarm_u.Systems.{
  CpuModel, kvm_cpu, switch_to_atomic, CpuPort, int_requestor, membus, cpu_port, cpu_side_ports,
  controller, Link, link, connect_cpu_directly, setup_interrupts, Port, llcbus,
}
use v_swarm_u.Systems.Routes.{
  Reaches, arrived, over, through_cache, through_bus, is_request, in_loop, in_at, request-Reaches,
  direct-Reaches, in_interrupts,
}
use v_swarm_u.Systems.Simple.{cpu_caches, create_cache_hierarchy, simple_system}

-- Over the links of `createCacheHierarchy`, each request port of a CPU reaches what the memory bus
-- reaches.
hierarchy-Reaches :
    (ls : List Link) (n i : ℕ) (target : Port)
    → i < n
    → ((l : Link) → Memᴰ l (create_cache_hierarchy n) → Memᴰ l ls)
    → Memᴰ (link (cpu_port i int_requestor) (cpu_side_ports membus)) ls
    → Reaches ls (cpu_side_ports membus) target
    → (port : CpuPort) → is_request port ≡ true
    → Reaches ls (cpu_port i port) target
unfolding cpu_caches create_cache_hierarchy
hierarchy-Reaches ls n i target h hierarchy interrupt memory =
    request-Reaches (over (round 0 refl) (through_cache (over (round 2 refl) shared)))
      (over (round 1 refl) (through_cache (over (round 3 refl) shared)))
      (over (round 4 refl) memory) (over (round 5 refl) memory) (over interrupt memory)
  where
    round : (k : ℕ) {l : Link} → get_elem? (cpu_caches i) k ≡ some l → Memᴰ l ls
    round k e = hierarchy _ (Memᴰ.tail (Memᴰ.tail (in_loop cpu_caches n i h (in_at k _ e))))

    shared : Reaches ls (cpu_side_ports llcbus) target
    shared = through_bus (
        over (hierarchy _ (in_at 0 _ refl))
          (through_cache (over (hierarchy _ (in_at 1 _ refl)) memory)))

-- Every port of every CPU that sends requests, its table walkers and its interrupt controller
-- included, reaches the memory controller over the links of the system, with and without KVM.
pub simple_system-Reaches :
    (addr_max : ℕ) (kernel disk : String) (num_cpus : ℕ) (model : CpuModel) (kvm : Bool) (i : ℕ)
    (port : CpuPort)
    → i < num_cpus
    → is_request port ≡ true
    → Reaches
        (simple_system addr_max kernel disk num_cpus model kvm).links
        (cpu_port i port)
        (controller 0)
unfolding simple_system
simple_system-Reaches addr_max kernel disk n model true i port h request =
    let ints = setup_interrupts n in
    direct-Reaches _ n i (controller 0) h (λ l m. Memᴰ.tail (Memᴰ.append_left _ m))
      (Memᴰ.tail
        (Memᴰ.append_right (connect_cpu_directly n) (Memᴰ.append_left _ (in_interrupts n i h))))
      (through_bus (
        over
          (Memᴰ.tail
            (Memᴰ.append_right (connect_cpu_directly n) (Memᴰ.append_right ints (Memᴰ.head refl))))
          arrived))
      port request
simple_system-Reaches addr_max kernel disk n model false i port h request =
    let ints = setup_interrupts n in
    hierarchy-Reaches _ n i (controller 0) h (λ l m. Memᴰ.tail (Memᴰ.append_left _ m))
      (Memᴰ.tail
        (Memᴰ.append_right (create_cache_hierarchy n) (Memᴰ.append_left _ (in_interrupts n i h))))
      (through_bus (
        over
          (Memᴰ.tail (
            Memᴰ.append_right (create_cache_hierarchy n) (Memᴰ.append_right ints (Memᴰ.head refl))))
          arrived))
      port request

-- The pairs of the switch to the atomic CPUs hold the CPUs 0 to n - 1 in order, each with the atomic
-- CPU of its number, the old of them running and the new switched out. With KVM and more than one CPU each CPU has an event queue of its own, from 1 on; else all have
-- queue 0.
pub simple_system-switch_to_atomic :
    (addr_max : ℕ) (kernel disk : String) (n : ℕ) (model : CpuModel) (kvm : Bool)
    → let s = simple_system addr_max kernel disk n model kvm in
      (map pair_ids (switch_to_atomic s) ≡ map (λ k. (k, k)) (range n))
      × (map pair_states (switch_to_atomic s) ≡ replicate n (false, true))
      × (queues s.cpus ≡ (if kvm && ltb 1 n then range_from 1 n else replicate n 0))
unfolding simple_system
simple_system-switch_to_atomic addr_max kernel disk n model kvm =
    let m = if kvm then kvm_cpu else model in
    let parallel = kvm && ltb 1 n in
    (pairs_ids m parallel n, pairs_states m parallel n, queues-assign parallel n m)
