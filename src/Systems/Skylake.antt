-- ===== src/Systems/Skylake.antt =====
-- gem5utils/systems/skylake/system.py: the Skylake system.
pub mod Laws
pub mod Caches
pub mod FlushOrder
use v_swarm_u.Base.{
  ℕ, String, Bool, ◌&&◌, Option, none, some, List, [], ◌∷◌, ◌++◌, map, range, flat_map, ltb,
  if◌then◌else◌,
}
use v_swarm_u.Platform.Skylake as Platform
use v_swarm_u.Systems.{
  CpuModel, kvm_cpu, mem_mode_of, is_kvm, CacheName, icache, dcache, mmucache, l2cache, llc_cache,
  l3cache, membus, l3bus, l2bus, cpu_side_ports, mem_side_ports, system_port, controller, Link,
  link, whole_range, System, create_cpus, create_atomic_cpus, assign_queues, connect_cpu_directly,
  setup_interrupts, boot_options, set_disk_image, ddr4_2400_16x4, direct_cache,
}
use v_swarm_u.Systems.Skylake.Caches.{
  l1i_connect_cpu, l1d_connect_cpu, mmu_connect_cpu, l1_connect_bus, mmu_connect_bus,
  l2_connect_cpu_side_bus, l2_connect_mem_side_bus, l3_connect_cpu_side_bus,
  l3_connect_mem_side_bus,
}
use v_swarm_u.Systems.Interleave.{get_interleave_ranges}

-- The caches of one CPU, with the crossbar that its table walkers share.
unfoldable pub cpu_caches : ℕ → List Link
cpu_caches i =
    l1i_connect_cpu (icache i) i
    ∷ l1d_connect_cpu (dcache i) i
    ∷ (mmu_connect_cpu (mmucache i) i
        ++ (l1_connect_bus (icache i) (l2bus i)
            ∷ l1_connect_bus (dcache i) (l2bus i)
            ∷ mmu_connect_bus (mmucache i) (l2bus i)
            ∷ l2_connect_cpu_side_bus (l2cache i) (l2bus i)
            ∷ l2_connect_mem_side_bus (l2cache i) l3bus
            ∷ []))

-- `createCacheHierarchy`, and the list of caches that it keeps for `flushCaches`
unfoldable pub create_cache_hierarchy : ℕ → List Link
unfolding cpu_caches
create_cache_hierarchy n =
    flat_map cpu_caches (range n)
    ++ (l3_connect_cpu_side_bus l3cache l3bus ∷ l3_connect_mem_side_bus l3cache membus ∷ [])

unfoldable pub hierarchy_caches : ℕ → List CacheName
hierarchy_caches n =
    flat_map (λ i. icache i ∷ dcache i ∷ mmucache i ∷ l2cache i ∷ []) (range n) ++ (l3cache ∷ [])

-- What `flushCaches` asks of a cache; it drains the simulator first.
pub data Flush : Type 0 where
  drain : Flush
  mem_writeback mem_invalidate : CacheName → Flush

unfoldable pub flush_caches : List CacheName → List Flush
flush_caches caches = drain ∷ flat_map (λ c. mem_writeback c ∷ mem_invalidate c ∷ []) caches

-- The ports of `_createMemoryControllers`
abbrev pub controller_links : ℕ → List Link
controller_links n = map (λ i. link (mem_side_ports membus) (controller i)) (range n)

-- All links of the system.
unfoldable pub system_links : ℕ → ℕ → Bool → List Link
unfolding create_cache_hierarchy connect_cpu_directly setup_interrupts
system_links n_dram_cntrl num_cpus kvm =
    link system_port (cpu_side_ports membus)
    ∷ ((if kvm then connect_cpu_directly num_cpus else create_cache_hierarchy num_cpus)
        ++ (setup_interrupts num_cpus ++ controller_links n_dram_cntrl))

-- `SklSystem(kernel, disk, num_cpus, CPUModel, kvm)`, with `n_dram_cntrl` controllers, which the
-- source sets to 1. `none` is the fatal error of `_getInterleaveRanges`.
unfoldable pub skl_system : ℕ → ℕ → String → String → ℕ → CpuModel → Bool → Option System
unfolding system_links hierarchy_caches Platform.init_fs get_interleave_ranges
skl_system n_dram_cntrl addr_max kernel disk num_cpus cpu_model kvm =
    let host_parallel = kvm && ltb 1 num_cpus in
    let mem_size : ℕ = 0x80000000 in
    let model = if kvm then kvm_cpu else cpu_model in
    elim (get_interleave_ranges (whole_range mem_size) n_dram_cntrl 7 20) [
      | none ↦ none
      | some ranges ↦ some (record {
        host_parallel = host_parallel;
        clock_mhz = 2500;
        mem_size = mem_size;
        kernel = kernel;
        disks = set_disk_image disk;
        boot_options = boot_options;
        m5ops_base = 0xffff0000;
        platform = Platform.init_fs addr_max mem_size [] num_cpus;
        cpus = assign_queues host_parallel (create_cpus num_cpus model);
        atomic_cpus = create_atomic_cpus num_cpus;
        has_vm = is_kvm model;
        mem_mode = mem_mode_of model;
        caches = if kvm then llc_cache ∷ [] else hierarchy_caches num_cpus;
        links = system_links n_dram_cntrl num_cpus kvm;
        controllers = ranges;
        memory = ddr4_2400_16x4;
        direct_cache = if kvm then some direct_cache else none;
      })
    ]
