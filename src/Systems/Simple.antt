-- ===== src/Systems/Simple.antt =====
-- gem5utils/systems/simple/system.py: the simple system.
pub mod Laws
pub mod Caches
use v_swarm_u.Base.{
  ℕ, String, Bool, none, some, ◌&&◌, List, [], ◌∷◌, ◌++◌, range, flat_map, ltb, if◌then◌else◌,
}
use v_swarm_u.Platform.Simple as Platform
use v_swarm_u.Systems.{
  CpuModel, kvm_cpu, mem_mode_of, is_kvm, itb_walker, dtb_walker, icache, dcache, llc, membus,
  llcbus, cpu_port, cpu_side_ports, mem_side_ports, system_port, controller, Link, link,
  whole_range, System, create_cpus, create_atomic_cpus, assign_queues, connect_cpu_directly,
  setup_interrupts, boot_options, set_disk_image, simple_memory, direct_cache,
}
use v_swarm_u.Systems.Simple.Caches.{
  l1i_connect_cpu, l1d_connect_cpu, l1_connect_bus, connect_cpu_side_bus, connect_mem_side_bus,
}

-- The caches of one CPU, and its table walkers, which go to the memory bus.
unfoldable pub cpu_caches : ℕ → List Link
cpu_caches i =
    l1i_connect_cpu (icache i) i
    ∷ l1d_connect_cpu (dcache i) i
    ∷ l1_connect_bus (icache i) llcbus
    ∷ l1_connect_bus (dcache i) llcbus
    ∷ link (cpu_port i itb_walker) (cpu_side_ports membus)
    ∷ link (cpu_port i dtb_walker) (cpu_side_ports membus)
    ∷ []

-- `createCacheHierarchy`
unfoldable pub create_cache_hierarchy : ℕ → List Link
unfolding cpu_caches
create_cache_hierarchy n =
    connect_cpu_side_bus llc llcbus
    ∷ connect_mem_side_bus llc membus
    ∷ flat_map cpu_caches (range n)

-- `SimpleSystem(kernel, disk, num_cpus, CPUModel, kvm)`
unfoldable pub simple_system : ℕ → String → String → ℕ → CpuModel → Bool → System
unfolding create_cache_hierarchy connect_cpu_directly setup_interrupts Platform.init_fs
simple_system addr_max kernel disk num_cpus cpu_model kvm =
    let host_parallel = kvm && ltb 1 num_cpus in
    let mem_size : ℕ = 0x80000000 in
    let model = if kvm then kvm_cpu else cpu_model in
    record {
      host_parallel = host_parallel;
      clock_mhz = 2500;
      mem_size = mem_size;
      kernel = kernel;
      disks = set_disk_image disk;
      boot_options = boot_options;
      m5ops_base = 0xffff0000;
      platform = Platform.init_fs addr_max mem_size num_cpus;
      cpus = assign_queues host_parallel (create_cpus num_cpus model);
      atomic_cpus = create_atomic_cpus num_cpus;
      has_vm = is_kvm model;
      mem_mode = mem_mode_of model;
      caches = [];
      links =
          link system_port (cpu_side_ports membus)
          ∷ ((if kvm then connect_cpu_directly num_cpus else create_cache_hierarchy num_cpus)
              ++ (setup_interrupts num_cpus ++ (link (mem_side_ports membus) (controller 0) ∷ [])));
      controllers = whole_range mem_size ∷ [];
      memory = simple_memory;
      direct_cache = if kvm then some direct_cache else none;
    }
