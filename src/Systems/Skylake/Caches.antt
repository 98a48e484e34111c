-- ===== src/Systems/Skylake/Caches.antt =====
-- gem5utils/systems/skylake/caches.py: the caches of the Skylake system, and how they are connected.
use v_swarm_u.Base.{ℕ, false, true, none, some, List, [], ◌∷◌}
use v_swarm_u.Systems.{
  CacheName, Bus, Link, link, cpu_port, icache_port, dcache_port, itb_walker, dtb_walker, cpu_side,
  mem_side, cpu_side_ports, mem_side_ports, mmubus,
}
use v_swarm_u.Systems.Caches.{Cache, Prefetcher, WriteAllocator, kb, mb}

-- `NextLinePrefetcher`, and what `PrefetchCache.__init__` sets of it
abbrev next_line_prefetcher : Prefetcher
next_line_prefetcher = record { degree = 1; queue_size = 2; on_inst = true }

-- What `PrefetchCache.__init__` adds to a cache.
abbrev prefetch_cache : Cache → Cache
prefetch_cache c = record c { prefetcher = some next_line_prefetcher; tree_plru = true }

-- A cache of its parameters alone.
abbrev plain : ℕ → ℕ → ℕ → ℕ → ℕ → ℕ → ℕ → Cache
plain size assoc latency response mshrs tgts buffers = record {
  size = size;
  assoc = assoc;
  tag_latency = latency;
  data_latency = latency;
  response_latency = response;
  mshrs = mshrs;
  tgts_per_mshr = tgts;
  write_buffers = buffers;
  demand_mshr_reserve = none;
  is_read_only = none;
  prefetcher = none;
  tree_plru = false;
  write_allocator = none;
}

-- `L1Cache`; the size is that of the subclass.
abbrev pub l1_cache : ℕ → Cache
l1_cache size = prefetch_cache (record (plain size 8 1 1 10 16 32) { demand_mshr_reserve = some 5 })

-- `L1Cache.connectBus`
abbrev pub l1_connect_bus : CacheName → Bus → Link
l1_connect_bus self bus = link (mem_side self) (cpu_side_ports bus)

-- `L1ICache`, and its `connectCPU`
abbrev pub l1i_cache : Cache
l1i_cache = record (l1_cache (kb 32)) {
  assoc = 8;
  tag_latency = 1;
  data_latency = 1;
  is_read_only = some true;
}

abbrev pub l1i_connect_cpu : CacheName → ℕ → Link
l1i_connect_cpu self cpu = link (cpu_port cpu icache_port) (cpu_side self)

-- The `WriteAllocator` of `L1DCache`
abbrev pub write_allocator : WriteAllocator
write_allocator = record { coalesce_limit = 2; no_allocate_limit = 8; delay_threshold = 8 }

-- `L1DCache`, and its `connectCPU`
abbrev pub l1d_cache : Cache
l1d_cache = record (l1_cache (kb 32)) {
  assoc = 8;
  write_buffers = 12;
  write_allocator = some write_allocator;
}

abbrev pub l1d_connect_cpu : CacheName → ℕ → Link
l1d_connect_cpu self cpu = link (cpu_port cpu dcache_port) (cpu_side self)

-- `MMUCache`, its `connectCPU` with the crossbar that it makes, and its `connectBus`
abbrev mmu_cache : Cache
mmu_cache = prefetch_cache (plain (kb 8) 4 1 1 32 1 32)

abbrev pub mmu_connect_cpu : CacheName → ℕ → List Link
mmu_connect_cpu self cpu =
    link (mem_side_ports (mmubus cpu)) (cpu_side self)
    ∷ link (cpu_port cpu itb_walker) (cpu_side_ports (mmubus cpu))
    ∷ link (cpu_port cpu dtb_walker) (cpu_side_ports (mmubus cpu))
    ∷ []

abbrev pub mmu_connect_bus : CacheName → Bus → Link
mmu_connect_bus self bus = link (mem_side self) (cpu_side_ports bus)

-- `L2Cache`
abbrev l2_cache : Cache
l2_cache = plain (mb 1) 8 12 6 32 1 56

-- Its `connectCPUSideBus` and `connectMemSideBus`
abbrev pub l2_connect_cpu_side_bus : CacheName → Bus → Link
l2_connect_cpu_side_bus self bus = link (mem_side_ports bus) (cpu_side self)

abbrev pub l2_connect_mem_side_bus : CacheName → Bus → Link
l2_connect_mem_side_bus self bus = link (mem_side self) (cpu_side_ports bus)

-- `L3Cache`, likewise
abbrev l3_cache : Cache
l3_cache = plain (mb 8) 16 36 1 32 2 64

abbrev pub l3_connect_cpu_side_bus : CacheName → Bus → Link
l3_connect_cpu_side_bus self bus = link (mem_side_ports bus) (cpu_side self)

abbrev pub l3_connect_mem_side_bus : CacheName → Bus → Link
l3_connect_mem_side_bus self bus = link (mem_side self) (cpu_side_ports bus)
