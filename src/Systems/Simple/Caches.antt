-- ===== src/Systems/Simple/Caches.antt =====
-- gem5utils/systems/simple/caches.py: the caches of the simple system, and how they are connected.
use v_swarm_u.Base.{ℕ, false, true, none, some}
use v_swarm_u.Systems.{
  CacheName, Bus, Link, link, cpu_port, icache_port, dcache_port, cpu_side, mem_side,
  cpu_side_ports, mem_side_ports,
}
use v_swarm_u.Systems.Caches.{Cache, kb}

-- `L1Cache`; the size is that of the subclass.
abbrev pub l1_cache : ℕ → Cache
l1_cache size = record {
  size = size;
  assoc = 8;
  tag_latency = 1;
  data_latency = 1;
  response_latency = 2;
  mshrs = 4;
  tgts_per_mshr = 16;
  write_buffers = 32;
  demand_mshr_reserve = none;
  is_read_only = none;
  prefetcher = none;
  tree_plru = false;
  write_allocator = none;
}

-- `connectBus`
abbrev pub l1_connect_bus : CacheName → Bus → Link
l1_connect_bus self bus = link (mem_side self) (cpu_side_ports bus)

-- `L1ICache`, and its `connectCPU`
abbrev pub l1i_cache : Cache
l1i_cache = record (l1_cache (kb 16)) { is_read_only = some true }

abbrev pub l1i_connect_cpu : CacheName → ℕ → Link
l1i_connect_cpu self cpu = link (cpu_port cpu icache_port) (cpu_side self)

-- `L1DCache`, and its `connectCPU`
abbrev pub l1d_cache : Cache
l1d_cache = l1_cache (kb 16)

abbrev pub l1d_connect_cpu : CacheName → ℕ → Link
l1d_connect_cpu self cpu = link (cpu_port cpu dcache_port) (cpu_side self)

-- `LLCCache`
abbrev pub llc_cache : Cache
llc_cache = record {
  size = kb 128;
  assoc = 8;
  tag_latency = 12;
  data_latency = 12;
  response_latency = 12;
  mshrs = 20;
  tgts_per_mshr = 12;
  write_buffers = 56;
  demand_mshr_reserve = none;
  is_read_only = none;
  prefetcher = none;
  tree_plru = false;
  write_allocator = none;
}

-- `connectCPUSideBus` and `connectMemSideBus`
abbrev pub connect_cpu_side_bus : CacheName → Bus → Link
connect_cpu_side_bus self bus = link (mem_side_ports bus) (cpu_side self)

abbrev pub connect_mem_side_bus : CacheName → Bus → Link
connect_mem_side_bus self bus = link (mem_side self) (cpu_side_ports bus)
