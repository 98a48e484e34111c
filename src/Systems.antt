-- ===== src/Systems.antt =====
-- What the simulated machines of gem5utils/systems/*/system.py have in common: their CPUs, the ports
-- that they connect, and the loops that the three files write alike.
pub mod Cpus
pub mod Caches
pub mod Routes
pub mod Interleave
pub mod Simple
pub mod Skylake
pub mod Drive
pub mod Core
mod Tests
use v_swarm_u.Base.{
  ℕ, ◌+◌, String, Bool, true, false, Option, List, [], ◌∷◌, map, range, flat_map, zip,
  if◌then◌else◌,
}
use v_swarm_u.Platform.{Platform, SmallCache, kb}

-- The CPU classes that the scripts use: X86KvmCPU, X86AtomicSimpleCPU, TimingSimpleCPU and the
-- out-of-order SklTunedCPU.
pub data CpuModel : Type 0 where
  kvm_cpu atomic_simple_cpu timing_simple_cpu skl_tuned_cpu : CpuModel

-- `self.mem_mode`
pub data MemMode : Type 0 where
  atomic_noncaching atomic timing : MemMode

-- The tests of `createCPU` on the class of the CPU.
abbrev pub mem_mode_of : CpuModel → MemMode
mem_mode_of kvm_cpu = atomic_noncaching
mem_mode_of atomic_simple_cpu = atomic
mem_mode_of timing_simple_cpu = timing
mem_mode_of skl_tuned_cpu = timing

-- `issubclass(CPUModel, BaseKvmCPU)`
abbrev pub is_kvm : CpuModel → Bool
is_kvm kvm_cpu = true
is_kvm _ = false

pub record Cpu : Type 0 where
  pub cpu_id : ℕ
  pub model : CpuModel
  pub switched_out : Bool
  pub eventq_index : ℕ

-- The ports of a CPU, those of its two table walkers and of its interrupt controller included.
pub data CpuPort : Type 0 where
  icache_port dcache_port itb_walker dtb_walker pio int_requestor int_responder : CpuPort

-- The caches and buses of the systems; those of a CPU carry its number.
pub data CacheName : Type 0 where
  icache dcache mmucache l2cache : ℕ → CacheName
  llc llc_cache l3cache : CacheName

pub data Bus : Type 0 where
  membus llcbus llc_bus l3bus : Bus
  l2bus mmubus : ℕ → Bus

pub data Port : Type 0 where
  cpu_port : ℕ → CpuPort → Port
  cpu_side mem_side : CacheName → Port
  cpu_side_ports mem_side_ports : Bus → Port
  system_port : Port
  controller : ℕ → Port

-- An assignment of a port to another, in the direction in which requests go.
pub record Link : Type 0 where
  pub from : Port
  pub to : Port

abbrev pub link : Port → Port → Link
link a b = record { from = a; to = b }

-- A memory controller's `AddrRange`, with its interleaving; 0 stands where none is given.
pub record MemRange : Type 0 where
  pub start : ℕ
  pub last : ℕ
  pub intlv_high_bit : ℕ
  pub xor_high_bit : ℕ
  pub intlv_bits : ℕ
  pub intlv_match : ℕ

-- `AddrRange(size)`: from 0 up to the size, which it does not hold.
abbrev pub whole_range : ℕ → MemRange
whole_range size = record {
  start = 0;
  last = size;
  intlv_high_bit = 0;
  xor_high_bit = 0;
  intlv_bits = 0;
  intlv_match = 0;
}

-- `CowDisk`: a disk whose image is kept, and written to a layer that is thrown away.
pub record CowDisk : Type 0 where
  pub drive_id : String
  pub image_file : String
  pub child_read_only : Bool
  pub read_only : Bool

abbrev pub cow_disk : String → CowDisk
cow_disk filename = record {
  drive_id = "device0";
  image_file = filename;
  child_read_only = true;
  read_only = false;
}

-- `setDiskImage`
abbrev pub set_disk_image : String → List CowDisk
set_disk_image img_path = cow_disk img_path ∷ []

-- The memory behind the controllers.
pub data MemoryKind : Type 0 where
  simple_memory ddr4_2400_16x4 : MemoryKind

-- A system after `__init__`. `caches` is the list that `flushCaches` goes over, where there is one.
pub record System : Type 0 where
  pub host_parallel : Bool
  pub clock_mhz : ℕ
  pub mem_size : ℕ
  pub kernel : String
  pub disks : List CowDisk
  pub boot_options : List String
  pub m5ops_base : ℕ
  pub platform : Platform
  pub cpus : List Cpu
  pub atomic_cpus : List Cpu
  pub has_vm : Bool
  pub mem_mode : MemMode
  pub caches : List CacheName
  pub links : List Link
  pub controllers : List MemRange
  pub memory : MemoryKind
  pub direct_cache : Option SmallCache

-- `createCPU`: the CPUs that run, and the atomic ones that are switched out.
abbrev pub create_cpus : ℕ → CpuModel → List Cpu
create_cpus n model =
    map (λ i. record { cpu_id = i; model = model; switched_out = false; eventq_index = 0 })
      (range n)

abbrev pub create_atomic_cpus : ℕ → List Cpu
create_atomic_cpus n =
    map
      (λ i. record { cpu_id = i; model = atomic_simple_cpu; switched_out = true; eventq_index = 0 })
      (range n)

-- The loop over `enumerate(self.cpu)` from the index `i` on: each CPU with its own event queue.
unfoldable pub number_queues : ℕ → List Cpu → List Cpu
number_queues i [] = []
number_queues i (c ∷ cs) = record c { eventq_index = i + 1 } ∷ number_queues (i + 1) cs

-- The event queues of the CPUs, if these run on several host CPUs.
abbrev pub assign_queues : Bool → List Cpu → List Cpu
assign_queues parallel cpus = if parallel then number_queues 0 cpus else cpus

-- The small cache of `connectCPUDirectly`, in the simple and in the Skylake system.
abbrev pub direct_cache : SmallCache
direct_cache = record {
  size = kb 1;
  assoc = 8;
  tag_latency = 50;
  data_latency = 50;
  response_latency = 50;
  mshrs = 20;
  tgts_per_mshr = 12;
}

-- `connectCPUDirectly`: a small cache in front of the memory bus, for all CPUs.
unfoldable pub connect_cpu : ℕ → List Link
connect_cpu i =
    link (cpu_port i icache_port) (cpu_side_ports llc_bus)
    ∷ link (cpu_port i dcache_port) (cpu_side_ports llc_bus)
    ∷ link (cpu_port i itb_walker) (cpu_side_ports llc_bus)
    ∷ link (cpu_port i dtb_walker) (cpu_side_ports llc_bus)
    ∷ []

unfoldable pub connect_cpu_directly : ℕ → List Link
unfolding connect_cpu
connect_cpu_directly n =
    link (mem_side llc_cache) (cpu_side_ports membus)
    ∷ link (mem_side_ports llc_bus) (cpu_side llc_cache)
    ∷ flat_map connect_cpu (range n)

-- `setupInterrupts`
unfoldable pub interrupt_links : ℕ → List Link
interrupt_links i =
    link (mem_side_ports membus) (cpu_port i pio)
    ∷ link (cpu_port i int_requestor) (cpu_side_ports membus)
    ∷ link (mem_side_ports membus) (cpu_port i int_responder)
    ∷ []

unfoldable pub setup_interrupts : ℕ → List Link
unfolding interrupt_links
setup_interrupts n = flat_map interrupt_links (range n)

-- The pairs that `switchToAtomicCpu` and `switchToMainCpu` hand to `m5.switchCpus`: old and new.
abbrev pub switch_to_atomic : System → List (Cpu × Cpu)
switch_to_atomic s = zip s.cpus s.atomic_cpus

abbrev pub switch_to_main : System → List (Cpu × Cpu)
switch_to_main s = zip s.atomic_cpus s.cpus

-- The options of the kernel's command line.
abbrev pub boot_options : List String
boot_options =
    "earlyprintk=ttyS0" ∷ "console=ttyS0" ∷ "lpj=7999923" ∷ "root=/dev/hda2" ∷ "isolcpus=1"
    ∷ "cloud-init=disabled" ∷ []
