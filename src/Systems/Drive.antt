-- ===== src/Systems/Drive.antt =====
-- gem5utils/systems/drive/system.py: the machine that drives the other in the two-machine setup.
use mathlib.Core.List.Memᴰ
use v_swarm_u.Base.{
  arith, refl, true, ◌≡◌, ℕ, ◌+◌, ◌*◌, ◌^◌, Option, none, some, zip, String, Bool, List, [], ◌∷◌,
  ◌++◌, if◌then◌else◌,
}
use v_swarm_u.Platform.Drive as Platform
use v_swarm_u.Platform.{SmallCache}
use v_swarm_u.Systems.{
  kvm_cpu, atomic_simple_cpu, mem_mode_of, is_kvm, membus, cpu_side_ports, mem_side_ports,
  system_port, controller, link, whole_range, System, create_cpus, create_atomic_cpus, Cpu, CowDisk,
  cow_disk, simple_memory, connect_cpu_directly, setup_interrupts, CpuPort, cpu_port,
}
use v_swarm_u.Systems.Routes.{
  Reaches, arrived, over, through_bus, is_request, direct-Reaches, in_interrupts,
}

-- `setDiskImages`: of the two images only the first is attached.
abbrev set_disk_images : String → String → List CowDisk
set_disk_images img_path_1 img_path_2 = cow_disk img_path_1 ∷ []

-- The cache of `connectCPUDirectly`, which is larger and faster than in the other systems.
abbrev drive_cache : SmallCache
drive_cache = record {
  size = 4 * 2 ^ 20;
  assoc = 8;
  tag_latency = 5;
  data_latency = 5;
  response_latency = 5;
  mshrs = 20;
  tgts_per_mshr = 12;
}

-- `switchCpus`: the pairs for `m5.switchCpus`; `none` is a failed assertion, or the error of an empty
-- list.
abbrev switch_cpus : List Cpu → List Cpu → Option (List (Cpu × Cpu))
switch_cpus old [] = none
switch_cpus old (c ∷ new) = if c.switched_out then some (zip old (c ∷ new)) else none

-- `totalInsts`; `total_insts` is that of a CPU of gem5.
abbrev sum_insts : (Cpu → ℕ) → List Cpu → ℕ
sum_insts total_insts [] = 0
sum_insts total_insts (c ∷ cpus) = total_insts c + sum_insts total_insts cpus

abbrev drive_boot_options : List String
drive_boot_options = "earlyprintk=ttyS0" ∷ "console=ttyS0" ∷ "lpj=7999923" ∷ "root=/dev/hda2" ∷ []

-- `DriveSystem(kernel, disk, kvm)`: one CPU, which is simple where it does not run under KVM.
unfoldable pub drive_system : ℕ → String → String → Bool → System
unfolding connect_cpu_directly setup_interrupts Platform.init_fs
drive_system addr_max kernel disk kvm =
    let mem_size : ℕ = 0x80000000 in
    let model = if kvm then kvm_cpu else atomic_simple_cpu in
    record {
      host_parallel = kvm;
      clock_mhz = 3500;
      mem_size = mem_size;
      kernel = kernel;
      disks = set_disk_images disk disk;
      boot_options = drive_boot_options;
      m5ops_base = 0xffff0000;
      platform = Platform.init_fs addr_max mem_size [] 1;
      cpus = create_cpus 1 model;
      atomic_cpus = create_atomic_cpus 1;
      has_vm = is_kvm model;
      mem_mode = mem_mode_of model;
      caches = [];
      links =
          link system_port (cpu_side_ports membus)
          ∷ (connect_cpu_directly 1
              ++ (setup_interrupts 1 ++ (link (mem_side_ports membus) (controller 0) ∷ [])));
      controllers = whole_range mem_size ∷ [];
      memory = simple_memory;
      direct_cache = some drive_cache;
    }

-- Every port of the one CPU that sends requests reaches the memory controller over the links of the
-- system, with and without KVM.
pub drive_system-Reaches :
    (addr_max : ℕ) (kernel disk : String) (kvm : Bool) (port : CpuPort)
    → is_request port ≡ true
    → Reaches (drive_system addr_max kernel disk kvm).links (cpu_port 0 port) (controller 0)
unfolding drive_system
drive_system-Reaches addr_max kernel disk kvm port request =
    let direct = connect_cpu_directly 1 in
    let ints = setup_interrupts 1 in
    direct-Reaches _ 1 0 (controller 0) (omega arith) (λ l m. Memᴰ.tail (Memᴰ.append_left _ m))
      (Memᴰ.tail (Memᴰ.append_right direct (Memᴰ.append_left _ (in_interrupts 1 0 (omega arith)))))
      (through_bus (
        over (Memᴰ.tail (Memᴰ.append_right direct (Memᴰ.append_right ints (Memᴰ.head refl))))
          arrived))
      port request
