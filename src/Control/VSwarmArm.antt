-- ===== src/Control/VSwarmArm.antt =====
-- simulation/wkdir-tmpl/vswarm_simple_arm.tmpl.py: the script over gem5's standard library for Arm.
-- Its generators have the text of those of vswarm_simple.tmpl.py.
pub mod Laws
use v_swarm_u.Base.{ℕ, String, Bool, true, Option, none, some, List, [], ◌∷◌, if◌then◌else◌}
use v_swarm_u.Base.Text.{codes}
use v_swarm_u.Control.{
  Args, is_evaluation, Command, m5_exit_at, echo, compose_up, pin_function, sleep, test_client,
  Action, make_dir,
}
use v_swarm_u.Control.Generator.{Answer, Event}
use v_swarm_u.Control.VSwarm.{
  CpuType, kvm, timing, checkpoint_folder, Items, workitems, ExitState, execute_exit, FailState,
  execute_fail,
}
use v_swarm_u.Control.VSwarm.Events
use v_swarm_u.Control.VSwarm.Events.{Generators}

-- `ArmDefaultRelease.for_kvm()`, the release that the script builds.
pub data ArmRelease : Type 0 where
  default_for_kvm : ArmRelease

pub data ArmPlatform : Type 0 where
  vexpress_gem5_v1 : ArmPlatform

-- The `ArmBoard`, as the script configures it.
pub record ArmBoard : Type 0 where
  pub clk_freq : String
  pub cpu_type : CpuType
  pub num_cores : ℕ
  pub memory_size : String
  pub l1d_size : String
  pub l1i_size : String
  pub l2_size : String
  pub release : ArmRelease
  pub platform : ArmPlatform
  pub kernel : String
  pub disk_image : String
  pub bootloader : String
  pub readfile : List Command
  pub kernel_args : List String
  pub checkpoint_path : Option String

-- The address of gem5's operations in the memory map of the platform.
abbrev pub m5_address : ℕ
m5_address = 0x10010000

-- `writeRunScript`
unfoldable pub run_script : Args → String → List Command
run_script args function_name =
    m5_exit_at m5_address
    ∷ echo (codes "Start the container...")
    ∷ compose_up function_name
    ∷ m5_exit_at m5_address
    ∷ echo (codes "Pin function container to core 1")
    ∷ pin_function 1
    ∷ sleep 5
    ∷ m5_exit_at m5_address
    ∷ test_client function_name "localhost" args.num_invocations args.atomic_warming true
    ∷ m5_exit_at m5_address
    ∷ m5_exit_at m5_address
    ∷ m5_exit_at m5_address
    ∷ []

-- The folder of the checkpoint is made in setup mode, before the simulation.
abbrev pub prepare : Args → List Action
prepare args = if is_evaluation args.mode then [] else make_dir (checkpoint_folder args) ∷ []

-- The arguments of the kernel.
abbrev pub kernel_args : List String
kernel_args =
    "console=ttyAMA0" ∷ "lpj=19988480" ∷ "norandmaps" ∷ "root=/dev/vda2" ∷ "disk_device=/dev/vda2"
    ∷ "isolcpus=1" ∷ "rw" ∷ "mem=2147483648" ∷ []

-- `eval_core`
abbrev eval_core : CpuType
eval_core = timing

-- `cache_hierarchy`: the sizes of the first-level data and instruction caches, and of the second level.
abbrev pub cache_sizes : String × String × String
cache_sizes = ("16kB", "16kB", "256kB")

-- `memory`
abbrev pub memory_size : String
memory_size = "2GB"

-- `processor`: the kind of its cores, and their number.
abbrev pub processor : Args → CpuType × ℕ
processor args = (if is_evaluation args.mode then eval_core else kvm, 2)

-- The board with its workload.
unfoldable pub board : Args → ArmBoard
unfolding run_script
board args = record {
  clk_freq = "3GHz";
  cpu_type = (processor args).0;
  num_cores = (processor args).1;
  memory_size = memory_size;
  l1d_size = cache_sizes.0;
  l1i_size = cache_sizes.1;
  l2_size = cache_sizes.2;
  release = default_for_kvm;
  platform = vexpress_gem5_v1;
  kernel = args.kernel;
  disk_image = args.disk;
  bootloader = "arm64-bootloader";
  readfile = run_script args args.function;
  kernel_args = kernel_args;
  checkpoint_path = if is_evaluation args.mode then some (checkpoint_folder args) else none;
}

-- `next` of `workitems(start)`, of `executeExit()` and of `executeFail()`
abbrev arm_workitems : Args → Bool → Items → Answer Items
arm_workitems args start s = workitems args start s

abbrev arm_execute_exit : Args → ExitState → Answer ExitState
arm_execute_exit args s = execute_exit args s

abbrev pub arm_execute_fail : Args → FailState → Answer FailState
arm_execute_fail args s = execute_fail args s

-- `on_exit_event`
abbrev pub on_exit_event : Args → Event → Generators → Answer Generators
on_exit_event args e g = Events.on_exit_event args e g
