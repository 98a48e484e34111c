-- ===== src/Control/ArmRun.antt =====
-- simulation/wkdir-tmpl/run_sim.arm.tmpl.py: the script for Arm whose `executeExit` yields no `True`.
pub mod Laws
use v_swarm_u.Base.{ℕ, map, String, Bool, false, none, some, List, [], ◌∷◌, ◌++◌, if◌then◌else◌}
use v_swarm_u.Base.Text.{Text, codes}
use v_swarm_u.Control.{
  Args, is_evaluation, Command, Action, say, make_dir, dump_stats, exit_simulator,
}
use v_swarm_u.Control.Generator.{Answer, Event, work_begin, work_end, exit, fail}
use v_swarm_u.Control.VSwarm.{
  CpuType, kvm, atomic, checkpoint_folder, FailState, client_start, execute_fail,
}
use v_swarm_u.Control.VSwarmArm
use v_swarm_u.Control.VSwarmArm.{
  ArmBoard, default_for_kvm, vexpress_gem5_v1, kernel_args, memory_size, cache_sizes,
}

-- The yields of `executeExit` in setup mode, each with the lines printed before it.
abbrev exit_lines : List (List Text × Bool)
exit_lines =
    ((codes "1: BOOTING complete" ∷ []), false)
    ∷ ((codes "2: Started container" ∷ []), false)
    ∷ ((codes "3: Pinned container" ∷ []), false)
    ∷ ((codes "4: Stop client" ∷ []), false)
    ∷ ((codes "5: Stop container" ∷ []), false)
    ∷ ((codes "6: Stop simulation" ∷ []), false)
    ∷ ([], false)
    ∷ ([], false)
    ∷ ([], false)
    ∷ ([], false)
    ∷ []

-- `executeExit`: before its first line, between two yields with what is left, or finished.
pub data ExitState : Type 0 where
  fresh : ExitState
  between : List (List Text × Bool) → ExitState
  finished : ExitState

abbrev next_line : List (List Text × Bool) → Answer ExitState
next_line [] = record { state = finished; actions = []; yielded = none }
next_line ((lines, value) ∷ rest) = record {
  state = between rest;
  actions = map say lines;
  yielded = some value;
}

-- `next` of `executeExit()`
unfoldable pub execute_exit : Args → ExitState → Answer ExitState
execute_exit args fresh =
    if is_evaluation args.mode
    then record {
      state = finished;
      actions = say (codes "Simulation done") ∷ dump_stats ∷ exit_simulator ∷ [];
      yielded = none;
    }
    else next_line exit_lines
execute_exit args (between lines) = next_line lines
execute_exit args finished = record { state = finished; actions = []; yielded = none }

-- `writeRunScript` has the text of the one of vswarm_simple_arm.tmpl.py.
abbrev pub run_script : Args → String → List Command
run_script args function_name = VSwarmArm.run_script args function_name

-- The folder of the checkpoint is made in setup mode, before the simulation.
abbrev pub prepare : Args → List Action
prepare args = if is_evaluation args.mode then [] else make_dir (checkpoint_folder args) ∷ []

-- `processor`: the kind of its cores, and their number.
abbrev pub processor : Args → CpuType × ℕ
processor args = (if is_evaluation args.mode then atomic else kvm, 2)

-- The board with its workload; its CPU is the atomic one in evaluation mode.
unfoldable pub board : Args → ArmBoard
board args = record {
  clk_freq = "3GHz";
  cpu_type = (processor args).0;
  num_cores = (processor args).1;
  memory_size = memory_size;
  l1d_size = cache_sizes.0;
  l1i_size = cache_sizes.1;
  l2_size = cache_sizes.2;
  release = default_for_kvm;
  platform = vexpress_gem5_v1;
  kernel = args.kernel;
  disk_image = args.disk;
  bootloader = "arm64-bootloader";
  readfile = run_script args args.function;
  kernel_args = kernel_args;
  checkpoint_path = if is_evaluation args.mode then some (checkpoint_folder args) else none;
}

-- `workbegin` and `workend`, which `on_exit_event` does not name: what they print and return.
abbrev work_begin_lines : List Action × Bool
work_begin_lines = (say (codes "Begin") ∷ [], false)

abbrev work_end_lines : List Action × Bool
work_end_lines = (say (codes "End") ∷ [], false)

-- `executeFail` has the text of the one of vswarm_simple.tmpl.py.
abbrev pub arm_execute_fail : Args → FailState → Answer FailState
arm_execute_fail args s = execute_fail args s

-- The generators that are registered: `executeExit()` and `executeFail()`.
pub record Generators : Type 0 where
  pub exits : ExitState
  pub fails : FailState

abbrev pub generators : Generators
generators = record { exits = fresh; fails = client_start }

abbrev then_with : {S : Type 0} → Answer S → (S → Generators) → Answer Generators
then_with a g = record { state = g a.state; actions = a.actions; yielded = a.yielded }

-- A generator that ends leaves the event to gem5's own handler, which is called behind it.
abbrev pub or_own : {S : Type 0} → Answer Unit → Answer S → Answer S
or_own default a = elim a.yielded [
  | none ↦ record {
    state = a.state;
    actions = a.actions ++ default.actions;
    yielded = default.yielded;
  }
  | some _ ↦ a
]

-- What gem5's own handlers of the events do and answer.
module _ (own : Event → Answer Unit) where
  -- `on_exit_event`, whose entries for the begin and the end of an invocation are commented out.
  unfoldable pub on_exit_event : Args → Event → Generators → Answer Generators
  unfolding execute_exit execute_fail
  on_exit_event args exit g =
      then_with (or_own (own exit) (execute_exit args g.exits)) (λ s. record g { exits = s })
  on_exit_event args fail g =
      then_with (or_own (own fail) (arm_execute_fail args g.fails)) (λ s. record g { fails = s })
  on_exit_event args work_begin g = then_with (own work_begin) (λ s. g)
  on_exit_event args work_end g = then_with (own work_end) (λ s. g)
