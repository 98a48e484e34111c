-- ===== src/Control/VSwarm.antt =====
-- simulation/wkdir-tmpl/vswarm_simple.tmpl.py: the script over gem5's standard library, whose
-- handlers are generators.
pub mod Laws
pub mod Events
use v_swarm_u.Base.{
  ℕ, ◌+◌, String, ◌<>◌, Bool, true, false, not, ◌&&◌, Option, none, some, List, [], ◌∷◌,
  if◌then◌else◌,
}
use v_swarm_u.Base.Int.{pos, ltb_ℤ}
use v_swarm_u.Base.Text.{Text, codes, show_ℕ}
use v_swarm_u.Base.{◌++◌}
use v_swarm_u.Control.{
  Args, is_evaluation, Command, m5_exit, echo, compose_up, pin_function, sleep, test_client, say,
  dump_stats, exit_simulator, checkpoint,
}
use v_swarm_u.Control.Generator.{Answer}

-- The CPU that the processor is built of.
pub data CpuType : Type 0 where
  kvm atomic timing o3 : CpuType

-- The board, as the script configures it.
pub record Board : Type 0 where
  pub clk_freq : String
  pub cpu_type : CpuType
  pub num_cores : ℕ
  pub memory_size : String
  pub l1d_size : String
  pub l1i_size : String
  pub l2_size : String
  pub kernel : String
  pub disk_image : String
  pub readfile : List Command
  pub kernel_args : List String
  pub checkpoint_path : Option String

-- `writeRunScript`
unfoldable pub run_script : Args → String → List Command
run_script args function_name =
    m5_exit
    ∷ echo (codes "Start the container...")
    ∷ compose_up function_name
    ∷ m5_exit
    ∷ echo (codes "Pin function container to core 1")
    ∷ pin_function 1
    ∷ sleep 5
    ∷ m5_exit
    ∷ test_client function_name "localhost" args.num_invocations args.atomic_warming true
    ∷ m5_exit
    ∷ m5_exit
    ∷ m5_exit
    ∷ []

-- `"{}/{}".format(args.checkpoint_dir, args.function)`
abbrev pub checkpoint_folder : Args → String
checkpoint_folder args = args.checkpoint_dir <> ("/" <> args.function)

-- The board with its workload.
unfoldable pub board : Args → Board
unfolding run_script
board args = record {
  clk_freq = "3GHz";
  cpu_type = if is_evaluation args.mode then timing else kvm;
  num_cores = 2;
  memory_size = "2GB";
  l1d_size = "16kB";
  l1i_size = "16kB";
  l2_size = "256kB";
  kernel = args.kernel;
  disk_image = args.disk;
  readfile = run_script args args.function;
  kernel_args =
      "earlyprintk=ttyS0" ∷ "console=ttyS0" ∷ "lpj=7999923" ∷ "root=/dev/hda2" ∷ "isolcpus=1"
      ∷ "cloud-init=disabled" ∷ [];
  checkpoint_path = if is_evaluation args.mode then some (checkpoint_folder args) else none;
}

-- Where `workitems` is resumed: at the top of its loop, or behind its `yield True`.
pub data Resume : Type 0 where
  loop_top behind_true : Resume

pub record Items : Type 0 where
  pub cnt : ℕ
  pub resume : Resume

-- `cnt = 1`, before the loop
abbrev pub items_start : Items
items_start = record { cnt = 1; resume = loop_top }

-- A round of the loop from its top, to the first yield.
round_of : Args → Bool → ℕ → Answer Items
round_of args start cnt =
    let cnt' = if start then cnt else cnt + 1 in
    let line = if start then codes "Begin Invocation  " else codes "End Invocation  " in
    let done = is_evaluation args.mode && not (ltb_ℤ (pos cnt') args.num_invocations) in
    record {
      state = record { cnt = cnt'; resume = if done then behind_true else loop_top };
      actions = say (line ++ show_ℕ cnt) ∷ [];
      yielded = some done;
    }

resume_items : Args → Bool → Resume → ℕ → Answer Items
unfolding round_of
resume_items args start loop_top cnt = round_of args start cnt
resume_items args start behind_true cnt = record {
  state = record { cnt = cnt; resume = loop_top };
  actions = [];
  yielded = some false;
}

-- `next` of `workitems(start)`
unfoldable pub workitems : Args → Bool → Items → Answer Items
unfolding resume_items
workitems args start s = resume_items args start s.resume s.cnt

-- The yields of `executeExit` in setup mode, each with the line printed before it.
abbrev pub exit_lines : List (Text × Bool)
exit_lines =
    (codes "1: BOOTING complete", false)
    ∷ (codes "2: Started container", false)
    ∷ (codes "3: Pinned container", false)
    ∷ (codes "4: Stop client", false)
    ∷ (codes "5: Stop container", false)
    ∷ (codes "6: Stop simulation", true)
    ∷ []

-- `executeExit`: before its first line, between two yields with the lines left, or finished.
pub data ExitState : Type 0 where
  fresh : ExitState
  between : List (Text × Bool) → ExitState
  finished : ExitState

abbrev next_line : List (Text × Bool) → Answer ExitState
next_line [] = record { state = finished; actions = []; yielded = none }
next_line ((line, value) ∷ rest) = record {
  state = between rest;
  actions = say line ∷ [];
  yielded = some value;
}

-- `next` of `executeExit()`
unfoldable pub execute_exit : Args → ExitState → Answer ExitState
execute_exit args fresh =
    if is_evaluation args.mode
    then record {
      state = finished;
      actions = say (codes "Simulation done") ∷ dump_stats ∷ exit_simulator ∷ [];
      yielded = none;
    }
    else next_line exit_lines
execute_exit args (between lines) = next_line lines
execute_exit args finished = record { state = finished; actions = []; yielded = none }

-- `executeFail`: before its first line, behind its first or second yield, or in its loop.
pub data FailState : Type 0 where
  client_start warming_start warming_done endless : FailState

-- `next` of `executeFail()`
unfoldable pub execute_fail : Args → FailState → Answer FailState
execute_fail args client_start = record {
  state = warming_start;
  actions = say (codes "1: Client started") ∷ [];
  yielded = some false;
}
execute_fail args warming_start = record {
  state = warming_done;
  actions = say (codes "1: Function warming starts") ∷ [];
  yielded = some false;
}
execute_fail args warming_done = record {
  state = endless;
  actions =
      say (codes "1: Function warming done")
      ∷ (if is_evaluation args.mode then [] else checkpoint (checkpoint_folder args) ∷ []);
  yielded = some false;
}
execute_fail args endless = record {
  state = endless;
  actions = say (codes "1: Function warming done") ∷ [];
  yielded = some false;
}
