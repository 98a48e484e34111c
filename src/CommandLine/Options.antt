-- ===== src/CommandLine/Options.antt =====
-- The options that `parse_arguments` of the scripts of simulation/wkdir-tmpl, and of
-- test/run_sim_test.py, add.
use v_swarm_u.Base.{String, false, [], ◌∷◌}
use v_swarm_u.Base.Int.{pos}
use v_swarm_u.CommandLine.{
  str_option, int_option, flag_option, help_option, absent, word, number, switch, Opt, Table,
}

-- The option that `ArgumentParser` adds.
abbrev pub help : Opt
help = record {
  names = "-h" ∷ "--help" ∷ [];
  dest = "help";
  kind = help_option;
  choices = [];
  initial = absent;
}

abbrev pub kernel : Opt
kernel = record {
  names = "--kernel" ∷ [];
  dest = "kernel";
  kind = str_option;
  choices = [];
  initial = absent;
}

abbrev pub disk : Opt
disk = record {
  names = "--disk" ∷ [];
  dest = "disk";
  kind = str_option;
  choices = [];
  initial = absent;
}

abbrev pub script : Opt
script = record {
  names = "-s" ∷ "--script" ∷ [];
  dest = "script";
  kind = str_option;
  choices = [];
  initial = word "";
}

abbrev pub function : String → Opt
function initial = record {
  names = "-f" ∷ "--function" ∷ [];
  dest = "function";
  kind = str_option;
  choices = [];
  initial = word initial;
}

abbrev pub system : Opt
system = record {
  names = "--system" ∷ [];
  dest = "system";
  kind = str_option;
  choices = "simple" ∷ "skylake" ∷ [];
  initial = word "simple";
}

abbrev pub cpu : Opt
cpu = record {
  names = "--cpu" ∷ [];
  dest = "cpu";
  kind = str_option;
  choices = [];
  initial = word "SklTunedCPU";
}

abbrev pub atomic_warming : Opt
atomic_warming = record {
  names = "--atomic-warming" ∷ [];
  dest = "atomic_warming";
  kind = int_option;
  choices = [];
  initial = number (pos 0);
}

abbrev pub num_invocations : Opt
num_invocations = record {
  names = "--num-invocations" ∷ [];
  dest = "num_invocations";
  kind = int_option;
  choices = [];
  initial = number (pos 5);
}

abbrev pub mode : Opt
mode = record {
  names = "--mode" ∷ [];
  dest = "mode";
  kind = str_option;
  choices = "setup" ∷ "evaluation" ∷ [];
  initial = word "setup";
}

abbrev pub take_checkpoints : Opt
take_checkpoints = record {
  names = "--take-checkpoints" ∷ [];
  dest = "take_checkpoints";
  kind = flag_option;
  choices = [];
  initial = switch false;
}

abbrev pub use_checkpoint : Opt
use_checkpoint = record {
  names = "--use-checkpoint" ∷ [];
  dest = "use_checkpoint";
  kind = str_option;
  choices = "boot" ∷ "warm" ∷ [];
  initial = word "warm";
}

abbrev pub checkpoint_dir : String → Opt
checkpoint_dir initial = record {
  names = "--checkpoint-dir" ∷ [];
  dest = "checkpoint_dir";
  kind = str_option;
  choices = [];
  initial = word initial;
}

abbrev pub etherdump : Opt
etherdump = record {
  names = "--etherdump" ∷ [];
  dest = "etherdump";
  kind = str_option;
  choices = [];
  initial = absent;
}

-- run_sim.tmpl.py
abbrev pub run_sim_options : Table
run_sim_options =
    help
    ∷ kernel
    ∷ disk
    ∷ script
    ∷ function ""
    ∷ system
    ∷ atomic_warming
    ∷ num_invocations
    ∷ mode
    ∷ take_checkpoints
    ∷ use_checkpoint
    ∷ checkpoint_dir "cpt_1m/"
    ∷ []

-- run_sim_two_machine.tmpl.py
abbrev pub two_machine_options : Table
two_machine_options =
    help
    ∷ kernel
    ∷ disk
    ∷ script
    ∷ function ""
    ∷ cpu
    ∷ atomic_warming
    ∷ num_invocations
    ∷ mode
    ∷ take_checkpoints
    ∷ use_checkpoint
    ∷ checkpoint_dir "cpt_2m/"
    ∷ etherdump
    ∷ []

-- vswarm_simple.tmpl.py
abbrev pub vswarm_options : Table
vswarm_options =
    help
    ∷ kernel
    ∷ disk
    ∷ function "fibonacci-go"
    ∷ atomic_warming
    ∷ num_invocations
    ∷ mode
    ∷ checkpoint_dir "checkpoints/"
    ∷ []

-- vswarm_simple_arm.tmpl.py and run_sim.arm.tmpl.py
abbrev vswarm_arm_options : Table
vswarm_arm_options =
    help
    ∷ kernel
    ∷ disk
    ∷ function "fibonacci-go"
    ∷ atomic_warming
    ∷ num_invocations
    ∷ mode
    ∷ checkpoint_dir "checkpoints/"
    ∷ []

abbrev arm_run_options : Table
arm_run_options =
    help
    ∷ kernel
    ∷ disk
    ∷ function "fibonacci-go"
    ∷ atomic_warming
    ∷ num_invocations
    ∷ mode
    ∷ checkpoint_dir "checkpoints/"
    ∷ []

-- test/run_sim_test.py
abbrev pub test_options : Table
test_options = help ∷ kernel ∷ disk ∷ script ∷ function "" ∷ system ∷ []
