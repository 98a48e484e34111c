-- ===== src/CommandLine/Simulation.antt =====
-- What `parse_arguments` returns in the scripts of simulation/wkdir-tmpl and in test/run_sim_test.py.
use v_swarm_u.Base.{◌>>=◌, String, Bool, false, Option, none, some, List, if◌then◌else◌}
use v_swarm_u.Base.Int.{ℤ, pos}
use v_swarm_u.CommandLine.Words.{same}
use v_swarm_u.CommandLine.{Value, word, number, switch, Namespace, Parsed, parsed, exits}
use v_swarm_u.CommandLine.Parser.{parse_args, value_of}
use v_swarm_u.Control.{
  Mode, setup, evaluation, SystemKind, simple, skylake, CheckpointName, boot, warm, Args,
}
use v_swarm_u.Control.TwoMachine.{DualArgs}
use v_swarm_u.CommandLine.Options.{
  test_options, run_sim_options, two_machine_options, vswarm_options,
}

abbrev as_word : Option Value → Option String
as_word (some (word s)) = some s
as_word _ = none

abbrev as_number : Option Value → Option ℤ
as_number (some (number n)) = some n
as_number _ = none

abbrev as_switch : Option Value → Option Bool
as_switch (some (switch b)) = some b
as_switch _ = none

-- The words of the choices.
unfoldable pub mode_of : String → Option Mode
unfolding same
mode_of s =
    if same s "setup" then some setup else if same s "evaluation" then some evaluation else none

unfoldable pub system_of : String → Option SystemKind
unfolding same
system_of s =
    if same s "simple" then some simple else if same s "skylake" then some skylake else none

unfoldable pub checkpoint_of : String → Option CheckpointName
unfolding same
checkpoint_of s = if same s "boot" then some boot else if same s "warm" then some warm else none

-- The fields that all scripts read; `none` if `--kernel` or `--disk` was left out, for which they
-- have `None`. The other fields are those of a script that has no such option.
unfoldable shared_args : Namespace → Option Args
unfolding value_of mode_of
shared_args ns = do
  kernel_path ← as_word (value_of "kernel" ns)
  disk_path ← as_word (value_of "disk" ns)
  name ← as_word (value_of "function" ns)
  warming ← as_number (value_of "atomic_warming" ns)
  invocations ← as_number (value_of "num_invocations" ns)
  mode_word ← as_word (value_of "mode" ns)
  chosen ← mode_of mode_word
  dir ← as_word (value_of "checkpoint_dir" ns)
  some (record {
    kernel = kernel_path;
    disk = disk_path;
    script = "";
    function = name;
    system = simple;
    atomic_warming = warming;
    num_invocations = invocations;
    mode = chosen;
    take_checkpoints = false;
    use_checkpoint = warm;
    checkpoint_dir = dir;
  })

-- And those of the two scripts with systems of their own.
unfoldable system_args : Namespace → Option Args
unfolding shared_args checkpoint_of
system_args ns = do
  args ← shared_args ns
  path ← as_word (value_of "script" ns)
  taken ← as_switch (value_of "take_checkpoints" ns)
  use_word ← as_word (value_of "use_checkpoint" ns)
  used ← checkpoint_of use_word
  some (record args { script = path; take_checkpoints = taken; use_checkpoint = used })

unfoldable run_sim_args : Namespace → Option Args
unfolding system_args system_of
run_sim_args ns = do
  args ← system_args ns
  system_word ← as_word (value_of "system" ns)
  chosen ← system_of system_word
  some (record args { system = chosen })

-- `None` for `--etherdump` is the empty text, which has the same truth value.
unfoldable two_machine_args : Namespace → Option DualArgs
unfolding system_args
two_machine_args ns = do
  args ← system_args ns
  dump ← value_of "etherdump" ns
  some (record { args = args; etherdump = elim dump [ word path ↦ path | _ ↦ "" ] })

-- What a script reads of its command line; `none` if argparse ends it, or a path is `None`.
abbrev pub read_by {ℓ} : {A : Type ℓ} → (Namespace → Option A) → Parsed → Option A
read_by read (parsed ns) = read ns
read_by read (exits status) = none

unfoldable pub parse_run_sim : List String → Option Args
unfolding parse_args run_sim_args
parse_run_sim argv = read_by run_sim_args (parse_args run_sim_options argv)

unfoldable parse_two_machine : List String → Option DualArgs
unfolding parse_args two_machine_args
parse_two_machine argv = read_by two_machine_args (parse_args two_machine_options argv)

unfoldable parse_vswarm : List String → Option Args
unfolding parse_args shared_args
parse_vswarm argv = read_by shared_args (parse_args vswarm_options argv)

-- What test/run_sim_test.py reads; it has none of the other options.
unfoldable test_args : Namespace → Option Args
unfolding value_of system_of
test_args ns = do
  kernel_path ← as_word (value_of "kernel" ns)
  disk_path ← as_word (value_of "disk" ns)
  path ← as_word (value_of "script" ns)
  name ← as_word (value_of "function" ns)
  system_word ← as_word (value_of "system" ns)
  chosen ← system_of system_word
  some (record {
    kernel = kernel_path;
    disk = disk_path;
    script = path;
    function = name;
    system = chosen;
    atomic_warming = pos 0;
    num_invocations = pos 0;
    mode = setup;
    take_checkpoints = false;
    use_checkpoint = warm;
    checkpoint_dir = "";
  })

unfoldable pub parse_test : List String → Option Args
unfolding parse_args test_args
parse_test argv = read_by test_args (parse_args test_options argv)
