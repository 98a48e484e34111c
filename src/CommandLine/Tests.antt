-- ===== src/CommandLine/Tests.antt =====
-- Command lines that the scripts get.
use v_swarm_u.Base.{◌≡◌, refl, true, false, some, none, [], ◌∷◌}
use v_swarm_u.Base.Int.{pos, negsuc}
use v_swarm_u.Base.Text.Number.{int_of}
use v_swarm_u.Control.{setup, Args, evaluation, skylake, warm}
use v_swarm_u.Base.Text.{show}
use v_swarm_u.CommandLine.{exits}
use v_swarm_u.CommandLine.Parser.{parse_args}
use v_swarm_u.CommandLine.Words.{same}
use v_swarm_u.CommandLine.RoundTrip.{Plain, command_line, parse_run_sim-command_line}
use v_swarm_u.Base.Text.{codes}
use v_swarm_u.CommandLine.Release.{parse_artifacts, parse_upload}
use v_swarm_u.CommandLine.Simulation.{parse_test, parse_run_sim}
use v_swarm_u.CommandLine.Options.{run_sim_options, two_machine_options}

-- `--num-invocation` abbreviates `--num-invocations`; a value may stand behind `=` or a letter.
sim_line :
    parse_run_sim (
      "--kernel" ∷ "kernel" ∷ "--disk" ∷ "disk.img" ∷ "-faes-go" ∷ "--mode=evaluation"
      ∷ "--atomic-warming" ∷ "10" ∷ "--num-invocation" ∷ "-1" ∷ "--system" ∷ "skylake" ∷ [])
    ≡ some (record {
      kernel = "kernel";
      disk = "disk.img";
      script = "";
      function = "aes-go";
      system = skylake;
      atomic_warming = pos 10;
      num_invocations = negsuc 0;
      mode = evaluation;
      take_checkpoints = false;
      use_checkpoint = warm;
      checkpoint_dir = "cpt_1m/";
    })
unfolding parse_run_sim int_of
sim_line = refl

-- `--s` abbreviates two options, `--system` and `--script`.
ambiguous_line : parse_args run_sim_options ("--s" ∷ "x" ∷ []) ≡ exits 2
unfolding parse_args
ambiguous_line = refl

wrong_mode : parse_args run_sim_options ("--mode" ∷ "boot" ∷ []) ≡ exits 2
unfolding parse_args
wrong_mode = refl

no_value : parse_args run_sim_options ("--kernel" ∷ "--disk" ∷ "d" ∷ []) ≡ exits 2
unfolding parse_args
no_value = refl

help_line : parse_args two_machine_options ("-h" ∷ "--mode" ∷ "boot" ∷ []) ≡ exits 0
unfolding parse_args
help_line = refl

extra_line : parse_args run_sim_options ("x" ∷ []) ≡ exits 2
unfolding parse_args
extra_line = refl

unknown_line : parse_args run_sim_options ("--outdir=m5out" ∷ []) ≡ exits 2
unfolding parse_args
unknown_line = refl

-- Flags and an option with its value in one word.
short_line :
    parse_artifacts (some "/res") ("-dvv1.0" ∷ "--arch=arm64" ∷ "-l" ∷ "jammy" ∷ [])
    ≡ some (
      record { os_version = codes "jammy"; arch = codes "arm64"; output = codes "/res/" },
      codes "v1.0",
    )
unfolding parse_artifacts
short_line = refl

-- Without the variable of the environment, the default paths start with "None".
no_resources : parse_upload none [] ≡ some ("None/kernel", "None/disk-image", "None/client")
unfolding parse_upload
no_resources = refl

abbrev strange : Args
strange = record {
  kernel = "";
  disk = "a=b";
  script = "-x y";
  function = "aes-go";
  system = skylake;
  atomic_warming = pos 10;
  num_invocations = negsuc 2;
  mode = evaluation;
  take_checkpoints = true;
  use_checkpoint = warm;
  checkpoint_dir = "--disk";
}

-- The options of test/run_sim_test.py, one with its value behind its letter.
test_script :
    parse_test
      ("--kernel" ∷ "vmlinux" ∷ "--disk=disk.img" ∷ "-srun.sh" ∷ "--system" ∷ "skylake" ∷ [])
    ≡ some (record strange {
      kernel = "vmlinux";
      disk = "disk.img";
      script = "run.sh";
      function = "";
      atomic_warming = pos 0;
      num_invocations = pos 0;
      mode = setup;
      take_checkpoints = false;
      checkpoint_dir = "";
    })
unfolding parse_test
test_script = refl

strange-Plain : Plain strange
unfolding same
strange-Plain = record {
  kernel = refl;
  disk = refl;
  script = refl;
  function = refl;
  checkpoint_dir = refl;
}

-- `--`, behind `=` and as an argument of its own.
dashes :
    (parse_args run_sim_options ("--" ∷ "-h" ∷ []) ≡ exits 2)
    × (parse_run_sim ("--kernel=--" ∷ "--disk=d" ∷ []) ≡ none)
unfolding parse_args parse_run_sim
dashes = (refl, refl)

parse_run_sim-command_line_example : parse_run_sim (command_line strange "10" "-3") ≡ some strange
unfolding show
parse_run_sim-command_line_example =
    parse_run_sim-command_line strange "10" "-3" (λ e. absurd (cc e)) strange-Plain refl refl
