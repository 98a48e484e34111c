-- ===== src/Campaign/Launch.antt =====
-- What run_sim.py reads of the command lines of the shell scripts.
use v_swarm_u.Base.{◌≡◌, refl, String, false, Option, none, some, arith}
use v_swarm_u.Base.Int.{pos}
use v_swarm_u.Base.Text.Number.{int_of}
use v_swarm_u.Control.{Args, setup, evaluation, simple, warm}
use v_swarm_u.CommandLine.Words.{is_dash}
use v_swarm_u.CommandLine.Simulation.{parse_run_sim}
use v_swarm_u.Control.{is_empty}
use v_swarm_u.Base.Text.{codes}
use v_swarm_u.Base.{true, List, [], ◌∷◌}
use v_swarm_u.Campaign.{Keeps, is_plain_text, function_of, setup_function, sim_function}

-- The arguments of a setup run of a function, and of its measurement.
abbrev pub setup_args : String → Args
setup_args function = record {
  kernel = "kernel";
  disk = "disk.img";
  script = "";
  function = function;
  system = simple;
  atomic_warming = pos 0;
  num_invocations = pos 5;
  mode = setup;
  take_checkpoints = false;
  use_checkpoint = warm;
  checkpoint_dir = "cpt_1m/";
}

abbrev pub sim_args : String → Args
sim_args function = record (setup_args function) {
  atomic_warming = pos 10;
  num_invocations = pos 10;
  mode = evaluation;
}

function_of-nonempty : (name : Option String) → is_empty (function_of name) ≡ false
function_of-nonempty none = refl
function_of-nonempty (some String.[]) = refl
function_of-nonempty (some (String.◌∷◌ c s)) = refl

sim_words :
    (f : String)
    → is_dash f ≡ false
    → parse_run_sim (
        "--kernel" ∷ "kernel" ∷ "--disk" ∷ "disk.img" ∷ "--function" ∷ f ∷ "--mode=evaluation"
        ∷ "--atomic-warming" ∷ "10" ∷ "--num-invocation" ∷ "10" ∷ [])
      ≡ some (sim_args f)
unfolding parse_run_sim int_of
sim_words String.[] h = refl
sim_words (String.◌∷◌ c s) h = ground (arith, h)

setup_words :
    (f : String)
    → is_dash f ≡ false
    → parse_run_sim
        ("--kernel" ∷ "kernel" ∷ "--disk" ∷ "disk.img" ∷ "--function" ∷ f ∷ "--mode=setup" ∷ [])
      ≡ some (setup_args f)
unfolding parse_run_sim int_of
setup_words String.[] h = refl
setup_words (String.◌∷◌ c s) h = ground (arith, h)

-- For a name that the shell keeps as one word and that does not start with a dash, the line of sim_function.sh is a measurement with ten
-- invocations to warm and ten to measure: `--num-invocation` abbreviates `--num-invocations`, and no
-- other option of the script.
pub parse_run_sim-sim_function :
    (expand : String → List String) (name : Option String)
    → Keeps expand
    → is_plain_text (codes (function_of name)) ≡ true
    → is_dash (function_of name) ≡ false
    → parse_run_sim (sim_function expand name) ≡ some (sim_args (function_of name))
parse_run_sim-sim_function expand name keeps plain h =
    rw (keeps (function_of name) (function_of-nonempty name) plain) (sim_words (function_of name) h)

-- The line of setup_function.sh, likewise.
pub parse_run_sim-setup_function :
    (expand : String → List String) (name : Option String)
    → Keeps expand
    → is_plain_text (codes (function_of name)) ≡ true
    → is_dash (function_of name) ≡ false
    → parse_run_sim (setup_function expand name) ≡ some (setup_args (function_of name))
parse_run_sim-setup_function expand name keeps plain h =
    rw (keeps (function_of name) (function_of-nonempty name) plain)
      (setup_words (function_of name) h)
