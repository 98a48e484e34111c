-- ===== src/Control.antt =====
-- What the simulation scripts of simulation/wkdir-tmpl share: their command line, the events that
-- `m5.simulate()` returns, the actions that they ask of gem5, and what they print.
pub mod Actions
pub mod RunSim
pub mod TwoMachine
pub mod Generator
pub mod VSwarm
pub mod VSwarmArm
pub mod ArmRun
pub mod RunTest
mod Tests
use text.Mathlib.Text.{◌==◌ as str_eq}
use v_swarm_u.Base.{
  ℕ, ◌+◌, String, Bool, true, false, Option, none, some, List, [], ◌∷◌, ◌++◌, if◌then◌else◌,
}
use v_swarm_u.Base.Int.{ℤ, pos, negsuc, eqb_ℤ}
use v_swarm_u.Base.Text.{Text, codes}

-- `--mode`; argparse refuses any other word (`choices`).
pub data Mode : Type 0 where
  setup evaluation : Mode

-- `--system`
pub data SystemKind : Type 0 where
  simple skylake drive : SystemKind

-- `--use-checkpoint`
pub data CheckpointName : Type 0 where
  boot warm : CheckpointName

abbrev pub checkpoint_word : CheckpointName → String
checkpoint_word boot = "boot"
checkpoint_word warm = "warm"

-- What `parse_arguments` returns.
pub record Args : Type 0 where
  pub kernel : String
  pub disk : String
  pub script : String
  pub function : String
  pub system : SystemKind
  pub atomic_warming : ℤ
  pub num_invocations : ℤ
  pub mode : Mode
  pub take_checkpoints : Bool
  pub use_checkpoint : CheckpointName
  pub checkpoint_dir : String

-- `int("ffff0000", 16)`
abbrev pub m5ops_address : ℕ
m5ops_address = 0xffff0000

abbrev pub is_evaluation : Mode → Bool
is_evaluation setup = false
is_evaluation evaluation = true

-- The machine that serves the function, and the one that drives it in the two-machine setup.
pub data Machine : Type 0 where
  testsys drivesys : Machine

-- The exit event that a call of `m5.simulate()` returns.
pub record ExitEvent : Type 0 where
  pub cause : String
  pub code : ℤ

-- A line of a run script that the guest executes.
pub data Command : Type 0 where
  m5_exit : Command
  m5_exit_at : ℕ → Command
  m5_fail : ℤ → Command
  echo : Text → Command
  ifconfig : String → String → Command
  ifconfig_up : String → Command
  compose_up : String → Command
  compose_down : Command
  pin_function : ℕ → Command
  sleep : ℕ → Command
  test_client : String → String → ℤ → ℤ → Bool → Command

-- What a script asks of gem5, of the file system and of the terminal, in order.
pub data Action : Type 0 where
  say : Text → Action
  make_dir : String → Action
  create_system : Machine → SystemKind → Bool → Action
  set_m5ops_base : Machine → ℕ → Action
  exit_on_work_items : Machine → Action
  write_script : String → List Command → Action
  set_readfile : Machine → String → Action
  set_sim_quantum : ℕ → Action
  link_machines : ℕ → Action
  dump_ethernet : String → Action
  prepare_cpu : ℕ → Action
  instantiate : Option String → Action
  switch_to_main : Machine → Action
  switch_to_atomic : Machine → Action
  reset_stats : Action
  dump_stats : Action
  exit_simulator : Action
  checkpoint : String → Action

-- The globals `inv_to_warm` and `inv_to_measure`.
pub record Counters : Type 0 where
  pub inv_to_warm : ℤ
  pub inv_to_measure : ℤ

-- What a handler leaves behind. Its result is what the Python function returns, `None` included.
pub record Outcome : Type 0 where
  pub counters : Counters
  pub actions : List Action
  pub result : Option Bool

-- Python's truth value of a handler's result.
abbrev pub truthy : Option Bool → Bool
truthy none = false
truthy (some b) = b

-- The main loop after a list of events: the events that it has not read are `unread`. A loop that
-- has read them all and still runs has not `exited`.
pub record Run : Type 0 where
  pub counters : Counters
  pub actions : List Action
  pub exited : Bool
  pub unread : List ExitEvent

-- `prGreen` and `prYellow`: the text in colour.
abbrev pub pr_green : Text → Action
pr_green t = say ((27 ∷ codes "[92m ") ++ (t ++ (27 ∷ codes "[00m")))

abbrev pub pr_yellow : Text → Action
pr_yellow t = say ((27 ∷ codes "[93m ") ++ (t ++ (27 ∷ codes "[00m")))

-- `FAIL_CODES` of run_sim.tmpl.py and run_sim_two_machine.tmpl.py.
abbrev pub fail_codes : List (ℤ × String)
fail_codes =
    (pos 1, "1: BOOTING complete")
    ∷ (pos 2, "2: Started container")
    ∷ (pos 3, "3: Pinned container")
    ∷ (pos 4, "4: Warming done")
    ∷ (pos 6, "6: Container stop")
    ∷ (pos 10, "10: Start client")
    ∷ (pos 11, "11: Stop client")
    ∷ (pos 21, "21: Send request  ->")
    ∷ (pos 22, "22: Recv response <-")
    ∷ (pos 31, "31: Start warming")
    ∷ (pos 32, "32: Stop warming")
    ∷ (negsuc 0, "Exit simulation")
    ∷ []

abbrev pub lookup_code : ℤ → List (ℤ × String) → Option String
lookup_code c [] = none
lookup_code c ((d, s) ∷ rest) = if eqb_ℤ c d then some s else lookup_code c rest

-- Python's truth value of a string, negated.
abbrev pub is_empty : String → Bool
is_empty String.[] = true
is_empty _ = false

-- The branches of the main loop on `exit_event.getCause()`.
pub data Kind : Type 0 where
  fail_kind begin_kind end_kind interrupt_kind other_kind : Kind

unfoldable pub kind : String → Kind
kind cause =
    if str_eq cause "m5_fail instruction encountered"
    then fail_kind
    else if str_eq cause "workbegin"
    then begin_kind
    else if str_eq cause "workend"
    then end_kind
    else if str_eq cause "user interrupt received"
    then interrupt_kind
    else other_kind
