-- ===== src/Control/RunSim/Phases/Tests.antt =====
-- A measurement whose events are out of order.
use v_swarm_u.Base.{◌≡◌, refl, true, false, List, [], ◌∷◌, count_if, leb, if◌then◌else◌}
use v_swarm_u.Base.Int.{pos}
use v_swarm_u.Control.{evaluation, simple, warm, Args, ExitEvent, kind}
use v_swarm_u.Control.Actions.{is_dump}
use v_swarm_u.Control.RunSim.{handle, main, warming_actions, checkpoint_path}
use v_swarm_u.Control.RunSim.Protocol.{begin_event, end_event}
use v_swarm_u.Control.RunSim.Phases.Refinement.{Refines}
use v_swarm_u.Control.RunSim.Phases.Switches.{switches_in_turn, main-in_turn}
use v_swarm_u.Control.RunSim.Phases.Main.{start, is_end, main-Refines, main-accounts}

abbrev args : Args
args = record {
  kernel = "vmlinux";
  disk = "disk.img";
  script = "";
  function = "auth-go";
  system = simple;
  atomic_warming = pos 1;
  num_invocations = pos 2;
  mode = evaluation;
  take_checkpoints = false;
  use_checkpoint = warm;
  checkpoint_dir = "cpt";
}

abbrev first : ExitEvent
first = record { cause = "a thread reached the max instruction count"; code = pos 0 }

-- An invocation ends before one begins, and a checkpoint is asked for between two.
abbrev events : List ExitEvent
events =
    end_event (pos 100)
    ∷ begin_event (pos 101)
    ∷ end_event (pos 101)
    ∷ record { cause = "m5_fail instruction encountered"; code = pos 32 }
    ∷ begin_event (pos 102)
    ∷ end_event (pos 102)
    ∷ begin_event (pos 103)
    ∷ []

main-Refines_example :
    Refines
      (checkpoint_path args "warm")
      (warming_actions (pos 1))
      (start 1 1)
      (main args "m5out" (first ∷ events))
      events
main-Refines_example = main-Refines args "m5out" first 1 1 events refl refl refl

main-accounts_example :
    let r = main args "m5out" (first ∷ events) in
    (r.exited ≡ leb 3 (count_if is_end events))
    × (count_if is_dump r.actions ≡ (if r.exited then 1 else 0))
unfolding kind
main-accounts_example = main-accounts args "m5out" first 1 1 events refl refl refl refl

-- The measurement ends with the third end of an invocation.
ended :
    ((main args "m5out" (first ∷ events)).exited ≡ true)
    × ((main args "m5out" (first ∷ events)).unread ≡ begin_event (pos 103) ∷ [])
unfolding main handle kind
ended = (refl, refl)

main-in_turn_example : switches_in_turn false (main args "m5out" (first ∷ events)).actions ≡ true
main-in_turn_example = main-in_turn args "m5out" first 1 1 events refl refl refl
