-- ===== src/Control/Tests.antt =====
-- Runs of the simulation scripts on concrete events, and the theorems at concrete data.
use v_swarm_u.Base.{
  ◌↔◌, ◌≡◌, refl, ◌++◌, true, false, some, List, [], ◌∷◌, arith, count_if, String, Bool, replicate,
}
use v_swarm_u.Base.Int.{pos, negsuc}
use v_swarm_u.Control.{
  checkpoint_word, setup, evaluation, simple, warm, Args, ExitEvent, Counters, kind,
}
use v_swarm_u.Control.Actions.{checkpoints}
use v_swarm_u.Control.RunSim
use v_swarm_u.Control.RunSim.Protocol.{
  begin_event, end_event, invocations, Finished, protocol, main-Finished,
}
use v_swarm_u.Control.RunSim.Termination.{main_terminates}
use v_swarm_u.Control.RunSim.Restore.{restored, main-restores}
use mathlib.Core.List.{Memᴰ}
use v_swarm_u.Control.RunSim.Checkpoints.{is_warming_stop}
use v_swarm_u.Control.RunSim.Setup.{guest_events, main-setup}
use v_swarm_u.Control.TwoMachine
use v_swarm_u.Control.RunTest
use v_swarm_u.Control.RunTest.Laws.{is_stats, simulate-ending}
use v_swarm_u.Control.TwoMachine.Main.{Agree, main-Agree}
use v_swarm_u.Control.TwoMachine.Refinement.{both_run, simulate-both_run}
use v_swarm_u.Control.VSwarm
use v_swarm_u.Control.VSwarm.Events
use v_swarm_u.Control.VSwarm.Events.{setup-dispatch, evaluation-dispatch}
use v_swarm_u.Control.ArmRun
use v_swarm_u.Control.Generator.{Answer, Event, exit, fail, work_begin, work_end, dispatch}

abbrev args : Args
args = record {
  kernel = "vmlinux";
  disk = "disk.img";
  script = "";
  function = "aes-go";
  system = simple;
  atomic_warming = pos 1;
  num_invocations = pos 2;
  mode = evaluation;
  take_checkpoints = false;
  use_checkpoint = warm;
  checkpoint_dir = "cpt";
}

abbrev booting : Args
booting = record args { mode = setup }

abbrev first : ExitEvent
first = record { cause = "a thread reached the max instruction count"; code = pos 0 }

abbrev interrupt : ExitEvent
interrupt = record { cause = "user interrupt received"; code = pos 0 }

abbrev warming_stop : ExitEvent
warming_stop = record { cause = "m5_fail instruction encountered"; code = pos 32 }

abbrev counters : Counters
counters = record { inv_to_warm = pos 1; inv_to_measure = pos 2 }

abbrev events : List ExitEvent
events =
    begin_event (pos 100)
    ∷ end_event (pos 100)
    ∷ warming_stop
    ∷ begin_event (pos 101)
    ∷ interrupt
    ∷ end_event (pos 101)
    ∷ []

main-Finished_example :
    Finished
      (RunSim.main args "m5out"
        (first ∷ (invocations (pos 100 ∷ pos 101 ∷ pos 102 ∷ []) ++ (interrupt ∷ []))))
      (protocol 1)
      (interrupt ∷ [])
main-Finished_example =
    main-Finished args "m5out" first 1 1 (pos 100 ∷ pos 101 ∷ pos 102 ∷ []) (interrupt ∷ []) refl
      refl refl (omega arith)

simulate-both_run_example :
    TwoMachine.simulate args counters events ≡ both_run (RunSim.simulate args counters events)
simulate-both_run_example = simulate-both_run args counters events

-- A run that ends by itself, with one invocation that warms and two that are measured.
measured_run :
    (RunSim.simulate args counters (invocations (pos 100 ∷ pos 101 ∷ pos 102 ∷ []))).exited ≡ true
unfolding RunSim.simulate RunSim.handle kind
measured_run = refl

abbrev test_events : List ExitEvent
test_events =
    record { cause = "workbegin"; code = pos 100 }
    ∷ record { cause = "m5_fail instruction encountered"; code = pos 10 }
    ∷ record { cause = "m5_fail instruction encountered"; code = negsuc 0 }
    ∷ []

abbrev none_inherited : String → Bool
none_inherited name = false

simulate-ending_example :
    ((RunTest.simulate none_inherited test_events).ending
      ≡ some (RunTest.no_attribute "switchToDetailedCpus"))
    × (count_if is_stats (RunTest.simulate none_inherited test_events).actions ≡ 0)
unfolding kind
simulate-ending_example = simulate-ending none_inherited test_events refl refl

abbrev setup_args : Args
setup_args = record args { mode = setup }

-- A client that reports the start and the end of its warming, and then one invocation.
abbrev client : List ExitEvent
client =
    record { cause = "m5_fail instruction encountered"; code = pos 31 }
    ∷ record { cause = "m5_fail instruction encountered"; code = pos 32 }
    ∷ record { cause = "workbegin"; code = pos 100 }
    ∷ record { cause = "workend"; code = pos 100 }
    ∷ []

main-setup_example :
    let r =
      RunSim.main setup_args "m5out"
        (guest_events client (RunSim.run_script setup_args.function) ++ test_events) in
    (r.exited ≡ true)
    × (r.unread ≡ test_events)
    × (checkpoints r.actions
        ≡ replicate
            (count_if is_warming_stop client)
            (RunSim.checkpoint_path setup_args (checkpoint_word warm)))
unfolding kind
main-setup_example =
    main-setup setup_args "m5out" client test_events refl (refl, (refl, (refl, (refl, tt))))

-- The end of the warming comes late, and invocations end before it.
main_terminates_example :
    (RunSim.main args "m5out" (
      first
      ∷ end_event (pos 100)
      ∷ interrupt
      ∷ end_event (pos 3)
      ∷ warming_stop
      ∷ end_event (pos 101)
      ∷ begin_event (pos 102)
      ∷ end_event (pos 102)
      ∷ [])).exited
    ≡ true
unfolding kind
main_terminates_example =
    main_terminates args "m5out" first 2
      (end_event (pos 100)
        ∷ interrupt
        ∷ end_event (pos 3)
        ∷ warming_stop
        ∷ end_event (pos 101)
        ∷ begin_event (pos 102)
        ∷ end_event (pos 102)
        ∷ [])
      refl refl (omega arith)

-- The events of a boot: the client fails three times, and calls the function.
abbrev boot_events : List Event
boot_events = exit ∷ exit ∷ exit ∷ fail ∷ fail ∷ work_begin ∷ work_end ∷ fail ∷ exit ∷ exit ∷ []

setup-dispatch_example :
    dispatch (Events.on_exit_event booting) (boot_events ++ (exit ∷ [])) Events.generators
    ≡ replicate 10 (some false) ++ (some true ∷ [])
unfolding VSwarm.board VSwarm.run_script
setup-dispatch_example = setup-dispatch booting boot_events refl refl

-- The own handlers of gem5: an exit ends the simulation.
abbrev own : Event → Answer Unit
own exit = record { state = tt; actions = []; yielded = some true }
own _ = record { state = tt; actions = []; yielded = some false }

main-restores_example :
    let r = RunSim.main booting "m5out" (
      guest_events (begin_event (pos 100) ∷ warming_stop ∷ []) (RunSim.run_script "aes-go")
      ++ (interrupt ∷ [])) in
    (path : String) × (restored (RunSim.main args "later" events).actions ≡ some path ∷ [])
    × (Memᴰ path (checkpoints r.actions) ↔ (args.use_checkpoint ≡ warm))
unfolding kind
main-restores_example =
    main-restores booting args "m5out" "later" (begin_event (pos 100) ∷ warming_stop ∷ [])
      (interrupt ∷ []) events refl refl refl refl (refl, (refl, tt)) (omega arith)

abbrev dual : TwoMachine.DualArgs
dual = record { args = args; etherdump = "" }

main-Agree_example :
    Agree
      (TwoMachine.main dual "m5out" (first ∷ events))
      (RunSim.main args "m5out" (first ∷ events))
main-Agree_example = main-Agree dual "m5out" (first ∷ events)

evaluation-dispatch_example :
    dispatch
      (Events.on_exit_event args)
      ((work_begin ∷ fail ∷ []) ++ (work_end ∷ []))
      Events.generators
    ≡ replicate 2 (some false) ++ (some true ∷ [])
evaluation-dispatch_example =
    evaluation-dispatch args 0 (work_begin ∷ fail ∷ []) refl refl refl refl
