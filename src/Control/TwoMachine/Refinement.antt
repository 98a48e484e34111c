-- ===== src/Control/TwoMachine/Refinement.antt =====
-- The two-machine script runs the measurement of run_sim.tmpl.py, with both machines switched.
use v_swarm_u.Base.{◌≡◌, refl, List, [], ◌∷◌, ◌++◌, arith, if◌then◌else◌}
use mathlib.Core.List.{append_assoc}
use v_swarm_u.Base.Text.{codes}
use v_swarm_u.Control.{
  Args, ExitEvent, testsys, drivesys, Action, switch_to_main, Counters, Outcome, Run, pr_green,
}
use v_swarm_u.Control.RunSim
use v_swarm_u.Control.TwoMachine.{handle, simulate}

-- What stands for an action of the one-machine script: a switch of the machine to its main CPUs
-- becomes a switch of both machines.
abbrev pub both : List Action → List Action
both [] = []
both (switch_to_main testsys ∷ rest) = switch_to_main testsys ∷ switch_to_main drivesys ∷ both rest
both (a ∷ rest) = a ∷ both rest

both-append : (xs ys : List Action) → both (xs ++ ys) ≡ both xs ++ both ys
both-append [] ys = refl
both-append (switch_to_main testsys ∷ xs) ys = ground (arith, both-append xs ys)
both-append (switch_to_main drivesys ∷ xs) ys = ground (arith, both-append xs ys)
both-append (a ∷ xs) ys = ground (arith, both-append xs ys)

abbrev both_outcome : Outcome → Outcome
both_outcome o = record o { actions = both o.actions }

handle-both :
    (args : Args) (e : ExitEvent) (s : Counters)
    → handle args e s ≡ both_outcome (RunSim.handle args e s)
unfolding handle RunSim.handle
handle-both args e s = ground arith

-- What the two-machine script makes of a run of the one-machine script.
abbrev pub both_run : Run → Run
both_run r = record r {
  actions = both r.actions ++ (if r.exited then pr_green (codes "Simulation done.") ∷ [] else []);
}

-- Over any events and from any counters, the two-machine loop ends when the one-machine loop does,
-- with the same counters and the same events unread. It asks for the same actions in the same
-- order, but for two differences: where the one switches its machine to the main CPUs, the other
-- switches both machines, and when its loop ends it says that the simulation is done.
pub simulate-both_run :
    (args : Args) (s : Counters) (es : List ExitEvent)
    → simulate args s es ≡ both_run (RunSim.simulate args s es)
unfolding simulate RunSim.simulate
simulate-both_run args s [] = ground arith
simulate-both_run args s (e ∷ es) =
    let o = RunSim.handle args e s in
    let rest = RunSim.simulate args o.counters es in
    rw (handle-both args e s) (
      ground (
        arith,
        simulate-both_run args o.counters es,
        both-append o.actions rest.actions,
        append_assoc (both o.actions) (both rest.actions)
            (pr_green (codes "Simulation done.") ∷ []),
        append_assoc (both o.actions) (both rest.actions) [],
      ))
