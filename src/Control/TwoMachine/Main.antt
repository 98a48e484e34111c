-- ===== src/Control/TwoMachine/Main.antt =====
-- The main block of run_sim_two_machine.tmpl.py beside that of run_sim.tmpl.py.
use v_swarm_u.Base.{
  ◌∙◌, ◌≡◌, refl, none, some, String, Bool, true, false, List, [], ◌∷◌, ◌++◌, map, range, arith,
  if◌then◌else◌,
}
use mathlib.Core.List.{append-nil}
use v_swarm_u.Base.Text.{codes, show}
use v_swarm_u.Control.{
  Args, ExitEvent, Counters, Action, say, instantiate, prepare_cpu, checkpoint, checkpoint_word,
  switch_to_main, testsys, drivesys, Run, is_evaluation, pr_green,
}
use v_swarm_u.Control.Actions.{checkpoints, checkpoints-append}
use v_swarm_u.Control.RunSim
use v_swarm_u.Control.TwoMachine.{
  DualArgs, main, prepare, evaluate, simulate, initial, evaluation_counters, warming_actions,
  checkpoint_path, make_dual_root,
}
use v_swarm_u.Control.TwoMachine.Refinement.{both, both_run, simulate-both_run}

checkpoints-both : (xs : List Action) → checkpoints (both xs) ≡ checkpoints xs
checkpoints-both [] = refl
checkpoints-both (checkpoint path ∷ xs) = ground (arith, checkpoints-both xs)
checkpoints-both (switch_to_main testsys ∷ xs) = ground (arith, checkpoints-both xs)
checkpoints-both (switch_to_main drivesys ∷ xs) = ground (arith, checkpoints-both xs)
checkpoints-both (a ∷ xs) = ground (arith, checkpoints-both xs)

-- The line at the end is no checkpoint.
checkpoints-end :
    (b : Bool) → checkpoints (if b then pr_green (codes "Simulation done.") ∷ [] else []) ≡ []
checkpoints-end true = refl
checkpoints-end false = refl

checkpoints-both_run : (r : Run) → checkpoints (both_run r).actions ≡ checkpoints r.actions
checkpoints-both_run r =
    checkpoints-append (both r.actions) _
    ∙ (rw (checkpoints-both r.actions, checkpoints-end r.exited)
        (append-nil (checkpoints r.actions)))

-- Two runs end alike, with the same events unread, the same counters and the same checkpoints.
abbrev pub Agree : Run → Run → Type 0
Agree r t =
    (r.exited ≡ t.exited)
    × (r.unread ≡ t.unread)
    × (r.counters ≡ t.counters)
    × (checkpoints r.actions ≡ checkpoints t.actions)

simulate-Agree :
    (args : Args) (s : Counters) (es : List ExitEvent)
    → Agree (simulate args s es) (RunSim.simulate args s es)
simulate-Agree args s es =
    rw (simulate-both_run args s es)
      (refl, refl, refl, checkpoints-both_run (RunSim.simulate args s es))

after-Agree :
    (before before' : List Action) (r t : Run)
    → checkpoints before ≡ []
    → checkpoints before' ≡ []
    → Agree r t
    → Agree
        (record r { actions = before ++ r.actions })
        (record t { actions = before' ++ t.actions })
after-Agree before before' r t h h' (exited, unread, counters, taken) = (
  exited,
  unread,
  counters,
  rw (checkpoints-append before r.actions, checkpoints-append before' t.actions, h, h') taken,
)

-- What stands before the loop takes no checkpoint.
checkpoints-prepare : (d : DualArgs) (outdir : String) → checkpoints (prepare d outdir) ≡ []
unfolding prepare make_dual_root
checkpoints-prepare d outdir = ground arith

checkpoints-prepare_one :
    (args : Args) (outdir : String) → checkpoints (RunSim.prepare args outdir) ≡ []
unfolding RunSim.prepare
checkpoints-prepare_one args outdir = ground arith

-- What both scripts say before they measure, and what they do before the loop in either mode.
abbrev lines : Counters → List Action
lines s =
    pr_green (codes "Warming for " ++ (show s.inv_to_warm ++ codes " invocations"))
    ∷ pr_green (codes "Measure for " ++ (show s.inv_to_measure ++ codes " invocations"))
    ∷ []

abbrev evaluation_front : String → List Action
evaluation_front ckp =
    say (codes "--- Evaluation Mode ---")
    ∷ say (codes "Instantiate checkpoint:  " ++ codes ckp)
    ∷ (map prepare_cpu (range 2) ++ (instantiate (some ckp) ∷ []))

abbrev setup_front : List Action
setup_front = say (codes "--- Setup Mode ---") ∷ instantiate none ∷ []

evaluate-Agree :
    (args : Args) (es : List ExitEvent) → Agree (evaluate args es) (RunSim.evaluate args es)
unfolding evaluate RunSim.evaluate
evaluate-Agree args [] = (refl, refl, refl, refl)
evaluate-Agree args (first ∷ es) =
    let c = evaluation_counters args in
    after-Agree (warming_actions args.atomic_warming ++ lines c)
      (RunSim.warming_actions args.atomic_warming ++ lines c) (simulate args c es)
      (RunSim.simulate args c es) (ground arith) (ground arith) (simulate-Agree args c es)

if-Agree :
    (b : Bool) (r r' t t' : Run)
    → Agree r t
    → Agree r' t'
    → Agree (if b then r else r') (if b then t else t')
if-Agree true r r' t t' h h' = h
if-Agree false r r' t t' h h' = h'

-- A front that takes no checkpoint, before actions that take none.
before_quiet :
    (xs ys : List Action) → checkpoints xs ≡ [] → checkpoints ys ≡ [] → checkpoints (xs ++ ys) ≡ []
before_quiet xs ys h h' = rw (checkpoints-append xs ys, h, h')

-- The two-machine script, in either mode and over any events, ends exactly when the one-machine
-- script with the same arguments does, with the same events unread, the same counters, and the same
-- checkpoints at the same paths.
pub main-Agree :
    (d : DualArgs) (outdir : String) (es : List ExitEvent)
    → Agree (main d outdir es) (RunSim.main d.args outdir es)
unfolding main RunSim.main
main-Agree d outdir es =
    let two = checkpoints-prepare d outdir in
    let ckp = checkpoint_path d.args (checkpoint_word d.args.use_checkpoint) in
    let one = checkpoints-prepare_one d.args outdir in
    if-Agree (is_evaluation d.args.mode) _ _ _ _
      (after-Agree (prepare d outdir ++ evaluation_front ckp)
        (RunSim.prepare d.args outdir ++ evaluation_front ckp) (evaluate d.args es)
        (RunSim.evaluate d.args es)
        (before_quiet (prepare d outdir) (evaluation_front ckp) two refl)
        (before_quiet (RunSim.prepare d.args outdir) (evaluation_front ckp) one refl)
        (evaluate-Agree d.args es))
      (after-Agree (prepare d outdir ++ setup_front) (RunSim.prepare d.args outdir ++ setup_front)
        (simulate d.args initial es) (RunSim.simulate d.args initial es)
        (before_quiet (prepare d outdir) setup_front two refl)
        (before_quiet (RunSim.prepare d.args outdir) setup_front one refl)
        (simulate-Agree d.args initial es))
