-- ===== src/Control/RunSim/Phases/Switches.antt =====
-- The CPUs that run while run_sim.tmpl.py measures: gem5 refuses a switch from CPUs that are switched
-- out, and one to CPUs that are not.
use v_swarm_u.Base.{
  ℕ, zero, suc, ◌≡◌, refl, String, Bool, true, false, not, ◌&&◌, List, [], ◌∷◌, ◌++◌, arith, ap,
  ◌∙◌, sym, select, map,
}
use v_swarm_u.Base.Int.{pos}
use v_swarm_u.Control.{Args, evaluation, ExitEvent, Action, switch_to_main, switch_to_atomic}
use v_swarm_u.Control.Actions.{is_control}
use v_swarm_u.Control.RunSim.{main, warming_actions, checkpoint_path}
use v_swarm_u.Control.RunSim.Phases.{
  Phase, warming, over, Mark, begin_warm, end_warm, begin_first, end_unbegun, last_unbegun,
  begin_more, end_more, end_last, saving, stopping, idling, Trace, stays, goes,
}
use v_swarm_u.Control.RunSim.Phases.Refinement.{mark}
use v_swarm_u.Control.RunSim.Phases.Main.{start, main-Refines}

-- The actions switch to the atomic CPUs only while the main CPUs run, and back only while the atomic
-- CPUs do; `atomic` says which of them run first.
abbrev pub switches_in_turn : Bool → List Action → Bool
switches_in_turn atomic [] = true
switches_in_turn atomic (switch_to_atomic m ∷ acts) = not atomic && switches_in_turn true acts
switches_in_turn atomic (switch_to_main m ∷ acts) = atomic && switches_in_turn false acts
switches_in_turn atomic (_ ∷ acts) = switches_in_turn atomic acts

-- The atomic CPUs run in the phase.
abbrev on_atomic : Phase → Bool
on_atomic (warming w m) = true
on_atomic _ = false

in_turn-select :
    (b : Bool) (acts : List Action)
    → switches_in_turn b (select is_control acts) ≡ switches_in_turn b acts
in_turn-select b [] = refl
in_turn-select b (switch_to_atomic m ∷ acts) = ground (arith, in_turn-select true acts)
in_turn-select b (switch_to_main m ∷ acts) = ground (arith, in_turn-select false acts)
in_turn-select b (a ∷ acts) = in_turn-select b acts

Trace-over :
    (path : String) (q : Phase) (ks : List Mark) (acts : List Action)
    → Trace path over ks acts q
    → acts ≡ []
Trace-over path _ _ _ stays = refl
Trace-over path q _ _ (goes n step trace) = absurd cc

Trace-in_turn :
    (path : String) (p q : Phase) (ks : List Mark) (acts : List Action)
    → Trace path p ks acts q
    → switches_in_turn (on_atomic p) acts ≡ true
Trace-in_turn path p _ _ _ stays = refl
Trace-in_turn path p r _ _ (goes {ks = ks} {rest = rest} n begin_warm t) =
    Trace-in_turn path _ r ks rest t
Trace-in_turn path p r _ _ (goes {ks = ks} {rest = rest} n end_warm t) =
    Trace-in_turn path _ r ks rest t
Trace-in_turn path p r _ _ (goes {ks = ks} {rest = rest} n begin_first t) =
    Trace-in_turn path _ r ks rest t
Trace-in_turn path p r _ _ (goes {ks = ks} {rest = rest} n end_unbegun t) =
    Trace-in_turn path _ r ks rest t
Trace-in_turn path p r _ _ (goes {ks = ks} {rest = rest} n last_unbegun t) =
    rw (Trace-over path r ks rest t) refl
Trace-in_turn path p r _ _ (goes {ks = ks} {rest = rest} n begin_more t) =
    Trace-in_turn path _ r ks rest t
Trace-in_turn path p r _ _ (goes {ks = ks} {rest = rest} n end_more t) =
    Trace-in_turn path _ r ks rest t
Trace-in_turn path p r _ _ (goes {ks = ks} {rest = rest} n end_last t) =
    rw (Trace-over path r ks rest t) refl
Trace-in_turn path p r _ _ (goes {ks = ks} {rest = rest} n saving t) =
    Trace-in_turn path _ r ks rest t
Trace-in_turn path p r _ _ (goes {ks = ks} {rest = rest} n stopping t) =
    rw (Trace-over path r ks rest t) refl
Trace-in_turn path p r _ _ (goes {ks = ks} {rest = rest} n idling t) =
    Trace-in_turn path _ r ks rest t

switches-start :
    (w n : ℕ) (acts : List Action)
    → switches_in_turn false (warming_actions (pos w) ++ acts)
      ≡ switches_in_turn (on_atomic (start w n)) acts
switches-start zero n acts = refl
switches-start (suc w) n acts = ground arith

-- In evaluation mode with `--atomic-warming` w and `--num-invocations` n + 1, over any events: the
-- script, which starts on the main CPUs, switches to the atomic CPUs only while the main CPUs run, and
-- back only while the atomic CPUs run.
pub main-in_turn :
    (args : Args) (outdir : String) (first : ExitEvent) (w n : ℕ) (es : List ExitEvent)
    → args.mode ≡ evaluation
    → args.atomic_warming ≡ pos w
    → args.num_invocations ≡ pos (suc n)
    → switches_in_turn false (main args outdir (first ∷ es)).actions ≡ true
main-in_turn args outdir first w n es m hw hn =
    let f = main-Refines args outdir first w n es m hw hn in
    sym (in_turn-select false (main args outdir (first ∷ es)).actions)
    ∙ (ap (switches_in_turn false) f.controlled
        ∙ (switches-start w n f.acts
            ∙ Trace-in_turn (checkpoint_path args "warm") (start w n) f.last (map mark f.read)
                f.acts f.trace))
