-- ===== src/Control/RunSim.antt =====
-- simulation/wkdir-tmpl/run_sim.tmpl.py: the script that boots one machine, takes checkpoints, and
-- measures invocations.
pub mod Protocol
pub mod Exits
pub mod Checkpoints
pub mod Limits
pub mod Phases
pub mod Setup
pub mod Termination
pub mod Restore
mod Script
unfoldable pub use Script.*
use v_swarm_u.Base.{
  ℕ, String, ◌<>◌, Bool, true, false, not, ◌&&◌, ◌||◌, none, some, List, [], ◌∷◌, ◌++◌, map,
  if◌then◌else◌, range, ltb,
}
use v_swarm_u.Base.Int.{ℤ, pos, negsuc, ◌-ℤ◌, ltb_ℤ, eqb_ℤ}
use v_swarm_u.Base.Text.{codes, show}
use v_swarm_u.Control.{
  checkpoint_word, Args, is_evaluation, testsys, ExitEvent, Action, say, make_dir, create_system,
  write_script, set_m5ops_base, m5ops_address, exit_on_work_items, is_empty, set_readfile,
  set_sim_quantum, prepare_cpu, instantiate, switch_to_main, switch_to_atomic, reset_stats,
  dump_stats, checkpoint, Counters, Outcome, truthy, Run, pr_green, pr_yellow, fail_codes,
  lookup_code, fail_kind, begin_kind, end_kind, interrupt_kind, other_kind, kind,
}

-- `workitem(True, id)`, after the subtraction and the test of the mode
work_begin : ℤ → Counters → Outcome
work_begin id s =
    let greeting = pr_yellow (codes "Start invokation: " ++ show id) in
    if ltb_ℤ (pos 0) s.inv_to_warm
    then record { counters = s; actions = greeting ∷ []; result = none }
    else if eqb_ℤ s.inv_to_warm (pos 0)
    then record {
      counters = record s { inv_to_warm = negsuc 0 };
      actions =
          greeting ∷ pr_green (codes "Warming done") ∷ switch_to_main testsys ∷ reset_stats ∷ [];
      result = none;
    }
    else record { counters = s; actions = greeting ∷ []; result = none }

-- `if inv_to_measure > 0: inv_to_measure -= 1`
abbrev count_down : ℤ → ℤ
count_down m = if ltb_ℤ (pos 0) m then m -ℤ pos 1 else m

-- `workitem(False, id)`, likewise
work_end : ℤ → Counters → Outcome
work_end id s =
    let greeting = pr_yellow (codes "End invokation: " ++ show id) in
    if ltb_ℤ (pos 0) s.inv_to_warm
    then record {
      counters = record s { inv_to_warm = s.inv_to_warm -ℤ pos 1 };
      actions = greeting ∷ [];
      result = none;
    }
    else let left = count_down s.inv_to_measure in
      if eqb_ℤ left (pos 0)
      then record {
        counters = record s { inv_to_measure = left };
        actions = greeting ∷ pr_green (codes "Measuring done") ∷ dump_stats ∷ [];
        result = some true;
      }
      else record {
        counters = record s { inv_to_measure = left };
        actions = greeting ∷ [];
        result = none;
      }

unfoldable pub workitem : Args → Bool → ℤ → Counters → Outcome
unfolding work_begin work_end
workitem args begin code s =
    let id = code -ℤ pos 100 in
    if not (is_evaluation args.mode)
    then record { counters = s; actions = []; result = none }
    else if begin
    then work_begin id s
    else work_end id s

-- `"{}/{}/cpt.{}".format(args.checkpoint_dir, args.function, name)`
abbrev pub checkpoint_path : Args → String → String
checkpoint_path args name = args.checkpoint_dir <> ("/" <> (args.function <> ("/cpt." <> name)))

-- `ckp_name` of `executeM5FailCode`
abbrev pub checkpoint_for : ℤ → String
checkpoint_for code =
    if eqb_ℤ code (pos 1) then "boot" else if eqb_ℤ code (pos 32) then "warm" else "xx"

-- `m5.checkpoint`, taken for code 32 only
checkpoint_actions : Args → ℤ → List Action
checkpoint_actions args code =
    let ckp = checkpoint_path args (checkpoint_for code) in
    if eqb_ℤ code (pos 32)
    then say (codes "Create checkpoint:  " ++ codes ckp) ∷ checkpoint ckp ∷ []
    else []

unfoldable pub execute_m5_fail_code : Args → ℤ → Counters → Outcome
unfolding checkpoint_actions
execute_m5_fail_code args code s = elim (lookup_code code fail_codes) [
  | none ↦ record {
    counters = s;
    actions = say (codes "Nothing to do for fail code: %s " ++ show code) ∷ [];
    result = some false;
  }
  | some message ↦ record {
    counters = s;
    actions =
        pr_yellow (codes message)
        ∷ (checkpoint_actions args code
            ++ (if eqb_ℤ code (negsuc 0) then pr_green (codes "Simulation done.") ∷ [] else []));
    result = if eqb_ℤ code (negsuc 0) then some true else none;
  }
]

-- One round of the loop of `simulate`, for the event that `m5.simulate()` has returned. A handler's
-- result becomes `_exit`, which stays `False` after an event that has no handler.
unfoldable pub handle : Args → ExitEvent → Counters → Outcome
unfolding workitem execute_m5_fail_code
handle args e s = elim (kind e.cause) [
  | fail_kind ↦ execute_m5_fail_code args e.code s
  | begin_kind ↦ workitem args true e.code s
  | end_kind ↦ workitem args false e.code s
  | interrupt_kind ↦ record {
    counters = s;
    actions = say (codes "Received user interrupt. Exit simulation") ∷ [];
    result = some true;
  }
  | other_kind ↦ record {
    counters = s;
    actions =
        say (codes "Exit cause: " ++ (codes e.cause ++ (codes " | code: " ++ show e.code))) ∷ [];
    result = some false;
  }
]

-- `simulate`, over the events that the calls of `m5.simulate()` return.
unfoldable pub simulate : Args → Counters → List ExitEvent → Run
simulate args s [] = record {
  counters = s;
  actions = say (codes "Start simulation...") ∷ [];
  exited = false;
  unread = [];
}
simulate args s (e ∷ es) =
    let o = handle args e s in
    let rest = simulate args o.counters es in
    let start = say (codes "Start simulation...") in
    if truthy o.result
    then record { counters = o.counters; actions = start ∷ o.actions; exited = true; unread = es }
    else record {
      counters = rest.counters;
      actions = start ∷ (o.actions ++ rest.actions);
      exited = rest.exited;
      unread = rest.unread;
    }

-- `_host_parallel` of the simple and of the Skylake system.
abbrev pub host_parallel : Bool → ℕ → Bool
host_parallel kvm num_cpus = kvm && ltb 1 num_cpus

-- The actions of the main block up to the choice of the mode. `outdir` is `m5.options.outdir`.
unfoldable pub prepare : Args → String → List Action
unfolding run_script
prepare args outdir =
    let kvm = not (is_evaluation args.mode) in
    let run_sh = outdir <> "/run.sh" in
    let folder =
      if args.take_checkpoints || kvm
      then make_dir (args.checkpoint_dir <> ("/" <> args.function)) ∷ []
      else [] in
    let readfile =
      if is_empty args.function
      then set_readfile testsys args.script ∷ []
      else write_script run_sh (run_script args.function) ∷ set_readfile testsys run_sh ∷ [] in
    let quantum = if host_parallel kvm 2 then set_sim_quantum 1000000000 ∷ [] else [] in
    folder
    ++ (create_system testsys args.system kvm
        ∷ set_m5ops_base testsys m5ops_address
        ∷ exit_on_work_items testsys
        ∷ (readfile ++ quantum))

-- The counters at the start, before the main block sets them.
abbrev pub initial : Counters
initial = record { inv_to_warm = negsuc 0; inv_to_measure = negsuc 0 }

-- `system.switchToAtomicCpu()`, if invocations are to be warmed.
abbrev pub warming_actions : ℤ → List Action
warming_actions n = if ltb_ℤ (pos 0) n then switch_to_atomic testsys ∷ [] else []

-- The counters that the evaluation starts from.
abbrev pub evaluation_counters : Args → Counters
evaluation_counters args = record {
  inv_to_warm = if ltb_ℤ (pos 0) args.atomic_warming then args.atomic_warming else negsuc 0;
  inv_to_measure = args.num_invocations;
}

abbrev pub after_actions : List Action → Run → Run
after_actions before r = record r { actions = before ++ r.actions }

-- Evaluation mode from the checkpoint on: one event ends the first call of `m5.simulate()`, which
-- runs a few instructions, then the loop starts.
unfoldable pub evaluate : Args → List ExitEvent → Run
unfolding simulate
evaluate args [] = record { counters = initial; actions = []; exited = false; unread = [] }
evaluate args (first ∷ events) =
    let s = evaluation_counters args in
    after_actions
      (warming_actions args.atomic_warming
        ++ (pr_green (codes "Warming for " ++ (show s.inv_to_warm ++ codes " invocations"))
            ∷ pr_green (codes "Measure for " ++ (show s.inv_to_measure ++ codes " invocations"))
            ∷ []))
      (simulate args s events)

-- The main block.
unfoldable pub main : Args → String → List ExitEvent → Run
unfolding prepare evaluate simulate
main args outdir events =
    let ckp = checkpoint_path args (checkpoint_word args.use_checkpoint) in
    if is_evaluation args.mode
    then after_actions
        (prepare args outdir
          ++ (say (codes "--- Evaluation Mode ---")
              ∷ say (codes "Instantiate checkpoint:  " ++ codes ckp)
              ∷ (map prepare_cpu (range 2) ++ (instantiate (some ckp) ∷ []))))
        (evaluate args events)
    else after_actions
        (prepare args outdir ++ (say (codes "--- Setup Mode ---") ∷ instantiate none ∷ []))
        (simulate args initial events)
