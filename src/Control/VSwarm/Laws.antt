-- ===== src/Control/VSwarm/Laws.antt =====
-- How often the generators of vswarm_simple.tmpl.py have to be resumed, and what they leave.
use v_swarm_u.Base.{
  ℕ, zero, suc, ◌+◌, ◌≡◌, refl, Bool, true, false, not, ◌&&◌, some, String, [], ◌∷◌, ◌++◌, arith,
  if◌then◌else◌, replicate, count_if, leb,
}
use v_swarm_u.Base.Int.{pos}
use v_swarm_u.Control.{Args, setup, evaluation, is_evaluation, Command, m5_exit, m5_exit_at}
use v_swarm_u.Control.Generator.{answers, effects, after}
use v_swarm_u.Control.Actions.{checkpoints}
use v_swarm_u.Control.VSwarm.{
  run_script, checkpoint_folder, board, items_start, loop_top, Items, workitems, fresh,
  execute_exit, client_start, endless, execute_fail,
}

abbrev at : ℕ → Items
at c = record { cnt = c; resume = loop_top }

ends_from :
    (args : Args) (k c : ℕ)
    → args.mode ≡ evaluation
    → args.num_invocations ≡ pos (c + 1 + k)
    → answers (workitems args false) (suc k) (at c) ≡ replicate k (some false) ++ (some true ∷ [])
unfolding answers workitems
ends_from args zero c m h = ground arith
ends_from args (suc k) c m h = ground (arith, ends_from args k (c + 1) m)

-- In evaluation mode with `--num-invocations` k + 2, the generator that is registered for the end
-- of an invocation answers k ends with `False` and the next one with `True`: it asks to stop after
-- k + 1 invocations, one fewer than were asked for.
workitems-ends :
    (args : Args) (k : ℕ)
    → args.mode ≡ evaluation
    → args.num_invocations ≡ pos (k + 2)
    → answers (workitems args false) (suc k) items_start
      ≡ replicate k (some false) ++ (some true ∷ [])
workitems-ends args k m h = ends_from args k 1 m (ground arith)

-- With `--num-invocations` above 1, in either mode, the generator that is
-- registered for the begin of an invocation answers every begin with `False`, and it counts none of
-- them: the number that it prints stays 1.
workitems-begins :
    (args : Args) (n k : ℕ)
    → args.num_invocations ≡ pos (suc (suc n))
    → (answers (workitems args true) k items_start ≡ replicate k (some false))
      × (after (workitems args true) k items_start ≡ items_start)
unfolding answers after workitems
workitems-begins args n zero h = (refl, refl)
workitems-begins args n (suc k) h = ground (arith, workitems-begins args n k h)

abbrev pub is_m5_exit : Command → Bool
is_m5_exit m5_exit = true
is_m5_exit (m5_exit_at address) = true
is_m5_exit _ = false

-- In setup mode the run script executes `m5 exit` as often as `executeExit` has to be resumed until
-- it answers `True`: it answers the last exit of the script so, and every earlier one with `False`.
execute_exit-run_script :
    (args : Args) (function : String)
    → args.mode ≡ setup
    → answers (execute_exit args) (count_if is_m5_exit (run_script args function)) fresh
      ≡ replicate 5 (some false) ++ (some true ∷ [])
unfolding answers execute_exit run_script
execute_exit-run_script args function m = ground arith

endless_fail : (args : Args) (k : ℕ) → checkpoints (effects (execute_fail args) k endless) ≡ []
unfolding effects execute_fail
endless_fail args zero = refl
endless_fail args (suc k) = endless_fail args k

-- Over any number of failure events the generator `executeFail` takes a checkpoint at the third of
-- them in setup mode, and no other; in evaluation mode it takes none. The board of an evaluation
-- with the same folder and function starts from that checkpoint.
execute_fail-checkpoints :
    (args later : Args) (k : ℕ)
    → later.mode ≡ evaluation
    → later.checkpoint_dir ≡ args.checkpoint_dir
    → later.function ≡ args.function
    → (checkpoints (effects (execute_fail args) k client_start)
        ≡ (if not (is_evaluation args.mode) && leb 3 k then checkpoint_folder args ∷ [] else []))
      × ((board later).checkpoint_path ≡ some (checkpoint_folder args))
unfolding effects execute_fail board
execute_fail-checkpoints args later zero m d f = ground arith
execute_fail-checkpoints args later (suc zero) m d f = ground arith
execute_fail-checkpoints args later (suc (suc zero)) m d f = ground arith
execute_fail-checkpoints args later (suc (suc (suc k))) m d f = ground (arith, endless_fail args k)
