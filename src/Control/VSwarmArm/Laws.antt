-- ===== src/Control/VSwarmArm/Laws.antt =====
-- The run script of vswarm_simple_arm.tmpl.py beside its generators, and the checkpoint that it takes.
use v_swarm_u.Base.{
  ℕ, Bool, ◌==◌, ◌≡◌, refl, none, some, List, [], ◌∷◌, ◌++◌, arith, length, count_if, replicate,
  true, false, ◌+◌,
}
use v_swarm_u.Control.{Args, setup, Command, m5_exit_at}
use v_swarm_u.Control.Generator.{Event, exit, dispatch}
use v_swarm_u.Control.VSwarm.Events.{generators, is_exit, dispatch_lem}
use v_swarm_u.Control.VSwarmArm.{m5_address, run_script, board, on_exit_event}

abbrev is_exit_at : ℕ → Command → Bool
is_exit_at address (m5_exit_at a) = a == address
is_exit_at address _ = false

-- In setup mode the board starts without a checkpoint. If the events hold as many exits as its run
-- script executes at the address of gem5's operations, the last of them at the end, then this one is
-- answered `True`, and every event before it `False`, in whatever order they come.
board-dispatch :
    (args : Args) (es : List Event)
    → args.mode ≡ setup
    → count_if is_exit es + 1 ≡ count_if (is_exit_at m5_address) (board args).readfile
    → ((board args).checkpoint_path ≡ none)
      × (dispatch (on_exit_event args) (es ++ (exit ∷ [])) generators
          ≡ replicate (length es) (some false) ++ (some true ∷ []))
unfolding board run_script
board-dispatch args es m n =
    (ground (arith, m), dispatch_lem args es generators 0 m refl (omega (arith, n)))
