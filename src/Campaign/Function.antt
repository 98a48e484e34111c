-- ===== src/Campaign/Function.antt =====
-- setup_function.sh and then sim_function.sh, for one function.
use v_swarm_u.Base.{◌≡◌, refl, String, true, false, Option, some, List, [], ◌∷◌, ◌++◌, arith}
use v_swarm_u.Base.Int.{pos}
use v_swarm_u.Control.{Args, ExitEvent}
use v_swarm_u.Control.Actions.{checkpoints}
use v_swarm_u.Control.RunSim.{main, run_script, checkpoint_path}
use v_swarm_u.Control.RunSim.Setup.{main-setup}
use v_swarm_u.Control.RunSim.Protocol.{Finished, protocol}
use v_swarm_u.Control.RunSim.Restore.{restored, main-restored}
use v_swarm_u.CommandLine.Words.{is_dash}
use v_swarm_u.CommandLine.Simulation.{parse_run_sim}
use v_swarm_u.Base.Text.{codes}
use v_swarm_u.Campaign.{
  Keeps, is_plain_text, client_events, script_events, behind_checkpoint, function_of,
  setup_function, sim_function,
}
use v_swarm_u.Campaign.Launch.{
  setup_args, sim_args, parse_run_sim-setup_function, parse_run_sim-sim_function,
}
use v_swarm_u.Campaign.Client.{remaining, client-AllQuiet, script_events-guest_events}
use v_swarm_u.Campaign.Measurement.{measurement-Finished}

-- The two runs: the first ends by itself with one checkpoint, which the second restores; the second
-- ends by itself after 20 invocations, 10 of them measured.
pub record Measured (setup sim : Args) (outdir later_outdir : String)
    (rest after resumed : List ExitEvent) : Type 0 where
  pub path : String
  pub ended :
      (main setup outdir (script_events true true (run_script setup.function) ++ rest)).exited
      ≡ true
  pub left :
      (main setup outdir (script_events true true (run_script setup.function) ++ rest)).unread
      ≡ rest
  pub taken :
      checkpoints
        (main setup outdir (script_events true true (run_script setup.function) ++ rest)).actions
      ≡ path ∷ []
  pub restores : restored (main sim later_outdir resumed).actions ≡ some path ∷ []
  pub finished : Finished (main sim later_outdir resumed) (protocol 10) (remaining 20 after)

setup_run :
    (function outdir : String) (rest : List ExitEvent)
    → let r =
        main (setup_args function) outdir (script_events true true (run_script function) ++ rest) in
      (r.exited ≡ true)
      × (r.unread ≡ rest)
      × (checkpoints r.actions ≡ checkpoint_path (setup_args function) "warm" ∷ [])
setup_run function outdir rest =
    let (quiet, one) = client-AllQuiet in
    let (a, b, c) =
      main-setup (setup_args function) outdir (client_events true true (pos 20) (pos 5000) true)
        rest refl quiet in
    rw (script_events-guest_events function) (a, b, rw one at c)

-- For any shell that leaves a text without blanks and pattern characters as one word, and any name of
-- a function that is such a text and does not start with a dash, or none: run_sim.py accepts the
-- command lines of setup_function.sh and of sim_function.sh. With the guest that runs the run script
-- as root and whose client connects, the setup run ends by itself, and has taken one checkpoint; a
-- measurement for which gem5 goes on behind the failure code 32 restores this checkpoint, and ends by
-- itself after the 20 invocations of the client: it has switched to the atomic CPU and back, reset
-- the statistics after 10 invocations and dumped them after 20, and has read no later event.
pub sim_function-Measured :
    (expand : String → List String) (name : Option String) (outdir later_outdir : String)
    (first : ExitEvent) (rest after resumed : List ExitEvent)
    → Keeps expand
    → is_plain_text (codes (function_of name)) ≡ true
    → is_dash (function_of name) ≡ false
    → resumed
      ≡ first
        ∷ (behind_checkpoint (script_events true true (run_script (function_of name))) ++ after)
    → (setup : Args) × (sim : Args) × (parse_run_sim (setup_function expand name) ≡ some setup)
      × (parse_run_sim (sim_function expand name) ≡ some sim)
      × Measured setup sim outdir later_outdir rest after resumed
sim_function-Measured expand name outdir later_outdir first rest after resumed keeps plain h e =
    let f = function_of name in
    let (a, b, c) = setup_run f outdir rest in
    (
      setup_args f,
      sim_args f,
      parse_run_sim-setup_function expand name keeps plain h,
      parse_run_sim-sim_function expand name keeps plain h,
      record {
        path = checkpoint_path (setup_args f) "warm";
        ended = a;
        left = b;
        taken = c;
        restores = rw e (main-restored (sim_args f) later_outdir _ refl);
        finished = rw e (
            measurement-Finished (sim_args f) later_outdir f first 10 9 _ after refl refl refl refl
              (omega arith));
      },
    )
