-- ===== src/Campaign/Tests.antt =====
-- The measurement of one function, and one that asks for too many invocations.
use v_swarm_u.Base.{String, ◌≡◌, refl, true, false, some, List, [], ◌∷◌, ◌++◌, arith}
use v_swarm_u.Base.Int.{pos}
use v_swarm_u.Control.{Args, ExitEvent}
use v_swarm_u.Control.RunSim.{main, run_script}
use v_swarm_u.CommandLine.Words.{is_dash}
use v_swarm_u.CommandLine.Simulation.{parse_run_sim}
use v_swarm_u.Campaign.{
  client_events, script_events, behind_checkpoint, setup_function, sim_function,
}
use v_swarm_u.Campaign.Launch.{sim_args}
use v_swarm_u.Campaign.Measurement.{Unmeasured, measurement-Unmeasured}
use v_swarm_u.Campaign.Log.{measurement-checked}
use v_swarm_u.Analysis.Simulations.{scan, is_done, note_command, is_end, status, succeed}
use v_swarm_u.Analysis.Simulations.Lines.{printed}
use v_swarm_u.Base.Text.{Text, codes}
use v_swarm_u.Campaign.Function.{Measured, sim_function-Measured}

abbrev first : ExitEvent
first = record { cause = "a thread reached the max instruction count"; code = pos 0 }

-- The events that are left of the guest when it goes on behind the checkpoint.
abbrev resumed : List ExitEvent
resumed = behind_checkpoint (script_events true true (run_script "aes-go"))

-- A shell that splits nothing.
abbrev whole : String → List String
whole s = s ∷ []

sim_function-Measured_example :
    (setup : Args) × (sim : Args) × (parse_run_sim (setup_function whole (some "aes-go"))
      ≡ some setup)
    × (parse_run_sim (sim_function whole (some "aes-go")) ≡ some sim)
    × Measured setup sim "m5out" "results" [] [] (first ∷ (resumed ++ []))
unfolding is_dash
sim_function-Measured_example =
    sim_function-Measured whole (some "aes-go") "m5out" "results" first [] []
      (first ∷ (resumed ++ [])) (λ s a b. refl) refl refl refl

-- 15 invocations to warm and 10 to measure are more than the client has.
abbrev too_many : Args
too_many = record (sim_args "aes-go") { atomic_warming = pos 15 }

measurement-Unmeasured_example : Unmeasured (main too_many "results" (first ∷ (resumed ++ []))) []
measurement-Unmeasured_example =
    measurement-Unmeasured too_many "results" "aes-go" first 15 9 (resumed ++ []) [] refl refl refl
      refl (omega arith)

-- The first lines of a log.
abbrev banner : List Text
banner =
    (codes "gem5 Simulator System." ++ (10 ∷ []))
    ∷ (codes "command line: gem5.opt run_sim.py" ++ (10 ∷ []))
    ∷ []

measurement-checked_example :
    let lines = banner ++ printed (main too_many "results" (first ∷ (resumed ++ []))).actions in
    (scan lines ≡ record { cmd = codes "gem5.opt run_sim.py"; success = true; count = 20 })
    × (status (scan lines) ≡ succeed)
unfolding scan is_done note_command is_end
measurement-checked_example =
    measurement-checked too_many "results" "aes-go" first 15 9 (resumed ++ []) [] banner
      (codes "gem5.opt run_sim.py") refl refl refl refl refl

-- A client without root causes no event, and one that cannot connect only the first.
no_root : client_events false true (pos 20) (pos 5000) true ≡ []
unfolding client_events
no_root = refl

not_connected :
    client_events true false (pos 20) (pos 5000) true
    ≡ record { cause = "m5_fail instruction encountered"; code = pos 20 } ∷ []
unfolding client_events
not_connected = refl
