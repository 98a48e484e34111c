-- ===== src/Control/RunSim/Script.antt =====
-- simulation/wkdir-tmpl/run_sim.tmpl.py: the script that the guest runs.
use v_swarm_u.Base.{String, true, List, [], ◌∷◌}
use v_swarm_u.Base.Int.{pos, negsuc}
use v_swarm_u.Base.Text.{codes}
use v_swarm_u.Control.{
  Command, m5_fail, echo, compose_up, compose_down, pin_function, sleep, test_client,
}

-- `writeRunScript`, its lines as commands. The file is `dir`/run.sh.
unfoldable pub run_script : String → List Command
run_script function_name =
    m5_fail (pos 1)
    ∷ echo (codes "Start the container...")
    ∷ compose_up function_name
    ∷ m5_fail (pos 2)
    ∷ echo (codes "Pin function container to core 1")
    ∷ pin_function 1
    ∷ sleep 5
    ∷ m5_fail (pos 3)
    ∷ m5_fail (pos 10)
    ∷ test_client function_name "localhost" (pos 20) (pos 5000) true
    ∷ m5_fail (pos 11)
    ∷ compose_down
    ∷ m5_fail (pos 6)
    ∷ m5_fail (negsuc 0)
    ∷ []
