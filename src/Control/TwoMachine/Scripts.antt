-- ===== src/Control/TwoMachine/Scripts.antt =====
-- simulation/wkdir-tmpl/run_sim_two_machine.tmpl.py: the scripts that the two guests run.
use v_swarm_u.Base.{ℕ, String, true, List, [], ◌∷◌, ◌++◌}
use v_swarm_u.Base.Int.{pos, negsuc}
use v_swarm_u.Base.Text.{codes, show_ℕ}
use v_swarm_u.Control.{
  Command, m5_exit, m5_fail, echo, ifconfig, ifconfig_up, compose_up, pin_function, sleep,
  test_client,
}

-- `writeRunScript`, for the machine that runs the function
unfoldable pub run_script : String → ℕ → List Command
run_script function cpu =
    m5_fail (pos 1)
    ∷ echo (codes "Config: enp0s2 with ipaddress 10.0.2.17 ")
    ∷ ifconfig "enp0s2" "10.0.2.17"
    ∷ echo (codes "Start the container...")
    ∷ compose_up function
    ∷ m5_fail (pos 2)
    ∷ echo (codes "Pin function container to core " ++ show_ℕ cpu)
    ∷ pin_function cpu
    ∷ sleep 5
    ∷ m5_fail (pos 3)
    ∷ echo (codes "Container is running. Turn on network IF enp0s2")
    ∷ ifconfig_up "enp0s2"
    ∷ []

-- `writeDriveScript`, for the machine that runs the client
unfoldable pub drive_script : String → List Command
drive_script function =
    echo (10 ∷ codes "Execute m5 exit to indicate boot complete")
    ∷ m5_exit
    ∷ echo (codes "Config: enp0s2 with ipaddress 10.0.2.18 ")
    ∷ ifconfig "enp0s2" "10.0.2.18"
    ∷ ifconfig_up "enp0s2"
    ∷ m5_fail (pos 10)
    ∷ test_client function "10.0.2.17" (pos 50) (pos 20000) true
    ∷ m5_fail (pos 11)
    ∷ m5_fail (negsuc 0)
    ∷ []
