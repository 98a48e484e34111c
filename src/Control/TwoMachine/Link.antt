-- ===== src/Control/TwoMachine/Link.antt =====
-- The simulation quantum of the two machines and the delay of the wire between them.
use v_swarm_u.Base.{◌*◌, ◌<◌, ◌≡◌, ◌↔◌, Bool, true, false, arith}
use v_swarm_u.Control.TwoMachine.{ticks_per_us, link_delay_us, sim_quantum}

-- The delay of the wire is larger than the quantum exactly if the machines run under KVM. Without
-- KVM the delay is 0 and the quantum is still a millisecond.
quantum-lt-delay_iff :
    (kvm : Bool) → (sim_quantum kvm < link_delay_us kvm * ticks_per_us) ↔ (kvm ≡ true)
unfolding sim_quantum link_delay_us
quantum-lt-delay_iff true = ground arith
quantum-lt-delay_iff false = ground arith
