-- ===== src/Control/TwoMachine/Root.antt =====
-- simulation/wkdir-tmpl/run_sim_two_machine.tmpl.py: the command line, and `makeDualRoot`, which
-- joins the two machines.
use v_swarm_u.Base.{ℕ, ◌*◌, ◌/◌, String, Bool, List, [], ◌∷◌, ◌++◌, if◌then◌else◌}
use v_swarm_u.Base.Text.{codes, show_ℕ}
use v_swarm_u.Control.{Args, Action, say, set_sim_quantum, link_machines, dump_ethernet, is_empty}

-- `parse_arguments`: the fields shared with run_sim.tmpl.py (its `system` is not read here), and
-- `--etherdump`.
pub record DualArgs : Type 0 where
  pub args : Args
  pub etherdump : String

-- Ticks in a second and in a microsecond: `_f` and `_us`.
abbrev ticks_per_second : ℕ
ticks_per_second = 1000000000000

abbrev pub ticks_per_us : ℕ
ticks_per_us = ticks_per_second / 1000000

-- `q` of `makeDualRoot`, in microseconds, and the quantum `sq` and the link delay that it sets.
unfoldable quantum_us : Bool → ℕ
quantum_us kvm = if kvm then 1000 else 0

unfoldable pub sim_quantum : Bool → ℕ
sim_quantum kvm = 1000 * ticks_per_us

unfoldable pub link_delay_us : Bool → ℕ
unfolding quantum_us
link_delay_us kvm = 2 * quantum_us kvm

unfoldable pub make_dual_root : DualArgs → Bool → List Action
unfolding quantum_us sim_quantum link_delay_us
make_dual_root d kvm =
    say (
      codes "Tick freq = "
      ++ (show_ℕ ticks_per_second
          ++ (codes " ticks/sec. Set sim quantum to "
              ++ (show_ℕ (sim_quantum kvm)
                  ++ (codes " ticks/sec => " ++ (show_ℕ (quantum_us kvm) ++ (181 ∷ codes "s")))))))
    ∷ set_sim_quantum (sim_quantum kvm)
    ∷ link_machines (link_delay_us kvm)
    ∷ (if is_empty d.etherdump then [] else dump_ethernet d.etherdump ∷ [])
