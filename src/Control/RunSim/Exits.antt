-- ===== src/Control/RunSim/Exits.antt =====
-- When the main loop of run_sim.tmpl.py ends.
use v_swarm_u.Base.{◌≡◌, Bool, true, false, not, ◌&&◌, ◌||◌, arith}
use v_swarm_u.Base.Int.{pos, negsuc, eqb_ℤ}
use v_swarm_u.Control.{
  Args, Mode, is_evaluation, ExitEvent, Counters, kind, fail_kind, end_kind, interrupt_kind, Kind,
  truthy,
}
use v_swarm_u.Control.RunSim.{handle}
use v_swarm_u.Base.Int.{ltb_ℤ, ℤ}

-- Whether an event of each kind ends the loop, for the counters that it meets.
abbrev ends_kind : Kind → Mode → ℤ → Counters → Bool
ends_kind fail_kind mode code s = eqb_ℤ code (negsuc 0)
ends_kind end_kind mode code s =
    is_evaluation mode
    && (not (ltb_ℤ (pos 0) s.inv_to_warm)
        && (eqb_ℤ s.inv_to_measure (pos 0) || eqb_ℤ s.inv_to_measure (pos 1)))
ends_kind interrupt_kind mode code s = true
ends_kind _ mode code s = false

abbrev pub ends : Args → ExitEvent → Counters → Bool
ends args e s = ends_kind (kind e.cause) args.mode e.code s

pub handle-ends :
    (args : Args) (e : ExitEvent) (s : Counters) → truthy (handle args e s).result ≡ ends args e s
unfolding handle
handle-ends args e s = ground arith
