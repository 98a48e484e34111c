-- ===== src/Control/RunSim/Termination.antt =====
-- How soon the main loop of run_sim.tmpl.py ends a measurement, whatever the order of the events.
use v_swarm_u.Base.{
  ℕ, ◌+◌, ◌≤◌, ◌≡◌, true, false, String, List, [], ◌∷◌, arith, if◌then◌else◌, count_if, ltb,
  Bool-cases, inl, inr,
}
use v_swarm_u.Base.Int.{pos, pos_part, ltb_ℤ}
use v_swarm_u.Control.{Args, evaluation, ExitEvent, Counters, truthy}
use v_swarm_u.Control.Actions.{is_work_end}
use v_swarm_u.Control.RunSim.{handle, simulate, main, evaluation_counters}

-- How many ends of invocations the counters leave at most: those to warm, and those to measure,
-- of which there is at least one.
abbrev ends_left : Counters → ℕ
ends_left s =
    pos_part s.inv_to_warm
    + (if ltb 0 (pos_part s.inv_to_measure) then pos_part s.inv_to_measure else 1)

handle-ends_left :
    (args : Args) (e : ExitEvent) (s : Counters)
    → args.mode ≡ evaluation
    → ltb_ℤ s.inv_to_measure (pos 0) ≡ false
    → truthy (handle args e s).result ≡ false
    → ((if is_work_end e then 1 else 0) + ends_left (handle args e s).counters ≤ ends_left s)
      × (ltb_ℤ (handle args e s).counters.inv_to_measure (pos 0) ≡ false)
unfolding handle
handle-ends_left args e s m h g = ground (arith, m, h, g)

-- From counters with a measure that is not negative, the loop ends by the last of as many ends of
-- invocations as the counters leave, whatever the order of the events.
simulate_terminates :
    (args : Args) (s : Counters) (es : List ExitEvent)
    → args.mode ≡ evaluation
    → ltb_ℤ s.inv_to_measure (pos 0) ≡ false
    → ends_left s ≤ count_if is_work_end es
    → (simulate args s es).exited ≡ true
unfolding simulate
simulate_terminates args s [] m h enough = ground (arith, h, enough)
simulate_terminates args s (e ∷ es) m h enough =
    let o = handle args e s in
    elim (Bool-cases (truthy o.result)) [
      | inl over ↦ ground (arith, over)
      | inr on ↦ ground (
        arith,
        on,
        handle-ends_left args e s m h on,
        simulate_terminates args o.counters es m,
        enough,
      )
    ]

-- In evaluation mode with `--num-invocations` n, not negative, and any `--atomic-warming` w: once the
-- events hold as many ends of invocations as there are to warm and to measure, of the latter at
-- least one, the script has ended. Any other events may stand before, between and behind them.
pub main_terminates :
    (args : Args) (outdir : String) (first : ExitEvent) (n : ℕ) (es : List ExitEvent)
    → args.mode ≡ evaluation
    → args.num_invocations ≡ pos n
    → pos_part args.atomic_warming + (if ltb 0 n then n else 1) ≤ count_if is_work_end es
    → (main args outdir (first ∷ es)).exited ≡ true
unfolding main
main_terminates args outdir first n es m h enough = ground (
  arith,
  m,
  h,
  simulate_terminates args (evaluation_counters args) es m (ground (arith, h))
      (ground (arith, h, enough)),
)
