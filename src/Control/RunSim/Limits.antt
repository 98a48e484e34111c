-- ===== src/Control/RunSim/Limits.antt =====
-- What holds of run_sim.tmpl.py over any events: the range of its counters, and how often it
-- switches the CPU and resets the statistics.
use v_swarm_u.Base.{
  ℕ, ◌+◌, ◌≤◌, ◌≡◌, List, [], ◌∷◌, arith, if◌then◌else◌, count_if, count_if-append,
}
use v_swarm_u.Base.Int.{pos, negsuc, ◌≤ℤ◌, ltb_ℤ}
use v_swarm_u.Control.{Args, ExitEvent, Counters}
use v_swarm_u.Control.Actions.{is_switch, is_reset}
use v_swarm_u.Control.RunSim.{handle, simulate}

-- The counters never fall below the -1 that stands for "nothing to do".
pub record IsValid (s : Counters) : Type 0 where
  pub warm_low : negsuc 0 ≤ℤ s.inv_to_warm
  pub measure_low : negsuc 0 ≤ℤ s.inv_to_measure

-- How the counters of a later moment compare to those of an earlier one.
pub record Falls (s t : Counters) : Type 0 where
  pub warm_falls : t.inv_to_warm ≤ℤ s.inv_to_warm
  pub measure_falls : t.inv_to_measure ≤ℤ s.inv_to_measure

handle-IsValid :
    (args : Args) (e : ExitEvent) (s : Counters) → IsValid s → IsValid (handle args e s).counters
unfolding handle
handle-IsValid args e s v = ground arith

handle-Falls : (args : Args) (e : ExitEvent) (s : Counters) → Falls s (handle args e s).counters
unfolding handle
handle-Falls args e s = ground arith

-- From valid counters, any events leave valid counters, and neither counter ever rises.
simulate-IsValid :
    (args : Args) (s : Counters) (es : List ExitEvent)
    → IsValid s
    → IsValid (simulate args s es).counters × Falls s (simulate args s es).counters
unfolding simulate
simulate-IsValid args s [] v = ground arith
simulate-IsValid args s (e ∷ es) v = ground (
  arith,
  handle-IsValid args e s v,
  handle-Falls args e s,
  simulate-IsValid args (handle args e s).counters es (handle-IsValid args e s v),
)

-- 1 while a switch back to the main CPU may still come.
abbrev may_switch : Counters → ℕ
may_switch s = if ltb_ℤ s.inv_to_warm (pos 0) then 0 else 1

handle-switches :
    (args : Args) (e : ExitEvent) (s : Counters)
    → (count_if is_switch (handle args e s).actions + may_switch (handle args e s).counters
        ≤ may_switch s)
      × (count_if is_reset (handle args e s).actions ≡ count_if is_switch (handle args e s).actions)
unfolding handle
handle-switches args e s = ground arith

-- Over any events, the loop switches back to the main CPU at most once, and not at all if the
-- count to warm is negative when it starts; it resets the statistics as often as it switches.
simulate-switches :
    (args : Args) (s : Counters) (es : List ExitEvent)
    → (count_if is_switch (simulate args s es).actions ≤ may_switch s)
      × (count_if is_reset (simulate args s es).actions
          ≡ count_if is_switch (simulate args s es).actions)
unfolding simulate
simulate-switches args s [] = ground arith
simulate-switches args s (e ∷ es) =
    let o = handle args e s in
    let rest = simulate args o.counters es in
    ground (
      arith,
      handle-switches args e s,
      simulate-switches args o.counters es,
      count_if-append is_switch o.actions rest.actions,
      count_if-append is_reset o.actions rest.actions,
    )
