-- ===== src/Control/RunTest/Laws.antt =====
-- How the test script ends.
use v_swarm_u.Base.{
  ◌≡◌, Bool, true, false, Option, none, some, List, [], ◌∷◌, count_if, if◌then◌else◌, arith,
  count_if-append, String,
}
use v_swarm_u.Base.Int.{ℤ, pos, negsuc, eqb_ℤ}
use v_swarm_u.Control.{ExitEvent, Action, reset_stats, dump_stats, fail_kind, interrupt_kind, kind}
use v_swarm_u.Control.RunTest.{Ending, exited, no_attribute, execute_m5_fail_code, handle, simulate}

-- How a failure code ends the script.
abbrev ending_for : ℤ → Option Ending
ending_for code =
    if eqb_ℤ code (pos 10)
    then some (no_attribute "switchToDetailedCpus")
    else if eqb_ℤ code (pos 11)
    then some (no_attribute "switchToKvmCpus")
    else if eqb_ℤ code (negsuc 0)
    then some (exited 0)
    else none

-- The first event that ends the script decides how.
abbrev ending_of : ExitEvent → Option Ending
ending_of e = elim (kind e.cause) [
  | fail_kind ↦ ending_for e.code
  | interrupt_kind ↦ some (exited 1)
  | _ ↦ none
]

abbrev first_ending : List ExitEvent → Option Ending
first_ending [] = none
first_ending (e ∷ es) =
    let rest = first_ending es in elim (ending_of e) [ none ↦ rest | some end ↦ some end ]

abbrev pub is_stats : Action → Bool
is_stats reset_stats = true
is_stats dump_stats = true
is_stats _ = false

module _ (inherited : String → Bool) where
  fail-ending :
      (code : ℤ)
      → inherited "switchToDetailedCpus" ≡ false
      → inherited "switchToKvmCpus" ≡ false
      → let o = execute_m5_fail_code inherited code in
        (o.ending ≡ ending_for code) × (count_if is_stats o.actions ≡ 0)
  unfolding execute_m5_fail_code
  fail-ending code d k = ground (arith, d, k)

  handle-ending :
      (e : ExitEvent)
      → inherited "switchToDetailedCpus" ≡ false
      → inherited "switchToKvmCpus" ≡ false
      → ((handle inherited e).ending ≡ ending_of e)
        × (count_if is_stats (handle inherited e).actions ≡ 0)
  unfolding handle
  handle-ending e d k = ground (arith, fail-ending e.code d k)

  -- If gem5's System has neither of the two methods that the script calls, then over any events it
  -- ends with the first that is a code 10 or 11, and then with an AttributeError, a code -1, and then
  -- with 0, or a user interrupt, and then with 1; and it never resets or dumps the statistics.
  pub simulate-ending :
      (es : List ExitEvent)
      → inherited "switchToDetailedCpus" ≡ false
      → inherited "switchToKvmCpus" ≡ false
      → ((simulate inherited es).ending ≡ first_ending es)
        × (count_if is_stats (simulate inherited es).actions ≡ 0)
  unfolding simulate
  simulate-ending [] d k = ground arith
  simulate-ending (e ∷ es) d k = ground (
    arith,
    handle-ending e d k,
    simulate-ending es d k,
    count_if-append is_stats (handle inherited e).actions (simulate inherited es).actions,
  )
