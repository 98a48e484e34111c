-- ===== src/Control/RunSim/Phases.antt =====
-- The phases of a measurement, apart from the code: what each event may do in each of them.
pub mod Refinement
pub mod Main
pub mod Switches
mod Tests
use mathlib.Core.Path.{subst}
use v_swarm_u.Base.{
  sym, ℕ, zero, suc, ◌+◌, ◌≡◌, String, Bool, true, false, List, [], ◌∷◌, ◌++◌, arith, count_if,
  count_if-append, if◌then◌else◌,
}
use v_swarm_u.Control.{Action, testsys, switch_to_main, reset_stats, dump_stats, checkpoint}
use v_swarm_u.Control.Actions.{is_dump}

-- There are invocations to warm, one more than the second number to measure after them; there is
-- one more than the number to measure; or the measurement is over.
pub data Phase : Type 0 where
  warming : ℕ → ℕ → Phase
  measuring : ℕ → Phase
  over : Phase

-- What an event is to a measurement: the begin or the end of an invocation, the order to save a
-- checkpoint, the order to stop, or none of these.
pub data Mark : Type 0 where
  begins ends saves stops nothing : Mark

-- One event in a phase: the actions on the CPUs, the statistics and the checkpoints, and the phase
-- after it. Checkpoints go to `path`.
pub data Step (path : String) : Phase → Mark → List Action → Phase → Type 0 where
  begin_warm : {w m : ℕ} → Step path (warming (suc w) m) begins [] (warming (suc w) m)
  end_warm : {w m : ℕ} → Step path (warming (suc w) m) ends [] (warming w m)
  begin_first :
      {m : ℕ}
      → Step path (warming zero m) begins (switch_to_main testsys ∷ reset_stats ∷ []) (measuring m)
  end_unbegun : {m : ℕ} → Step path (warming zero (suc m)) ends [] (warming zero m)
  last_unbegun : Step path (warming zero zero) ends (dump_stats ∷ []) over
  begin_more : {m : ℕ} → Step path (measuring m) begins [] (measuring m)
  end_more : {m : ℕ} → Step path (measuring (suc m)) ends [] (measuring m)
  end_last : Step path (measuring zero) ends (dump_stats ∷ []) over
  saving : {p : Phase} → Step path p saves (checkpoint path ∷ []) p
  stopping : {p : Phase} → Step path p stops [] over
  idling : {p : Phase} → Step path p nothing [] p

abbrev pub is_over : Phase → Bool
is_over over = true
is_over _ = false

-- Some events, one after the other, from a phase that is not over to the first that is, or to their
-- end.
pub data Trace (path : String) : Phase → List Mark → List Action → Phase → Type 0 where
  stays : {p : Phase} → Trace path p [] [] p
  goes :
      {p q r : Phase} {k : Mark} {ks : List Mark} {acts rest : List Action}
      → is_over p ≡ false
      → Step path p k acts q
      → Trace path q ks rest r
      → Trace path p (k ∷ ks) (acts ++ rest) r

pub along :
    {path : String} {p q r : Phase} {k : Mark} {ks : List Mark} {acts rest all : List Action}
    → is_over p ≡ false
    → Step path p k acts q
    → Trace path q ks rest r
    → all ≡ acts ++ rest
    → Trace path p (k ∷ ks) all r
along {path} {p} {r = r} {k = k} {ks = ks} n step trace e =
    subst (λ acts. Trace path p (k ∷ ks) acts r) (sym e) (goes n step trace)

-- The ends of invocations that a phase waits for.
abbrev pub left : Phase → ℕ
left (warming w m) = w + suc m
left (measuring m) = suc m
left over = 0

abbrev pub is_ends : Mark → Bool
is_ends ends = true
is_ends _ = false

abbrev pub is_stops : Mark → Bool
is_stops stops = true
is_stops _ = false

-- 1 if the phase is over.
abbrev pub overs : Phase → ℕ
overs p = if is_over p then 1 else 0

Step-accounts :
    (path : String) (p q : Phase) (k : Mark) (acts : List Action)
    → Step path p k acts q
    → is_over p ≡ false
    → is_stops k ≡ false
    → ((if is_ends k then 1 else 0) + left q ≡ left p) × (count_if is_dump acts ≡ overs q)
Step-accounts path _ _ _ _ begin_warm n s = ground arith
Step-accounts path _ _ _ _ end_warm n s = ground arith
Step-accounts path _ _ _ _ begin_first n s = ground arith
Step-accounts path _ _ _ _ end_unbegun n s = ground arith
Step-accounts path _ _ _ _ last_unbegun n s = ground arith
Step-accounts path _ _ _ _ begin_more n s = ground arith
Step-accounts path _ _ _ _ end_more n s = ground arith
Step-accounts path _ _ _ _ end_last n s = ground arith
Step-accounts path p _ _ _ saving n s = ground (arith, n)
Step-accounts path p _ _ _ stopping n s = absurd cc
Step-accounts path p _ _ _ idling n s = ground (arith, n)

-- On the way to its end without an order to stop, a measurement reads as many ends of invocations as
-- it waits for, and dumps the statistics once.
pub Trace-accounts :
    (path : String) (p q : Phase) (ks : List Mark) (acts : List Action)
    → Trace path p ks acts q
    → count_if is_stops ks ≡ 0
    → (count_if is_ends ks + left q ≡ left p) × (count_if is_dump acts + overs p ≡ overs q)
Trace-accounts path p _ _ _ stays s = ground arith
Trace-accounts path p r _ _
      (goes {q = q} {k = k} {ks = ks} {acts = acts} {rest = rest} n step trace) s =
    let none_first : is_stops k ≡ false = ground (arith, s) in
    ground (
      arith,
      n,
      s,
      none_first,
      Step-accounts path p q k acts step n none_first,
      Trace-accounts path q r ks rest trace (ground (arith, s)),
      count_if-append is_dump acts rest,
    )
