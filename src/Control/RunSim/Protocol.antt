-- ===== src/Control/RunSim/Protocol.antt =====
-- The warming and measuring of `workitem` under the loop of `simulate`.
use v_swarm_u.Base.{
  ℕ, zero, suc, ◌+◌, ◌≡◌, true, List, [], ◌∷◌, ◌++◌, arith, length, select, select-append, String,
}
use v_swarm_u.Base.Int.{ℤ, pos, negsuc}
use v_swarm_u.Control.{
  Args, evaluation, ExitEvent, Action, testsys, switch_to_main, switch_to_atomic, reset_stats,
  dump_stats, Counters, Run, kind,
}
use v_swarm_u.Control.Actions.{is_control}
use v_swarm_u.Control.RunSim.{
  handle, simulate, main, evaluate, prepare, evaluation_counters, warming_actions,
}

-- An event of the work item that begins or ends an invocation.
abbrev pub begin_event : ℤ → ExitEvent
begin_event c = record { cause = "workbegin"; code = c }

abbrev pub end_event : ℤ → ExitEvent
end_event c = record { cause = "workend"; code = c }

-- The events of complete invocations, one after the other.
abbrev pub invocations : List ℤ → List ExitEvent
invocations [] = []
invocations (c ∷ cs) = begin_event c ∷ end_event c ∷ invocations cs

abbrev control : Run → List Action
control r = select is_control r.actions

-- The loop has ended by itself with `rest` unread, and has asked for these actions.
pub record Finished (r : Run) (actions : List Action) (rest : List ExitEvent) : Type 0 where
  pub controlled : control r ≡ actions
  pub ended : r.exited ≡ true
  pub left : r.unread ≡ rest

abbrev pub at : ℤ → ℤ → Counters
at w m = record { inv_to_warm = w; inv_to_measure = m }

module _ (args : Args) (evaluating : args.mode ≡ evaluation) where
  -- One invocation under the loop: what it does with the counters, and to the run.
  measure_one :
      (n : ℕ) (c : ℤ) (es : List ExitEvent) (acts : List Action) (rest : List ExitEvent)
      → Finished (simulate args (at (negsuc 0) (pos (suc n))) es) acts rest
      → Finished
          (simulate args (at (negsuc 0) (pos (suc (suc n)))) (begin_event c ∷ end_event c ∷ es))
          acts
          rest
  unfolding simulate handle kind
  measure_one n c es acts rest h = ground arith

  measure_last :
      (c : ℤ) (es : List ExitEvent)
      → Finished
          (simulate args (at (negsuc 0) (pos 1)) (begin_event c ∷ end_event c ∷ es))
          (dump_stats ∷ [])
          es
  unfolding simulate handle kind
  measure_last c es = ground arith

  warm_one :
      (w n : ℕ) (c : ℤ) (es : List ExitEvent) (acts : List Action) (rest : List ExitEvent)
      → Finished (simulate args (at (pos w) (pos n)) es) acts rest
      → Finished
          (simulate args (at (pos (suc w)) (pos n)) (begin_event c ∷ end_event c ∷ es))
          acts
          rest
  unfolding simulate handle kind
  warm_one w n c es acts rest h = ground arith

  start_measuring :
      (n : ℕ) (c : ℤ) (es : List ExitEvent) (acts : List Action) (rest : List ExitEvent)
      → Finished (simulate args (at (negsuc 0) (pos (suc n))) (begin_event c ∷ es)) acts rest
      → Finished
          (simulate args (at (pos 0) (pos (suc n))) (begin_event c ∷ es))
          (switch_to_main testsys ∷ reset_stats ∷ acts)
          rest
  unfolding simulate handle kind
  start_measuring n c es acts rest h = ground arith

  measuring :
      (n : ℕ) (cs : List ℤ) (rest : List ExitEvent)
      → length cs ≡ suc n
      → Finished
          (simulate args (at (negsuc 0) (pos (suc n))) (invocations cs ++ rest))
          (dump_stats ∷ [])
          rest
  measuring n [] rest h = absurd (omega arith)
  measuring zero (c ∷ []) rest h = measure_last c rest
  measuring (suc n) (c ∷ []) rest h = absurd (omega arith)
  measuring zero (c ∷ d ∷ cs) rest h = absurd (omega arith)
  measuring (suc n) (c ∷ d ∷ cs) rest h =
      measure_one n c (invocations (d ∷ cs) ++ rest) _ rest
        (measuring n (d ∷ cs) rest (omega arith))

  warming :
      (w n : ℕ) (cs : List ℤ) (rest : List ExitEvent)
      → length cs ≡ w + suc n
      → Finished
          (simulate args (at (pos w) (pos (suc n))) (invocations cs ++ rest))
          (switch_to_main testsys ∷ reset_stats ∷ dump_stats ∷ [])
          rest
  warming w n [] rest h = absurd (omega arith)
  warming zero n (c ∷ cs) rest h =
      start_measuring n c (end_event c ∷ (invocations cs ++ rest)) _ rest
        (measuring n (c ∷ cs) rest (omega arith))
  warming (suc w) n (c ∷ cs) rest h =
      warm_one w (suc n) c (invocations cs ++ rest) _ rest (warming w n cs rest (omega arith))

-- The actions of an evaluation that warms `w` invocations.
abbrev pub protocol : ℕ → List Action
protocol zero = dump_stats ∷ []
protocol (suc w) = switch_to_atomic testsys ∷ switch_to_main testsys ∷ reset_stats ∷ dump_stats ∷ []

-- What the loop adds to the switch to the atomic CPU, and the counter that it starts from.
abbrev after_warming : ℕ → List Action
after_warming zero = dump_stats ∷ []
after_warming (suc w) = switch_to_main testsys ∷ reset_stats ∷ dump_stats ∷ []

abbrev start_count : ℕ → ℤ
start_count zero = negsuc 0
start_count (suc w) = pos (suc w)

pub control-prepare : (args : Args) (outdir : String) → select is_control (prepare args outdir) ≡ []
unfolding prepare
control-prepare args outdir = ground arith

main-simulate :
    (args : Args) (outdir : String) (first : ExitEvent) (events rest : List ExitEvent)
    (acts : List Action)
    → args.mode ≡ evaluation
    → Finished (simulate args (evaluation_counters args) events) acts rest
    → Finished
        (main args outdir (first ∷ events))
        (warming_actions args.atomic_warming ++ acts)
        rest
unfolding main evaluate
main-simulate args outdir first events rest acts m h =
    ground (arith, select-append is_control (prepare args outdir), control-prepare args outdir)

pub evaluation_counters-at :
    (args : Args) (w n : ℕ)
    → args.atomic_warming ≡ pos w
    → args.num_invocations ≡ pos (suc n)
    → evaluation_counters args ≡ at (start_count w) (pos (suc n))
evaluation_counters-at args zero n hw hn = ground arith
evaluation_counters-at args (suc w) n hw hn = ground arith

warming_actions-protocol :
    (args : Args) (w : ℕ)
    → args.atomic_warming ≡ pos w
    → warming_actions args.atomic_warming ++ after_warming w ≡ protocol w
warming_actions-protocol args zero hw = rw hw
warming_actions-protocol args (suc w) hw = ground arith

evaluated :
    (args : Args) (w n : ℕ) (cs : List ℤ) (rest : List ExitEvent)
    → args.mode ≡ evaluation
    → length cs ≡ w + suc n
    → Finished
        (simulate args (at (start_count w) (pos (suc n))) (invocations cs ++ rest))
        (after_warming w)
        rest
evaluated args zero n cs rest m h = measuring args m n cs rest (omega arith)
evaluated args (suc w) n cs rest m h = warming args m (suc w) n cs rest h

-- In evaluation mode with `--atomic-warming w` and a positive `--num-invocations n`, for any event
-- that ends the first call of `m5.simulate()` and any w + n complete invocations after it, the
-- script ends by itself right after the last of them, with all later events unread. It has switched
-- to the atomic CPU and back and reset the statistics once if w is positive, and not at all if w is
-- 0, and it has dumped the statistics once, as its last such action; it has taken no checkpoint.
pub main-Finished :
    (args : Args) (outdir : String) (first : ExitEvent) (w n : ℕ) (cs : List ℤ)
    (rest : List ExitEvent)
    → args.mode ≡ evaluation
    → args.atomic_warming ≡ pos w
    → args.num_invocations ≡ pos (suc n)
    → length cs ≡ w + suc n
    → Finished (main args outdir (first ∷ (invocations cs ++ rest))) (protocol w) rest
main-Finished args outdir first w n cs rest m hw hn h = rw (← warming_actions-protocol args w hw) (
    main-simulate args outdir first _ rest _ m
      (rw (evaluation_counters-at args w n hw hn) (evaluated args w n cs rest m h)))
