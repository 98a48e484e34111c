-- ===== src/Control/RunSim/Phases/Refinement.antt =====
-- run_sim.tmpl.py goes through the phases of a measurement.
use mathlib.Core.Path.{subst}
use mathlib.Core.List.{append-nil}
use v_swarm_u.Base.{
  zero, suc, ◌≡◌, refl, String, true, false, List, [], ◌∷◌, ◌++◌, arith, ap, ◌∙◌, ◌==◌, ==_iff, sym,
  if◌then◌else◌, Bool-cases, inl, inr, select, select-append, map,
}
use v_swarm_u.Base.Int.{ℤ, pos, negsuc, eqb_ℤ}
use v_swarm_u.Control.{
  Args, evaluation, ExitEvent, Counters, Outcome, Run, Action, Kind, fail_kind, begin_kind,
  end_kind, interrupt_kind, other_kind, kind, truthy,
}
use v_swarm_u.Control.Actions.{is_control}
use v_swarm_u.Control.RunSim.{handle, simulate, workitem, execute_m5_fail_code, checkpoint_path}
use v_swarm_u.Control.RunSim.Phases.{
  Phase, warming, measuring, over, Mark, begins, ends, saves, stops, nothing, Step, begin_warm,
  end_warm, begin_first, end_unbegun, last_unbegun, begin_more, end_more, end_last, saving,
  stopping, idling, Trace, stays, goes, along, is_over,
}

-- The counters of a phase.
abbrev pub Stands : Counters → Phase → Type 0
Stands s (warming w m) = s ≡ record { inv_to_warm = pos w; inv_to_measure = pos (suc m) }
Stands s (measuring m) = s ≡ record { inv_to_warm = negsuc 0; inv_to_measure = pos (suc m) }
Stands s over = Unit

-- What the exit events are to a measurement.
abbrev mark_of : Kind → ℤ → Mark
mark_of fail_kind code =
    if eqb_ℤ code (pos 32) then saves else if eqb_ℤ code (negsuc 0) then stops else nothing
mark_of begin_kind code = begins
mark_of end_kind code = ends
mark_of interrupt_kind code = stops
mark_of other_kind code = nothing

abbrev pub mark : ExitEvent → Mark
mark e = mark_of (kind e.cause) e.code

-- An outcome is that of a step.
record Follows (path : String) (p : Phase) (k : Mark) (o : Outcome) : Type 0 where
  pub next : Phase
  pub acts : List Action
  pub step : Step path p k acts next
  pub acted : select is_control o.actions ≡ acts
  pub stands : Stands o.counters next
  pub ended : truthy o.result ≡ is_over next

follows :
    {path : String} {p next : Phase} {k : Mark} {acts : List Action} {o : Outcome}
    → Step path p k acts next
    → (select is_control o.actions ≡ acts)
      × (Stands o.counters next)
      × (truthy o.result ≡ is_over next)
    → Follows path p k o
follows {next = next} {acts = acts} st (a, b, c) = record {
  next = next;
  acts = acts;
  step = st;
  acted = a;
  stands = b;
  ended = c;
}

begin-Follows :
    (args : Args) (path : String) (c : ℤ) (s : Counters) (p : Phase)
    → args.mode ≡ evaluation
    → Stands s p
    → is_over p ≡ false
    → Follows path p begins (workitem args true c s)
unfolding workitem
begin-Follows args path c s (warming zero m) ev h n = follows begin_first (ground (arith, ev, h))
begin-Follows args path c s (warming (suc w) m) ev h n = follows begin_warm (ground (arith, ev, h))
begin-Follows args path c s (measuring m) ev h n = follows begin_more (ground (arith, ev, h))
begin-Follows args path c s over ev h n = absurd cc

end-Follows :
    (args : Args) (path : String) (c : ℤ) (s : Counters) (p : Phase)
    → args.mode ≡ evaluation
    → Stands s p
    → is_over p ≡ false
    → Follows path p ends (workitem args false c s)
unfolding workitem
end-Follows args path c s (warming zero zero) ev h n = follows last_unbegun (ground (arith, ev, h))
end-Follows args path c s (warming zero (suc m)) ev h n =
    follows end_unbegun (ground (arith, ev, h))
end-Follows args path c s (warming (suc w) m) ev h n = follows end_warm (ground (arith, ev, h))
end-Follows args path c s (measuring zero) ev h n = follows end_last (ground (arith, ev, h))
end-Follows args path c s (measuring (suc m)) ev h n = follows end_more (ground (arith, ev, h))
end-Follows args path c s over ev h n = absurd cc

save-Follows :
    (args : Args) (s : Counters) (p : Phase)
    → Stands s p
    → is_over p ≡ false
    → Follows (checkpoint_path args "warm") p saves (execute_m5_fail_code args (pos 32) s)
unfolding execute_m5_fail_code
save-Follows args s p h n = follows saving (refl, h, sym n)

stop-Follows :
    (args : Args) (path : String) (s : Counters) (p : Phase)
    → Follows path p stops (execute_m5_fail_code args (negsuc 0) s)
unfolding execute_m5_fail_code
stop-Follows args path s p = follows stopping (refl, tt, refl)

other_code :
    (args : Args) (code : ℤ) (s : Counters)
    → eqb_ℤ code (pos 32) ≡ false
    → eqb_ℤ code (negsuc 0) ≡ false
    → let o = execute_m5_fail_code args code s in
      (select is_control o.actions ≡ []) × (o.counters ≡ s) × (truthy o.result ≡ false)
unfolding execute_m5_fail_code
other_code args code s a b = ground (arith, a, b)

other-Follows :
    (args : Args) (path : String) (code : ℤ) (s : Counters) (p : Phase)
    → Stands s p
    → is_over p ≡ false
    → eqb_ℤ code (pos 32) ≡ false
    → eqb_ℤ code (negsuc 0) ≡ false
    → Follows path p (mark_of fail_kind code) (execute_m5_fail_code args code s)
other-Follows args path code s p h n a b =
    let (acted, same, going) = other_code args code s a b in
    rw (a, b) (follows idling (acted, subst (λ t. Stands t p) (sym same) h, going ∙ sym n))

fail-Follows :
    (args : Args) (code : ℤ) (s : Counters) (p : Phase)
    → Stands s p
    → is_over p ≡ false
    → Follows
        (checkpoint_path args "warm")
        p
        (mark_of fail_kind code)
        (execute_m5_fail_code args code s)
fail-Follows args (negsuc zero) s p h n = stop-Follows args (checkpoint_path args "warm") s p
fail-Follows args (negsuc (suc c)) s p h n =
    other-Follows args (checkpoint_path args "warm") (negsuc (suc c)) s p h n refl (ground arith)
fail-Follows args (pos c) s p h n = elim (Bool-cases (c == 32)) [
  | inl same ↦ rw ((==_iff c 32).0 same) (save-Follows args s p h n)
  | inr other ↦
      other-Follows args (checkpoint_path args "warm") (pos c) s p h n (ground arith) (ground arith)
]

kind-Follows :
    (args : Args) (e : ExitEvent) (s : Counters) (p : Phase) (k : Kind)
    → args.mode ≡ evaluation
    → Stands s p
    → is_over p ≡ false
    → kind e.cause ≡ k
    → Follows (checkpoint_path args "warm") p (mark e) (handle args e s)
unfolding handle
kind-Follows args e s p fail_kind ev h n k = rw (k, handle) (fail-Follows args e.code s p h n)
kind-Follows args e s p begin_kind ev h n k =
    rw (k, handle) (begin-Follows args _ e.code s p ev h n)
kind-Follows args e s p end_kind ev h n k = rw (k, handle) (end-Follows args _ e.code s p ev h n)
kind-Follows args e s p interrupt_kind ev h n k = rw (k, handle) (follows stopping (refl, tt, refl))
kind-Follows args e s p other_kind ev h n k = rw (k, handle) (follows idling (refl, h, sym n))

-- A run that does the actions `before` and then goes through phases: it has read the events whose
-- marks the phases are for.
pub record Refines (path : String) (before : List Action) (p : Phase) (r : Run)
    (es : List ExitEvent) : Type 0 where
  pub read : List ExitEvent
  pub acts : List Action
  pub last : Phase
  pub split : es ≡ read ++ r.unread
  pub trace : Trace path p (map mark read) acts last
  pub controlled : select is_control r.actions ≡ before ++ acts
  pub ended : r.exited ≡ is_over last

pub simulate-Refines :
    (args : Args) (s : Counters) (p : Phase) (es : List ExitEvent)
    → args.mode ≡ evaluation
    → Stands s p
    → is_over p ≡ false
    → Refines (checkpoint_path args "warm") [] p (simulate args s es) es
unfolding simulate
simulate-Refines args s p [] ev h n = record {
  read = [];
  acts = [];
  last = p;
  split = refl;
  trace = stays;
  controlled = refl;
  ended = sym n;
}
simulate-Refines args s p (e ∷ es) ev h n =
    let o = handle args e s in
    let f = kind-Follows args e s p (kind e.cause) ev h n refl in
    elim (Bool-cases (truthy o.result)) [
      | inl stop ↦ rw stop (record {
        read = e ∷ [];
        acts = f.acts;
        last = f.next;
        split = refl;
        trace = along n f.step stays (sym (append-nil f.acts));
        controlled = f.acted;
        ended = sym stop ∙ f.ended;
      })
      | inr go ↦
          let later = simulate args o.counters es in
          let more = simulate-Refines args o.counters f.next es ev f.stands (sym f.ended ∙ go) in
          rw go (record {
            read = e ∷ more.read;
            acts = f.acts ++ more.acts;
            last = more.last;
            split = ap (λ rest. e ∷ rest) more.split;
            trace = goes n f.step more.trace;
            controlled =
                select-append is_control o.actions later.actions ∙ rw (f.acted, more.controlled);
            ended = more.ended;
          })
    ]
