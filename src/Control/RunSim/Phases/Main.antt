-- ===== src/Control/RunSim/Phases/Main.antt =====
-- The main block of run_sim.tmpl.py goes through the phases of a measurement.
use v_swarm_u.Base.{
  ℕ, zero, suc, ◌+◌, ◌≡◌, refl, String, Bool, false, List, [], ◌∷◌, ◌++◌, arith, ap, ◌∙◌, sym,
  if◌then◌else◌, Bool-cases, inl, inr, select, select-append, map, count_if, count_if-append, leb,
  ltb,
}
use v_swarm_u.Base.Int.{ℤ, pos}
use v_swarm_u.Control.{Args, evaluation, ExitEvent, Counters, Action, Run}
use v_swarm_u.Control.Actions.{is_control, is_dump}
use v_swarm_u.Control.RunSim.{
  handle, simulate, main, prepare, evaluate, evaluation_counters, warming_actions, checkpoint_path,
}
use v_swarm_u.Control.RunSim.Protocol.{control-prepare, evaluation_counters-at}
use v_swarm_u.Control.RunSim.Phases.{
  Phase, Mark, warming, measuring, over, is_over, left, is_ends, is_stops, overs, Trace-accounts,
}
use v_swarm_u.Control.RunSim.Phases.Refinement.{mark, Stands, Refines, simulate-Refines}

-- The phase that a measurement starts in, with `w` invocations to warm and `n` + 1 to measure.
abbrev pub start : ℕ → ℕ → Phase
start zero n = measuring n
start (suc w) n = warming (suc w) n

start-Stands :
    (args : Args) (w n : ℕ)
    → args.atomic_warming ≡ pos w
    → args.num_invocations ≡ pos (suc n)
    → Stands (evaluation_counters args) (start w n)
start-Stands args zero n hw hn = evaluation_counters-at args zero n hw hn
start-Stands args (suc w) n hw hn = evaluation_counters-at args (suc w) n hw hn

not_over : (w n : ℕ) → is_over (start w n) ≡ false
not_over zero n = refl
not_over (suc w) n = refl

main_run :
    (args : Args) (outdir : String) (first : ExitEvent) (es : List ExitEvent)
    → args.mode ≡ evaluation
    → let r = main args outdir (first ∷ es) in
      let loop = simulate args (evaluation_counters args) es in
      (r.exited ≡ loop.exited)
      × (r.unread ≡ loop.unread)
      × (select is_control r.actions
          ≡ warming_actions args.atomic_warming ++ select is_control loop.actions)
unfolding main evaluate
main_run args outdir first es m =
    ground (arith, m, select-append is_control (prepare args outdir), control-prepare args outdir)

-- In evaluation mode with `--atomic-warming` w and `--num-invocations` n + 1, for any event that ends
-- the first call of `m5.simulate()` and any events after it: what the script asks for of the CPUs,
-- the statistics and the checkpoints is a switch to the atomic CPU if w is positive, and then what
-- the phases of a measurement, from `start w n` on, do at the marks of the events that the script has
-- read, with its checkpoints at the path of the one named "warm"; the script has ended exactly if the
-- last phase is `over`.
pub main-Refines :
    (args : Args) (outdir : String) (first : ExitEvent) (w n : ℕ) (es : List ExitEvent)
    → args.mode ≡ evaluation
    → args.atomic_warming ≡ pos w
    → args.num_invocations ≡ pos (suc n)
    → Refines
        (checkpoint_path args "warm")
        (warming_actions (pos w))
        (start w n)
        (main args outdir (first ∷ es))
        es
main-Refines args outdir first w n es m hw hn =
    let (exits, unread, controls) = main_run args outdir first es m in
    let loop =
      simulate-Refines args (evaluation_counters args) (start w n) es m
        (start-Stands args w n hw hn) (not_over w n) in
    record {
      read = loop.read;
      acts = loop.acts;
      last = loop.last;
      split = rw unread loop.split;
      trace = loop.trace;
      controlled =
          controls
          ∙ (ap (λ acts. warming_actions args.atomic_warming ++ acts) loop.controlled
              ∙ ap (λ k. warming_actions k ++ loop.acts) hw);
      ended = exits ∙ loop.ended;
    }

abbrev pub is_end : ExitEvent → Bool
is_end e = is_ends (mark e)

abbrev is_stop : ExitEvent → Bool
is_stop e = is_stops (mark e)

count_if-map :
    (p : Mark → Bool) (es : List ExitEvent)
    → count_if p (map mark es) ≡ count_if (λ e. p (mark e)) es
count_if-map p [] = refl
count_if-map p (e ∷ es) = ground (arith, count_if-map p es)

dumps-control :
    (acts : List Action) → count_if is_dump (select is_control acts) ≡ count_if is_dump acts
dumps-control [] = refl
dumps-control (a ∷ acts) = ground (arith, dumps-control acts)

-- A loop that has not ended has read everything.
waits :
    (args : Args) (s : Counters) (es : List ExitEvent)
    → (simulate args s es).exited ≡ false
    → (simulate args s es).unread ≡ []
unfolding simulate
waits args s [] h = refl
waits args s (e ∷ es) h = ground (arith, h, waits args (handle args e s).counters es)

dumps-warming : (n : ℤ) → count_if is_dump (warming_actions n) ≡ 0
dumps-warming n = ground arith

-- What a run has read and dumped, if no event orders it to stop.
accounts :
    (path : String) (n : ℤ) (p : Phase) (r : Run) (es : List ExitEvent)
    → Refines path (warming_actions n) p r es
    → is_over p ≡ false
    → count_if is_stop es ≡ 0
    → (last : Phase) × (read : List ExitEvent) × (count_if is_end es
        ≡ count_if is_end read + count_if is_end r.unread)
      × (count_if is_end read + left last ≡ left p)
      × (count_if is_dump r.actions ≡ overs last)
      × (r.exited ≡ is_over last)
accounts path n p r es f h s =
    let cut : count_if is_stop es ≡ count_if is_stop f.read + count_if is_stop r.unread =
      ap (count_if is_stop) f.split ∙ count_if-append is_stop f.read r.unread in
    let none_read : count_if is_stop f.read ≡ 0 = omega (arith, s, cut) in
    let (ends_read, dumped) =
      Trace-accounts path p f.last (map mark f.read) f.acts f.trace
        (count_if-map is_stops f.read ∙ none_read) in
    (
      f.last,
      f.read,
      ap (count_if is_end) f.split ∙ count_if-append is_end f.read r.unread,
      ground (arith, ends_read, count_if-map is_ends f.read),
      ground (
        arith,
        h,
        dumped,
        dumps-control r.actions,
        ap (count_if is_dump) f.controlled,
        count_if-append is_dump (warming_actions n) f.acts,
        dumps-warming n,
      ),
      f.ended,
    )

left-over : (p : Phase) → is_over p ≡ ltb (left p) 1
left-over (warming w m) = ground arith
left-over (measuring m) = ground arith
left-over over = refl

left-start : (w n : ℕ) → left (start w n) ≡ w + suc n
left-start zero n = omega arith
left-start (suc w) n = refl

-- In evaluation mode with `--atomic-warming` w and `--num-invocations` n + 1, over any events without
-- a failure code -1 and without a user interrupt: the script has ended by itself exactly if there are
-- at least w + n + 1 ends of invocations among them, and it has dumped the statistics once if it has
-- ended, and else not at all.
pub main-accounts :
    (args : Args) (outdir : String) (first : ExitEvent) (w n : ℕ) (es : List ExitEvent)
    → args.mode ≡ evaluation
    → args.atomic_warming ≡ pos w
    → args.num_invocations ≡ pos (suc n)
    → count_if is_stop es ≡ 0
    → let r = main args outdir (first ∷ es) in
      (r.exited ≡ leb (w + suc n) (count_if is_end es))
      × (count_if is_dump r.actions ≡ (if r.exited then 1 else 0))
main-accounts args outdir first w n es m hw hn s =
    let r = main args outdir (first ∷ es) in
    let (exits, unread, controls) = main_run args outdir first es m in
    let (last, read, total, taken, dumped, ended) =
      accounts (checkpoint_path args "warm") (pos w) (start w n) r es
        (main-Refines args outdir first w n es m hw hn) (not_over w n) s in
    elim (Bool-cases (is_over last)) [
      | inl stopped ↦
          ground (arith, stopped, total, taken, dumped, ended, left-over last, left-start w n)
      | inr going ↦
          let all_read : r.unread ≡ [] =
            unread ∙ waits args (evaluation_counters args) es (sym exits ∙ (ended ∙ going)) in
          let none_left : count_if is_end r.unread ≡ 0 = ap (count_if is_end) all_read in
          ground
            (arith, going, none_left, total, taken, dumped, ended, left-over last, left-start w n)
    ]
