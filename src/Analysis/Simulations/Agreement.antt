-- ===== src/Analysis/Simulations/Agreement.antt =====
-- What analysis/check_simulations.py makes of the output of the simulation scripts.
use v_swarm_u.Base.{
  ap, ◌∙◌, ℕ, ◌+◌, ◌≡◌, refl, true, false, List, [], ◌∷◌, ◌++◌, arith, if◌then◌else◌, count_if,
  Bool-cases, inl, inr, length,
}
use mathlib.Core.List.{append_assoc, append-nil}
use v_swarm_u.Base.Text.{Text, codes}
use v_swarm_u.Control.{
  Args, evaluation, ExitEvent, kind, Action, say, Counters, Run, truthy, pr_green, testsys,
  drivesys, switch_to_main,
}
use v_swarm_u.Control.Actions.{is_work_end}
use v_swarm_u.Control.RunSim
use v_swarm_u.Control.TwoMachine
use v_swarm_u.Control.TwoMachine.Refinement.{simulate-both_run, both}
use v_swarm_u.Control.RunSim.Checkpoints.{events_read, take_front, take_one, unread-le}
use v_swarm_u.Analysis.Simulations.{
  Scan, scan_start, is_done, is_end, note_command, scan_lines, scan,
}
use v_swarm_u.Analysis.Simulations.Lines.{
  printed, is_work, AllWork, const_lines, counted, handle-scan, printed-append,
}

-- The ends of invocations among the events that a run has read.
abbrev pub ends_read : Run → List ExitEvent → ℕ
ends_read r es = count_if is_work_end (events_read r es)

-- A work item after which the loop goes on.
pub scan_go :
    (args : Args) (e : ExitEvent) (s : Counters) (es : List ExitEvent) (sc : Scan)
    (rest : List Text)
    → args.mode ≡ evaluation
    → is_work (kind e.cause) ≡ true
    → truthy (RunSim.handle args e s).result ≡ false
    → scan_lines sc (printed (RunSim.simulate args s (e ∷ es)).actions ++ rest)
      ≡ scan_lines
          (counted e sc)
          (printed (RunSim.simulate args (RunSim.handle args e s).counters es).actions ++ rest)
unfolding RunSim.simulate
scan_go args e s es sc rest m w go =
    let o = RunSim.handle args e s in
    let later = RunSim.simulate args o.counters es in
    rw go (
      ground (
        arith,
        const_lines sc (printed o.actions ++ (printed later.actions ++ rest)),
        handle-scan args e s sc (printed later.actions ++ rest) m w,
        printed-append o.actions later.actions,
        append_assoc (printed o.actions) (printed later.actions) rest,
      ))

reads :
    (args : Args) (e : ExitEvent) (s : Counters) (es : List ExitEvent) (sc : Scan)
    → truthy (RunSim.handle args e s).result ≡ false
    → let o = RunSim.handle args e s in
      (counted e sc).count + ends_read (RunSim.simulate args o.counters es) es
      ≡ sc.count + ends_read (RunSim.simulate args s (e ∷ es)) (e ∷ es)
unfolding RunSim.simulate
reads args e s es sc go =
    let o = RunSim.handle args e s in
    let later = RunSim.simulate args o.counters es in
    rw go (
      ground
        (arith, take_front e es (length es) (length later.unread) (unread-le args o.counters es)))

pub simulate-scan :
    (args : Args) (s : Counters) (es : List ExitEvent) (sc : Scan) (rest : List Text)
    → args.mode ≡ evaluation
    → AllWork es
    → let r = RunSim.simulate args s es in
      scan_lines sc (printed r.actions ++ rest)
      ≡ scan_lines (record sc { count = sc.count + ends_read r es }) rest
unfolding RunSim.simulate
simulate-scan args s [] sc rest m w = ground (arith, const_lines sc rest)
simulate-scan args s (e ∷ es) sc rest m w =
    let o = RunSim.handle args e s in
    elim (Bool-cases (truthy o.result)) [
      | inl stop ↦ rw stop (
          ground (
            arith,
            const_lines sc (printed o.actions ++ rest),
            handle-scan args e s sc rest m w.0,
            take_one e es,
          ))
      | inr go ↦
          scan_go args e s es sc rest m w.0 go
          ∙ (simulate-scan args o.counters es (counted e sc) rest m w.1
              ∙ ap (λ n. scan_lines (record sc { count = n }) rest) (reads args e s es sc go))
    ]

-- In evaluation mode, over any work items, the check of the log of the one-machine loop counts the
-- ends of invocations that the loop has read, and finds no success, whether the loop has ended or
-- not: it never prints the line that the check looks for.
pub scan-simulate :
    (args : Args) (s : Counters) (es : List ExitEvent)
    → args.mode ≡ evaluation
    → AllWork es
    → let r = RunSim.simulate args s es in
      scan (printed r.actions) ≡ record { cmd = []; success = false; count = ends_read r es }
unfolding scan scan_lines
scan-simulate args s es m w = ground (
  arith,
  simulate-scan args s es scan_start [] m w,
  append-nil (printed (RunSim.simulate args s es).actions),
)

printed-both : (xs : List Action) → printed (both xs) ≡ printed xs
printed-both [] = refl
printed-both (switch_to_main testsys ∷ xs) = printed-both xs
printed-both (switch_to_main drivesys ∷ xs) = printed-both xs
printed-both (say line ∷ xs) = ground (arith, printed-both xs)
printed-both (_ ∷ xs) = printed-both xs

done_line :
    (sc : Scan)
    → scan_lines sc
        (((27 ∷ codes "[92m Simulation done.") ++ (27 ∷ codes "[00m") ++ (10 ∷ [])) ∷ [])
      ≡ record sc { success = true }
unfolding scan_lines is_done is_end note_command
done_line sc = refl

-- In evaluation mode, over any work items, the check of the log of the two-machine loop counts the
-- same ends of invocations, and finds a success exactly if the loop has ended.
scan-simulate_two :
    (args : Args) (s : Counters) (es : List ExitEvent)
    → args.mode ≡ evaluation
    → AllWork es
    → let r = TwoMachine.simulate args s es in
      scan (printed r.actions) ≡ record { cmd = []; success = r.exited; count = ends_read r es }
unfolding scan scan_lines
scan-simulate_two args s es m w =
    let r = RunSim.simulate args s es in
    let rest = if r.exited then pr_green (codes "Simulation done.") ∷ [] else [] in
    rw (simulate-both_run args s es) (
      rw (printed-append (both r.actions) rest) (
        rw (printed-both r.actions) (
          rw (simulate-scan args s es scan_start (printed rest) m w) (
            ground
              (arith, done_line (record { cmd = []; success = false; count = ends_read r es }))))))
