-- ===== src/Campaign/Log/Loop.antt =====
-- What the loop of run_sim.py prints for the guest's invocations, and for the end of its script.
use v_swarm_u.Base.{
  suc, ◌+◌, ◌-◌, ◌≡◌, refl, true, List, [], ◌∷◌, ◌++◌, arith, length, count_if, take, ap, ◌∙◌,
}
use mathlib.Core.List.{append-nil}
use v_swarm_u.Base.Int.{ℤ}
use v_swarm_u.Control.{Args, evaluation, ExitEvent, Counters, kind}
use v_swarm_u.Control.Actions.{is_work_end}
use v_swarm_u.Control.RunSim.{simulate, handle}
use v_swarm_u.Control.RunSim.Checkpoints.{take_front}
use v_swarm_u.Control.RunSim.Protocol.{begin_event, end_event, invocations}
use v_swarm_u.Campaign.Client.{script_end}
use v_swarm_u.Campaign.Measurement.{AsksFor, begin_step, end_step}
use v_swarm_u.Analysis.Simulations.{Scan, is_done, is_end, note_command, scan_lines}
use v_swarm_u.Analysis.Simulations.Lines.{printed, AllWork}
use v_swarm_u.Analysis.Simulations.Agreement.{scan_go, simulate-scan, ends_read}

invocations-AllWork : (cs : List ℤ) → AllWork (invocations cs)
unfolding kind
invocations-AllWork [] = tt
invocations-AllWork (c ∷ cs) = (refl, (refl, invocations-AllWork cs))

ends-invocations : (cs : List ℤ) → count_if is_work_end (invocations cs) ≡ length cs
unfolding kind
ends-invocations [] = refl
ends-invocations (c ∷ cs) = ap suc (ends-invocations cs)

take-length : (es : List ExitEvent) → take (length es - 0) es ≡ es
take-length [] = refl
take-length (e ∷ es) =
    take_front e es (length es) 0 (omega arith) ∙ ap (λ r. e ∷ r) (take-length es)

-- A loop that has ended prints the same, whatever comes after the events.
simulate-append :
    (args : Args) (s : Counters) (xs ys : List ExitEvent)
    → (simulate args s xs).exited ≡ true
    → (simulate args s (xs ++ ys)).actions ≡ (simulate args s xs).actions
unfolding simulate
simulate-append args s [] ys h = absurd (ground arith)
simulate-append args s (e ∷ xs) ys h =
    ground (arith, h, simulate-append args (handle args e s).counters xs ys)

-- What the end of the run script prints: the log is a success from there on.
scan-script_end :
    (args : Args) (s : Counters) (after : List ExitEvent) (sc : Scan)
    → scan_lines sc (printed (simulate args s (script_end ++ after)).actions)
      ≡ record sc { success = true }
unfolding scan_lines simulate handle kind is_done is_end note_command
scan-script_end args s after sc = refl

pub scan-short :
    (args : Args) (s : Counters) (cs : List ℤ) (after : List ExitEvent) (sc : Scan)
    → args.mode ≡ evaluation
    → AsksFor (length cs) s
    → scan_lines sc
        (printed (simulate args s (invocations cs ++ (script_end ++ after))).actions ++ [])
      ≡ record sc { success = true; count = sc.count + length cs }
unfolding kind
scan-short args s [] after sc m h = ground (
  arith,
  append-nil (printed (simulate args s (script_end ++ after)).actions),
  scan-script_end args s after sc,
)
scan-short args s (c ∷ cs) after sc m h =
    let o = handle args (begin_event c) s in
    let p = handle args (end_event c) o.counters in
    let (a, b, k) = begin_step args c (length (c ∷ cs)) s m h in
    let (a', b', k') = end_step args c (length cs) o.counters m k in
    scan_go args (begin_event c) s _ sc [] m refl a
    ∙ (scan_go args (end_event c) o.counters _ sc [] m refl a'
        ∙ (scan-short args p.counters cs after (record sc { count = suc sc.count }) m k'
            ∙ ap (λ n. record sc { success = true; count = n }) (omega arith)))

-- Enough invocations: the log counts them, and is no success.
pub scan-enough :
    (args : Args) (s : Counters) (cs : List ℤ) (ys : List ExitEvent) (sc : Scan)
    → args.mode ≡ evaluation
    → (simulate args s (invocations cs)).exited ≡ true
    → (simulate args s (invocations cs)).unread ≡ []
    → scan_lines sc (printed (simulate args s (invocations cs ++ ys)).actions ++ [])
      ≡ record sc { count = sc.count + length cs }
unfolding scan_lines
scan-enough args s cs ys sc m h u =
    let all_read : ends_read (simulate args s (invocations cs)) (invocations cs) ≡ length cs =
      rw (u, take-length (invocations cs)) (ends-invocations cs) in
    rw (simulate-append args s (invocations cs) ys h) (
      simulate-scan args s (invocations cs) sc [] m (invocations-AllWork cs)
      ∙ ap (λ n. record sc { count = sc.count + n }) all_read)
