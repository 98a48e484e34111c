-- ===== src/Campaign/Log.antt =====
-- The log of a measurement of run_sim.py, as analysis/check_simulations.py reads it.
pub mod Loop
pub mod Opening
use v_swarm_u.Base.{
  ℕ, suc, ◌+◌, ◌-◌, ◌<◌, ◌≤◌, ◌≡◌, String, true, false, List, [], ◌∷◌, ◌++◌, arith, length, ltb,
  if◌then◌else◌, ap, ◌∙◌, Bool-cases, inl, inr,
}
use mathlib.Core.Path.{subst}
use mathlib.Core.List.{append_assoc, append-nil}
use v_swarm_u.Base.Int.{pos}
use v_swarm_u.Base.Text.{Text}
use v_swarm_u.Control.{Args, evaluation, ExitEvent}
use v_swarm_u.Control.RunSim.{main, evaluation_counters, simulate, run_script}
use v_swarm_u.Control.RunSim.Protocol.{invocations, main-Finished}
use v_swarm_u.Campaign.Client.{ids, length-ids, script_end, remaining, behind-script, behind-cut}
use v_swarm_u.Campaign.Measurement.{evaluation_counters-AsksFor}
use v_swarm_u.Campaign.{script_events, behind_checkpoint}
use v_swarm_u.Analysis.Simulations.{Scan, scan, fail, succeed, status}
use v_swarm_u.Analysis.Simulations.Lines.{printed}
use v_swarm_u.Campaign.Log.Loop.{scan-short, scan-enough}
use v_swarm_u.Campaign.Log.Opening.{opening, main-loop, scan-main}

module _ (args : Args) (outdir function : String) (first : ExitEvent) (w n : ℕ)
    (resumed after : List ExitEvent) (banner : List Text) (c : Text)
    (evaluating : args.mode ≡ evaluation) (warming : args.atomic_warming ≡ pos w)
    (measuring : args.num_invocations ≡ pos (suc n))
    (guest : resumed ≡ behind_checkpoint (script_events true true (run_script function)) ++ after)
    (opened : scan (banner ++ opening args) ≡ record { cmd = c; success = false; count = 0 }) where
  abbrev found : Scan
  found = scan (banner ++ printed (main args outdir (first ∷ resumed)).actions)

  checked_enough : w + suc n ≤ 20 → found ≡ record { cmd = c; success = false; count = w + suc n }
  checked_enough enough =
      let k = w + suc n in
      let cs = ids 0 k in
      let s = evaluation_counters args in
      let whole =
        main-Finished args outdir first w n cs [] evaluating warming measuring (length-ids 0 k) in
      let counted_all : 0 + length cs ≡ k = omega (arith, length-ids 0 k) in
      let (a, u) = main-loop args outdir first (invocations cs ++ []) evaluating in
      scan-main args outdir banner first resumed c _ evaluating opened (
        rw (guest, behind-cut function k after enough)
          (scan-enough args s cs (remaining k after) _ evaluating
              (subst (λ es. (simulate args s es).exited ≡ true) (append-nil (invocations cs))
                (a ∙ whole.ended))
              (subst (λ es. (simulate args s es).unread ≡ []) (append-nil (invocations cs))
                (u ∙ whole.left))
            ∙ ap (λ count. record { cmd = c; success = false; count = count }) counted_all))

  checked_short : 20 < w + suc n → found ≡ record { cmd = c; success = true; count = 20 }
  checked_short many = scan-main args outdir banner first resumed c _ evaluating opened (
      rw (guest, behind-script function, append_assoc (invocations (ids 0 20)) script_end after)
        (scan-short args (evaluation_counters args) (ids 0 20) after _ evaluating
          (evaluation_counters-AsksFor args w n warming measuring many)))

  -- A measurement with `--atomic-warming` w and `--num-invocations` n + 1, from the checkpoint of a
  -- guest that runs the run script as root, whose client connects; its log has some lines of gem5 and
  -- then those of the script, and in the lines before the loop starts the check finds the command c,
  -- no success and no end of an invocation. If w + n + 1 is at most 20, so that the measurement is
  -- complete, the check counts its w + n + 1 invocations and reports a failure; if it is above 20, so
  -- that the run ends without statistics, the check counts 20 and reports a success.
  pub measurement-checked :
      let lines = banner ++ printed (main args outdir (first ∷ resumed)).actions in
      let cut = ltb 20 (w + suc n) in
      (scan lines ≡ record { cmd = c; success = cut; count = if cut then 20 else w + suc n })
      × (status (scan lines) ≡ (if cut then succeed else fail))
  unfolding status
  measurement-checked = elim (Bool-cases (ltb 20 (w + suc n))) [
    | inl many ↦ let e = checked_short (ground arith) in rw many (e, ap status e)
    | inr few ↦ let e = checked_enough (ground arith) in rw few (e, ap status e)
  ]
