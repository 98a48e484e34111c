-- ===== src/Campaign/Log/Opening.antt =====
-- What the main block of run_sim.py prints before its loop.
use v_swarm_u.Base.{◌≡◌, refl, String, false, some, List, [], ◌∷◌, ◌++◌, arith, map, range, ap, ◌∙◌}
use mathlib.Core.List.{append_assoc, append-nil}
use v_swarm_u.Base.Int.{ℤ}
use v_swarm_u.Base.Text.{Text, codes, show, in_text}
use v_swarm_u.Base.Text.Search.{show-Low, in_text-Low}
use v_swarm_u.Control.{
  checkpoint_word, say, prepare_cpu, instantiate, Args, evaluation, ExitEvent, Action,
}
use v_swarm_u.Control.RunSim.{
  main, prepare, evaluate, evaluation_counters, simulate, checkpoint_path,
}
use v_swarm_u.Analysis.Simulations.{
  Scan, scan_start, is_done, is_end, note_command, scan_lines, scan,
}
use v_swarm_u.Analysis.Simulations.Lines.{printed, printed-append, scan_lines-append}

-- The lines that the script prints first.
abbrev pub opening : Args → List Text
opening args =
    (codes "--- Evaluation Mode ---" ++ (10 ∷ []))
    ∷ ((codes "Instantiate checkpoint:  "
          ++ codes (checkpoint_path args (checkpoint_word args.use_checkpoint)))
        ++ (10 ∷ []))
    ∷ []

abbrev plan_line : Text → ℤ → Text
plan_line verb n =
    ((27 ∷ codes "[92m ") ++ ((verb ++ (show n ++ codes " invocations")) ++ (27 ∷ codes "[00m")))
    ++ (10 ∷ [])

-- The two lines on what is warmed and measured.
abbrev plan : Args → List Text
plan args =
    let s = evaluation_counters args in
    plan_line (codes "Warming for ") s.inv_to_warm
    ∷ plan_line (codes "Measure for ") s.inv_to_measure
    ∷ []

printed-prepare : (args : Args) (outdir : String) → printed (prepare args outdir) ≡ []
unfolding prepare
printed-prepare args outdir = ground arith

abbrev behind : Args → List Action
behind args =
    let ckp = checkpoint_path args (checkpoint_word args.use_checkpoint) in
    say (codes "--- Evaluation Mode ---")
    ∷ say (codes "Instantiate checkpoint:  " ++ codes ckp)
    ∷ (map prepare_cpu (range 2) ++ (instantiate (some ckp) ∷ []))

main-actions :
    (args : Args) (outdir : String) (events : List ExitEvent)
    → args.mode ≡ evaluation
    → (main args outdir events).actions
      ≡ (prepare args outdir ++ behind args) ++ (evaluate args events).actions
unfolding main
main-actions args outdir events m = ground (arith, m)

printed-evaluate :
    (args : Args) (first : ExitEvent) (events : List ExitEvent)
    → printed (evaluate args (first ∷ events)).actions
      ≡ plan args ++ printed (simulate args (evaluation_counters args) events).actions
unfolding evaluate
printed-evaluate args first events = ground arith

printed-main :
    (args : Args) (outdir : String) (first : ExitEvent) (events : List ExitEvent)
    → args.mode ≡ evaluation
    → printed (main args outdir (first ∷ events)).actions
      ≡ opening args
        ++ (plan args ++ printed (simulate args (evaluation_counters args) events).actions)
printed-main args outdir first events m =
    let ran = (evaluate args (first ∷ events)).actions in
    ap printed (main-actions args outdir (first ∷ events) m)
    ∙ (printed-append (prepare args outdir ++ behind args) ran
        ∙ rw
            (
              printed-append (prepare args outdir) (behind args),
              printed-prepare args outdir,
              printed-evaluate args first events,
            )
            refl)

abbrev planned : ℤ → Text
planned n = ((show n ++ codes " invocations") ++ (27 ∷ codes "[00m")) ++ (10 ∷ [])

abbrev plan_end : Text
plan_end = codes " invocations" ++ ((27 ∷ codes "[00m") ++ (10 ∷ []))

planned_lem : (n : ℤ) → planned n ≡ show n ++ plan_end
planned_lem n =
    append_assoc (show n ++ codes " invocations") (27 ∷ codes "[00m") (10 ∷ [])
    ∙ append_assoc (show n) (codes " invocations") ((27 ∷ codes "[00m") ++ (10 ∷ []))

planned-done : (n : ℤ) → in_text (codes "Simulation done") (planned n) ≡ false
unfolding in_text
planned-done n =
    ap (in_text (codes "Simulation done")) (planned_lem n)
    ∙ in_text-Low b'S' (codes "imulation done") (show n) plan_end (omega arith) (show-Low n)

planned-end : (n : ℤ) → in_text (codes "End invokation:") (planned n) ≡ false
unfolding in_text
planned-end n =
    ap (in_text (codes "End invokation:")) (planned_lem n)
    ∙ in_text-Low b'E' (codes "nd invokation:") (show n) plan_end (omega arith) (show-Low n)

scan-plan :
    (args : Args) (sc : Scan) (rest : List Text)
    → scan_lines sc (plan args ++ rest) ≡ scan_lines sc rest
unfolding scan_lines is_done is_end note_command
scan-plan args sc rest =
    let s = evaluation_counters args in
    ground (
      arith,
      planned-done s.inv_to_warm,
      planned-end s.inv_to_warm,
      planned-done s.inv_to_measure,
      planned-end s.inv_to_measure,
    )

pub main-loop :
    (args : Args) (outdir : String) (first : ExitEvent) (events : List ExitEvent)
    → args.mode ≡ evaluation
    → let r = main args outdir (first ∷ events) in
      let loop = simulate args (evaluation_counters args) events in
      (loop.exited ≡ r.exited) × (loop.unread ≡ r.unread)
unfolding main evaluate
main-loop args outdir first events m = ground (arith, m)

-- What the check finds in the log, from what it finds in the lines of the loop.
pub scan-main :
    (args : Args) (outdir : String) (banner : List Text) (first : ExitEvent)
    (events : List ExitEvent) (c : Text) (found : Scan)
    → args.mode ≡ evaluation
    → scan (banner ++ opening args) ≡ record { cmd = c; success = false; count = 0 }
    → scan_lines
        (record { cmd = c; success = false; count = 0 })
        (printed (simulate args (evaluation_counters args) events).actions ++ [])
      ≡ found
    → scan (banner ++ printed (main args outdir (first ∷ events)).actions) ≡ found
unfolding scan
scan-main args outdir banner first events c found m h k =
    let loop = printed (simulate args (evaluation_counters args) events).actions in
    rw (printed-main args outdir first events m) (
      rw (← append_assoc banner (opening args) (plan args ++ loop)) (
        scan_lines-append scan_start (banner ++ opening args) (plan args ++ loop)
          (ap (λ s. s.success) h)
        ∙ rw
            (
              h,
              scan-plan args (record { cmd = c; success = false; count = 0 }) loop,
              ← append-nil loop,
            )
            k))
