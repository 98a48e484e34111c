-- ===== src/Control/RunSim/Restore.antt =====
-- What a measurement of run_sim.tmpl.py starts from: the checkpoint of an earlier setup run.
use mathlib.Core.List.{Memᴰ}
use text.Mathlib.Text.{◌==◌ as str_eq}
use text.Mathlib.TextLemmas.{append_cancel_left}
use v_swarm_u.Base.{
  ℕ, zero, map, range, suc, ◌≤◌, ◌≡◌, refl, ◌↔◌, ◌≢◌, true, false, Option, some, String, List, [],
  ◌∷◌, ◌++◌, arith, count_if, replicate, ap,
}
use v_swarm_u.Base.Text.{codes}
use v_swarm_u.Control.{
  Args, setup, evaluation, ExitEvent, Counters, Action, say, prepare_cpu, instantiate,
  CheckpointName, warm, boot, checkpoint_word,
}
use v_swarm_u.Control.Actions.{checkpoints}
use v_swarm_u.Control.RunSim.{
  checkpoint_path, handle, simulate, evaluate, main, prepare, evaluation_counters, run_script,
}
use v_swarm_u.Control.RunSim.Checkpoints.{is_warming_stop}
use v_swarm_u.Control.RunSim.Setup.{AllQuiet, guest_events, main-setup}

-- What the calls of `m5.instantiate` restore.
abbrev pub restored : List Action → List (Option String)
restored [] = []
restored (instantiate c ∷ rest) = c ∷ restored rest
restored (_ ∷ rest) = restored rest

restored-append : (xs ys : List Action) → restored (xs ++ ys) ≡ restored xs ++ restored ys
restored-append [] ys = refl
restored-append (instantiate c ∷ xs) ys = ground (arith, restored-append xs ys)
restored-append (_ ∷ xs) ys = restored-append xs ys

handle-restored :
    (args : Args) (e : ExitEvent) (s : Counters) → restored (handle args e s).actions ≡ []
unfolding handle
handle-restored args e s = ground arith

simulate-restored :
    (args : Args) (s : Counters) (es : List ExitEvent) → restored (simulate args s es).actions ≡ []
unfolding simulate
simulate-restored args s [] = refl
simulate-restored args s (e ∷ es) =
    let o = handle args e s in
    ground (
      arith,
      handle-restored args e s,
      simulate-restored args o.counters es,
      restored-append o.actions (simulate args o.counters es).actions,
    )

true-ne-false : true ≢ false
true-ne-false h = cc h

-- The paths of the two checkpoints differ.
paths_differ : (args : Args) → checkpoint_path args "boot" ≢ checkpoint_path args "warm"
paths_differ args e =
    let ends : "boot" ≡ "warm" = append_cancel_left "/cpt." "boot" "warm" (
      append_cancel_left args.function _ _
        (append_cancel_left "/" _ _ (append_cancel_left args.checkpoint_dir _ _ e))) in
    true-ne-false (ap (λ (s : String). str_eq s "boot") ends)

prepare-restored : (args : Args) (outdir : String) → restored (prepare args outdir) ≡ []
unfolding prepare
prepare-restored args outdir = ground arith

evaluate-restored : (args : Args) (es : List ExitEvent) → restored (evaluate args es).actions ≡ []
unfolding evaluate
evaluate-restored args [] = refl
evaluate-restored args (first ∷ es) =
    ground (arith, simulate-restored args (evaluation_counters args) es)

pub main-restored :
    (args : Args) (outdir : String) (es : List ExitEvent)
    → args.mode ≡ evaluation
    → restored (main args outdir es).actions
      ≡ some (checkpoint_path args (checkpoint_word args.use_checkpoint)) ∷ []
unfolding main
main-restored args outdir es m =
    let ckp = checkpoint_path args (checkpoint_word args.use_checkpoint) in
    let behind : List Action =
      say (codes "--- Evaluation Mode ---")
      ∷ say (codes "Instantiate checkpoint:  " ++ codes ckp)
      ∷ (map prepare_cpu (range 2) ++ (instantiate (some ckp) ∷ [])) in
    ground (
      arith,
      m,
      restored-append (prepare args outdir) behind,
      restored-append (prepare args outdir ++ behind) (evaluate args es).actions,
      prepare-restored args outdir,
      evaluate-restored args es,
    )

in_replicate : (x y : String) (n : ℕ) → Memᴰ x (replicate n y) → x ≡ y
in_replicate x y zero m = elim m [ ]
in_replicate x y (suc n) (Memᴰ.head e) = e
in_replicate x y (suc n) (Memᴰ.tail m) = in_replicate x y n m

replicate_has : (x : String) (n : ℕ) → 1 ≤ n → Memᴰ x (replicate n x)
replicate_has x zero h = absurd (omega (arith, h))
replicate_has x (suc n) h = Memᴰ.head refl

-- Of the two checkpoints, the one that was taken is the one for the word "warm".
taken_iff :
    (args : Args) (name : CheckpointName) (n : ℕ)
    → 1 ≤ n
    → Memᴰ
        (checkpoint_path args (checkpoint_word name))
        (replicate n (checkpoint_path args (checkpoint_word warm)))
      ↔ (name ≡ warm)
taken_iff args warm n h = ((λ m. refl), (λ e. replicate_has _ n h))
taken_iff args boot n h =
    ((λ m. absurd (paths_differ args (in_replicate _ _ n m))), (λ e. absurd (cc e)))

-- A setup run whose client causes a failure code 32, no code -1 and no interrupt, and a later
-- measurement with the same folder and function: the measurement restores exactly one checkpoint,
-- and the setup run has taken this checkpoint if and only if the measurement has `--use-checkpoint
-- warm`. The checkpoint that `--use-checkpoint boot` restores is not one of its.
pub main-restores :
    (args later : Args) (outdir later_outdir : String) (client rest events : List ExitEvent)
    → args.mode ≡ setup
    → later.mode ≡ evaluation
    → later.checkpoint_dir ≡ args.checkpoint_dir
    → later.function ≡ args.function
    → AllQuiet client
    → 1 ≤ count_if is_warming_stop client
    → let r = main args outdir (guest_events client (run_script args.function) ++ rest) in
      (path : String) × (restored (main later later_outdir events).actions ≡ some path ∷ [])
      × (Memᴰ path (checkpoints r.actions) ↔ (later.use_checkpoint ≡ warm))
main-restores args later outdir later_outdir client rest events m m' d f quiet some_stop =
    let (ended, left, taken) = main-setup args outdir client rest m quiet in
    let word = checkpoint_word later.use_checkpoint in
    let same : checkpoint_path later word ≡ checkpoint_path args word = rw (d, f) refl in
    (
      checkpoint_path later word,
      main-restored later later_outdir events m',
      rw (taken, same) (taken_iff args later.use_checkpoint _ some_stop),
    )
