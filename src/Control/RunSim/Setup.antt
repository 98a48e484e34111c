-- ===== src/Control/RunSim/Setup.antt =====
-- A run of run_sim.tmpl.py in setup mode, with the guest that executes the script it has written.
use v_swarm_u.Base.{
  none, ◌∙◌, ◌≡◌, refl, Bool, true, false, not, List, [], ◌∷◌, ◌++◌, arith, String, count_if,
  replicate, flat_map,
}
use v_swarm_u.Base.Text.{codes}
use v_swarm_u.Base.Int.{ℤ, pos, negsuc, eqb_ℤ}
use v_swarm_u.Control.{
  Action, say, instantiate, Args, warm, checkpoint_word, setup, ExitEvent, Counters, Command,
  m5_exit, m5_fail, test_client, truthy, kind, fail_kind, interrupt_kind,
}
use v_swarm_u.Control.Actions.{checkpoints, checkpoints-append}
use v_swarm_u.Control.RunSim.{
  main, prepare, initial, run_script, handle, simulate, checkpoint_path, workitem,
  execute_m5_fail_code,
}
use v_swarm_u.Control.RunSim.Exits.{handle-ends}
use v_swarm_u.Control.RunSim.Checkpoints.{is_warming_stop, checkpoints-handle}

-- The exit events of a command: those of its `m5` instruction, or of the client.
abbrev events_of : List ExitEvent → Command → List ExitEvent
events_of client m5_exit = record { cause = "m5_exit instruction encountered"; code = pos 0 } ∷ []
events_of client (m5_fail code) =
    record { cause = "m5_fail instruction encountered"; code = code } ∷ []
events_of client (test_client function url n w m5ops) = client
events_of client _ = []

-- The exit events of a guest that executes a script.
abbrev pub guest_events : List ExitEvent → List Command → List ExitEvent
guest_events client script = flat_map (events_of client) script

-- No event stops the loop in setup mode: none is a failure code -1 or an interrupt.
abbrev is_quiet : ExitEvent → Bool
is_quiet e = elim (kind e.cause) [
  | fail_kind ↦ not (eqb_ℤ e.code (negsuc 0))
  | interrupt_kind ↦ false
  | _ ↦ true
]

abbrev pub AllQuiet : List ExitEvent → Type 0
AllQuiet [] = Unit
AllQuiet (e ∷ es) = (is_quiet e ≡ true) × AllQuiet es

counters-handle :
    (args : Args) (e : ExitEvent) (s : Counters)
    → args.mode ≡ setup
    → (handle args e s).counters ≡ s
unfolding handle workitem execute_m5_fail_code
counters-handle args e s h = ground (arith, h)

quiet-goes_on :
    (args : Args) (e : ExitEvent) (s : Counters)
    → args.mode ≡ setup
    → is_quiet e ≡ true
    → truthy (handle args e s).result ≡ false
quiet-goes_on args e s h quiet = ground (arith, h, quiet, handle-ends args e s)

-- The loop reads quiet events and goes on; it takes a checkpoint for each that ends the warming.
simulate-quiet :
    (args : Args) (s : Counters) (es rest : List ExitEvent)
    → args.mode ≡ setup
    → AllQuiet es
    → let r = simulate args s (es ++ rest) in
      let t = simulate args s rest in
      (r.exited ≡ t.exited)
      × (r.unread ≡ t.unread)
      × (checkpoints r.actions
          ≡ replicate (count_if is_warming_stop es) (checkpoint_path args "warm")
            ++ checkpoints t.actions)
unfolding simulate
simulate-quiet args s [] rest h quiet = (refl, refl, refl)
simulate-quiet args s (e ∷ es) rest h quiet = ground (
  arith,
  counters-handle args e s h,
  quiet-goes_on args e s h quiet.0,
  checkpoints-handle args e s,
  checkpoints-append (handle args e s).actions (simulate args s (es ++ rest)).actions,
  simulate-quiet args s es rest h quiet.1,
)

abbrev fail : ℤ → ExitEvent
fail code = record { cause = "m5_fail instruction encountered"; code = code }

append_assoc : (xs ys zs : List ExitEvent) → (xs ++ ys) ++ zs ≡ xs ++ (ys ++ zs)
append_assoc [] ys zs = refl
append_assoc (x ∷ xs) ys zs = ground (arith, append_assoc xs ys zs)

-- The events of the run script: the codes before the client, the client's, and the codes after it.
guest_events-run_script :
    (client rest : List ExitEvent) (function : String)
    → guest_events client (run_script function) ++ rest
      ≡ (fail (pos 1) ∷ fail (pos 2) ∷ fail (pos 3) ∷ fail (pos 10) ∷ [])
        ++ (client ++ ((fail (pos 11) ∷ fail (pos 6) ∷ []) ++ (fail (negsuc 0) ∷ rest)))
unfolding run_script
guest_events-run_script client rest function =
    rw (append_assoc client (fail (pos 11) ∷ fail (pos 6) ∷ fail (negsuc 0) ∷ []) rest) refl

-- The last code of the script ends the loop.
simulate-last :
    (args : Args) (s : Counters) (rest : List ExitEvent)
    → let r = simulate args s (fail (negsuc 0) ∷ rest) in
      (r.exited ≡ true) × (r.unread ≡ rest) × (checkpoints r.actions ≡ [])
unfolding simulate handle execute_m5_fail_code kind
simulate-last args s rest = (refl, refl, refl)

abbrev front : List ExitEvent
front = fail (pos 1) ∷ fail (pos 2) ∷ fail (pos 3) ∷ fail (pos 10) ∷ []

abbrev back : List ExitEvent
back = fail (pos 11) ∷ fail (pos 6) ∷ []

front-AllQuiet : AllQuiet front × (count_if is_warming_stop front ≡ 0)
unfolding kind
front-AllQuiet = ((refl, (refl, (refl, (refl, tt)))), refl)

back-AllQuiet : AllQuiet back × (count_if is_warming_stop back ≡ 0)
unfolding kind
back-AllQuiet = ((refl, (refl, tt)), refl)

append_nil : (xs : List String) → xs ++ [] ≡ xs
append_nil [] = refl
append_nil (x ∷ xs) = ground (arith, append_nil xs)

simulate-script :
    (args : Args) (s : Counters) (client rest : List ExitEvent) (function : String)
    → args.mode ≡ setup
    → AllQuiet client
    → let r = simulate args s (guest_events client (run_script function) ++ rest) in
      (r.exited ≡ true)
      × (r.unread ≡ rest)
      × (checkpoints r.actions
          ≡ replicate (count_if is_warming_stop client) (checkpoint_path args "warm"))
simulate-script args s client rest function h quiet =
    let end : List ExitEvent = fail (negsuc 0) ∷ rest in
    let (a0, a1, a2) = simulate-quiet args s front (client ++ (back ++ end)) h front-AllQuiet.0 in
    let (b0, b1, b2) = simulate-quiet args s client (back ++ end) h quiet in
    let (c0, c1, c2) = simulate-quiet args s back end h back-AllQuiet.0 in
    let (d0, d1, d2) = simulate-last args s rest in
    rw (guest_events-run_script client rest function) (
      a0 ∙ b0 ∙ c0 ∙ d0,
      a1 ∙ b1 ∙ c1 ∙ d1,
      rw (a2, front-AllQuiet.1, b2, c2, back-AllQuiet.1, d2) (append_nil _),
    )

-- What the main block does before the loop takes no checkpoint.
checkpoints-prepare :
    (args : Args) (outdir : String) → args.mode ≡ setup → checkpoints (prepare args outdir) ≡ []
unfolding prepare
checkpoints-prepare args outdir h = ground (arith, h)

main-simulate :
    (args : Args) (outdir : String) (events : List ExitEvent)
    → args.mode ≡ setup
    → let r = main args outdir events in
      let t = simulate args initial events in
      (r.exited ≡ t.exited)
      × (r.unread ≡ t.unread)
      × (checkpoints r.actions ≡ checkpoints t.actions)
unfolding main
main-simulate args outdir events h =
    let before : List Action =
      prepare args outdir ++ (say (codes "--- Setup Mode ---") ∷ instantiate none ∷ []) in
    ground (
      arith,
      h,
      checkpoints-prepare args outdir h,
      checkpoints-append (prepare args outdir)
          (say (codes "--- Setup Mode ---") ∷ instantiate none ∷ []),
      checkpoints-append before (simulate args initial events).actions,
    )

-- In setup mode, for a guest that executes the run script of the function: if the client in it
-- causes no failure code -1 and no interrupt, the script ends by itself with the guest's last event,
-- and all later events are unread. The checkpoints that it has taken are one for each failure code
-- 32 of the client, all at the path that `--use-checkpoint warm` restores.
pub main-setup :
    (args : Args) (outdir : String) (client rest : List ExitEvent)
    → args.mode ≡ setup
    → AllQuiet client
    → let r = main args outdir (guest_events client (run_script args.function) ++ rest) in
      (r.exited ≡ true)
      × (r.unread ≡ rest)
      × (checkpoints r.actions
          ≡ replicate
              (count_if is_warming_stop client)
              (checkpoint_path args (checkpoint_word warm)))
main-setup args outdir client rest h quiet =
    let events = guest_events client (run_script args.function) ++ rest in
    let (a0, a1, a2) = main-simulate args outdir events h in
    let (b0, b1, b2) = simulate-script args initial client rest args.function h quiet in
    (a0 ∙ b0, a1 ∙ b1, a2 ∙ b2)
