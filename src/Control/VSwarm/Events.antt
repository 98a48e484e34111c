-- ===== src/Control/VSwarm/Events.antt =====
-- The table of the generators of vswarm_simple.tmpl.py, and what they answer to interleaved events.
use v_swarm_u.Base.{
  ◌<◌, ap, ◌∙◌, ℕ, zero, suc, ◌+◌, ◌≤◌, ◌≡◌, refl, Bool, true, false, some, List, [], ◌∷◌, ◌++◌,
  arith, if◌then◌else◌, count_if, replicate, length, ◌==◌, drop,
}
use v_swarm_u.Base.Int.{pos}
use v_swarm_u.Control.{evaluation, Args, setup, Action, make_dir, is_evaluation}
use v_swarm_u.Control.Generator.{Answer, Event, work_begin, work_end, exit, fail, dispatch}
use v_swarm_u.Control.VSwarm.Laws.{is_m5_exit}
use v_swarm_u.Control.VSwarm.{
  loop_top, checkpoint_folder, board, run_script, Items, items_start, workitems, ExitState, fresh,
  between, exit_lines, execute_exit, FailState, client_start, execute_fail,
}

-- The folder of the checkpoint is made in setup mode, before the simulation.
abbrev pub prepare : Args → List Action
prepare args = if is_evaluation args.mode then [] else make_dir (checkpoint_folder args) ∷ []

-- The generators that are registered: `workitems(True)`, `workitems(False)`, `executeExit()` and
-- `executeFail()`.
pub record Generators : Type 0 where
  pub begins : Items
  pub ends : Items
  pub exits : ExitState
  pub fails : FailState

abbrev pub generators : Generators
generators = record {
  begins = items_start;
  ends = items_start;
  exits = fresh;
  fails = client_start;
}

abbrev then_with : {S : Type 0} → Answer S → (S → Generators) → Answer Generators
then_with a g = record { state = g a.state; actions = a.actions; yielded = a.yielded }

-- `on_exit_event`
unfoldable pub on_exit_event : Args → Event → Generators → Answer Generators
unfolding workitems execute_exit execute_fail
on_exit_event args work_begin g =
    then_with (workitems args true g.begins) (λ s. record g { begins = s })
on_exit_event args work_end g = then_with (workitems args false g.ends) (λ s. record g { ends = s })
on_exit_event args exit g = then_with (execute_exit args g.exits) (λ s. record g { exits = s })
on_exit_event args fail g = then_with (execute_fail args g.fails) (λ s. record g { fails = s })

abbrev pub is_exit : Event → Bool
is_exit exit = true
is_exit _ = false

-- Where `executeExit` stands in setup mode once it has answered `j` exits.
abbrev exits_at : ℕ → ExitState
exits_at zero = fresh
exits_at (suc j) = between (drop (suc j) exit_lines)

exits_at-next :
    (args : Args) (j : ℕ)
    → args.mode ≡ setup
    → j ≤ 5
    → ((execute_exit args (exits_at j)).state ≡ exits_at (suc j))
      × ((execute_exit args (exits_at j)).yielded ≡ some (j == 5))
unfolding execute_exit
exits_at-next args zero m h = ground arith
exits_at-next args (suc zero) m h = ground arith
exits_at-next args (suc (suc zero)) m h = ground arith
exits_at-next args (suc (suc (suc zero))) m h = ground arith
exits_at-next args (suc (suc (suc (suc zero)))) m h = ground arith
exits_at-next args (suc (suc (suc (suc (suc zero))))) m h = ground arith
exits_at-next args (suc (suc (suc (suc (suc (suc j)))))) m h = absurd (omega (arith, h))

workitems-setup :
    (args : Args) (start : Bool) (s : Items)
    → args.mode ≡ setup
    → (workitems args start s).yielded ≡ some false
unfolding workitems
workitems-setup args start s m = ground arith

execute_fail-false : (args : Args) (s : FailState) → (execute_fail args s).yielded ≡ some false
unfolding execute_fail
execute_fail-false args s = ground arith

pub dispatch_lem :
    (args : Args) (es : List Event) (g : Generators) (j : ℕ)
    → args.mode ≡ setup
    → g.exits ≡ exits_at j
    → count_if is_exit es + j ≡ 5
    → dispatch (on_exit_event args) (es ++ (exit ∷ [])) g
      ≡ replicate (length es) (some false) ++ (some true ∷ [])
unfolding dispatch on_exit_event
dispatch_lem args [] g j m at_j n = ground (arith, at_j, exits_at-next args 5 m (omega arith))
dispatch_lem args (work_begin ∷ es) g j m at_j n = ground (
  arith,
  workitems-setup args true g.begins m,
  dispatch_lem args es (on_exit_event args work_begin g).state j m at_j n,
)
dispatch_lem args (work_end ∷ es) g j m at_j n = ground (
  arith,
  workitems-setup args false g.ends m,
  dispatch_lem args es (on_exit_event args work_end g).state j m at_j n,
)
dispatch_lem args (fail ∷ es) g j m at_j n = ground (
  arith,
  execute_fail-false args g.fails,
  dispatch_lem args es (on_exit_event args fail g).state j m at_j n,
)
dispatch_lem args (exit ∷ es) g j m at_j n =
    let (next, answer) = exits_at-next args j m (omega (arith, n)) in
    ground (
      arith,
      at_j,
      answer,
      dispatch_lem args es (on_exit_event args exit g).state (suc j) m (rw at_j next)
          (omega (arith, n)),
    )

-- In setup mode, if the events hold as many exits as the run script of the board executes, the last
-- of them at the end, then this one is answered `True`, and every event before it `False`, whatever
-- begins and ends of invocations and failures stand between them.
pub setup-dispatch :
    (args : Args) (es : List Event)
    → args.mode ≡ setup
    → count_if is_exit es + 1 ≡ count_if is_m5_exit (board args).readfile
    → dispatch (on_exit_event args) (es ++ (exit ∷ [])) generators
      ≡ replicate (length es) (some false) ++ (some true ∷ [])
unfolding board run_script
setup-dispatch args es m n = dispatch_lem args es generators 0 m refl (omega (arith, n))

abbrev pub is_work_end : Event → Bool
is_work_end work_end = true
is_work_end _ = false

-- Where `workitems` stands after c - 1 ends.
abbrev at : ℕ → Items
at c = record { cnt = c; resume = loop_top }

begins-next :
    (args : Args) (n : ℕ)
    → args.num_invocations ≡ pos (suc (suc n))
    → ((workitems args true items_start).state ≡ items_start)
      × ((workitems args true items_start).yielded ≡ some false)
unfolding workitems
begins-next args n h = ground (arith, h)

ends-next :
    (args : Args) (c n : ℕ)
    → args.mode ≡ evaluation
    → args.num_invocations ≡ pos n
    → c + 1 < n
    → ((workitems args false (at c)).state ≡ at (c + 1))
      × ((workitems args false (at c)).yielded ≡ some false)
unfolding workitems
ends-next args c n m h lt = ground (arith, m, h)

ends-last :
    (args : Args) (c : ℕ)
    → args.mode ≡ evaluation
    → args.num_invocations ≡ pos (c + 1)
    → (workitems args false (at c)).yielded ≡ some true
unfolding workitems
ends-last args c m h = ground (arith, m, h)

-- The events hold as many ends as are left of k + 1.
ends-dispatch :
    (args : Args) (k c : ℕ) (es : List Event) (g : Generators)
    → args.mode ≡ evaluation
    → args.num_invocations ≡ pos (suc (suc k))
    → g.begins ≡ items_start
    → g.ends ≡ at c
    → count_if is_exit es ≡ 0
    → count_if is_work_end es + c ≡ k + 1
    → dispatch (on_exit_event args) (es ++ (work_end ∷ [])) g
      ≡ replicate (length es) (some false) ++ (some true ∷ [])
unfolding dispatch on_exit_event
ends-dispatch args k c [] g m n b e none' left =
    let last : args.num_invocations ≡ pos (c + 1) = n ∙ ap pos (omega (arith, left)) in
    ground (arith, e, ends-last args c m last)
ends-dispatch args k c (exit ∷ es) g m n b e none' left = absurd (omega (arith, none'))
ends-dispatch args k c (fail ∷ es) g m n b e none' left = ground (
  arith,
  execute_fail-false args g.fails,
  ends-dispatch args k c es (on_exit_event args fail g).state m n b e none' left,
)
ends-dispatch args k c (work_begin ∷ es) g m n b e none' left =
    let (next, answer) = begins-next args k n in
    ground (
      arith,
      b,
      answer,
      ends-dispatch args k c es (on_exit_event args work_begin g).state m n (rw b next) e none'
          left,
    )
ends-dispatch args k c (work_end ∷ es) g m n b e none' left =
    let (next, answer) = ends-next args c (suc (suc k)) m n (omega (arith, left)) in
    ground (
      arith,
      e,
      answer,
      ends-dispatch args k (c + 1) es (on_exit_event args work_end g).state m n b (rw e next) none'
          (omega (arith, left)),
    )

-- In evaluation mode with `--num-invocations` k + 2: if the events hold k ends of invocations and no
-- exit, every one of them is answered `False`, and the next end `True`, whatever begins and failures
-- stand between them. The script asks to stop after k + 1 invocations, one fewer than asked for.
pub evaluation-dispatch :
    (args : Args) (k : ℕ) (es : List Event)
    → args.mode ≡ evaluation
    → args.num_invocations ≡ pos (k + 2)
    → count_if is_exit es ≡ 0
    → count_if is_work_end es ≡ k
    → dispatch (on_exit_event args) (es ++ (work_end ∷ [])) generators
      ≡ replicate (length es) (some false) ++ (some true ∷ [])
evaluation-dispatch args k es m n no_exit ends =
    ends-dispatch args k 1 es generators m (n ∙ ap pos (omega arith)) refl refl no_exit
      (omega (arith, ends))
