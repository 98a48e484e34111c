-- ===== src/Control/ArmRun/Laws.antt =====
-- What the handlers of run_sim.arm.tmpl.py answer, over any sequence of events.
use v_swarm_u.Base.{
  ℕ, suc, ◌≡◌, Bool, false, ◌||◌, Option, none, some, List, [], ◌∷◌, length, if◌then◌else◌,
}
use v_swarm_u.Base.Text.{Text}
use v_swarm_u.Control.{Args, is_evaluation}
use v_swarm_u.Control.Generator.{Event, exit}
use v_swarm_u.Control.ArmRun.{ExitState, fresh, between, finished}

abbrev pub is_end : Option Bool → Bool
is_end none = false
is_end (some value) = value

-- Whether one of the answers is `True`.
abbrev pub asks_to_end : List (Option Bool) → Bool
asks_to_end [] = false
asks_to_end (a ∷ rest) = is_end a || asks_to_end rest

-- The events of `m5 exit`.
abbrev pub exits : List Event → ℕ
exits [] = 0
exits (exit ∷ es) = suc (exits es)
exits (_ ∷ es) = exits es

-- Nothing that is left of the script's lines is yielded as `True`.
abbrev AllFalse : List (List Text × Bool) → Type 0
AllFalse [] = Unit
AllFalse ((_, value) ∷ rest) = (value ≡ false) × AllFalse rest

abbrev Quiet : ExitState → Type 0
Quiet fresh = Unit
Quiet (between lines) = AllFalse lines
Quiet finished = Unit

-- How often `executeExit` yields a value before it starts.
abbrev pub yields : Args → ℕ
yields args = if is_evaluation args.mode then 0 else 10

-- How often it still does.
abbrev left : Args → ExitState → ℕ
left args fresh = yields args
left args (between lines) = length lines
left args finished = 0
