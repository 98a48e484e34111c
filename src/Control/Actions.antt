-- ===== src/Control/Actions.antt =====
-- Views of the actions that a script asks for: which act on the CPUs, the statistics or the
-- checkpoints.
use v_swarm_u.Base.{◌≡◌, refl, String, Bool, true, false, List, [], ◌∷◌, ◌++◌, arith}
use v_swarm_u.Control.{
  Kind, end_kind, kind, ExitEvent, Action, switch_to_main, switch_to_atomic, reset_stats,
  dump_stats, checkpoint,
}

abbrev pub is_control : Action → Bool
is_control (switch_to_main m) = true
is_control (switch_to_atomic m) = true
is_control reset_stats = true
is_control dump_stats = true
is_control (checkpoint path) = true
is_control _ = false

abbrev pub is_switch : Action → Bool
is_switch (switch_to_main m) = true
is_switch _ = false

abbrev pub is_reset : Action → Bool
is_reset reset_stats = true
is_reset _ = false

abbrev pub is_dump : Action → Bool
is_dump dump_stats = true
is_dump _ = false

-- The paths of the checkpoints among some actions.
abbrev pub checkpoints : List Action → List String
checkpoints [] = []
checkpoints (checkpoint path ∷ rest) = path ∷ checkpoints rest
checkpoints (_ ∷ rest) = checkpoints rest

pub checkpoints-append :
    (xs ys : List Action) → checkpoints (xs ++ ys) ≡ checkpoints xs ++ checkpoints ys
checkpoints-append [] ys = refl
checkpoints-append (checkpoint path ∷ xs) ys = ground (arith, checkpoints-append xs ys)
checkpoints-append (_ ∷ xs) ys = checkpoints-append xs ys

abbrev is_end_kind : Kind → Bool
is_end_kind end_kind = true
is_end_kind _ = false

-- The end of an invocation.
abbrev pub is_work_end : ExitEvent → Bool
is_work_end e = is_end_kind (kind e.cause)
