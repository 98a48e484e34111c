-- ===== src/Control/Generator.antt =====
-- Python generators as state machines. gem5's `Simulator` resumes the generator that is registered
-- for an event by `next`, and takes `True` for the end of the simulation.
use v_swarm_u.Base.{ℕ, zero, suc, Bool, Option, List, [], ◌∷◌, ◌++◌}
use v_swarm_u.Control.{Action}

-- What a call of `next` does: the actions, and the value yielded, or `none` for `StopIteration`.
pub record Answer (S : Type 0) : Type 0 where
  pub state : S
  pub actions : List Action
  pub yielded : Option Bool

-- The keys of `on_exit_event`: an invocation begins or ends, `m5 exit`, and `m5 fail`.
pub data Event : Type 0 where
  work_begin work_end exit fail : Event

module _ {S : Type 0} (next : S → Answer S) where
  -- The first `k` answers of a generator that stands at `s`.
  unfoldable pub answers : ℕ → S → List (Option Bool)
  answers zero s = []
  answers (suc k) s = let a = next s in a.yielded ∷ answers k a.state

  -- The actions of the first `k` answers.
  unfoldable pub effects : ℕ → S → List Action
  effects zero s = []
  effects (suc k) s = let a = next s in a.actions ++ effects k a.state

  -- Where the generator stands after `k` answers.
  unfoldable pub after : ℕ → S → S
  after zero s = s
  after (suc k) s = after k (next s).state

-- What the handlers of a table answer to some events, in order.
module _ {S : Type 0} (on_exit_event : Event → S → Answer S) where
  unfoldable pub dispatch : List Event → S → List (Option Bool)
  dispatch [] s = []
  dispatch (e ∷ es) s = let a = on_exit_event e s in a.yielded ∷ dispatch es a.state
