-- ===== src/Control/RunSim/Checkpoints.antt =====
-- The checkpoints that run_sim.tmpl.py takes.
use v_swarm_u.Base.{
  ℕ, suc, ◌-◌, ◌≤◌, ◌≡◌, refl, Bool, true, false, ◌&&◌, List, [], ◌∷◌, arith, Bool-cases,
  if◌then◌else◌, ◌==◌, ==_iff, inl, inr, length, take, replicate, count_if,
}
use v_swarm_u.Base.Int.{ℤ, pos, negsuc, eqb_ℤ}
use v_swarm_u.Control.{Args, ExitEvent, Counters, Run, kind, Kind, fail_kind}
use v_swarm_u.Control.Actions.{checkpoints, checkpoints-append}
use v_swarm_u.Control.RunSim.{handle, simulate, checkpoint_path, execute_m5_fail_code, workitem}

abbrev is_fail : Kind → Bool
is_fail fail_kind = true
is_fail _ = false

-- The event of `m5 fail 32`, by which the client says that the warming is done.
abbrev pub is_warming_stop : ExitEvent → Bool
is_warming_stop e = is_fail (kind e.cause) && eqb_ℤ e.code (pos 32)

-- The events that a run has read of those that it was given.
abbrev pub events_read : Run → List ExitEvent → List ExitEvent
events_read r es = take (length es - length r.unread) es

pub unread-le :
    (args : Args) (s : Counters) (es : List ExitEvent)
    → length (simulate args s es).unread ≤ length es
unfolding simulate
unread-le args s [] = omega arith
unread-le args s (e ∷ es) = ground (arith, unread-le args (handle args e s).counters es)

checkpoints-fail :
    (args : Args) (code : ℤ) (s : Counters)
    → checkpoints (execute_m5_fail_code args code s).actions
      ≡ (if eqb_ℤ code (pos 32) then checkpoint_path args "warm" ∷ [] else [])
unfolding execute_m5_fail_code
checkpoints-fail args (negsuc n) s = ground arith
checkpoints-fail args (pos n) s = elim (Bool-cases (n == 32)) [
  | inl same ↦ rw ((==_iff n 32).0 same)
  | inr other ↦ ground arith
]

pub checkpoints-handle :
    (args : Args) (e : ExitEvent) (s : Counters)
    → checkpoints (handle args e s).actions
      ≡ (if is_warming_stop e then checkpoint_path args "warm" ∷ [] else [])
unfolding handle workitem
checkpoints-handle args e s = ground (arith, checkpoints-fail args e.code s)

pub take_front {ℓ} :
    {A : Type ℓ} (x : A) (xs : List A) (n k : ℕ)
    → k ≤ n
    → take (suc n - k) (x ∷ xs) ≡ x ∷ take (n - k) xs
take_front x xs n k h = let e : suc n - k ≡ suc (n - k) = omega arith in rw e

pub take_one {ℓ} :
    {A : Type ℓ} (x : A) (xs : List A) → take (length (x ∷ xs) - length xs) (x ∷ xs) ≡ x ∷ []
take_one x xs = let e : suc (length xs) - length xs ≡ 1 = omega arith in rw e

-- Over any events, the checkpoints that the loop takes are one for each failure code 32 among the
-- events that it reads, and all of them go to the path of the checkpoint named "warm".
simulate-checkpoints :
    (args : Args) (s : Counters) (es : List ExitEvent)
    → checkpoints (simulate args s es).actions
      ≡ replicate
          (count_if is_warming_stop (events_read (simulate args s es) es))
          (checkpoint_path args "warm")
unfolding simulate
simulate-checkpoints args s [] = refl
simulate-checkpoints args s (e ∷ es) =
    let o = handle args e s in
    let rest = simulate args o.counters es in
    ground (
      arith,
      simulate-checkpoints args o.counters es,
      checkpoints-handle args e s,
      checkpoints-append o.actions rest.actions,
      take_front e es (length es) (length rest.unread),
      unread-le args o.counters es,
      take_one e es,
    )
