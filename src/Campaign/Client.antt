-- ===== src/Campaign/Client.antt =====
-- The events of the client that the run script starts, and of the guest behind its checkpoint.
use v_swarm_u.Base.{
  ℕ, zero, suc, ◌+◌, ◌-◌, ◌≤◌, ◌≡◌, refl, String, true, false, List, [], ◌∷◌, ◌++◌, arith, length,
  count_if,
}
use v_swarm_u.Base.Int.{ℤ, pos, negsuc}
use v_swarm_u.Base.{ap, ◌∙◌}
use v_swarm_u.Control.{ExitEvent, kind}
use v_swarm_u.Control.RunSim.{run_script}
use v_swarm_u.Control.RunSim.Checkpoints.{is_warming_stop}
use v_swarm_u.Control.RunSim.Setup.{guest_events, AllQuiet}
use v_swarm_u.Control.RunSim.Protocol.{invocations}
use v_swarm_u.Campaign.{invoke_from, client_events, script_events, behind_checkpoint}

abbrev pub fail : ℤ → ExitEvent
fail code = record { cause = "m5_fail instruction encountered"; code = code }

abbrev pub ids : ℕ → ℕ → List ℤ
ids i zero = []
ids i (suc n) = pos (100 + i) ∷ ids (i + 1) n

invoke_from-invocations : (i n : ℕ) → invoke_from true i n ≡ invocations (ids i n)
unfolding invoke_from
invoke_from-invocations i zero = refl
invoke_from-invocations i (suc n) = rw (invoke_from-invocations (i + 1) n) refl

invoke_from-false : (i n : ℕ) → invoke_from false i n ≡ []
unfolding invoke_from
invoke_from-false i zero = refl
invoke_from-false i (suc n) = invoke_from-false (i + 1) n

pub length-ids : (i n : ℕ) → length (ids i n) ≡ n
length-ids i zero = refl
length-ids i (suc n) = omega (arith, length-ids (i + 1) n)

-- What the client of the run script does: codes 20, 31 and 32, and then 20 invocations.
client_lem :
    client_events true true (pos 20) (pos 5000) true
    ≡ fail (pos 20) ∷ fail (pos 31) ∷ fail (pos 32) ∷ invocations (ids 0 20)
unfolding client_events
client_lem = refl

-- The events behind the client in the run script.
abbrev pub script_end : List ExitEvent
script_end =
    record { cause = "m5_fail instruction encountered"; code = pos 11 }
    ∷ record { cause = "m5_fail instruction encountered"; code = pos 6 }
    ∷ record { cause = "m5_fail instruction encountered"; code = negsuc 0 }
    ∷ []

add-zero : (n : ℕ) → n + 0 ≡ n
add-zero n = omega arith

zero-add : (n : ℕ) → 0 + n ≡ n
zero-add n = omega arith

suc_add : (a b : ℕ) → suc a + b ≡ suc (a + b)
suc_add a b = omega arith

one_add : (i a : ℕ) → i + 1 + a ≡ i + suc a
one_add i a = omega arith

-- The checkpoint is taken before the 20 invocations that the client is asked for.
pub behind-script :
    (function : String)
    → behind_checkpoint (script_events true true (run_script function))
      ≡ invocations (ids 0 20) ++ script_end
unfolding run_script client_events kind
behind-script function = refl

invocations-ids :
    (i a b : ℕ) → invocations (ids i (a + b)) ≡ invocations (ids i a) ++ invocations (ids (i + a) b)
invocations-ids i zero b = rw (add-zero i, zero-add b) refl
invocations-ids i (suc a) b = rw (suc_add a b, invocations-ids (i + 1) a b, one_add i a) refl

abbrev pub remaining : ℕ → List ExitEvent → List ExitEvent
remaining count after = invocations (ids count (20 - count)) ++ (script_end ++ after)

pub append_assoc : (xs ys zs : List ExitEvent) → (xs ++ ys) ++ zs ≡ xs ++ (ys ++ zs)
append_assoc [] ys zs = refl
append_assoc (x ∷ xs) ys zs = ap (λ r. x ∷ r) (append_assoc xs ys zs)

-- The guest's events behind the checkpoint, cut behind some of the invocations.
pub behind-cut :
    (function : String) (count : ℕ) (after : List ExitEvent)
    → count ≤ 20
    → behind_checkpoint (script_events true true (run_script function)) ++ after
      ≡ invocations (ids 0 count) ++ remaining count after
behind-cut function count after h =
    let whole : 20 ≡ count + (20 - count) = omega (arith, h) in
    let cut_up : invocations (ids 0 20)
        ≡ invocations (ids 0 count) ++ invocations (ids count (20 - count)) =
      ap (λ k. invocations (ids 0 k)) whole
      ∙ (invocations-ids 0 count (20 - count)
          ∙ ap (λ k. invocations (ids 0 count) ++ invocations (ids k (20 - count)))
              (zero-add count)) in
    ap (λ es. es ++ after) (behind-script function)
    ∙ (append_assoc (invocations (ids 0 20)) script_end after
        ∙ (ap (λ es. es ++ (script_end ++ after)) cut_up
            ∙ append_assoc (invocations (ids 0 count)) (invocations (ids count (20 - count)))
                (script_end ++ after)))

-- No event of these invocations ends a setup run.
invocations-AllQuiet :
    (cs : List ℤ) → AllQuiet (invocations cs) × (count_if is_warming_stop (invocations cs) ≡ 0)
unfolding kind
invocations-AllQuiet [] = (tt, refl)
invocations-AllQuiet (c ∷ cs) =
    let (quiet, none_stop) = invocations-AllQuiet cs in ((refl, (refl, quiet)), none_stop)

pub client-AllQuiet :
    let client = client_events true true (pos 20) (pos 5000) true in
    AllQuiet client × (count_if is_warming_stop client ≡ 1)
unfolding kind
client-AllQuiet =
    let (quiet, none_stop) = invocations-AllQuiet (ids 0 20) in
    rw client_lem ((refl, (refl, (refl, quiet))), ap suc none_stop)

pub script_events-guest_events :
    (function : String)
    → script_events true true (run_script function)
      ≡ guest_events (client_events true true (pos 20) (pos 5000) true) (run_script function)
unfolding run_script
script_events-guest_events function = refl
