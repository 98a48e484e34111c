-- ===== src/Campaign/Measurement.antt =====
-- A setup run and a measurement of run_sim.py with the guest that runs the client.
use v_swarm_u.Base.{
  ℕ, suc, ◌+◌, ◌<◌, ◌≤◌, ◌≡◌, refl, String, true, false, some, List, [], ◌∷◌, ◌++◌, arith, length,
  count_if,
}
use v_swarm_u.Base.Int.{ℤ, pos, pos_part}
use v_swarm_u.Base.{map, range}
use v_swarm_u.Base.Text.{codes}
use v_swarm_u.Control.{
  checkpoint_word, say, prepare_cpu, instantiate, Args, evaluation, ExitEvent, Counters, Action,
  Run, dump_stats, kind, truthy,
}
use v_swarm_u.Control.Actions.{is_dump}
use v_swarm_u.Control.RunSim.{
  main, prepare, evaluate, evaluation_counters, simulate, run_script, handle, checkpoint_path,
}
use v_swarm_u.Control.RunSim.Protocol.{
  begin_event, end_event, invocations, Finished, protocol, main-Finished,
}
use v_swarm_u.Campaign.Client.{
  ids, length-ids, script_end, remaining, behind-script, behind-cut, append_assoc,
}
use v_swarm_u.Campaign.{script_events, behind_checkpoint}

abbrev pub dumps : List Action → ℕ
dumps actions = count_if is_dump actions

dumps-append : (xs ys : List Action) → dumps (xs ++ ys) ≡ dumps xs + dumps ys
dumps-append [] ys = omega arith
dumps-append (dump_stats ∷ xs) ys = omega (arith, dumps-append xs ys)
dumps-append (_ ∷ xs) ys = dumps-append xs ys

-- The counters still ask for more than k ends of invocations.
pub record AsksFor (k : ℕ) (s : Counters) : Type 0 where
  pub more : k < pos_part s.inv_to_warm + pos_part s.inv_to_measure
  pub measures : 0 < pos_part s.inv_to_measure

pub begin_step :
    (args : Args) (c : ℤ) (k : ℕ) (s : Counters)
    → args.mode ≡ evaluation
    → AsksFor k s
    → let o = handle args (begin_event c) s in
      (truthy o.result ≡ false) × (dumps o.actions ≡ 0) × AsksFor k o.counters
unfolding handle kind
begin_step args c k s m h = ground (arith, m)

pub end_step :
    (args : Args) (c : ℤ) (k : ℕ) (s : Counters)
    → args.mode ≡ evaluation
    → AsksFor (suc k) s
    → let o = handle args (end_event c) s in
      (truthy o.result ≡ false) × (dumps o.actions ≡ 0) × AsksFor k o.counters
unfolding handle kind
end_step args c k s m h = ground (arith, m)

-- The loop has ended, and has dumped no statistics.
abbrev pub Unmeasured : Run → List ExitEvent → Type 0
Unmeasured r after = (r.exited ≡ true) × (r.unread ≡ after) × (dumps r.actions ≡ 0)

go_on :
    (args : Args) (e : ExitEvent) (s : Counters) (es after : List ExitEvent)
    → truthy (handle args e s).result ≡ false
    → dumps (handle args e s).actions ≡ 0
    → Unmeasured (simulate args (handle args e s).counters es) after
    → Unmeasured (simulate args s (e ∷ es)) after
unfolding simulate
go_on args e s es after a b (x, y, z) =
    let o = handle args e s in
    ground (arith, a, b, x, y, z, dumps-append o.actions (simulate args o.counters es).actions)

-- The end of the run script ends the loop, whatever the counters are.
simulate_end :
    (args : Args) (s : Counters) (after : List ExitEvent)
    → Unmeasured (simulate args s (script_end ++ after)) after
unfolding simulate handle kind
simulate_end args s after = (refl, refl, refl)

-- Too few invocations: the loop reads them all, and is ended by the run script.
simulate_short :
    (args : Args) (s : Counters) (cs : List ℤ) (after : List ExitEvent)
    → args.mode ≡ evaluation
    → AsksFor (length cs) s
    → Unmeasured (simulate args s (invocations cs ++ (script_end ++ after))) after
simulate_short args s [] after m h = simulate_end args s after
simulate_short args s (c ∷ cs) after m h =
    let o = handle args (begin_event c) s in
    let p = handle args (end_event c) o.counters in
    let (a, b, k) = begin_step args c (length (c ∷ cs)) s m h in
    let (a', b', k') = end_step args c (length cs) o.counters m k in
    go_on args (begin_event c) s _ after a b (
      go_on args (end_event c) o.counters _ after a' b'
        (simulate_short args p.counters cs after m k'))

pub evaluation_counters-AsksFor :
    (args : Args) (w n : ℕ)
    → args.atomic_warming ≡ pos w
    → args.num_invocations ≡ pos (suc n)
    → 20 < w + suc n
    → AsksFor 20 (evaluation_counters args)
evaluation_counters-AsksFor args w n hw hn h = ground (arith, hw, hn, h)

dumps-prepare : (args : Args) (outdir : String) → dumps (prepare args outdir) ≡ 0
unfolding prepare
dumps-prepare args outdir = ground arith

main-Unmeasured :
    (args : Args) (outdir : String) (first : ExitEvent) (events after : List ExitEvent)
    → args.mode ≡ evaluation
    → Unmeasured (simulate args (evaluation_counters args) events) after
    → Unmeasured (main args outdir (first ∷ events)) after
unfolding main evaluate
main-Unmeasured args outdir first events after m (x, y, z) =
    let ckp = checkpoint_path args (checkpoint_word args.use_checkpoint) in
    let behind : List Action =
      say (codes "--- Evaluation Mode ---")
      ∷ say (codes "Instantiate checkpoint:  " ++ codes ckp)
      ∷ (map prepare_cpu (range 2) ++ (instantiate (some ckp) ∷ [])) in
    let s = evaluation_counters args in
    ground (
      arith,
      m,
      x,
      y,
      z,
      dumps-prepare args outdir,
      dumps-append (prepare args outdir) behind,
      dumps-append (prepare args outdir ++ behind) (evaluate args (first ∷ events)).actions,
    )

module _ (args : Args) (outdir function : String) (first : ExitEvent) (w n : ℕ)
    (resumed after : List ExitEvent) where
  -- A measurement with `--atomic-warming` w and `--num-invocations` n + 1, from the checkpoint of a
  -- guest that runs the run script as root, whose client connects: gem5 goes on with the events
  -- behind the failure code 32. If w + n + 1 is at most 20, which is what the run script asks the
  -- client for, the script ends by itself right after that many invocations, with the switches, the
  -- reset and the dump of `protocol`, and the others are unread.
  pub measurement-Finished :
      args.mode ≡ evaluation
      → args.atomic_warming ≡ pos w
      → args.num_invocations ≡ pos (suc n)
      → resumed ≡ behind_checkpoint (script_events true true (run_script function)) ++ after
      → w + suc n ≤ 20
      → Finished (main args outdir (first ∷ resumed)) (protocol w) (remaining (w + suc n) after)
  measurement-Finished m hw hn h enough =
      rw (h, behind-cut function (w + suc n) after enough)
        (main-Finished args outdir first w n (ids 0 (w + suc n)) (remaining (w + suc n) after) m hw
          hn (length-ids 0 (w + suc n)))

  -- A measurement with `--atomic-warming` w and `--num-invocations` n + 1, where w + n + 1 is above
  -- 20, from the checkpoint of a guest that runs the run script as root, whose client connects: gem5
  -- goes on with the events behind the failure code 32. The script is ended by the end of the guest's
  -- run script, with the later events unread, and has dumped no statistics.
  pub measurement-Unmeasured :
      args.mode ≡ evaluation
      → args.atomic_warming ≡ pos w
      → args.num_invocations ≡ pos (suc n)
      → resumed ≡ behind_checkpoint (script_events true true (run_script function)) ++ after
      → 20 < w + suc n
      → Unmeasured (main args outdir (first ∷ resumed)) after
  measurement-Unmeasured m hw hn h many = main-Unmeasured args outdir first resumed after m (
      rw (h, behind-script function, append_assoc (invocations (ids 0 20)) script_end after)
        (simulate_short args (evaluation_counters args) (ids 0 20) after m
          (evaluation_counters-AsksFor args w n hw hn many)))
