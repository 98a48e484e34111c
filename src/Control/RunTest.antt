-- ===== src/Control/RunTest.antt =====
-- test/run_sim_test.py: the script that boots a machine and measures a few invocations as a test.
pub mod Laws
use text.Mathlib.Text.{◌==◌ as str_eq}
use v_swarm_u.Base.{
  ℕ, String, ◌<>◌, Bool, true, false, ◌||◌, Option, none, some, List, [], ◌∷◌, ◌++◌, if◌then◌else◌,
}
use v_swarm_u.Base.Int.{ℤ, pos, negsuc, eqb_ℤ}
use v_swarm_u.Base.Text.{codes, show}
use v_swarm_u.Control.{
  Args, testsys, ExitEvent, Command, m5_fail, echo, compose_up, compose_down, pin_function, sleep,
  test_client, Action, say, create_system, write_script, set_readfile, set_sim_quantum, instantiate,
  reset_stats, dump_stats, pr_green, pr_yellow, lookup_code, fail_kind, interrupt_kind, kind,
  is_empty,
}

-- `writeRunScript`. The two clients run for the warming and for the measurement; a 0 stands for the
-- `-w` that they are not given. The last test of the script, which prints whether all commands
-- succeeded, is left out.
unfoldable pub run_script : String → List Command
run_script function =
    m5_fail (pos 1)
    ∷ echo (codes "Start the container...")
    ∷ compose_up function
    ∷ m5_fail (pos 2)
    ∷ echo (codes "Pin to core 1")
    ∷ pin_function 1
    ∷ sleep 5
    ∷ m5_fail (pos 3)
    ∷ test_client function "localhost" (pos 5000) (pos 0) false
    ∷ m5_fail (pos 4)
    ∷ m5_fail (pos 10)
    ∷ test_client function "localhost" (pos 5) (pos 0) false
    ∷ m5_fail (pos 11)
    ∷ compose_down
    ∷ m5_fail (pos 6)
    ∷ sleep 5
    ∷ m5_fail (negsuc 0)
    ∷ []

-- `FAIL_CODES` of this script.
abbrev test_codes : List (ℤ × String)
test_codes =
    (pos 1, "1: BOOTING complete")
    ∷ (pos 2, "2: Started container")
    ∷ (pos 3, "3: Pinned container")
    ∷ (pos 4, "4: Warming done")
    ∷ (pos 6, "6: Container stop")
    ∷ (pos 10, "10: Start invoking")
    ∷ (pos 11, "11: Stop invoking")
    ∷ (negsuc 0, "Exit simulation")
    ∷ []

-- How the script ends: `exit` with a code, or with the AttributeError of a missing method.
pub data Ending : Type 0 where
  exited : ℕ → Ending
  no_attribute : String → Ending

-- What a handler asks for, the methods of the system that it calls, and whether it ends the script.
pub record Handled : Type 0 where
  pub actions : List Action
  pub calls : List String
  pub ending : Option Ending

-- The script after a list of events; `none` while it still runs.
pub record TestRun : Type 0 where
  pub actions : List Action
  pub calls : List String
  pub ending : Option Ending

-- The methods that the classes of gem5utils/systems/simple and gem5utils/systems/skylake define.
abbrev pub methods : List String
methods =
    "getHostParallel" ∷ "createCPU" ∷ "switchToAtomicCpu" ∷ "switchToMainCpu" ∷ "setDiskImage"
    ∷ "createCacheHierarchy" ∷ "connectCPUDirectly" ∷ "createMemoryControllers" ∷ "setupInterrupts"
    ∷ "flushCaches" ∷ "createSimpleMemoryController" ∷ "createMemoryController"
    ∷ "_createMemoryControllers" ∷ "_getInterleaveRanges" ∷ []

abbrev is_method : String → List String → Bool
is_method name [] = false
is_method name (m ∷ ms) = str_eq name m || is_method name ms

-- `inherited` says which further methods a system has from gem5's `System`.
module _ (inherited : String → Bool) where
  -- `system.name()` after `before`, and then `rest`.
  abbrev call_then : String → List Action → List Action → Handled
  call_then name before rest =
      if is_method name methods || inherited name
      then record { actions = before ++ rest; calls = name ∷ []; ending = none }
      else record { actions = before; calls = []; ending = some (no_attribute name) }

  unfoldable pub execute_m5_fail_code : ℤ → Handled
  execute_m5_fail_code code = elim (lookup_code code test_codes) [
    | none ↦ record {
      actions = say (codes "Nothing to do for fail code: %s " ++ show code) ∷ [];
      calls = [];
      ending = none;
    }
    | some message ↦
        if eqb_ℤ code (pos 10)
        then call_then "switchToDetailedCpus"
            (pr_yellow (codes message) ∷ say (codes "Switch detailed core") ∷ []) (reset_stats ∷ [])
        else if eqb_ℤ code (pos 11)
        then call_then "switchToKvmCpus"
            (pr_yellow (codes message) ∷ say (codes "Switch to kvm core") ∷ [])
            (dump_stats ∷ reset_stats ∷ [])
        else if eqb_ℤ code (negsuc 0)
        then record {
          actions = pr_yellow (codes message) ∷ pr_green (codes "Simulation done.") ∷ [];
          calls = [];
          ending = some (exited 0);
        }
        else record { actions = pr_yellow (codes message) ∷ []; calls = []; ending = none }
  ]

  -- One round of the loop of `simulate`.
  unfoldable pub handle : ExitEvent → Handled
  unfolding execute_m5_fail_code
  handle e = elim (kind e.cause) [
    | fail_kind ↦ execute_m5_fail_code e.code
    | interrupt_kind ↦ record {
      actions = say (codes "Received user interrupt. Exit simulation") ∷ [];
      calls = [];
      ending = some (exited 1);
    }
    | _ ↦ record {
      actions =
          say (codes "Exit cause: " ++ (codes e.cause ++ (codes " | code: " ++ show e.code))) ∷ [];
      calls = [];
      ending = none;
    }
  ]

  -- `simulate`, over the events that the calls of `m5.simulate()` return.
  unfoldable pub simulate : List ExitEvent → TestRun
  unfolding handle
  simulate [] = record {
    actions = say (codes "Start simulation...") ∷ [];
    calls = [];
    ending = none;
  }
  simulate (e ∷ es) =
      let o = handle e in
      let rest = simulate es in
      let start = say (codes "Start simulation...") in
      elim o.ending [
        | some end ↦ record { actions = start ∷ o.actions; calls = o.calls; ending = some end }
        | none ↦ record {
          actions = start ∷ (o.actions ++ rest.actions);
          calls = o.calls ++ rest.calls;
          ending = rest.ending;
        }
      ]

  -- The main block: a system with two CPUs under KVM, which both classes have as their defaults.
  unfoldable pub main : Args → String → List ExitEvent → TestRun
  unfolding simulate run_script
  main args outdir events =
      let run_sh = outdir <> "/run.sh" in
      let readfile =
        if is_empty args.function
        then set_readfile testsys args.script ∷ []
        else write_script run_sh (run_script args.function) ∷ set_readfile testsys run_sh ∷ [] in
      let r = simulate events in
      record r {
        actions =
            create_system testsys args.system true
            ∷ (readfile ++ (set_sim_quantum 1000000000 ∷ instantiate none ∷ r.actions));
      }
