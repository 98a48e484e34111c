-- ===== src/Campaign.antt =====
-- The measurement of a function: the shell scripts of simulation/wkdir-tmpl that start gem5 with the
-- command line of run_sim.py, and the client of tools/client, which the guest runs.
pub mod Launch
pub mod Client
pub mod Measurement
pub mod Function
pub mod Log
mod Tests
use v_swarm_u.Base.Text.{Text, codes}
use v_swarm_u.Base.{
  true, not, ◌||◌, ◌==◌, ◌≡◌, ℕ, zero, suc, ◌+◌, String, Bool, false, ◌&&◌, Option, none, some,
  List, [], ◌∷◌, ◌++◌, flat_map, if◌then◌else◌,
}
use v_swarm_u.Base.Int.{ℤ, pos, pos_part, ltb_ℤ}
use v_swarm_u.Control.{ExitEvent, Command, m5_exit, m5_fail, test_client, is_empty}
use v_swarm_u.Control.RunSim.Checkpoints.{is_warming_stop}

-- tools/client/m5/m5ops.go: an instruction is executed only if the memory of the `m5` operations is
-- mapped, which wants root. It makes gem5 return an exit event.
abbrev m5_op : Bool → String → ℕ → List ExitEvent
m5_op mapped cause code = if mapped then record { cause = cause; code = pos code } ∷ [] else []

abbrev fail_op : Bool → ℕ → List ExitEvent
fail_op mapped code = m5_op mapped "m5_fail instruction encountered" code

-- The loop of `invokeFunction`, in round i; a request that fails only prints a warning.
unfoldable pub invoke_from : Bool → ℕ → ℕ → List ExitEvent
invoke_from instrumented i zero = []
invoke_from instrumented i (suc left) =
    m5_op instrumented "workbegin" (100 + i)
    ++ (m5_op instrumented "workend" (100 + i) ++ invoke_from instrumented (i + 1) left)

abbrev invoke_function : Bool → ℤ → List ExitEvent
invoke_function instrumented n = invoke_from instrumented 0 (pos_part n)

-- `warmFunction`; its invocations execute no `m5` instruction.
abbrev warm_function : Bool → ℤ → List ExitEvent
warm_function mapped num_warm =
    fail_op mapped 31 ++ (invoke_function false num_warm ++ fail_op mapped 32)

-- `main` of the client, with `-n`, `-w` and `-m5ops`: `root` says that the instructions are mapped,
-- and `connects` that `client.Init` succeeds; if it does not, the client ends.
unfoldable pub client_events : Bool → Bool → ℤ → ℤ → Bool → List ExitEvent
unfolding invoke_from
client_events root connects num_invoke num_warm m5_enable =
    let mapped = root && m5_enable in
    let work =
      (if ltb_ℤ (pos 0) num_warm then warm_function mapped num_warm else [])
      ++ invoke_function mapped num_invoke in
    fail_op mapped 20 ++ (if connects then work else [])

-- The events of a guest that executes a run script, with the client that is started by it.
abbrev command_events : Bool → Bool → Command → List ExitEvent
command_events root connects m5_exit =
    record { cause = "m5_exit instruction encountered"; code = pos 0 } ∷ []
command_events root connects (m5_fail code) =
    record { cause = "m5_fail instruction encountered"; code = code } ∷ []
command_events root connects (test_client function url n w m5ops) =
    client_events root connects n w m5ops
command_events root connects _ = []

abbrev pub script_events : Bool → Bool → List Command → List ExitEvent
script_events root connects script = flat_map (command_events root connects) script

-- The events behind the first failure code 32, which takes the checkpoint.
abbrev pub behind_checkpoint : List ExitEvent → List ExitEvent
behind_checkpoint [] = []
behind_checkpoint (e ∷ es) = if is_warming_stop e then es else behind_checkpoint es

-- `FN=${1:-fibonacci-go}`, for the argument of the script
abbrev pub function_of : Option String → String
function_of none = "fibonacci-go"
function_of (some name) = if is_empty name then "fibonacci-go" else name

-- The arguments behind `$GEM5_CONFIG` in setup_function.sh and in sim_function.sh. `${FN}` stands
-- there without quotes: `expand` has the words that the shell makes of such a text, which it splits
-- at blanks and expands as a pattern. The scripts for all functions have the same lines.
abbrev pub setup_function : (String → List String) → Option String → List String
setup_function expand name =
    "--kernel"
    ∷ "kernel"
    ∷ "--disk"
    ∷ "disk.img"
    ∷ "--function"
    ∷ (expand (function_of name) ++ ("--mode=setup" ∷ []))

abbrev pub sim_function : (String → List String) → Option String → List String
sim_function expand name =
    "--kernel"
    ∷ "kernel"
    ∷ "--disk"
    ∷ "disk.img"
    ∷ "--function"
    ∷ (expand (function_of name)
        ++ ("--mode=evaluation" ∷ "--atomic-warming" ∷ "10" ∷ "--num-invocation" ∷ "10" ∷ []))

-- A text that has something in it and no character that the shell splits at or expands: a blank, a
-- tab, a line end, `*`, `?`, `[` or a backslash.
abbrev pub is_plain_text : Text → Bool
is_plain_text [] = true
is_plain_text (c ∷ s) =
    not (c == b' ' || (c == 9 || (c == 10 || (c == b'*' || (c == b'?' || (c == b'[' || c == 92))))))
    && is_plain_text s

-- What the shell documents of such a text: it stays one word.
abbrev pub Keeps : (String → List String) → Type 0
Keeps expand =
    (s : String) → is_empty s ≡ false → is_plain_text (codes s) ≡ true → expand s ≡ s ∷ []
