-- ===== src/CommandLine/RoundTrip.antt =====
-- Every command line that run_sim.tmpl.py can be asked for can be written.
use v_swarm_u.Base.{
  Bool-cases, inl, inr, ap, sym, ◌∙◌, ◌≡◌, ◌≢◌, refl, String, Bool, true, false, some, List, [],
  ◌∷◌, arith,
}
use v_swarm_u.Base.Int.{ℤ}
use v_swarm_u.Base.Text.{codes, show}
use v_swarm_u.Base.Text.Number.{int_of, int_of-show}
use v_swarm_u.Control.{
  Mode, setup, evaluation, SystemKind, simple, skylake, drive, CheckpointName, boot, warm, Args,
  checkpoint_word,
}
use v_swarm_u.CommandLine.Words.{same, same-eq}
use v_swarm_u.CommandLine.{one_of}
use v_swarm_u.CommandLine.Simulation.{parse_run_sim, mode_of, system_of, checkpoint_of}

-- A text behind a fixed one.
abbrev join : String → String → String
join String.[] t = t
join (String.◌∷◌ c s) t = String.◌∷◌ c (join s t)

abbrev pub mode_word : Mode → String
mode_word setup = "setup"
mode_word evaluation = "evaluation"

abbrev pub system_word : SystemKind → String
system_word simple = "simple"
system_word skylake = "skylake"
system_word drive = "drive"

abbrev checkpoint_flag : Bool → List String
checkpoint_flag true = "--take-checkpoints" ∷ []
checkpoint_flag false = []

-- The arguments, where `warming` and `invocations` are the spellings of the two numbers.
abbrev pub command_line : Args → String → String → List String
command_line a warming invocations =
    join "--kernel=" a.kernel
    ∷ join "--disk=" a.disk
    ∷ join "--script=" a.script
    ∷ join "--function=" a.function
    ∷ join "--system=" (system_word a.system)
    ∷ join "--atomic-warming=" warming
    ∷ join "--num-invocations=" invocations
    ∷ join "--mode=" (mode_word a.mode)
    ∷ join "--use-checkpoint=" (checkpoint_word a.use_checkpoint)
    ∷ join "--checkpoint-dir=" a.checkpoint_dir
    ∷ checkpoint_flag a.take_checkpoints

-- The words of the choices are among the choices, and are read as what they stand for.
system_word_lem :
    (s : SystemKind)
    → s ≢ drive
    → (one_of (system_word s) ("simple" ∷ "skylake" ∷ []) ≡ true)
      × (system_of (system_word s) ≡ some s)
      × (same (system_word s) "--" ≡ false)
unfolding one_of system_of same
system_word_lem simple h = (refl, refl, refl)
system_word_lem skylake h = (refl, refl, refl)
system_word_lem drive h = absurd (h refl)

mode_word_lem :
    (m : Mode)
    → (one_of (mode_word m) ("setup" ∷ "evaluation" ∷ []) ≡ true)
      × (mode_of (mode_word m) ≡ some m)
      × (same (mode_word m) "--" ≡ false)
unfolding one_of mode_of same
mode_word_lem setup = (refl, refl, refl)
mode_word_lem evaluation = (refl, refl, refl)

checkpoint_word_lem :
    (c : CheckpointName)
    → (one_of (checkpoint_word c) ("boot" ∷ "warm" ∷ []) ≡ true)
      × (checkpoint_of (checkpoint_word c) ≡ some c)
      × (same (checkpoint_word c) "--" ≡ false)
unfolding one_of checkpoint_of same
checkpoint_word_lem boot = (refl, refl, refl)
checkpoint_word_lem warm = (refl, refl, refl)

-- None of the texts is `--`.
pub record Plain (a : Args) : Type 0 where
  pub kernel : same a.kernel "--" ≡ false
  pub disk : same a.disk "--" ≡ false
  pub script : same a.script "--" ≡ false
  pub function : same a.function "--" ≡ false
  pub checkpoint_dir : same a.checkpoint_dir "--" ≡ false

-- What is read as a number is not `--`.
number-Plain : (s : String) (n : ℤ) → int_of (codes s) ≡ some n → same s "--" ≡ false
unfolding int_of
number-Plain s n h = elim (Bool-cases (same s "--")) [
  | inl dashes ↦ let e = sym h ∙ ap int_of (same-eq s "--" dashes) in absurd (cc e)
  | inr other ↦ other
]

written :
    (a : Args) (take : Bool) (warming invocations : String)
    → a.system ≢ drive
    → Plain a
    → int_of (codes warming) ≡ some a.atomic_warming
    → int_of (codes invocations) ≡ some a.num_invocations
    → let b : Args = record a { take_checkpoints = take } in
      parse_run_sim (command_line b warming invocations) ≡ some b
unfolding parse_run_sim
written a true ws ns h p hw hn =
    let (s, s', s0) = system_word_lem a.system h in
    let (m, m', m0) = mode_word_lem a.mode in
    let (c, c', c0) = checkpoint_word_lem a.use_checkpoint in
    ground (
      arith,
      hw,
      hn,
      number-Plain ws a.atomic_warming hw,
      number-Plain ns a.num_invocations hn,
      p.kernel,
      p.disk,
      p.script,
      p.function,
      p.checkpoint_dir,
      s,
      s',
      s0,
      m,
      m',
      m0,
      c,
      c',
      c0,
    )
written a false ws ns h p hw hn =
    let (s, s', s0) = system_word_lem a.system h in
    let (m, m', m0) = mode_word_lem a.mode in
    let (c, c', c0) = checkpoint_word_lem a.use_checkpoint in
    ground (
      arith,
      hw,
      hn,
      number-Plain ws a.atomic_warming hw,
      number-Plain ns a.num_invocations hn,
      p.kernel,
      p.disk,
      p.script,
      p.function,
      p.checkpoint_dir,
      s,
      s',
      s0,
      m,
      m',
      m0,
      c,
      c',
      c0,
    )

read_back : (w : String) (n : ℤ) → codes w ≡ show n → int_of (codes w) ≡ some n
read_back w n h = rw h (int_of-show n)

-- For all arguments of run_sim.tmpl.py, whose system is not the driving machine and whose texts
-- are not `--`, which argparse takes for no text: if each is given as
-- `--name=value`, the numbers in decimal digits with their signs, then argparse accepts the command
-- line and the script has these arguments. The texts may be empty, start with a dash, and contain
-- blanks and `=`.
pub parse_run_sim-command_line :
    (a : Args) (warming invocations : String)
    → a.system ≢ drive
    → Plain a
    → codes warming ≡ show a.atomic_warming
    → codes invocations ≡ show a.num_invocations
    → parse_run_sim (command_line a warming invocations) ≡ some a
parse_run_sim-command_line a warming invocations h p hw hn =
    written a a.take_checkpoints warming invocations h p (read_back warming a.atomic_warming hw)
      (read_back invocations a.num_invocations hn)
