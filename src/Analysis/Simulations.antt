-- ===== src/Analysis/Simulations.antt =====
-- analysis/check_simulations.py: reads the gem5 logs of a results folder and writes rerun.sh.
pub mod Laws
pub mod Lines
pub mod Agreement
pub mod Folder
use v_swarm_u.Base.{
  ℕ, suc, ◌+◌, Bool, true, false, Option, none, some, List, [], ◌∷◌, ◌++◌, if◌then◌else◌, ltb, take,
  drop, map,
}
use v_swarm_u.Base.Text.{Text, codes, in_text, text_eqb, strip}

-- The variables of the loop over a log.
pub record Scan : Type 0 where
  pub cmd : Text
  pub success : Bool
  pub count : ℕ

abbrev pub scan_start : Scan
scan_start = record { cmd = []; success = false; count = 0 }

-- `"Simulation done" in line`, `"End invokation:" in line` and the test for the command line
unfoldable pub is_done : Text → Bool
unfolding in_text
is_done line = in_text (codes "Simulation done") line

unfoldable pub is_end : Text → Bool
unfolding in_text
is_end line = in_text (codes "End invokation:") line

unfoldable is_command : Text → Bool
unfolding text_eqb
is_command line = text_eqb (take 14 line) (codes "command line: ")

-- `if line[:14] == "command line: ": cmd = line[14:].strip()`
unfoldable pub note_command : Text → Text → Text
unfolding is_command strip
note_command cmd line = if is_command line then strip (drop 14 line) else cmd

-- The loop over the lines, with its `break`.
unfoldable pub scan_lines : Scan → List Text → Scan
scan_lines s [] = s
scan_lines s (line ∷ lines) =
    let cmd = note_command s.cmd line in
    let count = if is_end line then suc s.count else s.count in
    let rest = scan_lines (record s { cmd = cmd; count = count }) lines in
    if is_done line then record s { cmd = cmd; success = true } else rest

unfoldable pub scan : List Text → Scan
unfolding scan_lines
scan lines = scan_lines scan_start lines

pub data Status : Type 0 where
  fail warn succeed : Status

unfoldable pub status : Scan → Status
status s = if s.success then (if ltb s.count 20 then warn else succeed) else fail

-- What is kept of a subdirectory: whether it succeeded, and the command to run it again.
pub record Rerun : Type 0 where
  pub success : Bool
  pub command : Text

-- `"{}/{}/gem5.log".format(args.dir, subdir)`
abbrev pub log_name : Text → Text → Text
log_name dir subdir = dir ++ (b'/' ∷ (subdir ++ codes "/gem5.log"))

abbrev rerun_of : Text → Text → List Text → Rerun
rerun_of dir subdir lines =
    let s = scan lines in
    record {
      success = s.success;
      command = s.cmd ++ (codes " > " ++ (log_name dir subdir ++ codes " 2>&1 &"));
    }

-- The loop over the sorted subdirectories, each with the lines of its log, or `none` if it has no
-- log.
unfoldable pub check_all : Text → List (Text × Option (List Text)) → List Rerun
unfolding scan
check_all dir [] = []
check_all dir ((subdir, none) ∷ rest) = check_all dir rest
check_all dir ((subdir, some lines) ∷ rest) = rerun_of dir subdir lines ∷ check_all dir rest

-- A line of rerun.sh
unfoldable rerun_line : Rerun → Text
rerun_line r =
    (if r.success then codes "# " else []) ++ (codes " sudo " ++ (r.command ++ (b' ' ∷ 10 ∷ [])))

unfoldable pub rerun_script : List Rerun → List Text
unfolding rerun_line
rerun_script = map rerun_line
