-- ===== src/Analysis/Simulations/Laws.antt =====
-- What the scan of a log finds, and which simulations rerun.sh starts again.
use v_swarm_u.Base.{
  suc, ◌+◌, ◌≡◌, refl, Bool, false, ◌||◌, Option, none, some, List, [], ◌∷◌, arith, if◌then◌else◌,
  ltb, count_if,
}
use v_swarm_u.Base.Text.{Text, codes, starts_with}
use v_swarm_u.Analysis.Simulations.{
  Scan, scan_start, is_done, is_end, note_command, scan_lines, scan, fail, warn, succeed, status,
  rerun_script, check_all,
}
use v_swarm_u.Base.{map}

-- The lines before the first that says that the simulation is done.
abbrev before_done : List Text → List Text
before_done [] = []
before_done (l ∷ ls) = if is_done l then [] else l ∷ before_done ls

abbrev pub any_done : List Text → Bool
any_done [] = false
any_done (l ∷ ls) = is_done l || any_done ls

scan_lines_lem :
    (s : Scan) (ls : List Text)
    → s.success ≡ false
    → ((scan_lines s ls).success ≡ any_done ls)
      × ((scan_lines s ls).count ≡ s.count + count_if is_end (before_done ls))
unfolding scan_lines
scan_lines_lem s [] h = ground arith
scan_lines_lem s (l ∷ ls) h =
    let t : Scan = record s {
      cmd = note_command s.cmd l;
      count = if is_end l then suc s.count else s.count;
    } in
    ground (arith, scan_lines_lem t ls h)

-- A log counts as a success exactly if some line says "Simulation done"; the count is that of the
-- lines that say "End invokation:" before the first such line, or of all of them if there is none.
pub scan_lem :
    (ls : List Text)
    → ((scan ls).success ≡ any_done ls) × ((scan ls).count ≡ count_if is_end (before_done ls))
unfolding scan
scan_lem ls = ground (arith, scan_lines_lem scan_start ls refl)

-- The logs that there are, in order.
abbrev pub logs : List (Text × Option (List Text)) → List (List Text)
logs [] = []
logs ((_, none) ∷ rest) = logs rest
logs ((_, some lines) ∷ rest) = lines ∷ logs rest

-- A line that the shell takes for a comment.
abbrev pub is_comment : Text → Bool
is_comment line = starts_with (codes "#") line

-- rerun.sh has one line for each subdirectory that has a log, in order, and a line is a comment,
-- so that its simulation is not started again, exactly if that log says "Simulation done".
pub rerun_script_comments :
    (dir : Text) (subdirs : List (Text × Option (List Text)))
    → map is_comment (rerun_script (check_all dir subdirs)) ≡ map any_done (logs subdirs)
unfolding check_all rerun_script starts_with
rerun_script_comments dir [] = refl
rerun_script_comments dir ((_, none) ∷ rest) = rerun_script_comments dir rest
rerun_script_comments dir ((_, some lines) ∷ rest) =
    ground (arith, scan_lem lines, rerun_script_comments dir rest)

-- The verdict: a failure without the line "Simulation done", else a success from 20 invocations on
-- and a warning below.
status-scan :
    (ls : List Text)
    → status (scan ls) ≡ (
        if any_done ls
        then (if ltb (count_if is_end (before_done ls)) 20 then warn else succeed)
        else fail)
unfolding status
status-scan ls = ground (arith, scan_lem ls)
