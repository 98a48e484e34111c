-- ===== src/Analysis/Simulations/Folder.antt =====
-- analysis/check_simulations.py as a whole: the folder that it lists, what it prints, and rerun.sh.
use v_swarm_u.Base.{
  ℕ, ◌-◌, ◌≡◌, refl, Bool, true, false, not, Option, none, some, List, [], ◌∷◌, ◌++◌, arith, length,
  map, select, replicate, sym,
}
use mathlib.Core.List.{Permᴰ}
use v_swarm_u.Base.Text.{Text, codes, show_ℕ}
use v_swarm_u.Analysis.Stats.Group.{sort, is_open, join}
use v_swarm_u.Analysis.Stats.Order.{sort-select-Perm}
use v_swarm_u.Analysis.Simulations.{
  scan, Status, fail, warn, succeed, status, log_name, rerun_script, check_all,
}
use v_swarm_u.Analysis.Simulations.Laws.{
  any_done, is_comment, logs, rerun_script_comments, scan_lem,
}

-- What is printed of a subdirectory.
pub record Line : Type 0 where
  pub name : Text
  pub count : ℕ
  pub verdict : Status

abbrev status_text : Status → Text
status_text fail = (27 ∷ codes "[91m fail") ++ (27 ∷ codes "[00m")
status_text warn = (27 ∷ codes "[93m WARN") ++ (27 ∷ codes "[00m")
status_text succeed = (27 ∷ codes "[92m succeed") ++ (27 ∷ codes "[00m")

-- `f"{subdir:>25} > {count} : {status}"`
abbrev right_aligned : ℕ → Text → Text
right_aligned width t = replicate (width - length t) b' ' ++ t

abbrev pub line_text : Line → Text
line_text l =
    right_aligned 25 l.name
    ++ (codes " > " ++ (show_ℕ l.count ++ (codes " : " ++ (status_text l.verdict ++ (10 ∷ [])))))

-- The lines that the loop over the subdirectories prints.
unfoldable pub report : List (Text × Option (List Text)) → List Line
unfolding scan status
report [] = []
report ((subdir, none) ∷ rest) = report rest
report ((subdir, some lines) ∷ rest) =
    let s = scan lines in
    record { name = subdir; count = s.count; verdict = status s } ∷ report rest

pub record Checked : Type 0 where
  pub printed : List Text
  pub rerun : List Text

-- `is_dir` is `os.path.isdir`, and `log` has the lines of the file at a path, if there is one.
module _ (is_dir : Text → Bool) (log : Text → Option (List Text)) where
  -- `subdirs`, of the names that `os.listdir(args.dir)` gives. The name of the folder stands
  -- directly before that of the subdirectory.
  abbrev pub subdirs : Text → List Text → List Text
  subdirs dir names = sort (select (λ s. is_dir (dir ++ s)) names)

  abbrev pub with_logs : Text → List Text → List (Text × Option (List Text))
  with_logs dir = map (λ s. (s, log (log_name dir s)))

  unfoldable pub check : Text → List Text → Checked
  unfolding report check_all rerun_script
  check dir names =
      let found = with_logs dir (subdirs dir names) in
      record { printed = map line_text (report found); rerun = rerun_script (check_all dir found) }

  -- A folder whose name ends with a slash: the subdirectories are the directories in it, and their
  -- order does not depend on that of the names.
  subdirs-join :
      (dir : Text) {ss ts : List Text}
      → is_open dir ≡ true
      → Permᴰ ss ts
      → subdirs dir ts ≡ sort (select (λ s. is_dir (join dir s)) ss)
  subdirs-join dir {ss = ss} {ts = ts} h perm =
      rw h (sym (sort-select-Perm (λ s. is_dir (dir ++ s)) perm))

abbrev pub is_failure : Status → Bool
is_failure fail = true
is_failure _ = false

report-failures :
    (found : List (Text × Option (List Text)))
    → map (λ l. is_failure l.verdict) (report found) ≡ map (λ ls. not (any_done ls)) (logs found)
unfolding report status
report-failures [] = refl
report-failures ((_, none) ∷ rest) = report-failures rest
report-failures ((_, some lines) ∷ rest) = ground (arith, scan_lem lines, report-failures rest)

-- check_simulations.py for a folder whose name ends with a slash, or is empty, and any order in
-- which `os.listdir` gives its names: what it prints and what it writes to rerun.sh is what the loop
-- makes of the directories in it, sorted by their names; it starts exactly those simulations again
-- whose log has no line with "Simulation done", and reports exactly those as failures.
pub check_lem :
    (is_dir : Text → Bool) (log : Text → Option (List Text)) (dir : Text) (ss ts : List Text)
    → is_open dir ≡ true
    → Permᴰ ss ts
    → let found = with_logs is_dir log dir (sort (select (λ s. is_dir (join dir s)) ss)) in
      let rerun = rerun_script (check_all dir found) in
      (check is_dir log dir ts ≡ record { printed = map line_text (report found); rerun = rerun })
      × (map is_comment rerun ≡ map any_done (logs found))
      × (map (λ l. is_failure l.verdict) (report found)
          ≡ map (λ ls. not (any_done ls)) (logs found))
unfolding check
check_lem is_dir log dir ss ts h perm =
    let found = with_logs is_dir log dir (sort (select (λ s. is_dir (join dir s)) ss)) in
    (
      rw (subdirs-join is_dir log dir h perm) refl,
      rerun_script_comments dir found,
      report-failures found,
    )
