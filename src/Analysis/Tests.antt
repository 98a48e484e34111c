-- ===== src/Analysis/Tests.antt =====
-- The check of the logs on concrete logs, and the theorems at concrete data.
use v_swarm_u.Base.{◌++◌, ◌≡◌, refl, true, false, none, some, Option, List, [], ◌∷◌, map}
use v_swarm_u.Base.Int.{ℤ, pos}
use v_swarm_u.Base.Text.{Text, codes, text_eqb}
use v_swarm_u.Control.{evaluation, simple, warm, Args, ExitEvent, Counters, kind}
use v_swarm_u.Control.RunSim
use v_swarm_u.Base.{◌==◌, Bool, not, if◌then◌else◌}
use v_swarm_u.Analysis.Stats.{is_section_end, read_stats, find_stats, found}
use v_swarm_u.Analysis.Stats.Laws.{note_all, sections, read_stats_lem}
use mathlib.Core.List.Permᴰ.{swap}
use v_swarm_u.Analysis.Stats.{Folder}
use v_swarm_u.Analysis.Stats.Group.{find_stats_group}
use v_swarm_u.Analysis.Stats.Order.{is_sorted, names_of, find_stats_group-Perm}
use v_swarm_u.Analysis.Stats.Cache.{Event, written, looked_up, empty, after, find_stats-current}
use v_swarm_u.Analysis.Results.{Field, Cell, raw, to_csv, write_row}
use v_swarm_u.Analysis.Results.Csv.{read_rows, read_rows-to_csv}
use v_swarm_u.Analysis.Notebook.{benchmarks, data_frame, Extracted, simple as simple_core}
use v_swarm_u.Analysis.Notebook.Sections.{first_section}
use v_swarm_u.Analysis.Notebook.Laws.{columns, row_of, data_frame-rows}
use v_swarm_u.Analysis.Simulations.{scan, is_done, note_command, check_all, rerun_script, is_end}
use v_swarm_u.Analysis.Simulations.Laws.{any_done, is_comment, logs}
use v_swarm_u.Analysis.Simulations.Lines.{printed}
use v_swarm_u.Analysis.Simulations.Folder.{
  is_failure, line_text, report, with_logs, check, check_lem,
}
use v_swarm_u.Base.Text.{in_text, text_eqb}
use v_swarm_u.Analysis.Stats.Group.{sort, join}
use v_swarm_u.Base.{select, not}
use v_swarm_u.Analysis.Simulations.Agreement.{ends_read, scan-simulate}

abbrev log : List Text
log =
    codes "command line:  gem5 run.py"
    ∷ codes "End invokation: 1"
    ∷ codes "Simulation done."
    ∷ codes "End invokation: 2"
    ∷ []

scan-log : scan log ≡ record { cmd = codes "gem5 run.py"; success = true; count = 1 }
unfolding scan is_done note_command is_end
scan-log = refl

abbrev ends_go : Text → Bool
ends_go = in_text (codes "-go")

-- Every folder but that of auth-go has the log.
abbrev log_at : Text → Option (List Text)
log_at path = if in_text (codes "auth-go") path then none else some log

abbrev names : List Text
names = codes "aes-go" ∷ codes "notes" ∷ codes "auth-go" ∷ []

check_lem_example :
    let found =
      with_logs ends_go log_at
        (codes "results/")
        (sort (select (λ s. ends_go (join (codes "results/") s)) names)) in
    let rerun = rerun_script (check_all (codes "results/") found) in
    (check ends_go log_at (codes "results/") (codes "notes" ∷ codes "aes-go" ∷ codes "auth-go" ∷ [])
      ≡ record { printed = map line_text (report found); rerun = rerun })
    × (map is_comment rerun ≡ map any_done (logs found))
    × (map (λ l. is_failure l.verdict) (report found) ≡ map (λ ls. not (any_done ls)) (logs found))
check_lem_example =
    check_lem ends_go log_at (codes "results/") names
      (codes "notes" ∷ codes "aes-go" ∷ codes "auth-go" ∷ []) refl (swap refl refl)

-- Without the slash at its end, the directory in the folder is not found.
no_slash :
    check
      (text_eqb (codes "results/aes-go"))
      (λ path. some log)
      (codes "results")
      (codes "aes-go" ∷ [])
    ≡ record { printed = []; rerun = [] }
unfolding check text_eqb sort
no_slash = refl

abbrev args : Args
args = record {
  kernel = "vmlinux";
  disk = "disk.img";
  script = "";
  function = "aes-go";
  system = simple;
  atomic_warming = pos 0;
  num_invocations = pos 1;
  mode = evaluation;
  take_checkpoints = false;
  use_checkpoint = warm;
  checkpoint_dir = "cpt";
}

abbrev counters : Counters
counters = record { inv_to_warm = pos 0; inv_to_measure = pos 1 }

abbrev work : List ExitEvent
work =
    record { cause = "workbegin"; code = pos 100 }
    ∷ record { cause = "workend"; code = pos 100 }
    ∷ []

scan-simulate_example : scan (printed (RunSim.simulate args counters work).actions) ≡ record {
  cmd = [];
  success = false;
  count = ends_read (RunSim.simulate args counters work) work;
}
unfolding kind
scan-simulate_example = scan-simulate args counters work refl (refl, (refl, tt))

-- A parser that takes a line of two words apart at its space.
abbrev two_words : Text → Option (Text × Text)
two_words [] = none
two_words (c ∷ rest) =
    if c == 32
    then some ([], rest)
    else elim (two_words rest) [ none ↦ none | some (k, v) ↦ some (c ∷ k, v) ]

abbrev stats_lines : List Text
stats_lines =
    codes "ticks 5" ∷ codes "ticks 7" ∷ codes "End Simulation Statistics" ∷ codes "ticks 9" ∷ []

read_stats_lem_example :
    read_stats two_words (some stats_lines)
    ≡ some (map (note_all two_words []) (sections stats_lines))
read_stats_lem_example = read_stats_lem two_words stats_lines

abbrev history : List Event
history = written [] ∷ looked_up ∷ written stats_lines ∷ []

find_stats-current_example :
    (find_stats two_words 3 (after two_words 0 history empty)).0
    ≡ found (read_stats two_words (some stats_lines))
unfolding find_stats read_stats
find_stats-current_example = find_stats-current two_words history stats_lines 2 refl

abbrev name_field : Field Text Text
name_field = record { name = codes "Benchmark"; extract = λ r. r; dtype = codes "str" }

abbrev note_field : Field Text Text
note_field = record { name = codes "a, b"; extract = λ r. r ++ codes ",1"; dtype = codes "str" }

quoted_row : write_row (codes "a,b" ∷ codes "x" ∷ []) ≡ codes "\"a,b\",\"x\"" ++ (13 ∷ 10 ∷ [])
unfolding write_row
quoted_row = refl

read_rows-to_csv_example :
    read_rows (to_csv (codes "aes" ∷ codes "\"go\"" ∷ []) (name_field ∷ note_field ∷ []))
    ≡ some (
        (codes "Benchmark" ∷ codes "a, b" ∷ [])
        ∷ (codes "aes" ∷ codes "aes,1" ∷ [])
        ∷ (codes "\"go\"" ∷ codes "\"go\",1" ∷ [])
        ∷ [])
read_rows-to_csv_example =
    read_rows-to_csv (codes "aes" ∷ codes "\"go\"" ∷ []) name_field (note_field ∷ [])

-- The lines of two benchmarks, by the paths of their folders and by their names.
abbrev go_lines : List Text
go_lines =
    codes "system.cpu1.numCycles 7"
    ∷ codes "system.cpu1.numCycles 9"
    ∷ codes "system.cpu1.ipc 2"
    ∷ codes "End Simulation Statistics"
    ∷ codes "system.cpu1.numCycles 8"
    ∷ []

abbrev stats_files : Text → Option (List Text)
stats_files path =
    if text_eqb path (codes "../wkdir/results//fibonacci-go")
    then some (codes "---" ∷ go_lines)
    else if text_eqb path (codes "../wkdir/results//fibonacci-nodejs")
    then some (codes "---" ∷ [])
    else none

abbrev behind_first : Text → List Text
behind_first name = if text_eqb name (codes "fibonacci-go") then go_lines else []

abbrev int_one : Text → Option ℤ
int_one t = if text_eqb t (codes "1") then some (pos 1) else none

-- A table whose integer columns may not hold `None`: of both benchmarks, the columns and the rows.
abbrev has_none : List (Cell Extracted) → Bool
has_none [] = false
has_none (raw (some none) ∷ cells) = true
has_none (_ ∷ cells) = has_none cells

abbrev strict_frame :
    List Text → List (Text × Text) → List (List (Cell Extracted)) → Option (List Text)
strict_frame columns dtype [] = some columns
strict_frame columns dtype (row ∷ rows) =
    if has_none row then none else strict_frame columns dtype rows

data_frame-rows_example :
    data_frame Text
      (λ t. some t)
      two_words
      (λ path. none)
      stats_files
      strict_frame
      int_one
      simple_core
      benchmarks
    ≡ strict_frame (map (λ c. c.0) columns) columns (
        map
          (λ name.
            row_of two_words simple_core name (first_section (codes "---" ∷ behind_first name)))
          benchmarks)
unfolding text_eqb
data_frame-rows_example =
    data_frame-rows Text (λ t. some t) two_words (λ path. none) stats_files (λ name. codes "---")
      behind_first strict_frame int_one simple_core benchmarks refl refl

-- The row of the first benchmark, whose second section is not read.
go_row :
    row_of two_words simple_core (codes "fibonacci-go") (first_section go_lines)
    ≡ raw (some (some (codes "fibonacci-go")))
      ∷ raw (some (some (codes "9")))
      ∷ raw (some none)
      ∷ raw (some (some (codes "2")))
      ∷ raw (some none)
      ∷ []
unfolding text_eqb is_section_end
go_row = refl

abbrev folders : Text → Folder
folders path =
    if text_eqb path (codes "res/a-go")
    then record { file = some (stats_lines, 1); pickled = none }
    else record { file = some (go_lines, 1); pickled = none }

abbrev is_folder : Text → Bool
is_folder path = not (text_eqb path (codes "res/log"))

find_stats_group-Perm_example :
    (find_stats_group two_words is_folder folders 2
        (codes "res/")
        (codes "b-go" ∷ codes "a-go" ∷ codes "log" ∷ [])
      ≡ find_stats_group two_words is_folder folders 2
          (codes "res/")
          (codes "a-go" ∷ codes "b-go" ∷ codes "log" ∷ []))
    × (is_sorted (
          names_of (
            find_stats_group two_words is_folder folders 2
              (codes "res/")
              (codes "b-go" ∷ codes "a-go" ∷ codes "log" ∷ [])))
        ≡ true)
find_stats_group-Perm_example =
    find_stats_group-Perm two_words is_folder folders 2 (codes "res/")
      (codes "b-go" ∷ codes "a-go" ∷ codes "log" ∷ [])
      (codes "a-go" ∷ codes "b-go" ∷ codes "log" ∷ []) (swap refl refl)

group_names :
    names_of (
      find_stats_group two_words is_folder folders 2
        (codes "res/")
        (codes "b-go" ∷ codes "a-go" ∷ codes "log" ∷ []))
    ≡ codes "a-go" ∷ codes "b-go" ∷ []
unfolding find_stats_group find_stats read_stats is_section_end text_eqb
group_names = refl
