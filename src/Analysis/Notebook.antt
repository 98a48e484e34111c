-- ===== src/Analysis/Notebook.antt =====
-- analysis/analyze_results.ipynb: the results of the benchmarks, read and made a table.
pub mod Sections
pub mod Laws
use v_swarm_u.Base.{
  ℕ, zero, suc, Bool, true, false, ◌&&◌, Option, none, some, List, [], ◌∷◌, ◌++◌, if◌then◌else◌,
}
use v_swarm_u.Base.Int.{ℤ}
use v_swarm_u.Base.Text.{Text, codes}
use v_swarm_u.Analysis.Stats.{Dict}
use v_swarm_u.Analysis.Results.{ExperimentResults, parse_result, get_stat, Field, Cell, to_pandas}

abbrev results_path : Text
results_path = codes "../wkdir/results/"

abbrev pub benchmarks : List Text
benchmarks = codes "fibonacci-go" ∷ codes "fibonacci-nodejs" ∷ []

-- `"{}/{}".format(results_path, benchmark)`
abbrev pub folder_of : Text → Text
folder_of benchmark = results_path ++ (b'/' ∷ benchmark)

-- What a lambda of the table returns: `none` is an exception, `some none` the value `None`.
abbrev pub Extracted : Type 0
Extracted = Option (Option Text)

-- `int` of what a lambda returns, over `int` of a text; `int(None)` raises.
abbrev pub int_of : (Text → Option ℤ) → Extracted → Option ℤ
int_of int (some (some t)) = int t
int_of int _ = none

-- The keys of `stats_per_core_model`
pub data CoreModel : Type 0 where
  simple detailed : CoreModel

-- `r.stats[dump_number]`
unfoldable pub dump : ℕ → List Dict → Option Dict
dump n [] = none
dump zero (d ∷ ds) = some d
dump (suc n) (d ∷ ds) = dump n ds

abbrev dump_number : ℕ
dump_number = 0

module _ (Json : Type 0) where
  -- `lambda r: r.props[key]`
  unfoldable pub prop : Text → ExperimentResults Json → Extracted
  unfolding get_stat
  prop key r = elim (get_stat r.props key) [ none ↦ none | some value ↦ some (some value) ]

  -- `lambda r: r.stats[dump_number][key]`
  unfoldable pub stat : Text → ExperimentResults Json → Extracted
  unfolding dump get_stat
  stat key r = elim (dump dump_number r.stats) [ none ↦ none | some d ↦ some (get_stat d key) ]

  abbrev pub insts_key : CoreModel → Text
  insts_key simple = codes "system.cpu1.exec_context.thread_0.numInsts"
  insts_key detailed = codes "system.cpu1.numInsts"

  unfoldable pub stats_per_core_model : CoreModel → List (Field (ExperimentResults Json) Extracted)
  unfolding prop stat
  stats_per_core_model model =
      record { name = codes "Benchmark"; extract = prop (codes "benchmark"); dtype = codes "str" }
      ∷ record {
        name = codes "Cycles";
        extract = stat (codes "system.cpu1.numCycles");
        dtype = codes "int";
      }
      ∷ record {
        name = codes "Instructions";
        extract = stat (insts_key model);
        dtype = codes "int";
      }
      ∷ record {
        name = codes "IPC";
        extract = stat (codes "system.cpu1.ipc");
        dtype = codes "float";
      }
      ∷ record {
        name = codes "CPI";
        extract = stat (codes "system.cpu1.cpi");
        dtype = codes "float";
      }
      ∷ []

  -- Whether no lambda raises on a result, and on all results.
  unfoldable pub extracts :
      List (Field (ExperimentResults Json) Extracted) → ExperimentResults Json → Bool
  extracts [] r = true
  extracts (f ∷ fs) r = elim (f.extract r) [ none ↦ false | some _ ↦ extracts fs r ]

  unfoldable pub all_extract :
      List (Field (ExperimentResults Json) Extracted) → List (ExperimentResults Json) → Bool
  unfolding extracts
  all_extract fields [] = true
  all_extract fields (r ∷ rs) = extracts fields r && all_extract fields rs

  -- The parsers are those of `parse_result`; the files are those of the folders, by their paths.
  module _ (load : Text → Option Json) (parse : Text → Option (Text × Text))
      (config : Text → Option Text) (lines : Text → Option (List Text)) where
    -- The loop that fills `raw_data`; `none` is an exception of `parse_result`.
    unfoldable pub read_raw_data : List Text → Option (List (ExperimentResults Json))
    unfolding parse_result
    read_raw_data [] = some []
    read_raw_data (benchmark ∷ rest) =
        let folder = folder_of benchmark in
        let props : Dict = (codes "benchmark", benchmark) ∷ [] in
        elim (parse_result Json load parse (config folder) (lines folder) props) [
          | none ↦ none
          | some r ↦ elim (read_raw_data rest) [ none ↦ none | some rs ↦ some (r ∷ rs) ]
        ]

    -- The table, or `none` for an exception: one of a lambda within `try` is raised again in
    -- `except`, so it ends the notebook, as one of pandas does.
    unfoldable pub data_frame :
        {Frame : Type 0}
        → (List Text → List (Text × Text) → List (List (Cell Extracted)) → Option Frame)
        → (Text → Option ℤ)
        → CoreModel
        → List Text
        → Option Frame
    unfolding read_raw_data stats_per_core_model all_extract to_pandas
    data_frame typed_frame int model names = elim (read_raw_data names) [
      | none ↦ none
      | some raw_data ↦
          let stats = stats_per_core_model model in
          if all_extract stats raw_data
          then to_pandas (int_of int) typed_frame raw_data stats
          else none
    ]
