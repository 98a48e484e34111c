-- ===== src/Analysis/Notebook/Laws.antt =====
-- The table of the notebook, from the lines of the files.
use v_swarm_u.Base.{◌≡◌, refl, true, Option, none, some, List, [], ◌∷◌, map}
use v_swarm_u.Base.Int.{ℤ}
use v_swarm_u.Base.Text.{Text, codes, text_eqb}
use v_swarm_u.Analysis.Stats.Laws.{sections, note_all, read_stats_lem}
use v_swarm_u.Analysis.Results.{
  ExperimentResults, parse_result, read_configs, get_stat, Cell, raw, data_row, to_pandas,
}
use v_swarm_u.Analysis.Notebook.Sections.{
  last_value, first_section, get_stat-section, dump-sections,
}
use v_swarm_u.Analysis.Notebook.{
  folder_of, Extracted, CoreModel, simple, detailed, insts_key, read_raw_data, data_frame,
  stats_per_core_model, all_extract, extracts, prop, stat, int_of,
}

abbrev insts_of : CoreModel → Text
insts_of simple = codes "system.cpu1.exec_context.thread_0.numInsts"
insts_of detailed = codes "system.cpu1.numInsts"

-- A row of the table: the name of the benchmark, and the last value of each of the four keys.
abbrev pub row_of :
    (Text → Option (Text × Text)) → CoreModel → Text → List Text → List (Cell Extracted)
row_of parse model name ls =
    raw (some (some name))
    ∷ raw (some (last_value parse (codes "system.cpu1.numCycles") ls))
    ∷ raw (some (last_value parse (insts_of model) ls))
    ∷ raw (some (last_value parse (codes "system.cpu1.ipc") ls))
    ∷ raw (some (last_value parse (codes "system.cpu1.cpi") ls))
    ∷ []

abbrev pub columns : List (Text × Text)
columns =
    (codes "Benchmark", codes "str")
    ∷ (codes "Cycles", codes "int")
    ∷ (codes "Instructions", codes "int")
    ∷ (codes "IPC", codes "float")
    ∷ (codes "CPI", codes "float")
    ∷ []

cons-same : {A : Type 0} {x y : A} {xs ys : List A} → x ∷ xs ≡ y ∷ ys → (x ≡ y) × (xs ≡ ys)
cons-same h = (cc, cc)

module _ (Json : Type 0) (load : Text → Option Json) (parse : Text → Option (Text × Text))
    (config : Text → Option Text) (lines : Text → Option (List Text)) (line : Text → Text)
    (more : Text → List Text) where
  -- The results of a benchmark whose stats.txt has the line `line name` and then `more name`.
  abbrev result : Text → ExperimentResults Json
  result name = record {
    configs = read_configs Json load (config (folder_of name));
    stats = map (note_all parse []) (sections (line name ∷ more name));
    props = (codes "benchmark", name) ∷ [];
  }

  parse_result-result :
      (name : Text)
      → lines (folder_of name) ≡ some (line name ∷ more name)
      → parse_result Json load parse
          (config (folder_of name))
          (lines (folder_of name))
          ((codes "benchmark", name) ∷ [])
        ≡ some (result name)
  unfolding parse_result
  parse_result-result name h = rw (h, read_stats_lem parse (line name ∷ more name)) refl

  read_raw_data-result :
      (names : List Text)
      → map (λ name. lines (folder_of name)) names
        ≡ map (λ name. some (line name ∷ more name)) names
      → read_raw_data Json load parse config lines names ≡ some (map result names)
  unfolding read_raw_data
  read_raw_data-result [] h = refl
  read_raw_data-result (name ∷ names) h =
      let (first, others) = cons-same h in
      rw (read_raw_data, parse_result-result name first, read_raw_data-result names others) refl

  prop-result : (name : Text) → prop Json (codes "benchmark") (result name) ≡ some (some name)
  unfolding prop get_stat text_eqb
  prop-result name = refl

  stat-result :
      (name k : Text)
      → stat Json k (result name)
        ≡ some (last_value parse k (first_section (line name ∷ more name)))
  unfolding stat
  stat-result name k =
      rw
        (
          stat,
          dump-sections parse (line name) (more name),
          get_stat-section parse (first_section (line name ∷ more name)) k,
        )
        refl

  insts_key-insts_of : (model : CoreModel) → insts_key Json model ≡ insts_of model
  insts_key-insts_of simple = refl
  insts_key-insts_of detailed = refl

  extracts-result :
      (model : CoreModel) (name : Text)
      → extracts Json (stats_per_core_model Json model) (result name) ≡ true
  unfolding extracts stats_per_core_model
  extracts-result model name =
      rw
        (
          extracts,
          stat-result name (codes "system.cpu1.numCycles"),
          stat-result name (insts_key Json model),
          stat-result name (codes "system.cpu1.ipc"),
          stat-result name (codes "system.cpu1.cpi"),
        )
        refl

  data_row-result :
      (int : Text → Option ℤ) (model : CoreModel) (name : Text)
      → int name ≡ none
      → data_row (int_of int) (result name) (stats_per_core_model Json model)
        ≡ row_of parse model name (first_section (line name ∷ more name))
  unfolding stats_per_core_model
  data_row-result int model name h =
      rw
        (
          h,
          stat-result name (codes "system.cpu1.numCycles"),
          stat-result name (insts_key Json model),
          stat-result name (codes "system.cpu1.ipc"),
          stat-result name (codes "system.cpu1.cpi"),
          insts_key-insts_of model,
        )
        refl

  all_extract-result :
      (model : CoreModel) (names : List Text)
      → all_extract Json (stats_per_core_model Json model) (map result names) ≡ true
  unfolding all_extract
  all_extract-result model [] = refl
  all_extract-result model (name ∷ names) =
      rw (all_extract, extracts-result model name, all_extract-result model names) refl

  rows-result :
      (int : Text → Option ℤ) (model : CoreModel) (names : List Text)
      → map int names ≡ map (λ name. none) names
      → map (λ r. data_row (int_of int) r (stats_per_core_model Json model)) (map result names)
        ≡ map (λ name. row_of parse model name (first_section (line name ∷ more name))) names
  rows-result int model [] h = refl
  rows-result int model (name ∷ names) h =
      let (first, others) = cons-same h in
      rw (data_row-result int model name first, rows-result int model names others) refl

  -- For either model of a core and any list of benchmarks: if the stats.txt of each has at least one
  -- line, and the name of none is a number, then no lookup raises, and the notebook's table, or its
  -- exception, is what pandas makes of the five columns with their types and of a row for each
  -- benchmark, in their order. The row that pandas is given has the name and, for each of the four
  -- keys, the value of the last line of the first section with that key, or `None` if there is no
  -- such line. All these values are given as they were read, since `int` fails on the name: it is
  -- left to the types of the columns to make numbers of them.
  pub data_frame-rows :
      {Frame : Type 0}
      (typed_frame : List Text → List (Text × Text) → List (List (Cell Extracted)) → Option Frame)
      (int : Text → Option ℤ) (model : CoreModel) (names : List Text)
      → map (λ name. lines (folder_of name)) names
        ≡ map (λ name. some (line name ∷ more name)) names
      → map int names ≡ map (λ name. none) names
      → data_frame Json load parse config lines typed_frame int model names
        ≡ typed_frame
            (map (λ c. c.0) columns)
            columns
            (map (λ name. row_of parse model name (first_section (line name ∷ more name))) names)
  unfolding data_frame
  data_frame-rows typed_frame int model names files no_number =
      rw
        (
          data_frame,
          read_raw_data-result names files,
          all_extract-result model names,
          to_pandas,
          rows-result int model names no_number,
        )
        refl
