-- ===== src/Analysis/Results.antt =====
-- analysis/gem5_utils.py: the results of the experiments, and the tables that are made of them.
pub mod Csv
use v_swarm_u.Base.{Option, none, some, List, [], ◌∷◌, ◌++◌, map, zip, if◌then◌else◌, ◌==◌}
use v_swarm_u.Base.Int.{ℤ}
use v_swarm_u.Base.Text.{Text, text_eqb}
use v_swarm_u.Analysis.Stats.{Dict, read_stats}

-- `ExperimentStats.__getitem__`: `none` for a key that is not there.
unfoldable pub get_stat : Dict → Text → Option Text
unfolding text_eqb
get_stat [] index = none
get_stat ((key, value) ∷ d) index = if text_eqb key index then some value else get_stat d index

-- `ExperimentConfigs` over the parsed config.json, or over `None`; `execute` is the query of it.
-- `ExperimentResults` holds the configuration, the sections of the statistics and the properties.
module _ (Json : Type 0) where
  pub record ExperimentResults : Type 0 where
    pub configs : Option Json
    pub stats : List Dict
    pub props : Dict

  -- `ExperimentConfigs.__getitem__`; a query of `None` is an AttributeError.
  abbrev get_config : (Json → Text → Option Text) → Option Json → Text → Option Text
  get_config execute none index = none
  get_config execute (some configs) index = execute configs (b'$' ∷ b'.' ∷ index)

  -- `read_configs`: the parsed text of the file; `None` if it is missing or cannot be parsed.
  abbrev pub read_configs : (Text → Option Json) → Option Text → Option Json
  read_configs load none = none
  read_configs load (some text) = load text

  -- `parse_result`: `none` is the TypeError of the loop over statistics that are `None`.
  unfoldable pub parse_result :
      (Text → Option Json)
      → (Text → Option (Text × Text))
      → Option Text
      → Option (List Text)
      → Dict
      → Option ExperimentResults
  unfolding read_stats
  parse_result load parse config lines props = elim (read_stats parse lines) [
    | none ↦ none
    | some stats ↦
        some (record { configs = read_configs load config; stats = stats; props = props })
  ]

-- A field of a table: its name, how it is taken from a result, and its type.
pub record Field (R V : Type 0) : Type 0 where
  pub name : Text
  pub extract : R → V
  pub dtype : Text

-- `csv.writer` with `QUOTE_ALL`: a field with its quotes doubled, between quotes.
unfoldable pub escape : Text → Text
escape [] = []
escape (c ∷ s) = let rest = escape s in if c == b'"' then c ∷ (c ∷ rest) else c ∷ rest

unfoldable pub write_field : Text → Text
unfolding escape
write_field f = b'"' ∷ (escape f ++ (b'"' ∷ []))

-- The fields behind the first, and the end of the line.
unfoldable pub write_rest : List Text → Text
unfolding write_field
write_rest [] = 13 ∷ 10 ∷ []
write_rest (f ∷ fs) = b',' ∷ (write_field f ++ write_rest fs)

-- `writer.writerow`
unfoldable pub write_row : List Text → Text
unfolding write_rest
write_row [] = 13 ∷ 10 ∷ []
write_row (f ∷ fs) = write_field f ++ write_rest fs

-- The rows of a table, its header first.
abbrev pub table : {R : Type 0} → List R → List (Field R Text) → List (List Text)
table results fields = map (λ f. f.name) fields ∷ map (λ r. map (λ f. f.extract r) fields) results

abbrev pub write_rows : List (List Text) → Text
write_rows [] = []
write_rows (row ∷ rows) = write_row row ++ write_rows rows

-- `to_csv`: the content of the file. What is extracted is the text that Python's `str` makes of it.
unfoldable pub to_csv : {R : Type 0} → List R → List (Field R Text) → Text
unfolding write_row
to_csv results fields = write_rows (table results fields)

-- A cell of the table of `to_pandas`: converted, or as it was extracted.
pub data Cell (V : Type 0) : Type 0 where
  whole : ℤ → Cell V
  raw : V → Cell V

module _ {R V : Type 0} (int : V → Option ℤ) where
  -- `[int(field[1](result)) for field in fields]`; `none` where `int` raises.
  abbrev int_row : R → List (Field R V) → Option (List (Cell V))
  int_row r [] = some []
  int_row r (f ∷ fs) = elim (int (f.extract r)) [
    | none ↦ none
    | some n ↦ elim (int_row r fs) [ none ↦ none | some cells ↦ some (whole n ∷ cells) ]
  ]

  abbrev pub data_row : R → List (Field R V) → List (Cell V)
  data_row r fields = elim (int_row r fields) [
    | none ↦ map (λ f. raw (f.extract r)) fields
    | some cells ↦ cells
  ]

  -- `to_pandas`, over what pandas makes of the columns, the types by column, and the rows, by
  -- `pd.DataFrame(data=data, columns=columns).astype(dtype)`; `none` where it raises.
  unfoldable pub to_pandas :
      {Frame : Type 0}
      → (List Text → List (Text × Text) → List (List (Cell V)) → Option Frame)
      → List R
      → List (Field R V)
      → Option Frame
  to_pandas typed_frame results fields =
      let columns = map (λ f. f.name) fields in
      let dtype = zip columns (map (λ f. f.dtype) fields) in
      typed_frame columns dtype (map (λ r. data_row r fields) results)
