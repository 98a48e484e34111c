-- ===== src/Analysis/Results/Csv.antt =====
-- The tables of `to_csv`, read back.
use v_swarm_u.Base.{
  ℕ, ◌≡◌, ◌≢◌, refl, Option, none, some, List, [], ◌∷◌, ◌++◌, map, arith, if◌then◌else◌, ◌==◌,
}
use mathlib.Core.List.{append_assoc, append-nil}
use v_swarm_u.Base.Text.{Text}
use v_swarm_u.Analysis.Results.{
  Field, escape, write_field, write_rest, write_row, write_rows, table, to_csv,
}

-- A reader of the format: at the start of a row or of a field, within quotes, behind a quote within
-- quotes, and behind the first character of a line's end.
pub data State : Type 0 where
  row_start field_start quoted closed returned : State

-- What a character adds to what is read behind it.
pub data Effect : Type 0 where
  keep next_field new_row : Effect
  add : ℕ → Effect

abbrev step : State → ℕ → Option (State × Effect)
step row_start c = if c == b'"' then some (quoted, new_row) else none
step field_start c = if c == b'"' then some (quoted, keep) else none
step quoted c = if c == b'"' then some (closed, keep) else some (quoted, add c)
step closed c =
    if c == b'"'
    then some (quoted, add c)
    else if c == b','
    then some (field_start, next_field)
    else if c == 13
    then some (returned, keep)
    else none
step returned c = if c == 10 then some (row_start, keep) else none

-- What is read: the rest of a field, the rest of its row, and the rows behind it.
pub record Rest : Type 0 where
  pub field : Text
  pub row : List Text
  pub rows : List (List Text)

abbrev apply : Effect → Rest → Rest
apply keep r = r
apply next_field r = record { field = []; row = r.field ∷ r.row; rows = r.rows }
apply new_row r = record { field = []; row = []; rows = (r.field ∷ r.row) ∷ r.rows }
apply (add c) r = record r { field = c ∷ r.field }

abbrev applied : Effect → Option Rest → Option Rest
applied e none = none
applied e (some r) = some (apply e r)

abbrev at_end : State → Option Rest
at_end row_start = some (record { field = []; row = []; rows = [] })
at_end _ = none

unfoldable pub read : State → Text → Option Rest
read st [] = at_end st
read st (c ∷ s) = elim (step st c) [ none ↦ none | some (next, e) ↦ applied e (read next s) ]

-- The rows of a text.
abbrev rows_of : Option Rest → Option (List (List Text))
rows_of none = none
rows_of (some r) = some r.rows

unfoldable pub read_rows : Text → Option (List (List Text))
unfolding read
read_rows s = rows_of (read row_start s)

read-escape :
    (f t : Text) (r : Rest)
    → read closed t ≡ some r
    → read quoted (escape f ++ (b'"' ∷ t)) ≡ some (record r { field = f ++ r.field })
unfolding read escape
read-escape [] t r h = ground (arith, h)
read-escape (c ∷ f) t r h = ground (arith, read-escape f t r h)

-- A field, read behind its opening quote, with what is behind its closing quote.
read-field :
    (f u t : Text) (row : List Text) (rs : List (List Text))
    → read closed (u ++ t) ≡ some (record { field = []; row = row; rows = rs })
    → read quoted (((escape f ++ (b'"' ∷ [])) ++ u) ++ t)
      ≡ some (record { field = f; row = row; rows = rs })
read-field f u t row rs h =
    rw (append_assoc (escape f ++ (b'"' ∷ [])) u t, append_assoc (escape f) (b'"' ∷ []) (u ++ t))
      (rw (read-escape f (u ++ t) _ h, append-nil f) refl)

read-rest :
    (fs : List Text) (t : Text) (rs : List (List Text))
    → read row_start t ≡ some (record { field = []; row = []; rows = rs })
    → read closed (write_rest fs ++ t) ≡ some (record { field = []; row = fs; rows = rs })
unfolding read write_rest write_field
read-rest [] t rs h = ground (arith, h)
read-rest (f ∷ fs) t rs h = rw (read-field f (write_rest fs) t fs rs (read-rest fs t rs h)) refl

read-row :
    (f : Text) (fs : List Text) (t : Text) (rs : List (List Text))
    → read row_start t ≡ some (record { field = []; row = []; rows = rs })
    → read row_start (write_row (f ∷ fs) ++ t)
      ≡ some (record { field = []; row = []; rows = (f ∷ fs) ∷ rs })
unfolding read write_row write_field
read-row f fs t rs h = rw (read-field f (write_rest fs) t fs rs (read-rest fs t rs h)) refl

-- Every row has a field.
abbrev Filled : List (List Text) → Type 0
Filled [] = Unit
Filled (row ∷ rows) = (row ≢ []) × Filled rows

read-rows :
    (rows : List (List Text))
    → Filled rows
    → read row_start (write_rows rows) ≡ some (record { field = []; row = []; rows = rows })
read-rows [] h = unfold read in refl
read-rows ([] ∷ rows) h = absurd (h.0 refl)
read-rows ((f ∷ fs) ∷ rows) h = read-row f fs (write_rows rows) rows (read-rows rows h.1)

rows-Filled :
    {R : Type 0} (results : List R) (f : Field R Text) (fields : List (Field R Text))
    → Filled (map (λ r. map (λ g. g.extract r) (f ∷ fields)) results)
rows-Filled [] f fields = tt
rows-Filled (r ∷ results) f fields = ((λ e. absurd (cc e)), rows-Filled results f fields)

-- The file that is written for a list of results and of at least one field is read back, by the
-- reader of the format, as the header with the names of the fields and one row for each result, in
-- order, with the texts that were extracted, whatever commas, quotes and line ends they hold.
pub read_rows-to_csv :
    {R : Type 0} (results : List R) (f : Field R Text) (fields : List (Field R Text))
    → read_rows (to_csv results (f ∷ fields))
      ≡ some
          (map (λ g. g.name) (f ∷ fields) ∷ map (λ r. map (λ g. g.extract r) (f ∷ fields)) results)
unfolding read_rows to_csv
read_rows-to_csv results f fields =
    rw (read-rows (table results (f ∷ fields)) ((λ e. absurd (cc e)), rows-Filled results f fields))
      refl
