-- ===== src/Analysis/Notebook/Sections.antt =====
-- What a section of the statistics says of a key: its last line with that key.
use v_swarm_u.Base.{
  ◌≡◌, refl, Bool, true, false, Option, none, some, List, [], ◌∷◌, map, arith, if◌then◌else◌, ◌∙◌,
  Bool-cases, inl, inr,
}
use v_swarm_u.Base.Text.{Text, text_eqb}
use v_swarm_u.Release.Files.Laws.{text_eqb-eq}
use v_swarm_u.Analysis.Stats.{Dict, insert, note, is_section_end}
use v_swarm_u.Analysis.Stats.Laws.{sections, push, note_all}
use v_swarm_u.Analysis.Results.{get_stat}
use v_swarm_u.Analysis.Notebook.{dump}

-- What the last line with a key says of it; `none` if no line has it.
abbrev or_else : Option Text → Option Text → Option Text
or_else none other = other
or_else (some v) other = some v

abbrev says : Text → Option (Text × Text) → Option Text
says k none = none
says k (some (key, v)) = if text_eqb key k then some v else none

abbrev pub last_value : (Text → Option (Text × Text)) → Text → List Text → Option Text
last_value parse k [] = none
last_value parse k (l ∷ ls) = or_else (last_value parse k ls) (says k (parse l))

abbrev first_of : List (List Text) → List Text
first_of [] = []
first_of (s ∷ ss) = s

-- The lines of the first section of a file.
abbrev pub first_section : List Text → List Text
first_section ls = first_of (sections ls)

get_stat-insert :
    (k v index : Text) (d : Dict)
    → get_stat (insert k v d) index ≡ (if text_eqb k index then some v else get_stat d index)
unfolding get_stat insert
get_stat-insert k v index [] = refl
get_stat-insert k v index ((key, value) ∷ d) = elim (Bool-cases (text_eqb k key)) [
  | inl same ↦ ground (arith, same, text_eqb-eq k key same)
  | inr other ↦
      ground (arith, other, text_eqb-eq k index, text_eqb-eq key index, get_stat-insert k v index d)
]

or_else-none : (a : Option Text) → or_else a none ≡ a
or_else-none none = refl
or_else-none (some v) = refl

or_else_assoc : (a b c : Option Text) → or_else a (or_else b c) ≡ or_else (or_else a b) c
or_else_assoc none b c = refl
or_else_assoc (some v) b c = refl

module _ (parse : Text → Option (Text × Text)) where
  get_stat-says :
      (said : Option (Text × Text)) (d : Dict) (index : Text)
      → get_stat (elim said [ none ↦ d | some (k, v) ↦ insert k v d ]) index
        ≡ or_else (says index said) (get_stat d index)
  get_stat-says none d index = refl
  get_stat-says (some (k, v)) d index = ground (arith, get_stat-insert k v index d)

  -- A key of a section's dictionary has the value of its last line there.
  get_stat-note_all :
      (ls : List Text) (d : Dict) (k : Text)
      → get_stat (note_all parse d ls) k ≡ or_else (last_value parse k ls) (get_stat d k)
  unfolding note
  get_stat-note_all [] d k = refl
  get_stat-note_all (l ∷ ls) d k =
      rw
        (
          get_stat-note_all ls (note parse l d) k,
          get_stat-says (parse l) d k,
          or_else_assoc (last_value parse k ls) (says k (parse l)) (get_stat d k),
        )
        refl

  pub get_stat-section :
      (ls : List Text) (k : Text) → get_stat (note_all parse [] ls) k ≡ last_value parse k ls
  unfolding get_stat
  get_stat-section ls k = get_stat-note_all ls [] k ∙ or_else-none (last_value parse k ls)

  first_lem :
      (l : Text) (ends : Bool) (ss : List (List Text))
      → let all = if ends then (l ∷ []) ∷ ss else push l ss in
        dump 0 (map (note_all parse []) all) ≡ some (note_all parse [] (first_of all))
  unfolding dump
  first_lem l true ss = refl
  first_lem l false [] = refl
  first_lem l false (s ∷ ss) = refl

  pub dump-sections :
      (l : Text) (ls : List Text)
      → dump 0 (map (note_all parse []) (sections (l ∷ ls)))
        ≡ some (note_all parse [] (first_section (l ∷ ls)))
  unfolding dump
  dump-sections l ls = first_lem l (is_section_end l) (sections ls)
