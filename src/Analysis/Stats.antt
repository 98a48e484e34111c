-- ===== src/Analysis/Stats.antt =====
-- analysis/gem5_utils.py: the statistics that gem5 writes, section by section, and their cache.
pub mod Laws
pub mod Cache
pub mod Group
pub mod Order
use v_swarm_u.Base.{
  ℕ, zero, suc, ◌+◌, Bool, Option, none, some, List, [], ◌∷◌, ◌++◌, length, leb, ltb, if◌then◌else◌,
}
use v_swarm_u.Base.Text.{Text, codes, text_eqb, in_text}

-- `collections.OrderedDict`: an assignment keeps the place of a key that is there.
abbrev pub Dict : Type 0
Dict = List (Text × Text)

unfoldable pub insert : Text → Text → Dict → Dict
insert k v [] = (k, v) ∷ []
insert k v ((key, value) ∷ d) =
    let rest = insert k v d in if text_eqb k key then (key, v) ∷ d else (key, value) ∷ rest

-- `'End Simulation Statistics' in stat_line`
unfoldable pub is_section_end : Text → Bool
unfolding in_text
is_section_end line = in_text (codes "End Simulation Statistics") line

-- An assignment to `stats[i]`; `none` is an IndexError.
abbrev pub update_at : ℕ → (Dict → Dict) → List Dict → Option (List Dict)
update_at i f [] = none
update_at zero f (d ∷ ds) = some (f d ∷ ds)
update_at (suc i) f (d ∷ ds) = elim (update_at i f ds) [ none ↦ none | some new ↦ some (d ∷ new) ]

-- The variables `stats` and `i` of `read_stats`.
pub record Sections : Type 0 where
  pub stats : List Dict
  pub i : ℕ

-- `parse` is `stat_rule.parseString`: the key and the value of a line, `none` for a ParseException.
module _ (parse : Text → Option (Text × Text)) where
  unfoldable pub note : Text → Dict → Dict
  unfolding insert
  note line d = elim (parse line) [ none ↦ d | some (k, v) ↦ insert k v d ]

  -- One round of the loop.
  unfoldable pub read_line : Sections → Text → Option Sections
  unfolding note is_section_end
  read_line s line =
      let stats = if leb (length s.stats) s.i then s.stats ++ ([] ∷ []) else s.stats in
      elim (update_at s.i (note line) stats) [
        | none ↦ none
        | some new ↦ some (record { stats = new; i = if is_section_end line then s.i + 1 else s.i })
      ]

  unfoldable pub read_lines : Sections → List Text → Option (List Dict)
  unfolding read_line
  read_lines s [] = some s.stats
  read_lines s (line ∷ lines) = elim (read_line s line) [
    | none ↦ none
    | some t ↦ read_lines t lines
  ]

  -- `read_stats`, on the lines of the file, or on `none` if it cannot be opened.
  unfoldable pub read_stats : Option (List Text) → Option (List Dict)
  unfolding read_lines
  read_stats none = none
  read_stats (some lines) = read_lines (record { stats = []; i = 0 }) lines

-- The folder of a simulation: the lines of stats.txt and when it was written, and the pickled
-- result with its time.
pub record Folder : Type 0 where
  pub file : Option (List Text × ℕ)
  pub pickled : Option (Option (List Dict) × ℕ)

-- What `find_stats` returns; `missing` is the error of `path.getmtime` for a file that is not there.
pub data Found : Type 0 where
  missing : Found
  found : Option (List Dict) → Found

abbrev lines_of : Option (List Text × ℕ) → Option (List Text)
lines_of none = none
lines_of (some (lines, _)) = some lines

module _ (parse : Text → Option (Text × Text)) where
  -- `find_stats`, called at the time `now`.
  unfoldable pub find_stats : ℕ → Folder → Found × Folder
  unfolding read_stats
  find_stats now f =
      let stats = read_stats parse (lines_of f.file) in
      let fresh : Found × Folder = (found stats, record f { pickled = some (stats, now) }) in
      elim f.pickled [
        | none ↦ fresh
        | some (old, since) ↦ elim f.file [
          | none ↦ (missing, f)
          | some (lines, written) ↦ if ltb since written then fresh else (found old, f)
        ]
      ]
