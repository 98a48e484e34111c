-- ===== src/Analysis/Stats/Group.antt =====
-- analysis/gem5_utils.py: `find_stats_group`, the statistics of all simulations in a folder.
use v_swarm_u.Base.{
  ℕ, Bool, true, false, Option, none, some, List, [], ◌∷◌, ◌++◌, select, ltb, ◌==◌, ◌&&◌, ◌||◌,
  if◌then◌else◌,
}
use v_swarm_u.Base.Text.{Text}
use v_swarm_u.Analysis.Stats.{Dict, Folder, Found, missing, found, find_stats}

-- The order of Python's strings.
unfoldable pub text_leb : Text → Text → Bool
text_leb [] t = true
text_leb (c ∷ s) [] = false
text_leb (c ∷ s) (d ∷ t) = ltb c d || (c == d && text_leb s t)

unfoldable pub insert_text : Text → List Text → List Text
insert_text s [] = s ∷ []
insert_text s (t ∷ ts) =
    let rest = insert_text s ts in if text_leb s t then s ∷ (t ∷ ts) else t ∷ rest

-- `subdirs.sort()`
unfoldable pub sort : List Text → List Text
unfolding insert_text text_leb
sort [] = []
sort (s ∷ ss) = insert_text s (sort ss)

-- The path ends with a slash, or is empty.
abbrev pub is_open : Text → Bool
is_open [] = true
is_open (c ∷ []) = c == b'/'
is_open (c ∷ d ∷ s) = is_open (d ∷ s)

-- `path.join`, for a second part without a slash at its front
abbrev pub join : Text → Text → Text
join dir name = if is_open dir then dir ++ name else dir ++ (b'/' ∷ name)

-- `if stats`: neither `None` nor an empty list
abbrev pub truthy : Option (List Dict) → Option (List Dict)
truthy none = none
truthy (some []) = none
truthy (some (d ∷ ds)) = some (d ∷ ds)

-- `folder` has the folders of the simulations by their paths, `is_dir` is `path.isdir`.
module _ (parse : Text → Option (Text × Text)) (is_dir : Text → Bool) (folder : Text → Folder) where
  -- What the loop does with what `find_stats` returns; `none` is the error of a missing file.
  abbrev pub note_group :
      Text → Found → Option (List (Text × List Dict)) → Option (List (Text × List Dict))
  note_group name missing rest = none
  note_group name (found stats) none = none
  note_group name (found stats) (some rest) = elim (truthy stats) [
    | none ↦ some rest
    | some ds ↦ some ((name, ds) ∷ rest)
  ]

  -- The loop over the sorted names.
  unfoldable pub collect : ℕ → Text → List Text → Option (List (Text × List Dict))
  unfolding find_stats
  collect now dir [] = some []
  collect now dir (name ∷ names) =
      note_group name (find_stats parse now (folder (join dir name))).0 (collect now dir names)

  -- `find_stats_group` over the names that the folder holds.
  unfoldable pub find_stats_group : ℕ → Text → List Text → Option (List (Text × List Dict))
  unfolding collect sort
  find_stats_group now dir names = collect now dir (sort (select (λ s. is_dir (dir ++ s)) names))
