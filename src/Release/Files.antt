-- ===== src/Release/Files.antt =====
-- The files that the scripts see: their contents by name. The latest entry of a name holds.
pub mod Laws
use v_swarm_u.Base.{Option, none, some, List, [], ◌∷◌, if◌then◌else◌}
use v_swarm_u.Base.Text.{Text, text_eqb}

abbrev pub Files : Type 0
Files = List (Text × Text)

unfoldable pub read : Text → Files → Option Text
unfolding text_eqb
read name [] = none
read name ((other, content) ∷ files) = if text_eqb other name then some content else read name files

-- `open(name, "wb")` and what is written to it until it is closed
unfoldable pub write : Text → Text → Files → Files
write name content files = (name, content) ∷ files

-- `os.remove`
unfoldable pub remove : Text → Files → Files
unfolding text_eqb
remove name [] = []
remove name ((other, content) ∷ files) =
    let rest = remove name files in if text_eqb other name then rest else (other, content) ∷ rest

-- `shutil.move`; it fails on a source that is missing.
unfoldable pub move : Text → Text → Files → Option Files
unfolding read write remove
move from to files = elim (read from files) [
  | none ↦ none
  | some content ↦ some (write to content (remove from files))
]
