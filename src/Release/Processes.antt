-- ===== src/Release/Processes.antt =====
-- How resources/artifacts.py and resources/upload_assets.py wait for the programs that they start.
use v_swarm_u.Base.{
  ℕ, zero, suc, ◌+◌, ◌%◌, ◌≡◌, Bool, true, false, ◌&&◌, List, [], ◌∷◌, ◌++◌, if◌then◌else◌,
}
use v_swarm_u.Base.Text.{Text, codes}
use v_swarm_u.Release.Upload.{is_empty}

-- `spinning_cursor`: what its call number `n` of `next` answers, from 0 on.
abbrev cursor_of : ℕ → Text
cursor_of zero = codes "|"
cursor_of (suc zero) = codes "/"
cursor_of (suc (suc zero)) = codes "-"
cursor_of _ = codes "\\"

unfoldable spinning_cursor : ℕ → Text
spinning_cursor n = cursor_of (n % 4)

-- What a wait writes, and the polls that it has not made; it has not `returned` if they ran out.
pub record Waited (P : Type 0) : Type 0 where
  pub written : List Text
  pub returned : Bool
  pub left : List P

-- The loop of both functions from round `n` on: it writes a line for each poll at which
-- `running` holds, and ends at the first other.
module _ {P : Type 0} (running : P → Bool) (word : Text) where
  unfoldable pub wait : ℕ → List P → Waited P
  unfolding spinning_cursor
  wait n [] = record { written = []; returned = false; left = [] }
  wait n (p ∷ ps) =
      let rest = wait (n + 1) ps in
      if running p
      then record rest { written = (13 ∷ []) ∷ ((word ++ spinning_cursor n) ∷ rest.written) }
      else record { written = []; returned = true; left = ps }

-- `compressParallel`: `tar` runs, or it has ended, at each poll.
abbrev is_running : Bool → Bool
is_running tar = tar

unfoldable compress_parallel : List Bool → Waited Bool
unfolding wait
compress_parallel polls = wait is_running (codes "Compressing... ") 0 polls

-- `decompressParallel`: at each poll `pigz` and `tar` run, or have ended.
abbrev both_running : Bool × Bool → Bool
both_running (pigz, tar) = pigz && tar

unfoldable pub decompress_parallel : List (Bool × Bool) → Waited (Bool × Bool)
unfolding wait
decompress_parallel polls = wait both_running (codes "Decompressing... ") 0 polls

-- `split`: the program and its arguments.
unfoldable split_args : Text → Text → Text → List Text
split_args filename size outname =
    let out = if is_empty outname then filename ++ codes "." else outname in
    codes "split" ∷ codes "-b" ∷ size ∷ filename ∷ out ∷ []

-- `compressParallel`: the program and its arguments.
abbrev compress_args : Text → Text → List Text
compress_args tar_file file =
    codes "tar" ∷ codes "--use-compress-program=pigz" ∷ codes "-cf" ∷ tar_file ∷ file ∷ []

-- All of the polls found the programs running.
abbrev AllRunning : {P : Type 0} → (P → Bool) → List P → Type 0
AllRunning running [] = Unit
AllRunning running (p ∷ ps) = (running p ≡ true) × AllRunning running ps
