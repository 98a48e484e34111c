-- ===== src/Analysis/Stats/Cache.antt =====
-- The cache of the statistics over the life of a folder.
use mathlib.Core.Path.{subst}
use v_swarm_u.Base.{
  ℕ, suc, ◌+◌, ◌<◌, ◌≤◌, ◌≡◌, refl, sym, Option, none, some, List, [], ◌∷◌, arith, length,
}
use v_swarm_u.Base.Text.{Text}
use v_swarm_u.Analysis.Stats.{Dict, Folder, found, read_stats, find_stats}

-- What happens to a folder: gem5 writes stats.txt, or the statistics are looked up.
pub data Event : Type 0 where
  written : List Text → Event
  looked_up : Event

abbrev pub empty : Folder
empty = record { file = none; pickled = none }

module _ (parse : Text → Option (Text × Text)) where
  abbrev step : ℕ → Event → Folder → Folder
  step now (written lines) f = record f { file = some (lines, now) }
  step now looked_up f = (find_stats parse now f).1

  -- The folder after the events, each at a time of its own.
  abbrev pub after : ℕ → List Event → Folder → Folder
  after now [] f = f
  after now (e ∷ es) f = after (now + 1) es (step now e f)

  -- All times are past, and what is pickled is not older than the file only if it is what the file
  -- says.
  abbrev IsCurrent : ℕ → Option (List Text × ℕ) → Option (Option (List Dict) × ℕ) → Type 0
  IsCurrent now file none = Unit
  IsCurrent now none (some (old, since)) = since < now
  IsCurrent now (some (lines, time)) (some (old, since)) =
      (since < now) × (time ≤ since → old ≡ read_stats parse (some lines))

  step-IsCurrent :
      (now : ℕ) (e : Event) (file : Option (List Text × ℕ))
      (pickled : Option (Option (List Dict) × ℕ))
      → IsCurrent now file pickled
      → let f = step now e (record { file = file; pickled = pickled }) in
        IsCurrent (now + 1) f.file f.pickled
  unfolding find_stats
  step-IsCurrent now (written lines) none none h = tt
  step-IsCurrent now (written lines) (some _) none h = tt
  step-IsCurrent now (written lines) none (some (old, since)) h = ground (arith, h)
  step-IsCurrent now (written lines) (some (before, time)) (some (old, since)) h = ground (arith, h)
  step-IsCurrent now looked_up none none h = ground arith
  step-IsCurrent now looked_up (some (lines, time)) none h = ground arith
  step-IsCurrent now looked_up none (some (old, since)) h = ground (arith, h)
  step-IsCurrent now looked_up (some (lines, time)) (some (old, since)) h = ground (arith, h)

  after-IsCurrent :
      (now : ℕ) (es : List Event) (f : Folder)
      → IsCurrent now f.file f.pickled
      → let g = after now es f in IsCurrent (now + length es) g.file g.pickled
  after-IsCurrent now [] f h = let e : now + 0 ≡ now = omega arith in rw e h
  after-IsCurrent now (e ∷ es) f h =
      let shift : now + suc (length es) ≡ (now + 1) + length es = omega arith in
      rw shift
        (after-IsCurrent (now + 1) es (step now e f) (step-IsCurrent now e f.file f.pickled h))

  find-current :
      (now : ℕ) (lines : List Text) (time : ℕ) (pickled : Option (Option (List Dict) × ℕ))
      → IsCurrent now (some (lines, time)) pickled
      → (find_stats parse now (record { file = some (lines, time); pickled = pickled })).0
        ≡ found (read_stats parse (some lines))
  unfolding find_stats
  find-current now lines time none h = refl
  find-current now lines time (some (old, since)) h = ground (arith, h)

  find-read :
      (now : ℕ) (f : Folder) (lines : List Text) (time : ℕ)
      → f.file ≡ some (lines, time)
      → IsCurrent now f.file f.pickled
      → (find_stats parse now f).0 ≡ found (read_stats parse (some lines))
  find-read now f lines time e h =
      subst
        (λ file.
          (find_stats parse now (record { file = file; pickled = f.pickled })).0
          ≡ found (read_stats parse (some lines)))
        (sym e)
        (find-current now lines time f.pickled (subst (λ file. IsCurrent now file f.pickled) e h))

  -- Over any writes of stats.txt and lookups of the statistics, each at a time of its own, a lookup
  -- after them returns what the file holds then, whether it reads the file or the pickled result.
  pub find_stats-current :
      (es : List Event) (lines : List Text) (time : ℕ)
      → (after 0 es empty).file ≡ some (lines, time)
      → (find_stats parse (length es) (after 0 es empty)).0 ≡ found (read_stats parse (some lines))
  find_stats-current es lines time e = find-read (length es) (after 0 es empty) lines time e (
      let zero_add : length es ≡ 0 + length es = omega arith in
      subst (λ n. IsCurrent n (after 0 es empty).file (after 0 es empty).pickled) (sym zero_add)
        (after-IsCurrent 0 es empty tt))
