-- ===== src/Analysis/Stats/Laws.antt =====
-- What `read_stats` reads: each section of the file for itself.
use v_swarm_u.Base.{
  ℕ, ◌+◌, ◌≡◌, refl, true, false, Option, some, List, [], ◌∷◌, ◌++◌, map, length, leb,
  if◌then◌else◌, arith, length-append, sym, Bool-cases, inl, inr,
}
use v_swarm_u.Base.Text.{Text}
use v_swarm_u.Analysis.Stats.{
  Dict, update_at, is_section_end, note, read_line, read_lines, read_stats,
}

-- The sections of a file: its lines, cut behind every line that ends a section.
abbrev pub push : Text → List (List Text) → List (List Text)
push l [] = (l ∷ []) ∷ []
push l (s ∷ ss) = (l ∷ s) ∷ ss

abbrev pub sections : List Text → List (List Text)
sections [] = []
sections (l ∷ ls) =
    let rest = sections ls in if is_section_end l then (l ∷ []) ∷ rest else push l rest

update_at-last :
    (done : List Dict) (d : Dict) (f : Dict → Dict)
    → update_at (length done) f (done ++ (d ∷ [])) ≡ some (done ++ (f d ∷ []))
update_at-last [] d f = refl
update_at-last (x ∷ done) d f = rw (update_at-last done d f) refl

no_room : (done : List Dict) (d : Dict) → leb (length (done ++ (d ∷ []))) (length done) ≡ false
no_room [] d = refl
no_room (x ∷ done) d = ground (arith, no_room done d)

leb_refl : (n : ℕ) → leb n n ≡ true
leb_refl n = ground arith

length_last : (done : List Dict) (d : Dict) → length (done ++ (d ∷ [])) ≡ length done + 1
length_last done d = length-append done (d ∷ [])

append_nil : (done : List Dict) → done ++ [] ≡ done
append_nil [] = refl
append_nil (x ∷ done) = ground (arith, append_nil done)

append_last : (done rest : List Dict) (d : Dict) → (done ++ (d ∷ [])) ++ rest ≡ done ++ (d ∷ rest)
append_last [] rest d = refl
append_last (x ∷ done) rest d = ground (arith, append_last done rest d)

module _ (parse : Text → Option (Text × Text)) where
  -- The statistics of a section's lines, noted one after the other.
  abbrev pub note_all : Dict → List Text → Dict
  note_all d [] = d
  note_all d (l ∷ ls) = note_all (note parse l d) ls

  -- The statistics of the sections, the first of which goes on from what has been read of it.
  abbrev grow : Dict → List (List Text) → List Dict
  grow d [] = d ∷ []
  grow d (s ∷ ss) = note_all d s ∷ map (note_all []) ss

  grow-push :
      (d : Dict) (l : Text) (ss : List (List Text)) → grow d (push l ss) ≡ grow (note parse l d) ss
  grow-push d l [] = refl
  grow-push d l (s ∷ ss) = refl

  note_all-push :
      (l : Text) (ss : List (List Text)) → map (note_all []) (push l ss) ≡ grow (note parse l []) ss
  note_all-push l [] = refl
  note_all-push l (s ∷ ss) = refl

  read_line-open :
      (done : List Dict) (d : Dict) (l : Text)
      → read_line parse (record { stats = done ++ (d ∷ []); i = length done }) l
        ≡ some (record {
          stats = done ++ (note parse l d ∷ []);
          i = if is_section_end l then length done + 1 else length done;
        })
  unfolding read_line
  read_line-open done d l =
      rw (read_line, no_room done d, update_at-last done d (note parse l)) refl

  read_line-fresh :
      (done : List Dict) (l : Text)
      → read_line parse (record { stats = done; i = length done }) l
        ≡ some (record {
          stats = done ++ (note parse l [] ∷ []);
          i = if is_section_end l then length done + 1 else length done;
        })
  unfolding read_line
  read_line-fresh done l =
      rw (read_line, leb_refl (length done), update_at-last done [] (note parse l)) refl

  -- Behind a section that has just ended, given what the loop makes of the rest of the lines.
  read_lines-ended :
      (ls : List Text) (done : List Dict) (d : Dict)
      → (read_lines parse (record { stats = done ++ (d ∷ []); i = length (done ++ (d ∷ [])) }) ls
          ≡ some ((done ++ (d ∷ [])) ++ map (note_all []) (sections ls)))
      → read_lines parse (record { stats = done ++ (d ∷ []); i = length done + 1 }) ls
        ≡ some (done ++ (d ∷ map (note_all []) (sections ls)))
  read_lines-ended ls done d h =
      rw (sym (length_last done d), sym (append_last done (map (note_all []) (sections ls)) d)) h

  -- What the loop makes of the rest of the lines, behind complete sections, and with an open one.
  read_lines_lem :
      (ls : List Text) (done : List Dict) (d : Dict)
      → (read_lines parse (record { stats = done; i = length done }) ls
          ≡ some (done ++ map (note_all []) (sections ls)))
        × (read_lines parse (record { stats = done ++ (d ∷ []); i = length done }) ls
            ≡ some (done ++ grow d (sections ls)))
  unfolding read_lines
  read_lines_lem [] done d = (rw (append_nil done) refl, refl)
  read_lines_lem (l ∷ ls) done d =
      let new = note parse l [] in
      let more = note parse l d in
      elim (Bool-cases (is_section_end l)) [
        | inl ends ↦
            rw (read_lines, read_line-fresh done l, read_line-open done d l, ends)
              (
                read_lines-ended ls done new (read_lines_lem ls (done ++ (new ∷ [])) d).0,
                read_lines-ended ls done more (read_lines_lem ls (done ++ (more ∷ [])) d).0,
              )
        | inr goes ↦
            rw (read_lines, read_line-fresh done l, read_line-open done d l, goes)
              (
                rw (note_all-push l (sections ls)) (read_lines_lem ls done new).1,
                rw (grow-push d l (sections ls)) (read_lines_lem ls done more).1,
              )
      ]

  -- For any file and any parser of its lines, reading the statistics succeeds, and gives one
  -- dictionary for each section: that of the lines of the section, noted one after the other.
  pub read_stats_lem :
      (ls : List Text) → read_stats parse (some ls) ≡ some (map (note_all []) (sections ls))
  unfolding read_stats
  read_stats_lem ls = (read_lines_lem ls [] []).0
