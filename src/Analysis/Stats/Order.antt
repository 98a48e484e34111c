-- ===== src/Analysis/Stats/Order.antt =====
-- The order in which `find_stats_group` looks simulations up.
use v_swarm_u.Base.{
  ℕ, ◌≡◌, refl, Bool, true, false, Option, none, some, List, [], ◌∷◌, ◌++◌, arith, if◌then◌else◌,
  select, ap, map, ◌∙◌, ◌&&◌,
}
use mathlib.Core.List.{Permᴰ}
use mathlib.Core.List.Permᴰ.{nil, cons, swap, trans}
use v_swarm_u.Base.Text.{Text}
use v_swarm_u.Analysis.Stats.{Dict, Folder, Found, missing, found, find_stats}
use v_swarm_u.Analysis.Stats.Group.{
  text_leb, insert_text, sort, note_group, join, collect, find_stats_group,
}

false-true : {A : Type 0} → false ≡ true → A
false-true h = absurd cc

text_leb_total : (s t : Text) → text_leb s t ≡ false → text_leb t s ≡ true
unfolding text_leb
text_leb_total [] t h = absurd cc
text_leb_total (c ∷ s) [] h = refl
text_leb_total (c ∷ s) (d ∷ t) h = ground (arith, text_leb_total s t)

text_leb_antisym : (s t : Text) → text_leb s t ≡ true → text_leb t s ≡ true → s ≡ t
unfolding text_leb
text_leb_antisym [] [] h k = refl
text_leb_antisym [] (d ∷ t) h k = false-true k
text_leb_antisym (c ∷ s) [] h k = false-true h
text_leb_antisym (c ∷ s) (d ∷ t) h k = ground (arith, text_leb_antisym s t)

text_leb_trans : (s t u : Text) → text_leb s t ≡ true → text_leb t u ≡ true → text_leb s u ≡ true
unfolding text_leb
text_leb_trans [] t u h k = refl
text_leb_trans (c ∷ s) [] u h k = false-true h
text_leb_trans (c ∷ s) (d ∷ t) [] h k = false-true k
text_leb_trans (c ∷ s) (d ∷ t) (e ∷ u) h k = ground (arith, text_leb_trans s t u)

insert_comm :
    (s t : Text) (l : List Text) → insert_text s (insert_text t l) ≡ insert_text t (insert_text s l)
unfolding insert_text
insert_comm s t [] = ground (arith, text_leb_total s t, text_leb_antisym s t)
insert_comm s t (u ∷ l) = ground (
  arith,
  text_leb_total s t,
  text_leb_antisym s t,
  text_leb_trans s t u,
  text_leb_trans t s u,
  insert_comm s t l,
)

abbrev insert_if : (Text → Bool) → Text → List Text → List Text
insert_if p s l = if p s then insert_text s l else l

insert_if_comm :
    (p : Text → Bool) (s t : Text) (l : List Text)
    → insert_if p s (insert_if p t l) ≡ insert_if p t (insert_if p s l)
insert_if_comm p s t l = ground (arith, insert_comm s t l)

sort-select :
    (p : Text → Bool) (s : Text) (ss : List Text)
    → sort (select p (s ∷ ss)) ≡ insert_if p s (sort (select p ss))
unfolding sort
sort-select p s ss = ground arith

-- The names that pass a test, sorted, are the same in whatever order the names were.
pub sort-select-Perm :
    (p : Text → Bool) {ss ts : List Text} → Permᴰ ss ts → sort (select p ss) ≡ sort (select p ts)
sort-select-Perm p nil = refl
sort-select-Perm p (cons {a = a} {b = b} {l₁ = ss} {l₂ = ts} e perm) =
    rw (sort-select p a ss, sort-select p b ts, e, sort-select-Perm p perm) refl
sort-select-Perm p (swap {a = a} {b = b} {a' = a'} {b' = b'} {l = l} e f) =
    rw
      (
        sort-select p a (b ∷ l),
        sort-select p b l,
        sort-select p a' (b' ∷ l),
        sort-select p b' l,
        e,
        f,
      )
      (insert_if_comm p b' a' (sort (select p l)))
sort-select-Perm p (trans q r) = sort-select-Perm p q ∙ sort-select-Perm p r

and_both : {a b : Bool} → (a && b) ≡ true → (a ≡ true) × (b ≡ true)
and_both {a = a} {b = b} h = (ground (arith, h), ground (arith, h))

-- The texts that are in order.
abbrev above : Text → List Text → Bool
above s [] = true
above s (t ∷ ts) = text_leb s t && above s ts

abbrev pub is_sorted : List Text → Bool
is_sorted [] = true
is_sorted (s ∷ ss) = above s ss && is_sorted ss

above-insert :
    (s t : Text) (l : List Text) → above s (insert_text t l) ≡ (text_leb s t && above s l)
unfolding insert_text
above-insert s t [] = refl
above-insert s t (u ∷ l) = ground (arith, above-insert s t l)

above_trans :
    (s t : Text) (l : List Text) → text_leb s t ≡ true → above t l ≡ true → above s l ≡ true
above_trans s t [] h k = refl
above_trans s t (u ∷ l) h k = ground (arith, text_leb_trans s t u, above_trans s t l)

is_sorted-insert :
    (s : Text) (l : List Text) → is_sorted l ≡ true → is_sorted (insert_text s l) ≡ true
unfolding insert_text
is_sorted-insert s [] h = refl
is_sorted-insert s (t ∷ l) h =
    ground (arith, text_leb_total s t, above_trans s t l, above-insert t s l, is_sorted-insert s l)

is_sorted-sort : (l : List Text) → is_sorted (sort l) ≡ true
unfolding sort
is_sorted-sort [] = refl
is_sorted-sort (s ∷ l) = is_sorted-insert s (sort l) (is_sorted-sort l)

-- The names in a group of statistics; an error leaves none.
abbrev pub names_of : Option (List (Text × List Dict)) → List Text
names_of none = []
names_of (some group) = map (λ g. g.0) group

module _ (parse : Text → Option (Text × Text)) (is_dir : Text → Bool) (folder : Text → Folder) where
  above-note_group :
      (s name : Text) (found_stats : Found) (rest : Option (List (Text × List Dict)))
      → text_leb s name ≡ true
      → above s (names_of rest) ≡ true
      → above s (names_of (note_group parse is_dir folder name found_stats rest)) ≡ true
  above-note_group s name missing rest h k = refl
  above-note_group s name (found stats) none h k = refl
  above-note_group s name (found none) (some rest) h k = k
  above-note_group s name (found (some [])) (some rest) h k = k
  above-note_group s name (found (some (d ∷ ds))) (some rest) h k = ground (arith, h, k)

  is_sorted-note_group :
      (name : Text) (found_stats : Found) (rest : Option (List (Text × List Dict)))
      → above name (names_of rest) ≡ true
      → is_sorted (names_of rest) ≡ true
      → is_sorted (names_of (note_group parse is_dir folder name found_stats rest)) ≡ true
  is_sorted-note_group name missing rest h k = refl
  is_sorted-note_group name (found stats) none h k = refl
  is_sorted-note_group name (found none) (some rest) h k = k
  is_sorted-note_group name (found (some [])) (some rest) h k = k
  is_sorted-note_group name (found (some (d ∷ ds))) (some rest) h k = ground (arith, h, k)

  above-collect :
      (now : ℕ) (dir s : Text) (names : List Text)
      → above s names ≡ true
      → above s (names_of (collect parse is_dir folder now dir names)) ≡ true
  unfolding collect
  above-collect now dir s [] h = refl
  above-collect now dir s (name ∷ names) h =
      let (first, others) = and_both h in
      above-note_group s name (find_stats parse now (folder (join dir name))).0
        (collect parse is_dir folder now dir names) first (above-collect now dir s names others)

  is_sorted-collect :
      (now : ℕ) (dir : Text) (names : List Text)
      → is_sorted names ≡ true
      → is_sorted (names_of (collect parse is_dir folder now dir names)) ≡ true
  unfolding collect
  is_sorted-collect now dir [] h = refl
  is_sorted-collect now dir (name ∷ names) h =
      let (first, others) = and_both h in
      is_sorted-note_group name (find_stats parse now (folder (join dir name))).0
        (collect parse is_dir folder now dir names) (above-collect now dir name names first)
        (is_sorted-collect now dir names others)

  -- The group of the statistics is the same, or the same error, in whatever order `os.listdir` gives
  -- the names, and its own names are sorted.
  pub find_stats_group-Perm :
      (now : ℕ) (dir : Text) (names others : List Text)
      → Permᴰ names others
      → (find_stats_group parse is_dir folder now dir names
          ≡ find_stats_group parse is_dir folder now dir others)
        × (is_sorted (names_of (find_stats_group parse is_dir folder now dir names)) ≡ true)
  unfolding find_stats_group
  find_stats_group-Perm now dir names others perm =
      let p = λ (s : Text). is_dir (dir ++ s) in
      (
        ap (collect parse is_dir folder now dir) (sort-select-Perm p perm),
        is_sorted-collect now dir (sort (select p names)) (is_sorted-sort (select p names)),
      )
