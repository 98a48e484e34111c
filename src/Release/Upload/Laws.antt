-- ===== src/Release/Upload/Laws.antt =====
-- Which release resources/upload_assets.py works on, where it posts, and what it takes for success.
use v_swarm_u.Base.{
  ℕ, ◌+◌, ◌≡◌, ◌≢◌, refl, Bool, true, false, not, ◌&&◌, Option, none, some, List, [], ◌∷◌, ◌++◌,
  map, arith, if◌then◌else◌, ◌==◌, length, select, range_from, range, ap,
}
use v_swarm_u.Base.Text.{Text, codes, starts_with, in_text, show_ℕ}
use v_swarm_u.Base.{find, at_index-index_of, ◌∙◌}
use v_swarm_u.Base.Text.{text_eqb}
use v_swarm_u.Release.{Release}
use v_swarm_u.Release.Upload.{
  is_empty, is_wanted, get_release, remove_from, url_template, get_uploadurl, Request, upload_parts,
  upload_disk, Posted, status, gave_up, failed, request,
}

-- The script works on the first release that passes the test of its loop, and exits if none does.
get_release-find :
    (tag id : Text) (rs : List Release) → get_release tag id rs ≡ find (is_wanted tag id) rs
unfolding get_release
get_release-find tag id rs = at_index-index_of (is_wanted tag id) 0 rs

-- With a release id that is not empty, the script takes the first release of the list, whatever id
-- and tag it was asked for, given that the first release has an id other than 0.
pub get_release_any_id :
    (tag id : Text) (r : Release) (rs : List Release)
    → id ≢ []
    → r.id ≢ 0
    → get_release tag id (r ∷ rs) ≡ some r
get_release_any_id tag [] r rs given real = absurd (given refl)
get_release_any_id tag (c ∷ id) r rs given real =
    get_release-find tag (c ∷ id) (r ∷ rs) ∙ first_passes
  where
    first_passes : find (is_wanted tag (c ∷ id)) (r ∷ rs) ≡ some r
    first_passes = unfold is_wanted in ground arith

-- Without an id, it takes the first release with the tag, and exits if there is none or the tag is
-- empty.
get_release_by_tag :
    (tag : Text) (rs : List Release)
    → get_release tag [] rs
      ≡ (if is_empty tag then none else find (λ r. text_eqb r.tag_name tag) rs)
unfolding get_release is_wanted
get_release_by_tag tag rs = get_release-find tag [] rs ∙ by_tag tag rs
  where
    by_tag :
        (tag : Text) (rs : List Release)
        → find (is_wanted tag []) rs
          ≡ (if is_empty tag then none else find (λ r. text_eqb r.tag_name tag) rs)
    by_tag [] [] = refl
    by_tag (c ∷ tag) [] = refl
    by_tag [] (r ∷ rs) = by_tag [] rs
    by_tag (c ∷ tag) (r ∷ rs) = ground (arith, by_tag (c ∷ tag) rs)

-- No opening brace.
abbrev NoBrace : Text → Type 0
NoBrace [] = Unit
NoBrace (c ∷ s) = (c ≢ b'{') × NoBrace s

remove_from-template : (u : Text) → NoBrace u → remove_from url_template 0 (u ++ url_template) ≡ u
unfolding get_uploadurl
remove_from-template [] h = refl
remove_from-template (c ∷ u) h =
    let miss : starts_with url_template (c ∷ (u ++ url_template)) ≡ false =
      unfold starts_with in ground arith in
    rw (miss, remove_from) (ap (λ t. c ∷ t) (remove_from-template u h.1))

-- The upload URL is the one of the API without the template of its parameters: of a URL without
-- braces and the template behind it, the URL is left.
get_uploadurl-template :
    (r : Release) (u : Text) → NoBrace u → r.upload_url ≡ u ++ url_template → get_uploadurl r ≡ u
unfolding get_uploadurl
get_uploadurl-template r u h e = rw e (remove_from-template u h)

module _ (guess : Text → Option Text) (post : Request → Posted) where
  -- What the loop takes for a success: the status 201, and also an upload that was given up.
  abbrev pub accepted : Posted → Bool
  accepted failed = false
  accepted gave_up = true
  accepted (status n) = n == 201

  abbrev pub all_accepted : List Request → Bool
  all_accepted [] = true
  all_accepted (q ∷ qs) = accepted (post q) && all_accepted qs

  abbrev is_failed : Posted → Bool
  is_failed failed = true
  is_failed _ = false

  -- Whether no request raises an exception.
  abbrev pub none_failed : List Request → Bool
  none_failed [] = true
  none_failed (q ∷ qs) = not (is_failed (post q)) && none_failed qs

  -- The requests up to the first that raises an exception, with it.
  abbrev pub until_failed : List Request → List Request
  until_failed [] = []
  until_failed (q ∷ qs) =
      let rest = until_failed qs in q ∷ (if is_failed (post q) then [] else rest)

  -- The requests for all files, the parts numbered from `i`.
  abbrev pub all_requests : Text → Text → ℕ → List Text → List Request
  all_requests url dir i [] = []
  all_requests url dir i (f ∷ files) =
      request guess post url (dir ++ (b'/' ∷ f)) (codes "disk-image-" ++ show_ℕ i) 50
      ∷ all_requests url dir (i + 1) files

  upload_parts_lem :
      (url dir : Text) (i : ℕ) (files : List Text)
      → let all = all_requests url dir i files in
        let (outcome, requests) = upload_parts guess post url dir i files in
        (outcome ≡ (if none_failed all then some (all_accepted all) else none))
        × (requests ≡ until_failed all)
        × (map (λ q. q.name) all
            ≡ map (λ k. codes "disk-image-" ++ show_ℕ k) (range_from i (length files)))
        × (map (λ q. q.path) all ≡ map (λ f. dir ++ (b'/' ∷ f)) files)
  unfolding upload_parts
  upload_parts_lem url dir i [] = (refl, refl, refl, refl)
  upload_parts_lem url dir i (f ∷ files) = ground (arith, upload_parts_lem url dir (i + 1) files)

  -- The upload of a disk makes one request for each file whose name holds the prefix, in the order of
  -- the folder, under the names "disk-image-0", "disk-image-1" and so on, and stops at the first that
  -- raises an exception other than `RetryError`, such as a refused connection, a timeout or a file
  -- that cannot be opened. If none does, it reports success exactly if every request was answered with
  -- 201 or was given up after its retries; otherwise it reports nothing.
  pub upload_disk_lem :
      (url dir prefix : Text) (names : List Text)
      → let files = select (in_text prefix) names in
        let all = all_requests url dir 0 files in
        let (outcome, requests) = upload_disk guess post url dir prefix names in
        (outcome ≡ (if none_failed all then some (all_accepted all) else none))
        × (requests ≡ until_failed all)
        × (map (λ q. q.name) all
            ≡ map (λ k. codes "disk-image-" ++ show_ℕ k) (range (length files)))
        × (map (λ q. q.path) all ≡ map (λ f. dir ++ (b'/' ∷ f)) files)
  unfolding upload_disk
  upload_disk_lem url dir prefix names = upload_parts_lem url dir 0 (select (in_text prefix) names)

  -- An upload that raises no exception has made all requests.
  until_failed-none_failed : (qs : List Request) → none_failed qs ≡ true → until_failed qs ≡ qs
  until_failed-none_failed [] h = refl
  until_failed-none_failed (q ∷ qs) h = ground (arith, h, until_failed-none_failed qs)

  pub upload_disk-paths :
      (url dir prefix : Text) (names : List Text) (fine : Bool)
      → let (outcome, requests) = upload_disk guess post url dir prefix names in
        outcome ≡ some fine
        → map (λ q. q.path) requests ≡ map (λ f. dir ++ (b'/' ∷ f)) (select (in_text prefix) names)
  upload_disk-paths url dir prefix names fine h =
      let all = all_requests url dir 0 (select (in_text prefix) names) in
      let (outcome_is, requests_are, names_are, paths_are) = upload_disk_lem url dir prefix names in
      let fails : none_failed all ≡ true = ground (arith, h, outcome_is) in
      ap (map (λ q. q.path)) (requests_are ∙ until_failed-none_failed all fails) ∙ paths_are
