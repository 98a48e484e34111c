-- ===== src/Release/Upload.antt =====
-- resources/upload_assets.py: publishes the assets of a release.
pub mod Laws
use v_swarm_u.Base.{
  ◌>>=◌, ℕ, zero, suc, ◌+◌, ◌-◌, Bool, true, false, not, ◌&&◌, ◌||◌, Option, none, some, List, [],
  ◌∷◌, ◌++◌, map, if◌then◌else◌, ◌==◌, length, select, index_of, at_index,
}
use v_swarm_u.Base.Text.{Text, codes, in_text, text_eqb, starts_with, show_ℕ}
use v_swarm_u.Release.{Release}

abbrev pub is_empty : Text → Bool
is_empty [] = true
is_empty _ = false

-- The test in the loop of `get_release`. Its `tag` is the global `GITHUB_TAGNAME`; of the id of a
-- release it asks whether it is true, that is, not 0.
unfoldable pub is_wanted : Text → Text → Release → Bool
unfolding text_eqb
is_wanted tag id r =
    (not (is_empty id) && not (r.id == 0)) || (not (is_empty tag) && text_eqb r.tag_name tag)

-- `get_release`, its loop by `index_of`: `none` is `sys.exit(1)`.
unfoldable pub get_release : Text → Text → List Release → Option Release
unfolding is_wanted index_of at_index
get_release tag id releases = at_index 0 (index_of (is_wanted tag id) 0 releases) releases

-- `s.replace(old, "")`: `skip` characters of a match are left to drop.
remove_from : Text → ℕ → Text → Text
unfolding starts_with
remove_from old skip [] = []
remove_from old (suc skip) (c ∷ s) = remove_from old skip s
remove_from old zero (c ∷ s) = elim (starts_with old (c ∷ s)) [
  | true ↦ remove_from old (length old - 1) s
  | false ↦ c ∷ remove_from old zero s
]

abbrev pub url_template : Text
url_template = codes "{?name,label}"

-- `get_uploadurl`
unfoldable pub get_uploadurl : Release → Text
unfolding remove_from
get_uploadurl r = remove_from url_template zero r.upload_url

-- `get_assets`
unfoldable pub get_assets : Release → List (Text × Text)
get_assets r = map (λ a. (a.name, a.url)) r.assets

-- The request that `upload_asset` posts to the upload URL; `path` names the file that it sends.
pub record Request : Type 0 where
  pub url : Text
  pub name : Text
  pub content_type : Text
  pub path : Text
  pub timeout : ℕ

-- What `upload_asset` returns: a Boolean, or the number 500 where `requests` raised `RetryError`.
pub data Uploaded : Type 0 where
  number : ℕ → Uploaded
  answer : Bool → Uploaded

abbrev is_true : Uploaded → Bool
is_true (number n) = not (n == 0)
is_true (answer b) = b

-- The folder that the paths of the assets are put behind to guess their types.
abbrev out_files_path : Text
out_files_path = codes "out/"

-- How the reading of the file and its post with retries end: with a status, with a `RetryError`, or
-- with another exception, such as a `ConnectionError`, a `Timeout`, or one of `open`.
pub data Posted : Type 0 where
  status : ℕ → Posted
  gave_up : Posted
  failed : Posted

-- `FAILURE_MARK == "0"` from one file on, or `none` for an exception.
abbrev and_rest : Bool → Option Bool → Option Bool
and_rest fine none = none
and_rest fine (some rest) = some (fine && rest)

-- `guess` is `mimetypes.guess_type`, `post` opens the file of a request and posts it.
module _ (guess : Text → Option Text) (post : Request → Posted) where
  abbrev pub request : Text → Text → Text → ℕ → Request
  request url path name timeout = record {
    url = url;
    name = if is_empty name then path else name;
    content_type = elim (guess (out_files_path ++ path)) [
      | none ↦ codes "application/octet-stream"
      | some t ↦ t
    ];
    path = path;
    timeout = timeout;
  }

  -- `none` is an exception other than `RetryError`.
  unfoldable pub upload_asset : Text → Text → Text → ℕ → Option Uploaded
  upload_asset url path name timeout = elim (post (request url path name timeout)) [
    | failed ↦ none
    | gave_up ↦ some (number 500)
    | status n ↦ some (answer (n == 201))
  ]

  -- The loop of `upload_disk` from the index `i` on: whether no upload has failed, or `none` for an
  -- exception, and the requests, up to the one that raises.
  unfoldable pub upload_parts : Text → Text → ℕ → List Text → Option Bool × List Request
  unfolding upload_asset
  upload_parts url dir i [] = (some true, [])
  upload_parts url dir i (file ∷ files) =
      let path = dir ++ (b'/' ∷ file) in
      let name = codes "disk-image-" ++ show_ℕ i in
      let q = request url path name 50 in
      let (rest, requests) = upload_parts url dir (i + 1) files in
      elim (upload_asset url path name 50) [
        | none ↦ (none, q ∷ [])
        | some u ↦ (and_rest (is_true u) rest, q ∷ requests)
      ]

  -- `upload_disk` over the names that the folder holds: `FAILURE_MARK == "0"`, and the requests.
  unfoldable pub upload_disk : Text → Text → Text → List Text → Option Bool × List Request
  unfolding upload_parts in_text
  upload_disk url dir prefix names = upload_parts url dir 0 (select (in_text prefix) names)

  -- The main block: the requests that it posts, or `none` where it exits in `get_release` or an
  -- upload raises an exception. `names` is what the working folder holds once the disk image is
  -- compressed and split.
  unfoldable pub main : Text → Text → Text → Text → List Release → List Text → Option (List Request)
  unfolding upload_disk get_release get_uploadurl
  main tag id kernel client releases names = do
    r ← get_release tag id releases
    let url = get_uploadurl r
    _ ← upload_asset url kernel (codes "vmlinux-amd64") 10
    _ ← upload_asset url client (codes "client-amd64") 10
    let (outcome, requests) = upload_disk url (codes ".") (codes "disk-image-amd64-") names
    _ ← outcome
    some (
        request url kernel (codes "vmlinux-amd64") 10
        ∷ request url client (codes "client-amd64") 10
        ∷ requests)
