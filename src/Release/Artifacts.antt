-- ===== src/Release/Artifacts.antt =====
-- resources/artifacts.py: finds the assets of a release, downloads them and moves them in place.
pub mod Search
pub mod Download
pub mod Success
pub mod Manifest
use v_swarm_u.Base.{
  ℕ, ◌+◌, Bool, not, ◌&&◌, ◌⊎◌, inl, inr, Option, none, some, List, [], ◌∷◌, ◌++◌, map,
  if◌then◌else◌, ◌==◌, length, index_of, at_index,
}
use v_swarm_u.Base.Text.{Text, codes, in_text, text_eqb, base_name}
use v_swarm_u.Release.{Asset, Release}
use v_swarm_u.Release.Files.{Files, write, remove, move}

-- How a script ends early.
pub data Error : Type 0 where
  exit : ℕ → Error
  attribute_error index_error : Error
  kernel_not_found client_not_found disk_not_found file_not_found : Text → Error

-- The arguments that the functions read.
pub record Args : Type 0 where
  pub os_version : Text
  pub arch : Text
  pub output : Text

-- What the API answers: the latest release, and the list of all.
pub record Api : Type 0 where
  pub latest : Release
  pub releases : List Release

-- The answer to a download: its `content-length`, 0 if there is none, and the blocks of its body.
pub record Response : Type 0 where
  pub content_length : ℕ
  pub blocks : List Text

-- `get_release`, its loop by `index_of`; without a match the number is not bound, and the handler
-- exits with 1.
unfoldable pub get_release : Api → Text → Error ⊎ Release
unfolding text_eqb index_of at_index
get_release api tag =
    if text_eqb tag (codes "latest")
    then inr api.latest
    else elim (at_index 0 (index_of (λ r. text_eqb r.tag_name tag) 0 api.releases) api.releases) [
      | none ↦ inl (exit 1)
      | some r ↦ inr r
    ]

-- `get_assets`
unfoldable pub get_assets : Release → List (Text × Text)
get_assets r = map (λ a. (a.name, a.url)) r.assets

-- The loop of `get_url`, with its return.
unfoldable pub first_url : Text → List Asset → Option Text
unfolding in_text
first_url name [] = none
first_url name (a ∷ as') = if in_text name a.name then some a.url else first_url name as'

unfoldable pub get_url : Release → Text → Option Text
unfolding first_url
get_url r name = first_url name r.assets

-- The loop of `get_urls`, with its `continue`.
unfoldable pub all_urls : Text → List Asset → List Text
unfolding in_text
all_urls name [] = []
all_urls name (a ∷ as') =
    let rest = all_urls name as' in
    if in_text (codes "sums") a.name
    then rest
    else if in_text name a.name
    then a.url ∷ rest
    else rest

unfoldable pub get_urls : Release → Text → List Text
unfolding all_urls
get_urls r name = all_urls name r.assets

-- The files, the paths whose folder is there, and how often `log.error` was called.
pub record State : Type 0 where
  pub files : Files
  pub has_folder : Text → Bool
  pub errors : ℕ

pub data Outcome : Type 0 where
  done : State → Outcome
  raised : Error → State → Outcome

abbrev pub concat : List Text → Text
concat [] = []
concat (b ∷ bs) = b ++ concat bs

-- `progress_bar.n` after the loop: the bytes written.
abbrev pub received : List Text → ℕ
received [] = 0
received (b ∷ bs) = length b + received bs

-- `download`: what it appends to the file, and whether it logs an error.
unfoldable pub download : Response → Text × Bool
download r =
    (concat r.blocks, not (r.content_length == 0) && not (received r.blocks == r.content_length))

abbrev one_if : Bool → ℕ
one_if b = if b then 1 else 0

abbrev pub disk_tmp : Text
disk_tmp = codes "disk.tmp"

-- A call of `shutil.move`, and what follows it; it fails where its source, or the folder of its
-- target, is missing.
abbrev pub then_move : Text → Text → State → (State → Outcome) → Outcome
then_move from to s next = elim (move from to s.files) [
  | none ↦ raised (file_not_found from) s
  | some files ↦
      if s.has_folder to then next (record s { files = files }) else raised (file_not_found to) s
]

abbrev pub image_path : Text
image_path = codes "temp/disk-image.qcow2"

-- The last part of `downloadMoveAssets`
unfoldable pub move_assets : Text → Text → Text → State → Outcome
unfolding move base_name
move_assets output kernel_url client_url s =
    then_move (base_name kernel_url) (output ++ codes "kernel") s (λ s1.
      then_move (base_name client_url) (output ++ codes "client") s1
        (λ s2. then_move image_path (output ++ codes "disk-image.qcow2") s2 (λ s3. done s3)))

abbrev pub kernel_name : Args → Text
kernel_name args = codes "vmlinux-" ++ (args.os_version ++ (b'-' ∷ args.arch))

abbrev client_name : Args → Text
client_name args = codes "test-client-" ++ args.arch

abbrev disk_name : Args → Text
disk_name args = codes "disk-image-" ++ (args.os_version ++ (b'-' ∷ (args.arch ++ codes ".qcow2")))

module _ (get : Text → Response) (unpack : Text → Files → Files) where
  -- `downloadAsset`
  unfoldable pub download_asset : Text → State → State
  unfolding download base_name
  download_asset url s =
      let (content, bad) = download (get url) in
      record s { files = write (base_name url) content s.files; errors = s.errors + one_if bad }

  -- The loop of `downloadDiskImage`: the content of disk.tmp, and the errors.
  unfoldable pub download_parts : List Text → Text × ℕ → Text × ℕ
  unfolding download
  download_parts [] t = t
  download_parts (url ∷ urls) (content, errors) =
      let (more, bad) = download (get url) in
      download_parts urls (content ++ more, errors + one_if bad)

  -- `downloadDiskImage`; `unpack` is what `pigz` and `tar` have done to the files with the
  -- archive when the wait of `decompressParallel` stops.
  unfoldable pub download_disk_image : List Text → State → State
  unfolding download_parts
  download_disk_image urls s =
      let (content, errors) = download_parts urls ([], s.errors) in
      record s {
        files = remove disk_tmp (unpack disk_tmp (write disk_tmp content s.files));
        errors = errors;
      }

  -- From the client on. The test of the number of disk parts, `len(disk_urls) == None`, never holds.
  unfoldable fetch_rest : Args → Release → Text → State → Outcome
  unfolding get_url get_urls move_assets download_disk_image download_asset
  fetch_rest args r kernel_url s = elim (get_url r (client_name args)) [
    | none ↦ raised (client_not_found (client_name args)) s
    | some client_url ↦
        move_assets args.output kernel_url client_url
          (download_disk_image (get_urls r (disk_name args)) (download_asset client_url s))
  ]

  unfoldable pub fetch_release : Args → Release → State → Outcome
  unfolding fetch_rest
  fetch_release args r s = elim (get_url r (kernel_name args)) [
    | none ↦ raised (kernel_not_found (kernel_name args)) s
    | some kernel_url ↦ fetch_rest args r kernel_url (download_asset kernel_url s)
  ]

  -- `downloadMoveAssets`
  unfoldable pub download_move_assets : Args → Api → Text → State → Outcome
  unfolding get_release fetch_release
  download_move_assets args api version s = elim (get_release api version) [
    | inl e ↦ raised e s
    | inr r ↦ fetch_release args r s
  ]
