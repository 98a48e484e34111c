-- ===== src/Release/Publish/Tests.antt =====
-- A small release, from its upload to its download, at concrete data.
use v_swarm_u.Base.{◌≡◌, refl, true, Option, none, some, List, [], ◌∷◌, ◌++◌}
use v_swarm_u.Base.Text.{Text, codes, text_eqb, base_name, in_text, show_ℕ}
use v_swarm_u.Release.{Release}
use v_swarm_u.Release.Files.{Files, read, write}
use v_swarm_u.Release.Files.Laws.{read-write}
use v_swarm_u.Release.Upload
use v_swarm_u.Release.Upload.{Request, Posted, status}
use v_swarm_u.Release.Artifacts.{
  Args, State, Response, done, raised, disk_tmp, image_path, kernel_name, kernel_not_found,
  download_move_assets,
}
use v_swarm_u.Release.Artifacts.Manifest.{Manifest, download_assets}
use v_swarm_u.Release.Artifacts.Success.{Unpacks}
use v_swarm_u.Release.Publish.{published}
use v_swarm_u.Release.Publish.Names.{kernel_asset, client_asset, posted}
use v_swarm_u.Release.Publish.Script.{parse_artifacts-kernel_not_found}
use v_swarm_u.CommandLine.Release.{parse_artifacts}
use v_swarm_u.Release.Publish.RoundTrip.{parts_content, download_assets-main}

abbrev guess : Text → Option Text
guess path = none

abbrev post : Request → Posted
post q = status 201

abbrev url_of : Text → Text
url_of name = codes "https://x/" ++ name

-- What the working folder holds: two parts, and another file.
abbrev names : List Text
names = codes "disk-image-amd64-aa" ∷ codes "notes" ∷ codes "disk-image-amd64-ab" ∷ []

abbrev releases : List Release
releases =
    record { tag_name = codes "v1"; id = 7; upload_url = codes "https://up/7"; assets = [] } ∷ []

-- The files of the upload by their paths, and the assets by their names.
abbrev sent : Files
sent =
    (codes "k", codes "K")
    ∷ (codes "c", codes "C")
    ∷ (codes "./disk-image-amd64-aa", codes "x")
    ∷ (codes "./disk-image-amd64-ab", codes "y")
    ∷ []

abbrev stored : Files
stored =
    (kernel_asset, codes "K")
    ∷ (client_asset, codes "C")
    ∷ (codes "disk-image-0", codes "x")
    ∷ (codes "disk-image-1", codes "y")
    ∷ []

abbrev content_or_empty : Option Text → Text
content_or_empty none = []
content_or_empty (some t) = t

abbrev content : Text → Text
content path = content_or_empty (read path sent)

abbrev get : Text → Response
get url = record {
  content_length = 1;
  blocks = content_or_empty (read (base_name url) stored) ∷ [];
}

-- An archive that is the image itself.
unpack : Text → Files → Files
unpack tmp files = write image_path (content_or_empty (read tmp files)) files

unpack-Unpacks : (archive : Text) → Unpacks unpack archive archive
unfolding unpack
unpack-Unpacks archive = record {
  unpacked = λ files name h.
      rw (read-write name image_path (content_or_empty (read disk_tmp files)) files, h);
}

abbrev start : State
start = record { files = []; has_folder = λ path. true; errors = 0 }

abbrev args : Args
args = record { os_version = codes "focal"; arch = codes "amd64"; output = codes "res/" }

abbrev manifest : Manifest
manifest = record {
  kernel = codes "https://x/vmlinux-amd64";
  client = codes "https://x/client-amd64";
  disk_image = codes "https://x/disk-image-0" ∷ [];
  tag_name = codes "v1";
}

abbrev requests : List Request
requests = posted guess post (codes "https://up/7") (codes "k") (codes "c") names

download_assets-main_example :
    (t : State) × (download_assets get unpack
        (codes "release.json")
        (some manifest)
        (published url_of (codes "v1") requests)
        start
      ≡ done t)
    × (read kernel_asset t.files ≡ some (content (codes "k")))
    × (read client_asset t.files ≡ some (content (codes "c")))
    × (read image_path t.files ≡ some (parts_content content names))
unfolding Upload.main Upload.upload_disk Upload.get_release Upload.get_uploadurl base_name read
    text_eqb show_ℕ in_text
download_assets-main_example =
    download_assets-main guess post url_of get unpack content (parts_content content names) refl
      refl (codes "v1") [] (codes "k") (codes "c") (codes "v1") (codes "release.json") releases
      names requests manifest start (unpack-Unpacks (parts_content content names)) refl
      (refl, (refl, (refl, (refl, tt))))

-- The parts arrive in the order of the folder.
parts : parts_content content names ≡ codes "xy"
unfolding read text_eqb in_text
parts = refl

parse_artifacts-kernel_not_found_example :
    download_move_assets get unpack args
      (published url_of (codes "v1") requests)
      (codes "latest")
      start
    ≡ raised (kernel_not_found (kernel_name args)) start
unfolding parse_artifacts Upload.main Upload.get_release Upload.get_uploadurl
parse_artifacts-kernel_not_found_example =
    parse_artifacts-kernel_not_found guess post url_of get unpack (some "/r")
      ("--os-version=focal" ∷ "-aamd64" ∷ "-o" ∷ "res/" ∷ []) args (codes "v1") [] (codes "k")
      (codes "c") (codes "v1") releases names requests start refl refl
