-- ===== src/Release/Tests.antt =====
-- The scripts for releases on a small release, and the theorems at concrete data.
use v_swarm_u.Base.{
  ◌≡◌, refl, Option, none, some, [], ◌∷◌, ◌++◌, map, arith, length, range, select, if◌then◌else◌,
}
use v_swarm_u.Base.Text.{Text, codes, text_eqb, in_text, show_ℕ}
use v_swarm_u.Release.{Release}
use v_swarm_u.Release.Artifacts.Search.{NoSums}
use v_swarm_u.Release.Upload
use v_swarm_u.Release.Upload.{Request, Posted, gave_up, failed}
use v_swarm_u.Release.Upload.Laws.{
  all_accepted, none_failed, until_failed, all_requests, upload_disk_lem, get_release_any_id,
}

abbrev release : Release
release = record {
  tag_name = codes "v1";
  id = 7;
  upload_url = codes "https://up/7{?name,label}";
  assets =
      record { name = codes "vmlinux-focal-amd64"; url = codes "https://x/k" }
      ∷ record { name = codes "test-client-amd64"; url = codes "https://x/c" }
      ∷ record { name = codes "disk-image-focal-amd64.qcow2.aa"; url = codes "https://x/d0" }
      ∷ record { name = codes "disk-image-focal-amd64.qcow2.ab"; url = codes "https://x/d1" }
      ∷ [];
}

no_sums : NoSums (codes "disk-image") release.assets
unfolding in_text
no_sums = ground arith

abbrev guess : Text → Option Text
guess path = none

-- The first upload is given up, and the connection of the second fails.
abbrev give_up : Request → Posted
give_up q = if text_eqb q.name (codes "disk-image-0") then gave_up else failed

upload_disk_lem_example :
    let names = codes "d0" ∷ codes "x" ∷ codes "d1" ∷ codes "d2" ∷ [] in
    let files = select (in_text (codes "d")) names in
    let all = all_requests guess give_up (codes "u") (codes ".") 0 files in
    let (outcome, requests) =
      Upload.upload_disk guess give_up (codes "u") (codes ".") (codes "d") names in
    (outcome
      ≡ (if none_failed guess give_up all then some (all_accepted guess give_up all) else none))
    × (requests ≡ until_failed guess give_up all)
    × (map (λ q. q.name) all ≡ map (λ k. codes "disk-image-" ++ show_ℕ k) (range (length files)))
    × (map (λ q. q.path) all ≡ map (λ f. codes "./" ++ f) files)
upload_disk_lem_example =
    upload_disk_lem guess give_up (codes "u") (codes ".") (codes "d")
      (codes "d0" ∷ codes "x" ∷ codes "d1" ∷ codes "d2" ∷ [])

-- It is asked for twice, and the third file is not sent.
two_requests :
    let (outcome, requests) =
      Upload.upload_disk guess give_up
        (codes "u")
        (codes ".")
        (codes "d")
        (codes "d0" ∷ codes "x" ∷ codes "d1" ∷ codes "d2" ∷ []) in
    (outcome ≡ none) × (length requests ≡ 2)
unfolding Upload.upload_disk text_eqb in_text show_ℕ
two_requests = (refl, refl)

-- Another id, and another tag, than those of the release.
get_release_any_id_example :
    Upload.get_release (codes "v2") (codes "99") (release ∷ []) ≡ some release
get_release_any_id_example =
    get_release_any_id (codes "v2") (codes "99") release [] (λ h. cc) (λ h. omega (arith, h))
