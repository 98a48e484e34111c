-- ===== src/Release/Publish/Names.antt =====
-- The names that resources/upload_assets.py gives, and which of them resources/artifacts.py finds.
use v_swarm_u.Base.{
  ℕ, ◌≤◌, ◌+◌, ◌≡◌, ◌⊎◌, inl, inr, refl, Bool, true, false, Option, none, some, List, [], ◌∷◌, ◌++◌,
  map, arith, Option-cases, ap, sym, ◌∙◌, select,
}
use mathlib.Core.List.{append-nil}
use mathlib.Core.Path.{subst}
use v_swarm_u.Base.Text.{Text, codes, in_text, text_eqb, show_ℕ}
use v_swarm_u.Base.Text.Search.{in_text-Low, show_ℕ-Low}
use v_swarm_u.Release.{Release}
use v_swarm_u.Release.Files.{Files}
use v_swarm_u.Release.Upload
use v_swarm_u.Release.Upload.{
  Request, Posted, request, upload_asset, upload_parts, upload_disk, get_uploadurl, main,
}
use v_swarm_u.Release.Artifacts.{
  Args, Response, State, raised, kernel_not_found, kernel_name, get_release, fetch_release, get_url,
  first_url, all_urls, download_move_assets,
}
use v_swarm_u.Release.Publish.{asset_of, published}

-- The name of part `k` of the disk image.
abbrev part_name : ℕ → Text
part_name k = codes "disk-image-" ++ show_ℕ k

-- A text that begins with a letter is not in the number behind the name.
in_text-show : (c : ℕ) (s : Text) (k : ℕ) → 58 ≤ c → in_text (c ∷ s) (show_ℕ k) ≡ false
unfolding in_text
in_text-show c s k h =
    ap (in_text (c ∷ s)) (sym (append-nil (show_ℕ k)))
    ∙ in_text-Low c s (show_ℕ k) [] h (show_ℕ-Low k)

part_name-disk : (k : ℕ) → in_text (codes "disk-image") (part_name k) ≡ true
unfolding in_text
part_name-disk k = ground arith

part_name-sums : (k : ℕ) → in_text (codes "sums") (part_name k) ≡ false
unfolding in_text
part_name-sums k = in_text-show b's' (codes "ums") k (omega arith)

part_name-kernel : (s : Text) (k : ℕ) → in_text (codes "vmlinux" ++ s) (part_name k) ≡ false
unfolding in_text
part_name-kernel s k = in_text-show b'v' (codes "mlinux" ++ s) k (omega arith)

-- The requests are for the parts of a disk image, numbered from `i`.
abbrev pub Parts : ℕ → List Request → Type 0
Parts i [] = Unit
Parts i (q ∷ qs) = (q.name ≡ part_name i) × Parts (i + 1) qs

module _ (guess : Text → Option Text) (post : Request → Posted) where
  upload_parts-Parts :
      (url dir : Text) (i : ℕ) (files : List Text)
      → Parts i (upload_parts guess post url dir i files).1
  unfolding upload_parts
  upload_parts-Parts url dir i [] = tt
  upload_parts-Parts url dir i (f ∷ files) =
      elim (Option-cases (upload_asset guess post url (dir ++ (b'/' ∷ f)) (part_name i) 50)) [
        | inl raises ↦ rw (Parts, upload_parts, raises) (refl, tt)
        | inr (u, uploaded) ↦
            rw (Parts, upload_parts, uploaded) (refl, upload_parts-Parts url dir (i + 1) files)
      ]

  pub upload_disk-Parts :
      (url dir prefix : Text) (names : List Text)
      → Parts 0 (upload_disk guess post url dir prefix names).1
  unfolding upload_disk
  upload_disk-Parts url dir prefix names =
      upload_parts-Parts url dir 0 (select (in_text prefix) names)

module _ (url_of : Text → Text) where
  -- The URLs of the parts are those that `get_urls` finds for "disk-image".
  pub all_urls-Parts :
      (i : ℕ) (qs : List Request)
      → Parts i qs
      → all_urls (codes "disk-image") (map (asset_of url_of) qs) ≡ map (λ q. url_of q.name) qs
  unfolding all_urls
  all_urls-Parts i [] h = refl
  all_urls-Parts i (q ∷ qs) h =
      ground (arith, h.0, part_name-sums i, part_name-disk i, all_urls-Parts (i + 1) qs h.1)

  -- No part is found under a name that begins like a kernel's.
  first_url-Parts :
      (s : Text) (i : ℕ) (qs : List Request)
      → Parts i qs
      → first_url (codes "vmlinux" ++ s) (map (asset_of url_of) qs) ≡ none
  unfolding first_url
  first_url-Parts s i [] h = refl
  first_url-Parts s i (q ∷ qs) h = rw (h.0, part_name-kernel s i) (first_url-Parts s (i + 1) qs h.1)

-- The kernel and the client, under the names that resources/upload_assets.py gives them.
abbrev pub kernel_asset : Text
kernel_asset = codes "vmlinux-amd64"

abbrev pub client_asset : Text
client_asset = codes "client-amd64"

-- No kernel that resources/artifacts.py looks for has the name of the one that was uploaded.
versioned_kernel :
    (args : Args)
    → (args.os_version ≡ codes "focal") ⊎ (args.os_version ≡ codes "jammy")
    → (in_text (kernel_name args) kernel_asset ≡ false)
      × (in_text (kernel_name args) client_asset ≡ false)
unfolding in_text
versioned_kernel args (inl e) = rw e (refl, refl)
versioned_kernel args (inr e) = rw e (refl, refl)

-- The requests of the upload script.
abbrev pub posted :
    (Text → Option Text) → (Request → Posted) → Text → Text → Text → List Text → List Request
posted guess post url kernel client names =
    request guess post url kernel kernel_asset 10
    ∷ request guess post url client client_asset 10
    ∷ (upload_disk guess post url (codes ".") (codes "disk-image-amd64-") names).1

pub main-posted :
    (guess : Text → Option Text) (post : Request → Posted) (tag id kernel client : Text)
    (releases : List Release) (names : List Text) (requests : List Request)
    → main guess post tag id kernel client releases names ≡ some requests
    → (url : Text) × (posted guess post url kernel client names ≡ requests)
      × (fine : Bool) × ((upload_disk guess post url
            (codes ".")
            (codes "disk-image-amd64-")
            names).0
          ≡ some fine)
unfolding main
main-posted guess post tag id kernel client releases names requests e =
    elim (Option-cases (Upload.get_release tag id releases)) [
      | inl missing ↦ absurd (ground (arith, e, missing))
      | inr (r, found) ↦
          let url = get_uploadurl r in
          elim (Option-cases
            (upload_disk guess post url (codes ".") (codes "disk-image-amd64-") names).0) [
              | inl raises ↦ absurd (ground (arith, e, found, raises))
              | inr (fine, ends) ↦ (url, ground (arith, e, found, ends), fine, ends)
            ]
    ]

-- None of the names of `posted` has the name of the kernel in it.
get_url-posted :
    (guess : Text → Option Text) (post : Request → Posted) (url_of : Text → Text) (args : Args)
    (tag url kernel client : Text) (names : List Text)
    → (args.os_version ≡ codes "focal") ⊎ (args.os_version ≡ codes "jammy")
    → get_url
        (published url_of tag (posted guess post url kernel client names)).latest
        (kernel_name args)
      ≡ none
unfolding get_url first_url
get_url-posted guess post url_of args tag url kernel client names version =
    let (not_kernel, not_client) = versioned_kernel args version in
    rw (not_kernel, not_client)
      (first_url-Parts url_of (codes "-" ++ (args.os_version ++ (b'-' ∷ args.arch))) 0
        (upload_disk guess post url (codes ".") (codes "disk-image-amd64-") names).1
        (upload_disk-Parts guess post url (codes ".") (codes "disk-image-amd64-") names))

module _ (guess : Text → Option Text) (post : Request → Posted) (url_of : Text → Text)
    (get : Text → Response) (unpack : Text → Files → Files) where
  fetch_release-none :
      (args : Args) (r : Release) (s : State)
      → get_url r (kernel_name args) ≡ none
      → fetch_release get unpack args r s ≡ raised (kernel_not_found (kernel_name args)) s
  unfolding fetch_release
  fetch_release-none args r s h = rw (h, fetch_release)

  -- For either version of the operating system and any architecture, the download of a release that
  -- holds what the upload script has posted, in the order of its requests, ends with the error that
  -- the kernel is not found, and changes nothing.
  pub published-download_move_assets :
      (args : Args) (tag id kernel client new : Text) (releases : List Release) (names : List Text)
      (requests : List Request) (s : State)
      → (args.os_version ≡ codes "focal") ⊎ (args.os_version ≡ codes "jammy")
      → main guess post tag id kernel client releases names ≡ some requests
      → download_move_assets get unpack args (published url_of new requests) (codes "latest") s
        ≡ raised (kernel_not_found (kernel_name args)) s
  unfolding download_move_assets get_release text_eqb
  published-download_move_assets args tag id kernel client new releases names requests s version e =
      let (url, same, fine, ends) =
        main-posted guess post tag id kernel client releases names requests e in
      subst
        (λ qs.
          download_move_assets get unpack args (published url_of new qs) (codes "latest") s
          ≡ raised (kernel_not_found (kernel_name args)) s)
        same
        (fetch_release-none args
          (published url_of new (posted guess post url kernel client names)).latest s
          (get_url-posted guess post url_of args new url kernel client names version))
