-- ===== src/Release/Publish/RoundTrip.antt =====
-- What `downloadAssets` of resources/artifacts.py makes of a release that
-- resources/upload_assets.py has published.
use v_swarm_u.Base.{◌≡◌, refl, Bool, Option, some, List, [], ◌∷◌, ◌++◌, map, ap, ◌∙◌, select}
use mathlib.Core.Path.{subst}
use v_swarm_u.Base.Text.{Text, codes, in_text, text_eqb, base_name}
use v_swarm_u.Release.{Release}
use v_swarm_u.Release.Files.{Files, read}
use v_swarm_u.Release.Upload.{Request, Posted, upload_disk, main}
use v_swarm_u.Release.Upload.Laws.{upload_disk-paths}
use v_swarm_u.Release.Artifacts.{
  Response, State, done, concat, image_path, get_url, get_urls, first_url, all_urls, download_asset,
  download_disk_image,
}
use v_swarm_u.Release.Artifacts.Download.{bodies}
use v_swarm_u.Release.Artifacts.Success.{Unpacks, read-download_asset, read-download_disk_image}
use v_swarm_u.Release.Artifacts.Manifest.{Manifest, download_assets}
use v_swarm_u.Release.Publish.{published, Serves}
use v_swarm_u.Release.Publish.Names.{
  posted, main-posted, kernel_asset, client_asset, all_urls-Parts, upload_disk-Parts,
}

-- The files of the working folder that are parts of the disk image, one after the other.
abbrev pub parts_content : (Text → Text) → List Text → Text
parts_content content names =
    concat
      (map (λ f. content (codes "./" ++ f)) (select (in_text (codes "disk-image-amd64-")) names))

module _ (url_of : Text → Text) (get : Text → Response) (unpack : Text → Files → Files)
    (content : Text → Text) where
  bodies-Serves :
      (qs : List Request)
      → Serves url_of get content qs
      → bodies get unpack (map (λ q. url_of q.name) qs)
        ≡ concat (map content (map (λ q. q.path) qs))
  bodies-Serves [] h = refl
  bodies-Serves (q ∷ qs) (e, h) = rw (e, bodies-Serves qs h)

concat-map :
    (content : Text → Text) (fs : List Text)
    → concat (map content (map (λ f. codes "./" ++ f) fs))
      ≡ concat (map (λ f. content (codes "./" ++ f)) fs)
concat-map content [] = refl
concat-map content (f ∷ fs) = ap (λ t. content (codes "./" ++ f) ++ t) (concat-map content fs)

module _ (guess : Text → Option Text) (post : Request → Posted) (url_of : Text → Text)
    (get : Text → Response) (unpack : Text → Files → Files) (content : Text → Text) (image : Text)
    (named_kernel : base_name (url_of kernel_asset) ≡ kernel_asset)
    (named_client : base_name (url_of client_asset) ≡ client_asset) where
  -- The URLs of the disk image are those of its parts.
  urls_posted :
      (new url kernel client : Text) (names : List Text)
      → get_urls
          (published url_of new (posted guess post url kernel client names)).latest
          (codes "disk-image")
        ≡ map
            (λ q. url_of q.name)
            (upload_disk guess post url (codes ".") (codes "disk-image-amd64-") names).1
  unfolding get_urls all_urls in_text
  urls_posted new url kernel client names =
      all_urls-Parts url_of 0
        (upload_disk guess post url (codes ".") (codes "disk-image-amd64-") names).1
        (upload_disk-Parts guess post url (codes ".") (codes "disk-image-amd64-") names)

  bodies_posted :
      (url : Text) (names : List Text)
      → let qs = (upload_disk guess post url (codes ".") (codes "disk-image-amd64-") names).1 in
        (fine : Bool)
        → (upload_disk guess post url (codes ".") (codes "disk-image-amd64-") names).0 ≡ some fine
        → Serves url_of get content qs
        → bodies get unpack (map (λ q. url_of q.name) qs) ≡ parts_content content names
  bodies_posted url names fine ends h =
      let paths_are =
        upload_disk-paths guess post url (codes ".") (codes "disk-image-amd64-") names fine ends in
      bodies-Serves url_of get unpack content _ h
      ∙ ap (λ ps. concat (map content ps)) paths_are
      ∙ concat-map content (select (in_text (codes "disk-image-amd64-")) names)

  -- The files after the three downloads.
  posted_reads :
      (new url kernel client : Text) (names : List Text) (s : State)
      → let qs = posted guess post url kernel client names in
        let t =
          download_disk_image get unpack
            (get_urls (published url_of new qs).latest (codes "disk-image"))
            (download_asset get unpack
              (url_of client_asset)
              (download_asset get unpack (url_of kernel_asset) s)) in
        (fine : Bool)
        → (upload_disk guess post url (codes ".") (codes "disk-image-amd64-") names).0 ≡ some fine
        → Unpacks unpack (parts_content content names) image
        → Serves url_of get content qs
        → (read kernel_asset t.files ≡ some (content kernel))
          × (read client_asset t.files ≡ some (content client))
          × (read image_path t.files ≡ some image)
  unfolding text_eqb
  posted_reads new url kernel client names s fine ends lawful (hk, h) =
      let archive = parts_content content names in
      let bodies_are : bodies get unpack (
            get_urls (published url_of new (posted guess post url kernel client names)).latest
              (codes "disk-image"))
          ≡ archive =
        ap (bodies get unpack) (urls_posted new url kernel client names)
        ∙ bodies_posted url names fine ends h.1 in
      let k : concat (get (url_of kernel_asset)).blocks ≡ content kernel = hk in
      let c : concat (get (url_of client_asset)).blocks ≡ content client = h.0 in
      (
        rw (
          read-download_disk_image get unpack archive image lawful _ _ _ bodies_are,
          read-download_asset get unpack archive image lawful,
          named_client,
          read-download_asset get unpack archive image lawful,
          named_kernel,
          k,
        ),
        rw (
          read-download_disk_image get unpack archive image lawful _ _ _ bodies_are,
          read-download_asset get unpack archive image lawful,
          named_client,
          c,
        ),
        read-download_disk_image get unpack archive image lawful image_path _ _ bodies_are,
      )

  -- A release that holds what the upload script has posted, in the order of its requests, where no
  -- upload has raised an exception, and whose assets answer with the files that were sent, the kernel
  -- and the client under URLs that end with the names of their assets. If the archive that the parts
  -- of the folder make, in the order of the folder, is unpacked to an image, and this has ended when
  -- the wait for it stops, then the download ends without an exception. It stores the kernel and the
  -- client of the upload under the names of their assets, and the image of that archive.
  pub download_assets-main :
      (tag id kernel client new file : Text) (releases : List Release) (names : List Text)
      (requests : List Request) (m : Manifest) (s : State)
      → Unpacks unpack (parts_content content names) image
      → main guess post tag id kernel client releases names ≡ some requests
      → Serves url_of get content requests
      → (t : State) × (download_assets get unpack file (some m) (published url_of new requests) s
          ≡ done t)
        × (read kernel_asset t.files ≡ some (content kernel))
        × (read client_asset t.files ≡ some (content client))
        × (read image_path t.files ≡ some image)
  unfolding download_assets get_url first_url in_text
  download_assets-main tag id kernel client new file releases names requests m s lawful e serves =
      let (url, same, fine, ends) =
        main-posted guess post tag id kernel client releases names requests e in
      subst
        (λ qs.
          Serves url_of get content qs
          → (t : State) × (download_assets get unpack file (some m) (published url_of new qs) s
              ≡ done t)
            × (read kernel_asset t.files ≡ some (content kernel))
            × (read client_asset t.files ≡ some (content client))
            × (read image_path t.files ≡ some image))
        same
        (λ h.
          let (k, c, i) = posted_reads new url kernel client names s fine ends lawful h in
          (_, refl, k, c, i))
        serves
