-- ===== src/Release/Artifacts/Download.antt =====
-- What resources/artifacts.py leaves in the file system, and how it fails.
use v_swarm_u.Base.{
  ℕ, ◌≡◌, refl, ◌↔◌, ◌⊎◌, none, some, List, [], ◌∷◌, ◌++◌, arith, length, length-append, sym, ◌∙◌,
}
use mathlib.Core.List.{append_assoc, append-nil}
use v_swarm_u.Base.Text.{Text, base_name}
use v_swarm_u.Release.Files.{Files, read, write, remove}
use v_swarm_u.Release.Files.Laws.{text_eqb_refl, read-write, read-remove}
use v_swarm_u.Release.Artifacts.{
  Response, State, concat, received, download_asset, download_parts, disk_tmp, download_disk_image,
}

length-concat : (bs : List Text) → length (concat bs) ≡ received bs
length-concat [] = refl
length-concat (b ∷ bs) = omega (arith, length-append b (concat bs), length-concat bs)

module _ (get : Text → Response) (unpack : Text → Files → Files) where
  -- A downloaded asset is stored under the last part of its URL with the blocks of the answer in
  -- order, and no error is logged exactly if the announced length is 0 or the length of the file.
  download_asset_lem :
      (url : Text) (s : State)
      → let t = download_asset get unpack url s in
        let r = get url in
        (read (base_name url) t.files ≡ some (concat r.blocks))
        × ((t.errors ≡ s.errors)
            ↔ ((r.content_length ≡ 0) ⊎ (length (concat r.blocks) ≡ r.content_length)))
  unfolding download_asset
  download_asset_lem url s = ground (
    arith,
    length-concat (get url).blocks,
    text_eqb_refl (base_name url),
    read-write (base_name url) (base_name url) (concat (get url).blocks) s.files,
  )

  -- The bodies of the parts, one after the other.
  abbrev pub bodies : List Text → Text
  bodies [] = []
  bodies (url ∷ urls) = concat (get url).blocks ++ bodies urls

  download_parts_lem :
      (urls : List Text) (content : Text) (errors : ℕ)
      → (download_parts get unpack urls (content, errors)).0 ≡ content ++ bodies urls
  unfolding download_parts
  download_parts_lem [] content errors = sym (append-nil content)
  download_parts_lem (url ∷ urls) content errors =
      download_parts_lem urls _ _ ∙ append_assoc content (concat (get url).blocks) (bodies urls)

  -- The disk image is unpacked from an archive with the bodies of all parts in order, and the
  -- archive is gone afterwards.
  pub download_disk_image_lem :
      (urls : List Text) (s : State)
      → let t = download_disk_image get unpack urls s in
        (t.files ≡ remove disk_tmp (unpack disk_tmp (write disk_tmp (bodies urls) s.files)))
        × (read disk_tmp t.files ≡ none)
  unfolding download_disk_image
  download_disk_image_lem urls s = (
    rw (download_parts_lem urls [] s.errors),
    rw (read-remove disk_tmp disk_tmp, text_eqb_refl disk_tmp),
  )
