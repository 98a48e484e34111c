-- ===== src/Release/Artifacts/Success.antt =====
-- What the downloads of resources/artifacts.py leave in the folder, where the archive is unpacked.
use v_swarm_u.Base.{◌≡◌, some, none, List, arith, if◌then◌else◌}
use v_swarm_u.Base.Text.{Text, text_eqb, base_name}
use v_swarm_u.Release.Files.{Files, read, write}
use v_swarm_u.Release.Files.Laws.{text_eqb_refl, read-write, read-remove}
use v_swarm_u.Release.Artifacts.Download.{bodies, download_disk_image_lem}
use v_swarm_u.Release.Artifacts.{
  State, disk_tmp, image_path, Response, concat, download_asset, download_disk_image,
}

-- The condition on the unpacking of one archive: `pigz` and `tar` both succeed and have ended when
-- `decompressParallel` stops waiting for them, and from the archive they have written the image that
-- it holds, and changed no other file. The wait itself ensures no end of `tar`: see Processes. Nothing
-- is said of other archives.
pub record Unpacks (unpack : Text → Files → Files) (archive image : Text) : Type 0 where
  pub unpacked :
      (files : Files) (name : Text)
      → read disk_tmp files ≡ some archive
      → read name (unpack disk_tmp files)
        ≡ (if text_eqb image_path name then some image else read name files)

module _ (get : Text → Response) (unpack : Text → Files → Files) (archive image : Text)
    (lawful : Unpacks unpack archive image) where
  pub read-download_asset :
      (name url : Text) (s : State)
      → read name (download_asset get unpack url s).files ≡ (
          if text_eqb (base_name url) name
          then some (concat (get url).blocks)
          else read name s.files)
  unfolding download_asset
  read-download_asset name url s = read-write name (base_name url) (concat (get url).blocks) s.files

  pub read-download_disk_image :
      (name : Text) (urls : List Text) (s : State)
      → bodies get unpack urls ≡ archive
      → read name (download_disk_image get unpack urls s).files ≡ (
          if text_eqb disk_tmp name
          then none
          else if text_eqb image_path name
          then some image
          else read name s.files)
  read-download_disk_image name urls s e =
      let files = write disk_tmp archive s.files in
      let there : read disk_tmp files ≡ some archive = rw (read-write, text_eqb_refl) in
      rw ((download_disk_image_lem get unpack urls s).0, e)
        (ground (
          arith,
          read-remove name disk_tmp (unpack disk_tmp files),
          lawful.unpacked files name there,
          read-write name disk_tmp archive s.files,
        ))
