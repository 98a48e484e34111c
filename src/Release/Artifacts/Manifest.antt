-- ===== src/Release/Artifacts/Manifest.antt =====
-- resources/artifacts.py: the functions that work with release.json, `downloadAssets` and `moveAssets`.
use v_swarm_u.Base.{Option, none, some, List, [], ◌∷◌, ◌++◌, if◌then◌else◌, ◌==◌}
use v_swarm_u.Base.Text.{Text, codes, base_name}
use v_swarm_u.Release.Files.{Files, move}
use v_swarm_u.Release.Artifacts.{
  Api, Response, State, Outcome, done, raised, attribute_error, index_error, file_not_found,
  get_url, get_urls, download_asset, download_disk_image, then_move,
}

-- What release.json holds.
pub record Manifest : Type 0 where
  pub kernel : Text
  pub client : Text
  pub disk_image : List Text
  pub tag_name : Text

-- `with open(args.file) as f: artifacts = json.load(f)`; `none` is a file that is not there.
abbrev with_manifest : Text → Option Manifest → State → (Manifest → Outcome) → Outcome
with_manifest file none s next = raised (file_not_found file) s
with_manifest file (some m) s next = next m

-- `s.split(".")[0]`
unfoldable before_dot : Text → Text
before_dot [] = []
before_dot (c ∷ s) = let rest = before_dot s in if c == b'.' then [] else c ∷ rest

-- `artifacts["disk-image"][0]`
abbrev then_first : List Text → State → (Text → Outcome) → Outcome
then_first [] s next = raised index_error s
then_first (u ∷ us) s next = next u

-- `moveAssets`
unfoldable pub move_assets : Text → Text → Option Manifest → State → Outcome
unfolding move base_name before_dot
move_assets output file manifest s = with_manifest file manifest s (λ m.
    then_move (base_name m.kernel) (output ++ codes "kernel") s (λ s1.
      then_move (base_name m.client) (output ++ codes "client") s1 (λ s2.
        then_first m.disk_image s2 (λ first.
          then_move (before_dot (base_name first)) (output ++ codes "disk-image.qcow2") s2 done))))

module _ (get : Text → Response) (unpack : Text → Files → Files) where
  -- `downloadAsset(url)` and what follows; a URL that was not found is `None`, which has no `split`.
  abbrev then_download : Option Text → State → (State → Outcome) → Outcome
  then_download none s next = raised attribute_error s
  then_download (some url) s next = next (download_asset get unpack url s)

  -- `downloadAssets`
  unfoldable pub download_assets : Text → Option Manifest → Api → State → Outcome
  unfolding get_url get_urls download_asset download_disk_image
  download_assets file manifest api s = with_manifest file manifest s (λ m.
      then_download (get_url api.latest (codes "vmlinux")) s (λ s1.
        then_download (get_url api.latest (codes "client")) s1 (λ s2.
          done (download_disk_image get unpack (get_urls api.latest (codes "disk-image")) s2))))
