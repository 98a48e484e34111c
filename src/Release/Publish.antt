-- ===== src/Release/Publish.antt =====
-- A release from its upload to its download: what resources/upload_assets.py posts is what
-- resources/artifacts.py finds.
pub mod Names
pub mod Script
pub mod RoundTrip
mod Tests
use v_swarm_u.Base.{◌≡◌, List, [], ◌∷◌, map}
use v_swarm_u.Base.Text.{Text}
use v_swarm_u.Release.{Asset, Release}
use v_swarm_u.Release.Upload.{Request}
use v_swarm_u.Release.Artifacts.{Response, concat, Api}

module _ (url_of : Text → Text) where
  -- The asset that the server makes of a request: `url_of` is its choice of the download URL.
  abbrev pub asset_of : Request → Asset
  asset_of q = record { name = q.name; url = url_of q.name }

  -- The API once the requests were accepted, in the order in which they were posted.
  abbrev pub published : Text → List Request → Api
  published tag requests =
      let r : Release = record {
        tag_name = tag;
        id = 1;
        upload_url = [];
        assets = map asset_of requests;
      } in
      record { latest = r; releases = r ∷ [] }

  -- The server answers the URL of each asset with the content of the file that was sent.
  abbrev pub Serves : (Text → Response) → (Text → Text) → List Request → Type 0
  Serves get content [] = Unit
  Serves get content (q ∷ qs) =
      (concat (get (url_of q.name)).blocks ≡ content q.path) × Serves get content qs
