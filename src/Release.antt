-- ===== src/Release.antt =====
-- The scripts under resources/ that fetch and publish the assets of a release: what a release of
-- the GitHub API holds, and the files that the scripts work on.
pub mod Files
pub mod Artifacts
pub mod Upload
pub mod Publish
pub mod Processes
mod Tests
use v_swarm_u.Base.{ℕ, List}
use v_swarm_u.Base.Text.{Text}

-- An entry of `release["assets"]`; `url` is its `browser_download_url`.
pub record Asset : Type 0 where
  pub name : Text
  pub url : Text

-- A release, as the API answers it.
pub record Release : Type 0 where
  pub tag_name : Text
  pub id : ℕ
  pub upload_url : Text
  pub assets : List Asset
