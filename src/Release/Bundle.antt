-- ===== src/Release/Bundle.antt =====
-- What fetchLatestRelease yields: a release with an asset for each architecture.
use nginx_atlas.Model.{Time}
use nginx_atlas.Prelude.{Dict, Text}

pub record ReleaseAsset : Type 0 where
  pub name : Text
  pub download_url : Text
  pub sha256 : Text

pub record ReleaseBundle : Type 0 where
  pub version : Text
  pub html_url : Text
  pub published_at : Time
  pub assets : Dict ReleaseAsset
