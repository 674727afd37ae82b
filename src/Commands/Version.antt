-- ===== src/Commands/Version.antt =====
-- version/version.go.
use cli.Base.{String, List, [], ◌∷◌, ◌==◌, if◌then◌else◌}
use cli.Net.{◌<>◌}

pub record Build : Type 0 where
  pub project_name : String
  pub project_url : String
  pub version : String
  pub git_commit : String
  pub build_meta : String
  pub features : List String
  pub runtime_version : String

abbrev each : List String → String
each [] = ""
each (f ∷ fs) = " " <> f <> each fs

abbrev features_text : List String → String
features_text [] = ""
features_text (f ∷ fs) = "\nFeatures:" <> each (f ∷ fs)

abbrev prefixed : String → String → String
prefixed p s = if s == "" then "" else p <> s

unfoldable pub full_version : Build → String
full_version b =
    b.version <> prefixed "-" b.build_meta <> prefixed "+" b.git_commit <> features_text b.features

-- `UserAgent`
unfoldable pub user_agent : Build → String
user_agent b =
    b.project_name <> "/" <> b.version <> " (+" <> b.project_url <> "; " <> b.git_commit <> "; "
    <> b.runtime_version <> ")"
