-- ===== src/Api/FileProvider.antt =====
-- api/file_provider.go: the configuration in a file.
pub mod Limit
use cli.Base.{ℕ, zero, suc, String, Option, none, some}
use cli.Base.Results.{Result, ok, err}
use cli.Jwt.Local.{OsError, not_exist, failed, Os, error_text}
use cli.Api.Persist.{Provider}

-- `maxConfigFileBytes`, 4 << 20.
abbrev pub max_config_file_bytes : ℕ
max_config_file_bytes = 4194304

-- `io.LimitReader`: a text up to its first `n` bytes.
unfoldable pub limited : ℕ → String → String
limited zero s = ""
limited (suc n) String.[] = ""
limited (suc n) (String.◌∷◌ c s) = String.◌∷◌ c (limited n s)

-- A file that cannot be opened for another reason is a nil one, which cannot be read.
abbrev read_limited : Result OsError String → Result String String
read_limited (err not_exist) = ok ""
read_limited (err (failed e)) = err "invalid argument"
read_limited (ok bytes) = ok (limited max_config_file_bytes bytes)

module _ (os : Os) (path : String) where
  unfoldable pub load : os.Fs → Result String String
  load fs = read_limited (os.read_file path fs)

  unfoldable pub save : String → os.Fs → os.Fs × Option String
  save bytes fs = let (fs', e) = os.write_file path bytes fs in (fs', error_text e)

  abbrev pub file_config_provider : Provider os.Fs
  file_config_provider = record { load = load; save = save }
