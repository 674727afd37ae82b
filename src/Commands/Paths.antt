-- ===== src/Commands/Paths.antt =====
-- internal/cache/cache.go, and the last URL of cmd/pomerium-cli/cache.go. The user's cache directory
-- and `filepath.Join` are parameters.
use cli.Base.{String, Option}
use cli.Base.Results.{Result, ok, err}
use cli.Jwt.Local.{Os, OsError}

pub record Directories : Type 0 where
  pub user_cache_dir : Result String String
  pub join : String → String → String

module _ (x : Directories) where
  abbrev in_dir : String → Result String String → Result String String
  in_dir name (err e) = err e
  in_dir name (ok dir) = ok (x.join dir name)

  unfoldable pub root_path : Result String String
  root_path = in_dir "pomerium-cli" x.user_cache_dir

  unfoldable pub exec_credentials_path : Result String String
  exec_credentials_path = in_dir "exec-credential" root_path

  unfoldable pub jwts_path : Result String String
  jwts_path = in_dir "jwts" root_path

  unfoldable pub last_url_path : Result String String
  last_url_path = in_dir "last-url" root_path

  module _ (os : Os) where
    -- `Clear`, by `os.RemoveAll`.
    abbrev clear_at :
        (String → os.Fs → os.Fs × Option OsError)
        → os.Fs
        → Result String String
        → os.Fs × Result String (Option OsError)
    clear_at remove_all fs (err e) = (fs, err e)
    clear_at remove_all fs (ok root) = let (fs', e) = remove_all root fs in (fs', ok e)

    unfoldable pub clear :
        (String → os.Fs → os.Fs × Option OsError) → os.Fs → os.Fs × Result String (Option OsError)
    clear remove_all fs = clear_at remove_all fs root_path

    abbrev read_or_empty : Result OsError String → String
    read_or_empty (ok text) = text
    read_or_empty (err e) = ""

    abbrev load_at : os.Fs → Result String String → String
    load_at fs (err e) = ""
    load_at fs (ok fn) = read_or_empty (os.read_file fn fs)

    unfoldable pub load_last_url : os.Fs → String
    load_last_url fs = load_at fs last_url_path

    abbrev pub cache_at : String → os.Fs → Result String String → os.Fs
    cache_at raw_server_url fs (err e) = fs
    cache_at raw_server_url fs (ok fn) = (os.write_file fn raw_server_url fs).0

    unfoldable pub cache_last_url : String → os.Fs → os.Fs
    cache_last_url raw_server_url fs = cache_at raw_server_url fs last_url_path
