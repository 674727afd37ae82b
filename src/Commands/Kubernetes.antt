-- ===== src/Commands/Kubernetes.antt =====
-- `exec-credential` of cmd/pomerium-cli/kubernetes.go: a credential for kubectl, from the cache or from
-- a login.

pub mod Again
use cli.Base.{
  ℕ, suc, ◌≡◌, String, Bool, Option, none, some, List, [], ◌∷◌, ◌++◌, ◌==◌, if◌then◌else◌,
}
use cli.Base.Results.{Result, ok, err}
use cli.Net.{Url}
use cli.Jwt.{Decoder}
use cli.Jwt.Local.{Os, OsError}
use cli.Tunnel.Config.{TlsConfig}
use cli.Authclient.{
  FetchError, AuthConfig, Http, get_config, with_browser_command, with_service_account,
  with_service_account_file, with_tls_config, check_bearer_token,
}
use cli.Commands.Tls.{TlsFlags, Files, FlagError}
use cli.Commands.Tls
use cli.Commands.Paths.{Directories, cache_last_url}
use cli.Commands.Credentials.{
  ExecCredential, ExecCredentialStatus, CredentialError, Json, load_cached_credential,
  save_cached_credential, parse_token,
}

-- The flags of the command.
pub record Flags : Type 0 where
  pub tls : TlsFlags
  pub browser_command : String
  pub service_account : String
  pub service_account_file : String

pub data ExecError : Type 0 where
  no_server_url : ExecError
  bad_server_url : String → ExecError
  bad_tls : FlagError → ExecError
  -- `fatalf`, which ends the process.
  fatal : FetchError → ExecError
  failed : CredentialError → ExecError

-- What is not under src/: the directories, the hash, JSON, the file names, tokens, net/url and
-- net/http; and the login, by the configuration and the server.
pub record World (os : Os) : Type 0 where
  pub directories : Directories
  pub hash : String → String
  pub json : Json
  pub dir : String → String
  pub close : String → Option OsError
  pub decoder : Decoder
  pub parse : String → Result String Url
  pub text : Url → String
  pub http : Http
  pub files : Files

-- What a run of the command does: the file system that it leaves, the credentials that it prints,
-- how often it logs in, and the error that it returns.
pub record Run (os : Os) : Type 0 where
  pub fs : os.Fs
  pub printed : List ExecCredential
  pub logins : ℕ
  pub error : Option ExecError

module _ (os : Os) (w : World os) (flags : Flags)
    (login : AuthConfig → Url → Result FetchError String) (now : ℕ) where
  abbrev pub stops : os.Fs → ExecError → Run os
  stops fs e = record { fs = fs; printed = []; logins = 0; error = some e }

  abbrev pub prints : os.Fs → ExecCredential → Run os
  prints fs creds = record { fs = fs; printed = creds ∷ []; logins = 0; error = none }

  abbrev pub after_login : Run os → Run os
  after_login r = record r { logins = suc r.logins }

  abbrev pub saved : ExecCredential → os.Fs × Option CredentialError → Run os
  saved creds (fs, some e) = stops fs (failed e)
  saved creds (fs, none) = prints fs creds

  abbrev pub parsed : Url → os.Fs → Result CredentialError ExecCredential → Run os
  parsed u fs (err e) = stops fs (failed e)
  parsed u fs (ok creds) =
      saved creds
        (save_cached_credential w.directories w.hash os w.json w.dir w.close (w.text u) creds fs)

  abbrev pub logged_in : Url → os.Fs → Result FetchError String → Run os
  logged_in u fs (err e) = stops fs (fatal e)
  logged_in u fs (ok raw_jwt) = parsed u fs (parse_token w.decoder raw_jwt)

  abbrev pub auth_config : Option TlsConfig → AuthConfig
  auth_config tls = get_config (
      with_browser_command flags.browser_command
      ∷ with_service_account flags.service_account
      ∷ with_service_account_file flags.service_account_file
      ∷ with_tls_config tls
      ∷ [])

  abbrev pub new_login : AuthConfig → Url → os.Fs → Run os
  new_login ac u fs = after_login (logged_in u fs (login ac u))

  -- `err == nil && ac.CheckBearerToken(…) == nil`; a loaded credential has a status.
  abbrev pub checked : AuthConfig → Url → os.Fs → ExecCredential → Option FetchError → Run os
  checked ac u fs creds none = prints fs creds
  checked ac u fs creds (some e) = new_login ac u fs

  abbrev pub of_status :
      AuthConfig → Url → os.Fs → ExecCredential → Option ExecCredentialStatus → Run os
  of_status ac u fs creds none = new_login ac u fs
  of_status ac u fs creds (some s) = checked ac u fs creds (check_bearer_token w.http ac u s.token)

  abbrev pub loaded : AuthConfig → Url → os.Fs × Result CredentialError ExecCredential → Run os
  loaded ac u (fs, err e) = new_login ac u fs
  loaded ac u (fs, ok creds) = of_status ac u fs creds creds.status

  abbrev pub with_tls : Url → os.Fs → Result FlagError (Option TlsConfig) → Run os
  with_tls u fs (err e) = stops fs (bad_tls e)
  with_tls u fs (ok tls) =
      loaded (auth_config tls) u
        (load_cached_credential w.directories w.hash os w.json now (w.text u) fs)

  abbrev pub some_of : Result FlagError TlsConfig → Result FlagError (Option TlsConfig)
  some_of (err e) = err e
  some_of (ok tls) = ok (some tls)

  abbrev pub tls_of : Url → Result FlagError (Option TlsConfig)
  tls_of u = if u.scheme == "https" then some_of (Tls.get_tls_config w.files flags.tls) else ok none

  abbrev pub at_url : os.Fs → Result String Url → Run os
  at_url fs (err e) = stops fs (bad_server_url e)
  at_url fs (ok u) = with_tls u fs (tls_of u)

  unfoldable pub exec_credential : List String → os.Fs → Run os
  exec_credential [] fs = stops fs no_server_url
  exec_credential (raw_url ∷ args) fs =
      at_url (cache_last_url w.directories os raw_url fs) (w.parse raw_url)
