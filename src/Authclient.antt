-- ===== src/Authclient.antt =====
-- authclient/authclient.go, authclient/config.go and internal/httputil/fetch.go: a JWT from a service
-- account, from a file, or from a login in the browser.
pub mod Login
use cli.Base.{
  ℕ, ◌/◌, ◌≡◌, String, Bool, true, false, ◌&&◌, ◌||◌, Option, none, some, List, [], ◌∷◌, ◌==◌,
  nat_eq, if◌then◌else◌,
}
use cli.Base.Results.{Result, ok, err}
use cli.Base.Maps.{Map}
use cli.Net.{◌<>◌, Url, hostname}
use cli.Tunnel.Config.{TlsConfig}

-- `ErrUnauthenticated`, or another error by its text.
pub data FetchError : Type 0 where
  unauthenticated : FetchError
  failed : String → FetchError

-- The answer: its status code and line, and what reading its body returns.
pub record Answer : Type 0 where
  pub status_code : ℕ
  pub status : String
  pub body : Result String String

abbrev read_body : Result String String → Result FetchError String
read_body (ok text) = ok text
read_body (err e) = err (failed e)

abbrev needs_login : ℕ → Bool
needs_login code =
    nat_eq code 401 || nat_eq code 301 || nat_eq code 302 || nat_eq code 307 || nat_eq code 308

abbrev of_answer : Answer → Result FetchError String
of_answer a =
    if needs_login a.status_code
    then err unauthenticated
    else if nat_eq (a.status_code / 100) 2
    then read_body a.body
    else err (failed ("unexpected status code: " <> a.status))

-- `Fetch`, by what `http.Client.Do` returns.
unfoldable pub fetch : Result String Answer → Result FetchError String
fetch (err e) = err (failed ("failed to get url: " <> e))
fetch (ok a) = of_answer a

-- A GET request.
pub record GetRequest : Type 0 where
  pub url : Url
  pub header : Map String

-- `getBrowserURL`: a copy without the default port of its scheme.
unfoldable pub get_browser_url : Url → Url
get_browser_url u =
    if u.scheme == "http" && u.host == hostname u.host <> ":80"
    then record u { host = hostname u.host }
    else if u.scheme == "https" && u.host == hostname u.host <> ":443"
    then record u { host = hostname u.host }
    else u

-- `ResolveReference` of a reference with an absolute path.
abbrev pub resolve : Url → String → String → Url
resolve u path raw_query = record u { path = path; raw_query = raw_query }

-- How a browser is opened: the system's, or by a command.
pub data Browser : Type 0 where
  default : Browser
  command : String → Browser

pub record AuthConfig : Type 0 where
  pub open_with : Browser
  pub service_account : String
  pub service_account_file : String
  pub tls_config : Option TlsConfig

abbrev pub AuthOption : Type 0
AuthOption = AuthConfig → AuthConfig

abbrev pub with_browser_command : String → AuthOption
with_browser_command browser_command cfg =
    if browser_command == ""
    then record cfg { open_with = default }
    else record cfg { open_with = command browser_command }

abbrev pub with_service_account : String → AuthOption
with_service_account service_account cfg = record cfg { service_account = service_account }

abbrev pub with_service_account_file : String → AuthOption
with_service_account_file file cfg = record cfg { service_account_file = file }

abbrev pub with_tls_config : Option TlsConfig → AuthOption
with_tls_config tls_config cfg = record cfg { tls_config = tls_config }

abbrev with_options : List AuthOption → AuthConfig → AuthConfig
with_options [] cfg = cfg
with_options (o ∷ options) cfg = with_options options (o cfg)

abbrev pub get_config : List AuthOption → AuthConfig
get_config options = with_options options (
    with_browser_command "" (record {
      open_with = default;
      service_account = "";
      service_account_file = "";
      tls_config = none;
    }))

-- `http.Client.Do` over a TLS configuration, and `http.NewRequest`, whose error is that of a URL.
pub record Http : Type 0 where
  pub new_request : Url → Option String
  pub do_request : Option TlsConfig → GetRequest → Result String Answer

abbrev created : Http → Option TlsConfig → GetRequest → Option String → Result FetchError String
created http tls req (some e) = err (failed e)
created http tls req none = fetch (http.do_request tls req)

-- A request is made and fetched.
abbrev pub get : Http → Option TlsConfig → GetRequest → Result FetchError String
get http tls req = created http tls req (http.new_request req.url)

abbrev error_of : {A : Type 0} → Result FetchError A → Option FetchError
error_of (ok a) = none
error_of (err e) = some e

unfoldable pub check_bearer_token : Http → AuthConfig → Url → String → Option FetchError
check_bearer_token http cfg server_url bearer_token = error_of (
    get http cfg.tls_config (record {
      url = resolve (get_browser_url server_url) "/livez" "";
      header = ("Accept", "application/json") ∷ ("Authorization", "Bearer " <> bearer_token) ∷ [];
    }))
