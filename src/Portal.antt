-- ===== src/Portal.antt =====
-- internal/portal/portal.go and internal/portal/config.go: the routes that a proxy lists for the user.
--
-- The login and the decoding of the answer are parameters; the state is that of the token cache.
pub mod Tokens
use cli.Base.{◌≡◌, String, Bool, true, false, Option, none, some, List, [], ◌∷◌, is_some}
use cli.Base.Results.{Result, ok, err}
use cli.Net.{◌<>◌, Url}
use cli.Jwt.{JwtError, expired, invalid, not_found, other, Cache, cache_key_for_host}
use cli.Tunnel.Config.{TlsConfig}
use cli.Authclient.{
  FetchError, unauthenticated, failed, Http, GetRequest, get, resolve, AuthConfig, get_config,
  with_browser_command, with_service_account, with_service_account_file, with_tls_config,
}

-- The fields of `portal.Route` that the program reads.
pub record Route : Type 0 where
  pub id : String
  pub name : String
  pub type : String
  pub from : String
  pub description : String
  pub connect_command : String
  pub logo_url : String

-- The cache is a parameter of the operations.
pub record PortalConfig : Type 0 where
  pub browser_command : String
  pub service_account : String
  pub service_account_file : String
  pub tls_config : Option TlsConfig

-- The authentication client of `New`.
abbrev pub auth_config : PortalConfig → AuthConfig
auth_config p = get_config (
    with_browser_command p.browser_command
    ∷ with_service_account p.service_account
    ∷ with_service_account_file p.service_account_file
    ∷ with_tls_config p.tls_config
    ∷ [])

-- The errors, by the step that they come from.
pub data PortalError : Type 0 where
  parsing loading storing : String → PortalError
  retrieving listing : FetchError → PortalError

abbrev pub decoded : Result String (List Route) → Result FetchError (List Route)
decoded (ok routes) = ok routes
decoded (err e) = err (failed ("error unmarshaling routes portal response: " <> e))

-- `%w` keeps the error that it wraps.
abbrev pub in_step : String → FetchError → FetchError
in_step step unauthenticated = unauthenticated
in_step step (failed e) = failed (step <> ": " <> e)

module _ (http : Http) (unmarshal : String → Result String (List Route))
    (tls : Option TlsConfig) where
  abbrev pub fetched : Result FetchError String → Result FetchError (List Route)
  fetched (err e) = err (in_step "error fetching routes portal" e)
  fetched (ok text) = decoded (unmarshal text)

  -- `listRoutes`
  unfoldable pub list_with : Url → String → Result FetchError (List Route)
  list_with server_url raw_jwt = fetched (
      get http tls (record {
        url = resolve server_url "/.pomerium/api/v1/routes" "";
        header =
            ("Accept", "application/json") ∷ ("Authorization", "Bearer Pomerium-" <> raw_jwt) ∷ [];
      }))

module _ {C : Type 0} (c : Cache C) (list : String → Result FetchError (List Route))
    (get_jwt : Result FetchError String) where
  -- A token that routes could not be listed with is deleted.
  abbrev pub listed_new :
      String → C → Result FetchError (List Route) → C × Result PortalError (List Route)
  listed_new key s (ok routes) = (s, ok routes)
  listed_new key s (err e) = ((c.delete_jwt key s).0, err (listing e))

  abbrev pub stored : String → String → C × Option String → C × Result PortalError (List Route)
  stored key raw_jwt (s, some e) = (s, err (storing e))
  stored key raw_jwt (s, none) = listed_new key s (list raw_jwt)

  abbrev pub logged_in : String → C → Result FetchError String → C × Result PortalError (List Route)
  logged_in key s (err e) = (s, err (retrieving e))
  logged_in key s (ok raw_jwt) = stored key raw_jwt (c.store_jwt key raw_jwt s)

  unfoldable pub list_routes_with_new_jwt : String → C → C × Result PortalError (List Route)
  list_routes_with_new_jwt key s = logged_in key s get_jwt

  abbrev pub listed_cached :
      String → C → Result FetchError (List Route) → C × Result PortalError (List Route)
  listed_cached key s (ok routes) = (s, ok routes)
  listed_cached key s (err unauthenticated) = list_routes_with_new_jwt key s
  listed_cached key s (err (failed e)) = ((c.delete_jwt key s).0, err (listing (failed e)))

  abbrev pub loaded : String → C → String × Option JwtError → C × Result PortalError (List Route)
  loaded key s (raw_jwt, some expired) = list_routes_with_new_jwt key s
  loaded key s (raw_jwt, some invalid) = list_routes_with_new_jwt key s
  loaded key s (raw_jwt, some not_found) = list_routes_with_new_jwt key s
  loaded key s (raw_jwt, some (other e)) = (s, err (loading e))
  loaded key s (raw_jwt, none) = listed_cached key s (list raw_jwt)

  unfoldable pub list_routes_with_cached_jwt : String → C → C × Result PortalError (List Route)
  unfolding list_routes_with_new_jwt
  list_routes_with_cached_jwt key s = loaded key s (c.load_jwt key s)

-- `ListRoutes`; `url.Parse` may fail.
module _ {C : Type 0} (parse : String → Result String Url) (c : Cache C) (http : Http)
    (unmarshal : String → Result String (List Route))
    (login : AuthConfig → Url → Result FetchError String) (p : PortalConfig) where
  abbrev pub at_url : C → Result String Url → C × Result PortalError (List Route)
  at_url s (err e) = (s, err (parsing e))
  at_url s (ok u) =
      list_routes_with_cached_jwt c (list_with http unmarshal p.tls_config u)
        (login (auth_config p) u) (cache_key_for_host u.host (is_some p.tls_config)) s

  unfoldable pub list_routes : String → C → C × Result PortalError (List Route)
  list_routes raw_server_url s = at_url s (parse raw_server_url)
