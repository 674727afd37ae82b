-- ===== src/Api/Routes.antt =====
-- `FetchRoutes` of api/routes.go.
use cli.Base.{String, Option, none, some, List, map, ◌==◌, if◌then◌else◌}
use cli.Base.Results.{Result, ok, err}
use cli.Jwt.{Cache}
use cli.Net.{Url}
use cli.Proto.Records.{Certificate, ClientCertFromStore, TlsOptions}
use cli.Tunnel.Config.{TlsConfig}
use cli.Authclient.{FetchError, AuthConfig, Http}
use cli.Portal.{Route, PortalError, list_routes}
use cli.Api.Tunnels.{Crypto, TunnelError, get_tls_config}

pub record FetchRoutesRequest : Type 0 where
  pub server_url : String
  pub tls_options : Option TlsOptions
  pub client_cert : Option Certificate
  pub client_cert_from_store : Option ClientCertFromStore

pub record PortalRoute : Type 0 where
  pub id : String
  pub name : String
  pub type : String
  pub from : String
  pub description : String
  pub connect_command : Option String
  pub logo_url : String

abbrev pub route_to_pb : Route → PortalRoute
route_to_pb r = record {
  id = r.id;
  name = r.name;
  type = r.type;
  from = r.from;
  description = r.description;
  connect_command = if r.connect_command == "" then none else some r.connect_command;
  logo_url = r.logo_url;
}

-- The options that the server was made with.
pub record RouteServer : Type 0 where
  pub browser_cmd : String
  pub service_account : String
  pub service_account_file : String

pub data RoutesError : Type 0 where
  bad_tls : TunnelError → RoutesError
  not_listed : PortalError → RoutesError

abbrev answer :
    {C : Type 0} → C × Result PortalError (List Route) → C × Result RoutesError (List PortalRoute)
answer (s, ok routes) = (s, ok (map route_to_pb routes))
answer (s, err e) = (s, err (not_listed e))

module _ {C : Type 0} (x : Crypto) (parse : String → Result String Url) (c : Cache C) (http : Http)
    (unmarshal : String → Result String (List Route))
    (login : AuthConfig → Url → Result FetchError String) (srv : RouteServer) where
  abbrev of_tls_config :
      FetchRoutesRequest
      → C
      → Result TunnelError TlsConfig
      → C × Result RoutesError (List PortalRoute)
  of_tls_config req s (err e) = (s, err (bad_tls e))
  of_tls_config req s (ok tls) = answer (
      list_routes parse c http unmarshal login
        (record {
          browser_command = srv.browser_cmd;
          service_account = srv.service_account;
          service_account_file = srv.service_account_file;
          tls_config = some tls;
        })
        req.server_url s)

  unfoldable pub fetch_routes : FetchRoutesRequest → C → C × Result RoutesError (List PortalRoute)
  fetch_routes req s =
      of_tls_config req s
        (get_tls_config x req.tls_options req.client_cert req.client_cert_from_store)
