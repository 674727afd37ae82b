-- ===== src/Commands/Tunnels.antt =====
-- The commands `tcp` and `udp` of cmd/pomerium-cli/tcp.go and udp.go, and `routes list` of routes.go.
use cli.Base.{◌≡◌, refl, String, Option, none, some, List, [], ◌∷◌, ◌==◌, if◌then◌else◌}
use cli.Base.Results.{Result, ok, err}
use cli.Net.{Url}
use cli.Jwt.{Cache}
use cli.Jwt.Local.{Os}
use cli.Tunnel.Config.{
  TlsConfig, TunnelConfig, get_config, with_browser_command, with_destination_host, with_proxy_host,
  with_service_account, with_service_account_file, with_tls_config,
}
use cli.Tunnel.Urls.{UrlError, Parser, parse_urls}
use cli.Authclient.{FetchError, AuthConfig, Http}
use cli.Portal.{Route, PortalError, list_routes}
use cli.Commands.Paths.{Directories, cache_last_url, load_last_url}
use cli.Commands.Tls.{Files, FlagError, get_tls_config}
use cli.Commands.Kubernetes.{Flags}

-- The flags that `tcp` and `udp` each have.
pub record ListenFlags : Type 0 where
  pub listen : String
  pub pomerium_url : String

pub record Options : Type 0 where
  pub tcp : ListenFlags
  pub udp : ListenFlags
  pub shared : Flags

pub data CommandError : Type 0 where
  bad_urls : UrlError → CommandError
  bad_tls : FlagError → CommandError

-- What a command starts: a tunnel over the standard streams, or a listener; or the error that it
-- prints before it exits.
pub data Started : Type 0 where
  over_streams : TunnelConfig → Started
  tcp_listener udp_listener : String → TunnelConfig → Started
  exits : String → Started

module _ (os : Os) (directories : Directories) (files : Files) (parse : Parser)
    (text : Url → String) (options : Options) where
  abbrev some_of : Result FlagError TlsConfig → Result CommandError (Option TlsConfig)
  some_of (err e) = err (bad_tls e)
  some_of (ok tls) = ok (some tls)

  abbrev tls_of : Url → Result CommandError (Option TlsConfig)
  tls_of u =
      if u.scheme == "https" then some_of (get_tls_config files options.shared.tls) else ok none

  abbrev tunnel_of : String → Url → Option TlsConfig → TunnelConfig
  tunnel_of destination_addr u tls = get_config (
      with_browser_command options.shared.browser_command
      ∷ with_destination_host destination_addr
      ∷ with_proxy_host u.host
      ∷ with_service_account options.shared.service_account
      ∷ with_service_account_file options.shared.service_account_file
      ∷ with_tls_config tls
      ∷ [])

  abbrev configured :
      String → Url → Result CommandError (Option TlsConfig) → Result CommandError TunnelConfig
  configured destination_addr u (err e) = err e
  configured destination_addr u (ok tls) = ok (tunnel_of destination_addr u tls)

  abbrev addressed :
      os.Fs → Result UrlError (String × Url) → os.Fs × Result CommandError TunnelConfig
  addressed fs (err e) = (fs, err (bad_urls e))
  addressed fs (ok (destination_addr, u)) =
      (cache_last_url directories os (text u) fs, configured destination_addr u (tls_of u))

  abbrev started :
      (TunnelConfig → Started)
      → os.Fs × Result CommandError TunnelConfig
      → os.Fs × Result CommandError Started
  started f (fs, err e) = (fs, err e)
  started f (fs, ok cfg) = (fs, ok (f cfg))

  abbrev tcp_start : TunnelConfig → Started
  tcp_start cfg =
      if options.tcp.listen == "-" then over_streams cfg else tcp_listener options.tcp.listen cfg

  abbrev udp_start : TunnelConfig → Started
  udp_start cfg =
      if options.udp.listen == "-"
      then exits "stdout not implemented for UDP"
      else udp_listener options.udp.listen cfg

  unfoldable pub tcp_command : String → os.Fs → os.Fs × Result CommandError Started
  tcp_command destination fs =
      started tcp_start (addressed fs (parse_urls parse destination options.tcp.pomerium_url))

  -- The URL is that of the flags of `tcp`.
  unfoldable pub udp_command : String → os.Fs → os.Fs × Result CommandError Started
  udp_command destination fs =
      started udp_start (addressed fs (parse_urls parse destination options.tcp.pomerium_url))

pub data ListError : Type 0 where
  no_server_url : ListError
  bad_flags : FlagError → ListError
  not_listed : PortalError → ListError

module _ {C : Type 0} (os : Os) (directories : Directories) (files : Files)
    (parse : String → Result String Url) (c : Cache C) (http : Http)
    (unmarshal : String → Result String (List Route))
    (login : AuthConfig → Url → Result FetchError String) (flags : Flags) where
  -- The file system and the cache that are left, and the routes that are printed.
  abbrev printed :
      os.Fs → C × Result PortalError (List Route) → os.Fs × C × Result ListError (List Route)
  printed fs (s, err e) = (fs, s, err (not_listed e))
  printed fs (s, ok routes) = (fs, s, ok routes)

  abbrev with_flags :
      String → os.Fs → C → Result FlagError TlsConfig → os.Fs × C × Result ListError (List Route)
  with_flags raw fs s (err e) = (fs, s, err (bad_flags e))
  with_flags raw fs s (ok tls) = printed fs (
      list_routes parse c http unmarshal login
        (record {
          browser_command = flags.browser_command;
          service_account = flags.service_account;
          service_account_file = flags.service_account_file;
          tls_config = some tls;
        })
        raw s)

  abbrev raw_server_url : List String → os.Fs → String
  raw_server_url [] fs = load_last_url directories os fs
  raw_server_url (url ∷ args) fs = url

  unfoldable pub routes_list : List String → os.Fs → C → os.Fs × C × Result ListError (List Route)
  routes_list args fs s =
      let raw = raw_server_url args fs in
      if raw == ""
      then (fs, s, err no_server_url)
      else with_flags raw (cache_last_url directories os raw fs) s (get_tls_config files flags.tls)

-- The flag `--pomerium-url` of `udp` is not read.
udp_command-ignores_url :
    (os : Os) (directories : Directories) (files : Files) (parse : Parser) (text : Url → String)
    (options : Options) (url destination : String) (fs : os.Fs)
    → udp_command os directories files parse text
        (record options { udp = record options.udp { pomerium_url = url } })
        destination
        fs
      ≡ udp_command os directories files parse text options destination fs
unfolding udp_command
udp_command-ignores_url os directories files parse text options url destination fs = refl
