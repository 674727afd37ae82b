-- ===== src/Api/Tunnels.antt =====
-- `getTLSConfig` of api/server.go and `newTunnel` of api/tunnel.go.
use cli.Base.{String, Bool, false, Option, none, some, [], ◌∷◌, ◌==◌, ◌++◌, if◌then◌else◌}
use cli.Base.Results.{Result, ok, err, ◌>>=◌, map_err}
use cli.Certstore.{
  FilterError, not_supported, bad_format, unsupported_attribute, Names, get_client_certificate_func,
}
use cli.Net.{◌<>◌}
use cli.Proto.Records.{
  Certificate, ClientCertFromStore, TlsOptions, disable_tls_verification, ca_cert, Connection,
  get_string,
}
use cli.Tunnel.Config.{
  TlsConfig, TunnelConfig, with_tls_config, with_browser_command, with_destination_host,
  with_proxy_host, with_service_account, with_service_account_file, get_config,
}
use cli.Tunnel.Urls.{UrlError, invalid_destination, invalid_pomerium_url, Parser, parse_urls}

pub data TunnelError : Type 0 where
  bad_urls : UrlError → TunnelError
  certificate_missing key_missing append_failed : TunnelError
  bad_key_pair no_system_pool : String → TunnelError
  bad_filter : FilterError → TunnelError

-- The texts of the errors, with `%q` as a parameter.
abbrev filter_text : (String → String) → FilterError → String
filter_text quote not_supported = "this build of pomerium-cli does not support this feature"
filter_text quote (bad_format f) = "expected filter format attr=value, but was " <> quote f
filter_text quote (unsupported_attribute attr) = "unsupported attribute " <> quote attr

abbrev pub tunnel_text : (String → String) → TunnelError → String
tunnel_text quote (bad_urls invalid_destination) = "invalid destination"
tunnel_text quote (bad_urls invalid_pomerium_url) = "invalid pomerium url"
tunnel_text quote certificate_missing = "tls: client cert: certificate is missing"
tunnel_text quote key_missing = "tls: client cert: key is missing"
tunnel_text quote append_failed = "tls: failed to append provided certificate"
tunnel_text quote (bad_key_pair e) = "tls: client cert: " <> e
tunnel_text quote (no_system_pool e) = "tls: get system cert pool: " <> e
tunnel_text quote (bad_filter e) = "tls: client cert from store: " <> filter_text quote e

-- What is called from crypto/tls and crypto/x509, and the build of the certificate store.
pub record Crypto : Type 0 where
  -- The error of `tls.X509KeyPair`.
  pub x509_key_pair : String → String → Option String
  -- The error of `x509.SystemCertPool`.
  pub system_cert_pool : Option String
  -- Whether `AppendCertsFromPEM` finds a certificate.
  pub append_certs : String → Bool
  pub certstore_supported : Bool
  pub to_lower : String → String

-- The getters of the `oneof`.
abbrev pub get_disable : Option TlsOptions → Bool
get_disable (some (disable_tls_verification b)) = b
get_disable _ = false

abbrev pub get_ca_cert : Option TlsOptions → String
get_ca_cert (some (ca_cert pem)) = pem
get_ca_cert _ = ""

module _ (x : Crypto) where
  abbrev paired : TlsConfig → String → String → Option String → Result TunnelError TlsConfig
  paired cfg cert key (some e) = err (bad_key_pair e)
  paired cfg cert key none = ok (record cfg { certificates = cfg.certificates ++ (cert, key) ∷ [] })

  abbrev with_client_cert : TlsConfig → Option Certificate → Result TunnelError TlsConfig
  with_client_cert cfg none = ok cfg
  with_client_cert cfg (some c) =
      if c.cert == ""
      then err certificate_missing
      else if get_string c.key == ""
      then err key_missing
      else paired cfg c.cert (get_string c.key) (x.x509_key_pair c.cert (get_string c.key))

  abbrev filtered : TlsConfig → Result FilterError (Names → Bool) → Result TunnelError TlsConfig
  filtered cfg (ok f) = ok (record cfg { client_certificate = some f })
  filtered cfg (err e) = err (bad_filter e)

  abbrev with_store : TlsConfig → Option ClientCertFromStore → Result TunnelError TlsConfig
  with_store cfg none = ok cfg
  with_store cfg (some c) = filtered cfg (
      get_client_certificate_func x.to_lower x.certstore_supported (get_string c.issuer_filter)
        (get_string c.subject_filter))

  abbrev appended : TlsConfig → String → Option String → Result TunnelError TlsConfig
  appended cfg pem (some e) = err (no_system_pool e)
  appended cfg pem none =
      if x.append_certs pem then ok (record cfg { root_cas = some pem }) else err append_failed

  abbrev with_root : TlsConfig → String → Result TunnelError TlsConfig
  with_root cfg pem = if pem == "" then ok cfg else appended cfg pem x.system_cert_pool

  -- Over the fields of the interface `tlsOptions`.
  unfoldable pub get_tls_config :
      Option TlsOptions
      → Option Certificate
      → Option ClientCertFromStore
      → Result TunnelError TlsConfig
  get_tls_config options client_cert client_cert_from_store = do
    let cfg : TlsConfig = record {
      insecure_skip_verify = get_disable options;
      certificates = [];
      client_certificate = none;
      root_cas = none;
      next_protos = [];
    }
    cfg' ← with_client_cert cfg client_cert
    cfg'' ← with_store cfg' client_cert_from_store
    with_root cfg'' (get_ca_cert options)

  abbrev tls_of_scheme : String → Connection → Result TunnelError (Option TlsConfig)
  tls_of_scheme scheme conn =
      if scheme == "https"
      then (do
        cfg ← get_tls_config conn.tls_options conn.client_cert conn.client_cert_from_store
        ok (some cfg))
      else ok none

  abbrev listen_addr_of : Option String → String
  listen_addr_of none = "127.0.0.1:0"
  listen_addr_of (some addr) = addr

  -- `newTunnel` of a connection that is not nil: the tunnel's configuration and the address to
  -- listen on.
  unfoldable pub new_tunnel :
      Parser → Connection → String → String → String → Result TunnelError (TunnelConfig × String)
  unfolding get_tls_config
  new_tunnel parse conn browser_cmd service_account service_account_file = do
    (destination, u) ←
        map_err bad_urls (parse_urls parse conn.remote_addr (get_string conn.pomerium_url))
    tls ← tls_of_scheme u.scheme conn
    ok (
      get_config (
          with_destination_host destination
          ∷ with_proxy_host u.host
          ∷ with_service_account service_account
          ∷ with_service_account_file service_account_file
          ∷ with_tls_config tls
          ∷ with_browser_command browser_cmd
          ∷ []),
      listen_addr_of conn.listen_addr,
    )
