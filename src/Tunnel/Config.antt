-- ===== src/Tunnel/Config.antt =====
-- tunnel/config.go and `New` of tunnel/tunnel.go: what a tunnel is configured with.
use cli.Base.{String, Bool, Option, none, some, List, [], ◌∷◌}
use cli.Certstore.{Names}

-- The fields of `tls.Config` that the program sets.
pub record TlsConfig : Type 0 where
  pub insecure_skip_verify : Bool
  -- Pairs of a certificate and its key.
  pub certificates : List (String × String)
  -- The filter of `GetClientCertificate`.
  pub client_certificate : Option (Names → Bool)
  -- The PEM blocks that are added to the system's pool.
  pub root_cas : Option String
  pub next_protos : List String

pub record TunnelConfig : Type 0 where
  pub dst_host : String
  pub proxy_host : String
  pub service_account : String
  pub service_account_file : String
  pub tls_config : Option TlsConfig
  pub browser_config : String

-- `WithTLSConfig`: a clone that offers HTTP/1.1 only.
abbrev http1_only : Option TlsConfig → Option TlsConfig
http1_only none = none
http1_only (some c) = some (record c { next_protos = "http/1.1" ∷ [] })

abbrev pub with_tls_config : Option TlsConfig → TunnelConfig → TunnelConfig
with_tls_config tls_config cfg = record cfg { tls_config = http1_only tls_config }

-- The zero value of the configuration.
abbrev no_config : TunnelConfig
no_config = record {
  dst_host = "";
  proxy_host = "";
  service_account = "";
  service_account_file = "";
  tls_config = none;
  browser_config = "";
}

-- An `Option` changes the configuration. The cache of tokens is a parameter of Tunnel/Run.
abbrev pub ConfigOption : Type 0
ConfigOption = TunnelConfig → TunnelConfig

abbrev pub with_browser_command : String → ConfigOption
with_browser_command browser_command cfg = record cfg { browser_config = browser_command }

abbrev pub with_destination_host : String → ConfigOption
with_destination_host dst_host cfg = record cfg { dst_host = dst_host }

abbrev pub with_proxy_host : String → ConfigOption
with_proxy_host proxy_host cfg = record cfg { proxy_host = proxy_host }

abbrev pub with_service_account : String → ConfigOption
with_service_account service_account cfg = record cfg { service_account = service_account }

abbrev pub with_service_account_file : String → ConfigOption
with_service_account_file file cfg = record cfg { service_account_file = file }

abbrev with_options : List ConfigOption → TunnelConfig → TunnelConfig
with_options [] cfg = cfg
with_options (o ∷ options) cfg = with_options options (o cfg)

abbrev pub get_config : List ConfigOption → TunnelConfig
get_config options = with_options options no_config
