-- ===== src/Commands/Tls.antt =====
-- `getTLSConfig` of cmd/pomerium-cli/main.go.
use cli.Base.{String, Bool, ◌||◌, not, none, some, [], ◌∷◌, ◌++◌, ◌==◌, if◌then◌else◌}
use cli.Base.Results.{Result, ok, err, ◌>>=◌}
use cli.Certstore.{FilterError, Names, get_client_certificate_func}
use cli.Tunnel.Config.{TlsConfig}

pub record TlsFlags : Type 0 where
  pub disable_tls_verification : Bool
  pub alternate_ca_path : String
  pub ca_cert : String
  pub client_cert_path : String
  pub client_key_path : String
  pub client_cert_from_store : Bool
  pub client_cert_issuer : String
  pub client_cert_subject : String

-- `cryptutil.GetCertPool` and `tls.LoadX509KeyPair`, and the build of the certificate store.
pub record Files : Type 0 where
  pub get_cert_pool : String → String → Result String String
  pub load_key_pair : String → String → Result String (String × String)
  pub certstore_supported : Bool
  pub to_lower : String → String

pub data FlagError : Type 0 where
  bad_ca bad_client_cert : String → FlagError
  bad_filter : FilterError → FlagError

module _ (x : Files) where
  abbrev pooled : TlsConfig → Result String String → Result FlagError TlsConfig
  pooled cfg (err e) = err (bad_ca e)
  pooled cfg (ok pool) = ok (record cfg { root_cas = some pool })

  abbrev paired : TlsConfig → Result String (String × String) → Result FlagError TlsConfig
  paired cfg (err e) = err (bad_client_cert e)
  paired cfg (ok cert) = ok (record cfg { certificates = cfg.certificates ++ cert ∷ [] })

  abbrev filtered : TlsConfig → Result FilterError (Names → Bool) → Result FlagError TlsConfig
  filtered cfg (err e) = err (bad_filter e)
  filtered cfg (ok f) = ok (record cfg { client_certificate = some f })

  abbrev is_set : String → Bool
  is_set s = not (s == "")

  abbrev with_store : TlsFlags → TlsConfig → Result FlagError TlsConfig
  with_store o cfg =
      if o.client_cert_from_store
      then filtered cfg (
          get_client_certificate_func x.to_lower x.certstore_supported o.client_cert_issuer
            o.client_cert_subject)
      else ok cfg

  unfoldable pub get_tls_config : TlsFlags → Result FlagError TlsConfig
  get_tls_config o = do
    let cfg : TlsConfig = record {
      insecure_skip_verify = o.disable_tls_verification;
      certificates = [];
      client_certificate = none;
      root_cas = none;
      next_protos = [];
    }
    cfg' ←
        if is_set o.ca_cert || is_set o.alternate_ca_path
        then pooled cfg (x.get_cert_pool o.ca_cert o.alternate_ca_path)
        else ok cfg
    cfg'' ←
        if is_set o.client_cert_path || is_set o.client_key_path
        then paired cfg' (x.load_key_pair o.client_cert_path o.client_key_path)
        else ok cfg'
    with_store o cfg''
