-- ===== src/Api/CertInfo.antt =====
-- api/cert_info.go: the information on client certificates, through a cache.
--
-- The cache (groupcache/lru) holds what `Add` was given, and so never an entry of another type;
-- the parser of certificates is a parameter.
pub mod Cached
use cli.Base.{false, String, ◌≡◌, ◌⊎◌, Option, none, some, List, [], ◌∷◌, ◌==◌, if◌then◌else◌}
use cli.Base.Results.{Result, ok, err}
use cli.Net.{◌<>◌}
use cli.Proto.Certs.{CertificateInfo, X509, X509Certificate, new_cert_info}
use cli.Proto.Records.{Certificate, Connection, Record}

-- `lru.Cache`, over its state.
pub record Lru (L : Type 0) : Type 0 where
  pub get : String → L → L × Option CertificateInfo
  pub add : String → CertificateInfo → L → L

-- What the cache promises: a use or an eviction makes up no entry.
pub record LruLaws {L : Type 0} (c : Lru L) : Type 0 where
  pub get-keeps :
      (k j : String) (l : L) (v : CertificateInfo)
      → (c.get j (c.get k l).0).1 ≡ some v
      → (c.get j l).1 ≡ some v
  pub add-keeps :
      (k j : String) (w v : CertificateInfo) (l : L)
      → (c.get j (c.add k w l)).1 ≡ some v
      → ((j ≡ k) × (v ≡ w)) ⊎ ((c.get j l).1 ≡ some v)

-- `certInfoError`: every other field has its zero value.
unfoldable pub cert_info_error : String → CertificateInfo
cert_info_error message = record {
  version = 0;
  serial = "";
  issuer = none;
  subject = none;
  not_before = none;
  not_after = none;
  key_usage = none;
  dns_names = [];
  email_addresses = [];
  ip_addresses = [];
  uris = [];
  permitted_dns_domains_critical = false;
  permitted_dns_domains = [];
  excluded_dns_domains = [];
  permitted_ip_ranges = [];
  excluded_ip_ranges = [];
  permitted_email_addresses = [];
  excluded_email_addresses = [];
  permitted_uri_domains = [];
  excluded_uri_domains = [];
  error = some message;
}

-- `info`, or the error of its computation.
abbrev pub shown_info : Result String CertificateInfo → CertificateInfo
shown_info (ok info) = info
shown_info (err message) = cert_info_error message

abbrev pub set_info : Certificate → CertificateInfo → Certificate
set_info cert info = record cert { info = some info }

abbrev pub set_conn : Record → Connection → Certificate → Record
set_conn r conn cert = record r { conn = some (record conn { client_cert = some cert }) }

module _ {L : Type 0} (c : Lru L) (x : X509)
    (parse_pem : String → Result String (X509Certificate x)) where
  abbrev pub add_parsed :
      String → L → Result String (X509Certificate x) → L × Result String CertificateInfo
  add_parsed raw l (err e) = (l, err ("parsing cert: " <> e))
  add_parsed raw l (ok cert) = let info = new_cert_info x cert in (c.add raw info l, ok info)

  abbrev pub of_get : String → L × Option CertificateInfo → L × Result String CertificateInfo
  of_get raw (l, some info) = (l, ok info)
  of_get raw (l, none) = add_parsed raw l (parse_pem raw)

  unfoldable pub get_cert_info : String → L → L × Result String CertificateInfo
  unfolding new_cert_info
  get_cert_info raw l = if raw == "" then (l, err "missing cert data") else of_get raw (c.get raw l)

  abbrev pub of_cert : Record → Connection → L → Option Certificate → L × Record
  of_cert r conn l none = (l, r)
  of_cert r conn l (some cert) =
      let (l', info) = get_cert_info cert.cert l in
      (l', set_conn r conn (set_info cert (shown_info info)))

  abbrev pub of_conn : Record → L → Option Connection → L × Record
  of_conn r l none = (l, r)
  of_conn r l (some conn) = of_cert r conn l conn.client_cert

  -- One turn of the loop of `withCertInfo`.
  unfoldable pub with_info : Record → L → L × Record
  unfolding get_cert_info
  with_info r l = of_conn r l r.conn

  unfoldable pub with_cert_info : List Record → L → L × List Record
  unfolding with_info
  with_cert_info [] l = (l, [])
  with_cert_info (r ∷ records) l =
      let (l', r') = with_info r l in
      let (l'', rest) = with_cert_info records l' in (l'', r' ∷ rest)
