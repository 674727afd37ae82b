-- ===== src/Proto/Certs.antt =====
-- proto/cert_info.go: what `NewCertInfo` keeps of a parsed certificate. The printed forms of IP
-- addresses, networks, URLs and serial numbers are parameters.
pub mod Usage
use Prim.Native.Nat.{bit_and}
use cli.Proto.Bits
use cli.Base.{ℕ, String, Bool, true, false, not, Option, none, some, List, [], ◌∷◌, nat_eq}

-- The fields of `pkix.Name` that the program reads.
pub record Name : Type 0 where
  pub country : List String
  pub organization : List String
  pub organizational_unit : List String
  pub locality : List String
  pub province : List String
  pub street_address : List String
  pub postal_code : List String
  pub serial_number : String
  pub common_name : String

pub record KeyUsage : Type 0 where
  pub digital_signature : Bool
  pub content_commitment : Bool
  pub key_encipherment : Bool
  pub data_encipherment : Bool
  pub key_agreement : Bool
  pub cert_sign : Bool
  pub crl_sign : Bool
  pub encipher_only : Bool
  pub decipher_only : Bool
  pub server_auth : Bool
  pub client_auth : Bool

-- `x509.ExtKeyUsage`: the two values that the switch tells apart, and the rest.
pub data ExtKeyUsage : Type 0 where
  server_auth client_auth : ExtKeyUsage
  other : ℕ → ExtKeyUsage

-- `src & bit != 0`
abbrev pub has_bit : ℕ → ℕ → Bool
has_bit src bit = not (nat_eq (bit_and src bit) 0)

-- The loop over the extended usages.
ext_usages : KeyUsage → List ExtKeyUsage → KeyUsage
ext_usages usage [] = usage
ext_usages usage (client_auth ∷ ext) = ext_usages (record usage { client_auth = true }) ext
ext_usages usage (server_auth ∷ ext) = ext_usages (record usage { server_auth = true }) ext
ext_usages usage (other u ∷ ext) = ext_usages usage ext

unfoldable pub key_usage : ℕ → List ExtKeyUsage → KeyUsage
unfolding ext_usages
key_usage src ext = ext_usages usage ext
  where
    usage : KeyUsage
    usage = record {
      digital_signature = has_bit src Bits.digital_signature;
      content_commitment = has_bit src Bits.content_commitment;
      key_encipherment = has_bit src Bits.data_encipherment;
      data_encipherment = has_bit src Bits.data_encipherment;
      key_agreement = has_bit src Bits.key_agreement;
      cert_sign = has_bit src Bits.cert_sign;
      crl_sign = has_bit src Bits.crl_sign;
      encipher_only = has_bit src Bits.encipher_only;
      decipher_only = has_bit src Bits.decipher_only;
      server_auth = false;
      client_auth = false;
    }

pub record CertificateInfo : Type 0 where
  pub version : ℕ
  pub serial : String
  pub issuer : Option Name
  pub subject : Option Name
  pub not_before : Option ℕ
  pub not_after : Option ℕ
  pub key_usage : Option KeyUsage
  pub dns_names : List String
  pub email_addresses : List String
  pub ip_addresses : List String
  pub uris : List String
  pub permitted_dns_domains_critical : Bool
  pub permitted_dns_domains : List String
  pub excluded_dns_domains : List String
  pub permitted_ip_ranges : List String
  pub excluded_ip_ranges : List String
  pub permitted_email_addresses : List String
  pub excluded_email_addresses : List String
  pub permitted_uri_domains : List String
  pub excluded_uri_domains : List String
  pub error : Option String

-- What the program reads of the values of the standard library, and how they are printed.
pub record X509 : Type 1 where
  pub Ip : Type 0
  pub IpNet : Type 0
  pub Url : Type 0
  pub ip_string : Ip → String
  pub ip_net_string : IpNet → String
  pub url_string : Url → String

-- `x509.Certificate`: the fields that `NewCertInfo` could carry over. Times are seconds.
pub record X509Certificate (x : X509) : Type 0 where
  pub version : ℕ
  pub serial_number : String
  pub issuer : Name
  pub subject : Name
  pub not_before : ℕ
  pub not_after : ℕ
  pub key_usage_bits : ℕ
  pub ext_key_usage : List ExtKeyUsage
  pub dns_names : List String
  pub email_addresses : List String
  pub ip_addresses : List x.Ip
  pub uris : List x.Url
  pub permitted_dns_domains_critical : Bool
  pub permitted_dns_domains : List String
  pub excluded_dns_domains : List String
  pub permitted_ip_ranges : List x.IpNet
  pub excluded_ip_ranges : List x.IpNet
  pub permitted_email_addresses : List String
  pub excluded_email_addresses : List String
  pub permitted_uri_domains : List String
  pub excluded_uri_domains : List String

-- The three loops that print a list: `urlsToStrings`, `ipToStrings`, `ipNetToStrings`.
unfoldable pub to_strings {ℓ} : {A : Type ℓ} → (A → String) → List A → List String
to_strings print [] = []
to_strings print (u ∷ src) = print u ∷ to_strings print src

name_to_pb : Name → Name
name_to_pb src = record {
  country = src.country;
  organization = src.organization;
  organizational_unit = src.organizational_unit;
  locality = src.locality;
  province = src.province;
  street_address = src.street_address;
  postal_code = src.postal_code;
  serial_number = src.serial_number;
  common_name = src.common_name;
}

module _ (x : X509) where
  -- A field that the literal of the source leaves out has its zero value.
  unfoldable pub new_cert_info : X509Certificate x → CertificateInfo
  unfolding to_strings name_to_pb key_usage
  new_cert_info cert = record {
    version = cert.version;
    serial = cert.serial_number;
    issuer = some (name_to_pb cert.issuer);
    subject = some (name_to_pb cert.subject);
    not_before = some cert.not_before;
    not_after = some cert.not_after;
    key_usage = some (key_usage cert.key_usage_bits cert.ext_key_usage);
    dns_names = cert.dns_names;
    email_addresses = cert.email_addresses;
    ip_addresses = to_strings x.ip_string cert.ip_addresses;
    uris = to_strings x.url_string cert.uris;
    permitted_dns_domains_critical = cert.permitted_dns_domains_critical;
    permitted_dns_domains = cert.permitted_dns_domains;
    excluded_dns_domains = cert.excluded_dns_domains;
    permitted_ip_ranges = to_strings x.ip_net_string cert.permitted_ip_ranges;
    excluded_ip_ranges = [];
    permitted_email_addresses = [];
    excluded_email_addresses = cert.excluded_email_addresses;
    permitted_uri_domains = cert.permitted_uri_domains;
    excluded_uri_domains = cert.excluded_uri_domains;
    error = none;
  }
