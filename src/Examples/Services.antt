-- ===== src/Examples/Services.antt =====
-- The handlers on the records, with a cache that is a map and a parser that knows one certificate.
use cli.Base.{
  sym, ℕ, String, ◌≡◌, refl, true, false, none, some, List, [], ◌∷◌, ◌==◌, eq_iff, if◌then◌else◌,
  arith, map, inl, inr, Bool-cases,
}
use cli.Base.Lists.{contains}
use cli.Base.Maps.{Map, lookup, insert, delete as delete_key, values, lookup-insert}
use cli.Base.Results.{Result, ok, err}
use cli.Proto.Certs.{Name, CertificateInfo, X509, X509Certificate, client_auth}
use cli.Proto.Records.{Record, Selector, tcp}
use cli.Api.Config.{
  Config, new_config, upsert, stored, tag, untag, drop_empty, delete, delete_tags, clear_tags,
  list_all,
}
use cli.Api.Config.Index.{IsIndexed, new_config-IsIndexed, IsIndexed-IsIndexedBut, upsert-IsIndexed}
use cli.Api.Persist.{mem_provider, load_config, save}
use cli.Api.CertInfo.{Lru, LruLaws, with_cert_info}
use cli.Api.CertInfo.Cached.{informed, Sound, with_cert_info-informed}
use cli.Api.Service.{
  Service, Parts, delete_loop, save_config, delete_ids, check_request, upsert_record,
}
use cli.Api.Service.Deletes.{Deletable, delete_ids-persists}
use cli.Api.Service.Upserts.{Holds, upsert_record-Holds}
use cli.Examples.Codecs.{one_record, one_record_laws, encode, encode_list, admin, unary, unnamed}

abbrev lru : Lru (Map CertificateInfo)
lru = record { get = λ k l. (l, lookup k l); add = insert }

lru-LruLaws : LruLaws lru
lru-LruLaws = record {
  get-keeps = λ k j l v e. e;
  add-keeps = λ k j w v l e. elim (Bool-cases (k == j)) [
    | inl same ↦ inl (sym ((eq_iff k j).0 same), ground (arith, lookup-insert k j w l, same, e))
    | inr other ↦ inr (ground (arith, lookup-insert k j w l, other, e))
  ];
}

abbrev x509 : X509
x509 = record {
  Ip = String;
  IpNet = String;
  Url = String;
  ip_string = λ s. s;
  ip_net_string = λ s. s;
  url_string = λ s. s;
}

abbrev common : String → Name
common s = record {
  country = [];
  organization = [];
  organizational_unit = [];
  locality = [];
  province = [];
  street_address = [];
  postal_code = [];
  serial_number = "";
  common_name = s;
}

abbrev certificate : X509Certificate x509
certificate = record {
  version = 3;
  serial_number = "17";
  issuer = common "ca";
  subject = common "client";
  not_before = 100;
  not_after = 200;
  key_usage_bits = 5;
  ext_key_usage = client_auth ∷ [];
  dns_names = "client" ∷ [];
  email_addresses = [];
  ip_addresses = "10.0.0.1" ∷ [];
  uris = [];
  permitted_dns_domains_critical = false;
  permitted_dns_domains = [];
  excluded_dns_domains = [];
  permitted_ip_ranges = [];
  excluded_ip_ranges = [];
  permitted_email_addresses = [];
  excluded_email_addresses = [];
  permitted_uri_domains = [];
  excluded_uri_domains = [];
}

abbrev parse_pem : String → Result String (X509Certificate x509)
parse_pem s = if s == "PEM" then ok certificate else err "no certificate"

abbrev with_pem : String → Record
with_pem pem = record (admin "c") {
  conn = some (record {
    name = none;
    protocol = some tcp;
    remote_addr = "db:22";
    listen_addr = none;
    pomerium_url = none;
    tls_options = none;
    client_cert = some (record { cert = pem; key = some "KEY"; info = none });
    client_cert_from_store = none;
  });
}

abbrev certs : List Record
certs = with_pem "PEM" ∷ with_pem "" ∷ admin "a" ∷ with_pem "PEM" ∷ []

empty-Sound : Sound x509 parse_pem lru lru-LruLaws []
unfolding lookup
empty-Sound raw info e = absurd (ground (arith, e))

with_cert_info-informed_example :
    ((with_cert_info lru x509 parse_pem certs []).1 ≡ map (informed x509 parse_pem) certs)
    × Sound x509 parse_pem lru lru-LruLaws (with_cert_info lru x509 parse_pem certs []).0
with_cert_info-informed_example =
    with_cert_info-informed x509 parse_pem lru lru-LruLaws certs [] empty-Sound

abbrev parts : Parts (Map CertificateInfo) String
parts = record {
  codec = one_record;
  provider = mem_provider;
  lru = lru;
  x509 = x509;
  parse_pem = parse_pem;
  x509_key_pair = λ c k. none;
  uuid = unary;
}

abbrev service : Config → Service (Map CertificateInfo) String
service cfg = record {
  config = cfg;
  listeners = record { entries = []; cancelled = [] };
  cert_info = [];
  storage = "";
  ids = 0;
}

abbrev one : Config
one = upsert "new" new_config (admin "a")

abbrev two : Config
two = upsert "new" one (admin "b")

two-IsIndexed : IsIndexed two
two-IsIndexed = upsert-IsIndexed "new" one (admin "b") (
    IsIndexed-IsIndexedBut "b" (
      upsert-IsIndexed "new" new_config (admin "a")
        (IsIndexed-IsIndexedBut "a" new_config-IsIndexed)))

abbrev all : Selector
all = record { all = true; ids = []; tags = [] }

stored_ab :
    (id : String) → contains id ("a" ∷ "b" ∷ []) ≡ true → lookup id two.by_id ≡ some (admin id)
unfolding contains upsert stored lookup insert
stored_ab id there = ground (arith, eq_iff "a" id, eq_iff "b" id, there)

both-Deletable : Deletable ("a" ∷ "b" ∷ []) two
both-Deletable id there = (admin id, stored_ab id there, (unfold contains in (refl, tt)))

deleted_b : (delete_ids parts ("b" ∷ []) (service two)).1 ≡ none
unfolding delete_ids delete_loop delete delete_tags save_config save list_all values upsert stored
    tag untag drop_empty lookup insert delete_key encode encode_list
deleted_b = refl

delete_ids-persists_example :
    (loaded : Config × ℕ) × (load_config one_record mem_provider
        (delete_ids parts ("b" ∷ []) (service two)).0.storage
        unary
        0
      ≡ ok loaded)
    × IsIndexed loaded.0
    × ((j : String)
        → lookup j loaded.0.by_id ≡ (if contains j ("b" ∷ []) then none else lookup j two.by_id))
delete_ids-persists_example =
    delete_ids-persists parts one_record_laws (λ bytes storage e. refl) ("b" ∷ []) (service two)
      two-IsIndexed deleted_b

abbrev after_upsert : Service (Map CertificateInfo) String
after_upsert = record (service (upsert "u" new_config unnamed)) { storage = "rru"; ids = 1 }

upserted : upsert_record parts unnamed (service new_config) ≡ (after_upsert, ok (admin "u"))
unfolding upsert_record check_request clear_tags save_config save list_all values upsert stored tag
    untag drop_empty lookup insert encode encode_list unary
upserted = refl

upsert_record-Holds_example :
    Holds parts one_record_laws (λ bytes storage e. refl) (admin "u") after_upsert
upsert_record-Holds_example =
    upsert_record-Holds parts one_record_laws (λ bytes storage e. refl) unnamed (admin "u")
      (service new_config) after_upsert new_config-IsIndexed upserted
