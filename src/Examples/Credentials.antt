-- ===== src/Examples/Credentials.antt =====
-- Two runs of `exec-credential`.
use cli.Base.{
  ap, ◌≡◌, refl, sym, subst, String, Bool, false, ◌&&◌, Option, none, some, [], ◌∷◌, ◌==◌, ◌≢◌,
  if◌then◌else◌, arith, eq_iff,
}
use cli.Base.Results.{Result, ok, err}
use cli.Base.Maps.{Map, lookup, insert, delete}
use cli.Net.{Url, ◌<>◌}
use cli.Jwt.{Int64}
use cli.Authclient.{FetchError, AuthConfig, Http, fetch, check_bearer_token}
use cli.Commands.Paths.{
  Directories, root_path, exec_credentials_path, last_url_path, cache_last_url,
}
use cli.Commands.Credentials.{
  ExecCredential, ExecCredentialStatus, Json, ReadsBack, new_credential, parse_token,
  cached_credential_path, load_cached_credential, save_cached_credential,
}
use cli.Commands.Credentials.Saved.{load_cached_credential-save}
use cli.Commands.Kubernetes.{Flags, World, Run, exec_credential}
use cli.Commands.Kubernetes.Again.{Apart, Fresh, exec-again}
use cli.Examples.Jwts.{os, os-OsLaws, decoder}

-- An encoding of the credentials that the program makes for tokens with no expiration.
abbrev is_plain : ExecCredential → ExecCredentialStatus → Bool
is_plain c s =
    c.kind == "ExecCredential"
    && c.api_version == "client.authentication.k8s.io/v1beta1"
    && s.client_certificate_data == ""
    && s.client_key_data == ""

abbrev encode_expiring : ExecCredential → ExecCredentialStatus → Option Int64 → Result String String
encode_expiring c s (some t) = err "unsupported"
encode_expiring c s none = if is_plain c s then ok s.token else err "unsupported"

abbrev encode_status : ExecCredential → Option ExecCredentialStatus → Result String String
encode_status c none = err "unsupported"
encode_status c (some s) = encode_expiring c s s.expiration_timestamp

abbrev plain_status : String → ExecCredentialStatus
plain_status token = record {
  expiration_timestamp = none;
  token = token;
  client_certificate_data = "";
  client_key_data = "";
}

abbrev plain : String → ExecCredential
plain token = record {
  kind = "ExecCredential";
  api_version = "client.authentication.k8s.io/v1beta1";
  status = some (plain_status token);
}

abbrev json : Json
json = record { encode = λ c. encode_status c c.status; decode = λ text. ok (plain text) }

json-ReadsBack : ReadsBack json
json-ReadsBack c text e = of_status c.status refl e
  where
    of_status :
        (o : Option ExecCredentialStatus)
        → c.status ≡ o
        → encode_status c o ≡ ok text
        → json.decode text ≡ ok c
    of_status none q e = absurd (ground (arith, e))
    of_status (some s) q e = ground (
      arith,
      q,
      e,
      eq_iff c.kind "ExecCredential",
      eq_iff c.api_version "client.authentication.k8s.io/v1beta1",
      eq_iff s.client_certificate_data "",
      eq_iff s.client_key_data "",
    )

abbrev directories : Directories
directories = record { user_cache_dir = ok "cache"; join = λ dir name. name }

abbrev k8s : Url
k8s = record { scheme = "http"; host = "k8s"; path = ""; raw_query = "" }

-- A server that accepts every token.
abbrev http : Http
http = record {
  new_request = λ u. none;
  do_request = λ tls req. ok (record { status_code = 200; status = "200 OK"; body = ok "" });
}

abbrev world : World os
world = record {
  directories = directories;
  hash = λ u. "hash";
  json = json;
  dir = λ p. "";
  close = λ p. none;
  decoder = decoder;
  parse = λ t. ok k8s;
  text = λ u. "http://k8s";
  http = http;
  files = record {
    get_cert_pool = λ a b. err "none";
    load_key_pair = λ a b. err "none";
    certstore_supported = false;
    to_lower = λ s. s;
  };
}

abbrev flags : Flags
flags = record {
  tls = record {
    disable_tls_verification = false;
    alternate_ca_path = "";
    ca_cert = "";
    client_cert_path = "";
    client_key_path = "";
    client_cert_from_store = false;
    client_cert_issuer = "";
    client_cert_subject = "";
  };
  browser_command = "";
  service_account = "";
  service_account_file = "";
}

abbrev login : AuthConfig → Url → Result FetchError String
login ac u = ok "jwt"

-- The second login would give another token.
abbrev login_again : AuthConfig → Url → Result FetchError String
login_again ac u = ok "new"

abbrev first : Run os
first = exec_credential os world flags login 0 ("k8s" ∷ []) []

abbrev creds : ExecCredential
creds = new_credential "jwt" none

abbrev saved : Map String
saved = ("last-url", "k8s") ∷ ("hash.json", "Pomerium-jwt") ∷ []

first_run : first ≡ record { fs = saved; printed = creds ∷ []; logins = 1; error = none }
unfolding exec_credential cache_last_url last_url_path root_path load_cached_credential
    cached_credential_path exec_credentials_path save_cached_credential parse_token lookup insert
    delete
first_run = refl

save_load :
    save_cached_credential directories
      (λ u. "hash")
      os
      json
      (λ p. "")
      (λ p. none)
      "http://k8s"
      creds
      []
    ≡ (("hash.json", "Pomerium-jwt") ∷ [], none)
unfolding cached_credential_path exec_credentials_path root_path save_cached_credential insert
save_load = refl

load_cached_credential-save_example :
    load_cached_credential directories
      (λ u. "hash")
      os
      json
      5
      "http://k8s"
      (("hash.json", "Pomerium-jwt") ∷ [])
    ≡ (("hash.json", "Pomerium-jwt") ∷ [], ok creds)
load_cached_credential-save_example =
    load_cached_credential-save directories (λ u. "hash") os os-OsLaws json json-ReadsBack (λ p. "")
      (λ p. none) 5 "http://k8s" creds (plain_status ("Pomerium-" <> "jwt")) []
      (("hash.json", "Pomerium-jwt") ∷ []) save_load refl refl

names : (p : String) → p ≡ "hash.json" → p ≢ "last-url"
names p e q =
    let other : (p == "last-url") ≡ false = ap (λ s. s == "last-url") e in
    ground (arith, other, q, eq_iff p "last-url")

apart : Apart os os-OsLaws world json-ReadsBack flags k8s
unfolding last_url_path root_path cached_credential_path exec_credentials_path
apart p q a b e = names q (ground (arith, b)) (ground (arith, a, e))

first-Fresh : Fresh os os-OsLaws world json-ReadsBack flags k8s login 0 creds first
first-Fresh =
    subst (λ r. Fresh os os-OsLaws world json-ReadsBack flags k8s login 0 creds r) (sym first_run)
      (refl, refl, refl)

exec-again_example : exec_credential os world flags login_again 5 ("k8s" ∷ []) first.fs ≡ record {
  fs = cache_last_url directories os "k8s" first.fs;
  printed = creds ∷ [];
  logins = 0;
  error = none;
}
exec-again_example =
    exec-again os os-OsLaws world json-ReadsBack flags k8s login login_again 0 5 "k8s" none creds
      (plain_status ("Pomerium-" <> "jwt")) [] apart refl refl first-Fresh refl refl
      (unfold check_bearer_token fetch in refl)
