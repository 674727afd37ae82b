-- ===== src/Commands/Credentials.antt =====
-- The credentials for Kubernetes and their cache (cmd/pomerium-cli/kubernetes.go and cache.go).
--
-- JSON, the hash of a URL and the decoding of a token are parameters.
pub mod Saved
use cli.Base.{
  ℕ, zero, suc, ◌≡◌, String, Bool, true, false, ◌&&◌, not, Option, none, some, List, [], ◌∷◌,
  nat_eq, if◌then◌else◌,
}
use cli.Base.Results.{Result, ok, err}
use cli.Net.{◌<>◌}
use cli.Jwt.{Int64, pos, negsuc, Decoder, before}
use cli.Jwt.Local.{Os, OsError, not_exist, failed}
use cli.Commands.Paths.{Directories, exec_credentials_path}

-- A time is `none` if no `time.Unix` made it.
pub record ExecCredentialStatus : Type 0 where
  pub expiration_timestamp : Option Int64
  pub token : String
  pub client_certificate_data : String
  pub client_key_data : String

pub record ExecCredential : Type 0 where
  pub kind : String
  pub api_version : String
  pub status : Option ExecCredentialStatus

pub data CredentialError : Type 0 where
  bad_path bad_json bad_token : String → CredentialError
  bad_file : OsError → CredentialError
  no_status expired : CredentialError

-- `time.Time.IsZero`: the second 0 of the year 1.
abbrev is_zero : Option Int64 → Bool
is_zero none = true
is_zero (some (pos n)) = false
is_zero (some (negsuc n)) = nat_eq n 62135596799

abbrev is_before : Option Int64 → ℕ → Bool
is_before none now = true
is_before (some t) now = before t now

abbrev pub is_expired : ℕ → ExecCredentialStatus → Bool
is_expired now s = not (is_zero s.expiration_timestamp) && is_before s.expiration_timestamp now

-- An `exp` of 0 is the same as none.
abbrev expires_at : Option Int64 → Option Int64
expires_at none = none
expires_at (some (pos zero)) = none
expires_at (some (pos (suc n))) = some (pos (suc n))
expires_at (some (negsuc n)) = some (negsuc n)

abbrev pub new_credential : String → Option Int64 → ExecCredential
new_credential raw_jwt exp = record {
  kind = "ExecCredential";
  api_version = "client.authentication.k8s.io/v1beta1";
  status = some (record {
    expiration_timestamp = expires_at exp;
    token = "Pomerium-" <> raw_jwt;
    client_certificate_data = "";
    client_key_data = "";
  });
}

abbrev of_claims : String → Option (Option Int64) → Result CredentialError ExecCredential
of_claims raw_jwt none = err (bad_token "invalid claims")
of_claims raw_jwt (some exp) = ok (new_credential raw_jwt exp)

abbrev of_payload : Decoder → String → Option String → Result CredentialError ExecCredential
of_payload d raw_jwt none = err (bad_token "invalid token")
of_payload d raw_jwt (some payload) = of_claims raw_jwt (d.expiry payload)

unfoldable pub parse_token : Decoder → String → Result CredentialError ExecCredential
parse_token d raw_jwt = of_payload d raw_jwt (d.parse_signed raw_jwt)

pub record Json : Type 0 where
  pub encode : ExecCredential → Result String String
  pub decode : String → Result String ExecCredential

-- What is encoded is decoded again.
abbrev pub ReadsBack : Json → Type 0
ReadsBack j = (c : ExecCredential) (text : String) → j.encode c ≡ ok text → j.decode text ≡ ok c

abbrev pub error_of : Option OsError → Option CredentialError
error_of none = none
error_of (some e) = some (bad_file e)

module _ (x : Directories) (hash : String → String) where
  abbrev pub in_path : String → Result String String → Result String String
  in_path server_url (err e) = err e
  in_path server_url (ok p) = ok (x.join p (hash server_url <> ".json"))

  unfoldable pub cached_credential_path : String → Result String String
  cached_credential_path server_url = in_path server_url (exec_credentials_path x)

  module _ (os : Os) (json : Json) (now : ℕ) where
    -- A file that cannot be used is removed, whether or not that succeeds.
    abbrev pub removed :
        String → os.Fs → CredentialError → os.Fs × Result CredentialError ExecCredential
    removed fn fs e = ((os.remove fn fs).0, err e)

    abbrev pub of_status :
        String
        → os.Fs
        → ExecCredential
        → Option ExecCredentialStatus
        → os.Fs × Result CredentialError ExecCredential
    of_status fn fs creds none = removed fn fs no_status
    of_status fn fs creds (some s) =
        if is_expired now s then removed fn fs expired else (fs, ok creds)

    abbrev pub of_json :
        String
        → os.Fs
        → Result String ExecCredential
        → os.Fs × Result CredentialError ExecCredential
    of_json fn fs (err e) = removed fn fs (bad_json e)
    of_json fn fs (ok creds) = of_status fn fs creds creds.status

    abbrev pub of_text :
        String → os.Fs → Result OsError String → os.Fs × Result CredentialError ExecCredential
    of_text fn fs (err e) = (fs, err (bad_file e))
    of_text fn fs (ok text) = of_json fn fs (json.decode text)

    abbrev pub load_at :
        os.Fs → Result String String → os.Fs × Result CredentialError ExecCredential
    load_at fs (err e) = (fs, err (bad_path e))
    load_at fs (ok fn) = of_text fn fs (os.read_file fn fs)

    unfoldable pub load_cached_credential :
        String → os.Fs → os.Fs × Result CredentialError ExecCredential
    load_cached_credential server_url fs = load_at fs (cached_credential_path server_url)

  -- `filepath.Dir`, and the error of closing the file.
  module _ (os : Os) (json : Json) (dir : String → String) (close : String → Option OsError) where
    abbrev pub written : String → os.Fs × Option OsError → os.Fs × Option CredentialError
    written fn (fs, some e) = (fs, some (bad_file e))
    written fn (fs, none) = (fs, error_of (close fn))

    abbrev pub encoded : String → os.Fs → Result String String → os.Fs × Option CredentialError
    encoded fn fs (err e) = (fs, some (bad_json e))
    encoded fn fs (ok text) = written fn (os.write_file fn text fs)

    -- `os.Create` leaves an empty file.
    abbrev pub created :
        String → ExecCredential → os.Fs × Option OsError → os.Fs × Option CredentialError
    created fn creds (fs, some e) = (fs, some (bad_file e))
    created fn creds (fs, none) = encoded fn fs (json.encode creds)

    abbrev pub made :
        String → ExecCredential → os.Fs × Option OsError → os.Fs × Option CredentialError
    made fn creds (fs, some e) = (fs, some (bad_file e))
    made fn creds (fs, none) = created fn creds (os.write_file fn "" fs)

    abbrev pub save_at :
        ExecCredential → os.Fs → Result String String → os.Fs × Option CredentialError
    save_at creds fs (err e) = (fs, some (bad_path e))
    save_at creds fs (ok fn) = made fn creds (os.mkdir_all (dir fn) fs)

    unfoldable pub save_cached_credential :
        String → ExecCredential → os.Fs → os.Fs × Option CredentialError
    save_cached_credential server_url creds fs =
        save_at creds fs (cached_credential_path server_url)

  module _ (os : Os) where
    abbrev clear_at : os.Fs → Result String String → os.Fs × Option CredentialError
    clear_at fs (err e) = (fs, some (bad_path e))
    clear_at fs (ok fn) = let (fs', e) = os.remove fn fs in (fs', error_of e)

    unfoldable pub clear_cached_credential : String → os.Fs → os.Fs × Option CredentialError
    clear_cached_credential server_url fs = clear_at fs (cached_credential_path server_url)
