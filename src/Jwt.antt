-- ===== src/Jwt.antt =====
-- jwt/jwtcache.go: the caches of JWTs.
--
-- The decoding of a token (jose.ParseSigned and the JSON of its claims), the hash of a key and the
-- operating system are parameters.
pub mod Memory
pub mod Local
use cli.Base.{ℕ, ◌*◌, ◌≡◌, String, Bool, true, false, Option, none, some, ltb, if◌then◌else◌}
use cli.Net.{◌<>◌}

-- `ErrExpired`, `ErrInvalid`, `ErrNotFound`, and any other error by its text.
pub data JwtError : Type 0 where
  expired invalid not_found : JwtError
  other : String → JwtError

-- An int64.
pub data Int64 : Type 0 where
  pos negsuc : ℕ → Int64

pub record Decoder : Type 0 where
  -- The payload of a signed token.
  pub parse_signed : String → Option String
  -- The claim `exp` of a payload, which may be missing.
  pub expiry : String → Option (Option Int64)

-- `time.Unix(exp, 0).Before(time.Now())`, for a time in nanoseconds after 1970.
abbrev pub before : Int64 → ℕ → Bool
before (pos exp) now = ltb (exp * 1000000000) now
before (negsuc exp) now = true

abbrev of_expiry : ℕ → Option (Option Int64) → Option JwtError
of_expiry now none = some invalid
of_expiry now (some none) = none
of_expiry now (some (some exp)) = if before exp now then some expired else none

abbrev of_payload : Decoder → ℕ → Option String → Option JwtError
of_payload d now none = some invalid
of_payload d now (some payload) = of_expiry now (d.expiry payload)

unfoldable pub check_expiry : Decoder → ℕ → String → Option JwtError
check_expiry d now raw_jwt = of_payload d now (d.parse_signed raw_jwt)

-- The interface `Cache`, over the state `C` of a cache. A load returns the token beside the error.
pub record Cache (C : Type 0) : Type 0 where
  pub load_jwt : String → C → String × Option JwtError
  pub store_jwt : String → String → C → C × Option String
  pub delete_jwt : String → C → C × Option String

-- What a cache promises, at a fixed time: a stored token is loaded and checked, a deleted one is
-- not found, and an operation on a key changes no other key.
pub record CacheLaws (d : Decoder) (now : ℕ) {C : Type 0} (c : Cache C) : Type 0 where
  pub load-store :
      (k jwt : String) (s : C)
      → (c.store_jwt k jwt s).1 ≡ none
      → c.load_jwt k (c.store_jwt k jwt s).0 ≡ (jwt, check_expiry d now jwt)
  pub load-store_other :
      (k j jwt : String) (s : C)
      → (k ≡ j → ⊥)
      → c.load_jwt j (c.store_jwt k jwt s).0 ≡ c.load_jwt j s
  pub load-delete :
      (k : String) (s : C)
      → (c.delete_jwt k s).1 ≡ none
      → c.load_jwt k (c.delete_jwt k s).0 ≡ ("", some not_found)
  pub load-delete_other :
      (k j : String) (s : C) → (k ≡ j → ⊥) → c.load_jwt j (c.delete_jwt k s).0 ≡ c.load_jwt j s

-- `CacheKeyForHost`; the flag is `tlsConfig != nil`.
abbrev bool_text : Bool → String
bool_text true = "true"
bool_text false = "false"

unfoldable pub cache_key_for_host : String → Bool → String
cache_key_for_host host tls = host <> "|" <> bool_text tls
