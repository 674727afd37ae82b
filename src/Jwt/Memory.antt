-- ===== src/Jwt/Memory.antt =====
-- `MemoryCache`.
use cli.Base.{ℕ, String, Option, none, some, arith, eq_iff, eq_refl}
use cli.Base.Maps.{Map, lookup, insert, delete as delete_key, lookup-insert, lookup-delete}
use cli.Jwt.{JwtError, not_found, Decoder, check_expiry, Cache, CacheLaws}

abbrev loaded : Decoder → ℕ → Option String → String × Option JwtError
loaded d now none = ("", some not_found)
loaded d now (some raw_jwt) = (raw_jwt, check_expiry d now raw_jwt)

module _ (d : Decoder) (now : ℕ) where
  unfoldable pub load_jwt : String → Map String → String × Option JwtError
  load_jwt key entries = loaded d now (lookup key entries)

  unfoldable pub store_jwt : String → String → Map String → Map String × Option String
  store_jwt key raw_jwt entries = (insert key raw_jwt entries, none)

  unfoldable pub delete_jwt : String → Map String → Map String × Option String
  delete_jwt key entries = (delete_key key entries, none)

  abbrev pub memory_cache : Cache (Map String)
  memory_cache = record { load_jwt = load_jwt; store_jwt = store_jwt; delete_jwt = delete_jwt }

  -- The in-memory cache keeps the promises of a cache.
  pub memory_cache-CacheLaws : CacheLaws d now memory_cache
  unfolding load_jwt store_jwt delete_jwt
  memory_cache-CacheLaws = record {
    load-store = λ k jwt s e. ground (arith, lookup-insert k k jwt s, eq_refl k);
    load-store_other = λ k j jwt s n. ground (arith, lookup-insert k j jwt s, eq_iff k j, n);
    load-delete = λ k s e. ground (arith, lookup-delete k k s, eq_refl k);
    load-delete_other = λ k j s n. ground (arith, lookup-delete k j s, eq_iff k j, n);
  }
