-- ===== src/Portal/Tokens.antt =====
-- What listing the routes leaves in the token cache.
use cli.Base.{ℕ, ◌≡◌, String, none, some, List}
use cli.Base.Results.{Result, ok, err}
use cli.Jwt.{not_found, Cache, CacheLaws, Decoder}
use cli.Authclient.{FetchError}
use cli.Portal.{Route, PortalError, parsing, loading, storing, retrieving, listing}

module _ {C : Type 0} (d : Decoder) (now : ℕ) (c : Cache C) (laws : CacheLaws d now c)
    (deletes : (key : String) (s : C) → (c.delete_jwt key s).1 ≡ none)
    (list : String → Result FetchError (List Route)) (get_jwt : Result FetchError String)
    (key : String) where
  -- Behind routes, the cache holds the token that they were listed with; behind an error of the
  -- listing, none.
  abbrev pub Leaves : C → Result PortalError (List Route) → Type 0
  Leaves s (ok routes) = list (c.load_jwt key s).0 ≡ ok routes
  Leaves s (err (listing e)) = c.load_jwt key s ≡ ("", some not_found)
  Leaves s (err (parsing e)) = Unit
  Leaves s (err (loading e)) = Unit
  Leaves s (err (storing e)) = Unit
  Leaves s (err (retrieving e)) = Unit

  abbrev pub Left : C × Result PortalError (List Route) → Type 0
  Left (s, r) = Leaves s r
