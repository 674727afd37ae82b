-- ===== src/Tunnel/Run.antt =====
-- `runWithJWT` of tunnel/tunnel.go: a handler is run with the cached JWT, and once more with a new
-- one if the first try was not authenticated.
--
-- The handler and the login are parameters over a state `W`. The state that `runWithJWT` itself
-- works on is the cache, and `W`; `calls` and `logins` record the calls that it makes.
pub mod Outcome
use cli.Base.{
  ℕ, suc, ◌≡◌, String, Bool, true, false, ◌||◌, Option, none, some, List, [], ◌∷◌, ◌++◌,
  if◌then◌else◌,
}
use cli.Base.Results.{Result, ok, err}
use cli.Net.{◌<>◌}
use cli.Jwt.{JwtError, expired, invalid, not_found, other, Cache}
use cli.Tunnel.Errors.{Sentinel, unavailable, unauthenticated, unauthorized, Error, is}

pub record State (C W : Type 0) : Type 0 where
  pub cache : C
  pub world : W
  pub calls : List String
  pub logins : ℕ

-- `fmt.Errorf("tunnel: failed to …: %w", err)`.
abbrev pub wrapped : String → Error → Error
wrapped step e = record e { message = "tunnel: failed to " <> step <> ": " <> e.message }

-- The same for an error that is none of the sentinels.
abbrev pub plain_error : String → String → Error
plain_error step message = wrapped step (record { sentinel = none; message = message })

module _ {C W : Type 0} (c : Cache C) (key : String) (handler : String → W → W × Option Error)
    (get_jwt : W → W × Result Error String) where
  -- `handler(ctx, rawJWT)`
  unfoldable pub call : String → State C W → State C W × Option Error
  call raw_jwt s =
      let (w, e) = handler raw_jwt s.world in
      (record s { world = w; calls = s.calls ++ raw_jwt ∷ [] }, e)

  -- What follows the last call of the handler.
  unfoldable pub finish : State C W × Option Error → State C W × Option Error
  finish (s, none) = (s, none)
  finish (s, some e) =
      if is (some e) unavailable || is (some e) unauthorized
      then (s, some e)
      else (record s { cache = (c.delete_jwt key s.cache).0 }, some e)

  abbrev pub stored_call : State C W → String → C × Option String → State C W × Option Error
  stored_call s raw_jwt (cache, some e) =
      (record s { cache = cache }, some (plain_error "store JWT" e))
  stored_call s raw_jwt (cache, none) = finish (call raw_jwt (record s { cache = cache }))

  abbrev pub logged_in : State C W → Result Error String → State C W × Option Error
  logged_in s (err e) = (s, some (wrapped "get authentication JWT" e))
  logged_in s (ok raw_jwt) = stored_call s raw_jwt (c.store_jwt key raw_jwt s.cache)

  -- `tun.auth.GetJWT`, the store of its result, and the second call.
  unfoldable pub login : State C W → State C W × Option Error
  login s =
      let (w, r) = get_jwt s.world in logged_in (record s { world = w; logins = suc s.logins }) r

  unfoldable pub after_call : State C W × Option Error → State C W × Option Error
  unfolding login finish
  after_call (s, e) = let again = login s in if is e unauthenticated then again else finish (s, e)

  abbrev pub of_load : State C W → String × Option JwtError → State C W × Option Error
  of_load s (raw_jwt, some (other e)) = (s, some (plain_error "load JWT" e))
  of_load s (raw_jwt, some expired) = after_call (call raw_jwt s)
  of_load s (raw_jwt, some invalid) = after_call (call raw_jwt s)
  of_load s (raw_jwt, some not_found) = after_call (call raw_jwt s)
  of_load s (raw_jwt, none) = after_call (call raw_jwt s)

  unfoldable pub run_with_jwt : State C W → State C W × Option Error
  unfolding after_call call
  run_with_jwt s = of_load s (c.load_jwt key s.cache)
