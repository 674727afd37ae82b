-- ===== src/Authclient/Login.antt =====
-- `GetJWT` of authclient/authclient.go. The login in the browser is a group of three goroutines: one
-- serves the callback, one opens the browser, and one waits for the token.
use cli.Base.{
  ◌↔◌, ◌≡◌, refl, String, Bool, true, false, ◌&&◌, ◌||◌, Option, none, some, List, [], ◌∷◌, ◌==◌,
  is_some, if◌then◌else◌, arith,
}
use cli.Base.Results.{Result, ok, err}
use cli.Net.{◌<>◌, Url}
use cli.Authclient.{FetchError, failed, AuthConfig, Browser, Http, get, get_browser_url, resolve}

-- The token, the goroutines that have returned without an error, and the first error of the group.
pub record Login : Type 0 where
  pub raw_jwt : Option String
  pub opened : Bool
  pub served : Bool
  pub failure : Option FetchError

abbrev pub begun : Login
begun = record { raw_jwt = none; opened = false; served = false; failure = none }

abbrev first_error : Option FetchError → FetchError → Option FetchError
first_error (some e) new = some e
first_error none new = some new

abbrev fails : FetchError → Login → Login
fails e s = record s { failure = first_error s.failure e }

-- What happens next: a request with the form value `pomerium_jwt`; the server ends with an error;
-- the goroutine of the browser returns; or the context is done.
pub data Happens : Type 0 where
  callback : String → Happens
  serve_fails : FetchError → Happens
  browser_returns : Option FetchError → Happens
  cancelled : FetchError → Happens

-- The handler hands on the first value that is not empty, and then shuts the server down, which is
-- no error of `Serve`. A later one would wait for ever, and is not answered.
abbrev pub handled : String → Login → Login
handled jwt s =
    if jwt == "" || is_some s.raw_jwt || is_some s.failure || s.served
    then s
    else record s { raw_jwt = some jwt; served = true }

abbrev server_ends : FetchError → Login → Login
server_ends e s = if s.served then s else fails e s

abbrev browser_ends : Option FetchError → Login → Login
browser_ends none s = record s { opened = true }
browser_ends (some e) s = fails e s

unfoldable pub login_turn : Happens → Login → Login
login_turn (callback jwt) s = handled jwt s
login_turn (serve_fails e) s = server_ends e s
login_turn (browser_returns o) s = browser_ends o s
login_turn (cancelled e) s = fails e s

-- `eg.Wait()`, once the goroutines have returned: `none` before that.
abbrev of_parts : Option FetchError → Option String → Bool → Option (Result FetchError String)
of_parts (some e) jwt over = some (err e)
of_parts none none over = none
of_parts none (some jwt) true = some (ok jwt)
of_parts none (some jwt) false = none

abbrev pub outcome : Login → Option (Result FetchError String)
outcome s = of_parts s.failure s.raw_jwt (s.opened && s.served)

abbrev or_on :
    Option (Result FetchError String)
    → Option (Result FetchError String)
    → Option (Result FetchError String)
or_on none rest = rest
or_on (some r) rest = some r

-- The login over what happens, until its goroutines have returned.
unfoldable pub login : List Happens → Login → Option (Result FetchError String)
unfolding login_turn
login [] s = outcome s
login (h ∷ hs) s = or_on (outcome s) (login hs (login_turn h s))

abbrev of_open : Option String → Option FetchError
of_open none = none
of_open (some e) = some (failed ("failed to open browser url: " <> e))

abbrev visited :
    AuthConfig → (Browser → String → Option String) → Result FetchError String → Option FetchError
visited cfg open_url (err e) = some e
visited cfg open_url (ok url) = of_open (open_url cfg.open_with url)

-- `runOpenBrowser`: the URL to visit is fetched from the server and opened.
unfoldable pub run_open_browser :
    Http
    → AuthConfig
    → (Browser → String → Option String)
    → (String → String)
    → String
    → Url
    → Option FetchError
run_open_browser http cfg open_url encode address server_url = visited cfg open_url (
    get http cfg.tls_config (record {
      url =
          resolve (get_browser_url server_url) "/.pomerium/api/v1/login"
            (encode ("http://" <> address));
      header = [];
    }))

-- `GetJWT`: the service account, the trimmed file, or the login; the listener may fail. `none` if
-- the login has not ended.
module _ (trim_space : String → String) (read_file : String → Result String String)
    (listen : Option String) where
  abbrev of_file : Result String String → Result FetchError String
  of_file (err e) = err (failed e)
  of_file (ok text) = ok (trim_space text)

  abbrev of_listener : Option String → List Happens → Option (Result FetchError String)
  of_listener (some e) hs = some (err (failed ("failed to start listener: " <> e)))
  of_listener none hs = login hs begun

  unfoldable pub get_jwt : AuthConfig → List Happens → Option (Result FetchError String)
  get_jwt cfg hs =
      let by_login = of_listener listen hs in
      if cfg.service_account == ""
      then if cfg.service_account_file == ""
        then by_login
        else some (of_file (read_file cfg.service_account_file))
      else some (ok cfg.service_account)

-- The first value of a callback that is not empty.
abbrev pub first_value : List Happens → Option String
first_value [] = none
first_value (callback jwt ∷ hs) = let rest = first_value hs in if jwt == "" then rest else some jwt
first_value (serve_fails e ∷ hs) = first_value hs
first_value (browser_returns o ∷ hs) = first_value hs
first_value (cancelled e ∷ hs) = first_value hs

-- The browser was opened.
abbrev pub has_opened : List Happens → Bool
has_opened [] = false
has_opened (browser_returns none ∷ hs) = true
has_opened (browser_returns (some e) ∷ hs) = has_opened hs
has_opened (callback jwt ∷ hs) = has_opened hs
has_opened (serve_fails e ∷ hs) = has_opened hs
has_opened (cancelled e ∷ hs) = has_opened hs

abbrev or_value : Option String → Option String → Option String
or_value none o = o
or_value (some jwt) o = some jwt

abbrev Tells : List Happens → Login → String → Type 0
Tells hs s jwt =
    (or_value s.raw_jwt (first_value hs) ≡ some jwt) × ((s.opened || has_opened hs) ≡ true)

login-Tells :
    (hs : List Happens) (s : Login) (jwt : String)
    → s.served ≡ is_some s.raw_jwt
    → login hs s ≡ some (ok jwt)
    → Tells hs s jwt
unfolding login
login-Tells [] s jwt e r = ground (arith, e, r)
login-Tells (callback x ∷ hs) s jwt e r =
    ground (arith, e, r, login-Tells hs (handled x s) jwt (ground (arith, e)))
login-Tells (serve_fails x ∷ hs) s jwt e r =
    ground (arith, e, r, login-Tells hs (server_ends x s) jwt (ground (arith, e)))
login-Tells (browser_returns none ∷ hs) s jwt e r =
    ground (arith, e, r, login-Tells hs (record s { opened = true }) jwt e)
login-Tells (browser_returns (some x) ∷ hs) s jwt e r =
    ground (arith, e, r, login-Tells hs (fails x s) jwt e)
login-Tells (cancelled x ∷ hs) s jwt e r = ground (arith, e, r, login-Tells hs (fails x s) jwt e)

first_token :
    (hs : List Happens) (jwt : String)
    → login hs begun ≡ some (ok jwt)
    → (first_value hs ≡ some jwt) × (has_opened hs ≡ true)
first_token hs jwt r = login-Tells hs begun jwt refl r

-- Neither the server nor the browser fails, and the context is not done.
abbrev pub nothing_fails : List Happens → Bool
nothing_fails [] = true
nothing_fails (callback jwt ∷ hs) = nothing_fails hs
nothing_fails (serve_fails e ∷ hs) = false
nothing_fails (browser_returns none ∷ hs) = nothing_fails hs
nothing_fails (browser_returns (some e) ∷ hs) = false
nothing_fails (cancelled e ∷ hs) = false

login-ends :
    (hs : List Happens) (s : Login) (jwt : String)
    → nothing_fails hs ≡ true
    → s.failure ≡ none
    → s.served ≡ is_some s.raw_jwt
    → Tells hs s jwt
    → login hs s ≡ some (ok jwt)
unfolding login
login-ends [] s jwt f n e (a, b) = ground (arith, n, e, a, b)
login-ends (callback x ∷ hs) s jwt f n e (a, b) =
    ground
      (arith, n, e, a, b, login-ends hs (handled x s) jwt f (ground (arith, n)) (ground (arith, e)))
login-ends (browser_returns none ∷ hs) s jwt f n e (a, b) =
    ground (arith, n, e, a, b, login-ends hs (record s { opened = true }) jwt f n e)
login-ends (serve_fails x ∷ hs) s jwt f n e t = absurd (ground (arith, f))
login-ends (browser_returns (some x) ∷ hs) s jwt f n e t = absurd (ground (arith, f))
login-ends (cancelled x ∷ hs) s jwt f n e t = absurd (ground (arith, f))

-- When neither the server nor the browser fails, and the context is not done, the login ends with a
-- token exactly when the browser was opened and the token is the first value of a callback that is
-- not empty, in whatever order that happens.
pub login-first_value :
    (hs : List Happens) (jwt : String)
    → nothing_fails hs ≡ true
    → (login hs begun ≡ some (ok jwt)) ↔ ((first_value hs ≡ some jwt) × (has_opened hs ≡ true))
login-first_value hs jwt f = (first_token hs jwt, login-ends hs begun jwt f refl refl)
