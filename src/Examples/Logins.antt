-- ===== src/Examples/Logins.antt =====
-- A login in the browser, and the routes of a portal behind it.
use cli.Base.{true, ◌≡◌, refl, ◌↔◌, String, none, some, List, [], ◌∷◌, ◌==◌, if◌then◌else◌}
use cli.Base.Results.{Result, ok, err}
use cli.Base.Maps.{lookup, insert, delete}
use cli.Net.{hostname, cut_last, after, digits}
use cli.Jwt.{check_expiry}
use cli.Jwt.Memory.{memory_cache, load_jwt, store_jwt, delete_jwt}
use cli.Authclient.{FetchError, unauthenticated, failed, fetch, get_browser_url}
use cli.Authclient.Login.{
  Happens, callback, browser_returns, begun, login, login_turn, first_value, has_opened,
  login-first_value,
}
use cli.Portal.{Route, list_routes_with_cached_jwt, list_routes_with_new_jwt}
use cli.Examples.Jwts.{decoder}

abbrev happens : List Happens
happens = callback "" ∷ browser_returns none ∷ callback "jwt" ∷ callback "late" ∷ []

login-first_value_example :
    (login happens begun ≡ some (ok "jwt"))
    ↔ ((first_value happens ≡ some "jwt") × (has_opened happens ≡ true))
login-first_value_example = login-first_value happens "jwt" refl

logged_in : login happens begun ≡ some (ok "jwt")
unfolding login login_turn
logged_in = refl

not_found :
    fetch (ok (record { status_code = 404; status = "404 Not Found"; body = ok "" }))
    ≡ err (failed "unexpected status code: 404 Not Found")
unfolding fetch
not_found = refl

-- The colons of an IPv6 host keep its default port.
ipv6 :
    get_browser_url (record { scheme = "https"; host = "[::1]:443"; path = ""; raw_query = "" })
    ≡ record { scheme = "https"; host = "[::1]:443"; path = ""; raw_query = "" }
unfolding get_browser_url hostname cut_last after digits
ipv6 = refl

name :
    (get_browser_url (record { scheme = "https"; host = "a:443"; path = ""; raw_query = "" })).host
    ≡ "a"
unfolding get_browser_url hostname cut_last after digits
name = refl

-- The listing takes the token "jwt" only.
abbrev list : String → Result FetchError (List Route)
list raw_jwt = if raw_jwt == "jwt" then ok [] else err unauthenticated

listed :
    (list_routes_with_cached_jwt
      (memory_cache decoder 0)
      list
      (ok "jwt")
      "key"
      (("key", "other") ∷ []))
    ≡ (("key", "jwt") ∷ [], ok [])
unfolding list_routes_with_cached_jwt list_routes_with_new_jwt load_jwt store_jwt delete_jwt
    check_expiry lookup insert delete
listed = refl
