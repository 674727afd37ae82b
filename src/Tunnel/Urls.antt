-- ===== src/Tunnel/Urls.antt =====
-- tunnel/urls.go: the destination and the proxy of a tunnel.
pub mod Ports
use cli.Base.{
  String, ◌≡◌, Bool, true, false, not, Option, none, some, List, [], ◌∷◌, ◌==◌, if◌then◌else◌,
}
use cli.Base.Results.{Result, ok, err, ◌>>=◌, ◌>>◌}
use cli.Net.{Url, has, trim_prefix, contains_text, split, join_host_port, split_host_port, hostname}

pub data UrlError : Type 0 where
  invalid_destination invalid_pomerium_url : UrlError

-- `url.Parse`: `none` is an error.
abbrev pub Parser : Type 0
Parser = String → Option Url

abbrev pub proxy_scheme : String → String
proxy_scheme s = trim_prefix "udp+" (trim_prefix "tcp+" s)

abbrev proxy : String → String → Url
proxy scheme host = record { scheme = scheme; host = host; path = ""; raw_query = "" }

-- `strings.Split(path, "/")[1:]`, which has at least one part to drop.
abbrev behind_first : List String → List String
behind_first [] = []
behind_first (p ∷ ps) = ps

abbrev of_paths : Url → List String → String × Url
of_paths u [] = (u.host, proxy (proxy_scheme u.scheme) (hostname u.host))
of_paths u (p ∷ ps) = (p, proxy (proxy_scheme u.scheme) u.host)

abbrev of_url : Option Url → Result UrlError (String × Url)
of_url none = err invalid_destination
of_url (some u) = ok (of_paths u (behind_first (split b'/' u.path)))

abbrev of_host_port : Option (String × String) → Result UrlError (String × Url)
of_host_port none = err invalid_destination
of_host_port (some (h, p)) = ok (join_host_port h p, proxy "https" h)

-- The destination and the proxy that the destination alone names.
unfoldable pub parse_destination : Parser → String → Result UrlError (String × Url)
unfolding contains_text split trim_prefix hostname split_host_port join_host_port
parse_destination parse destination =
    if contains_text "://" destination
    then of_url (parse destination)
    else of_host_port (split_host_port destination)

abbrev with_host : Option Url → Result UrlError Url
with_host none = err invalid_pomerium_url
with_host (some u) = if u.host == "" then err invalid_pomerium_url else ok u

unfoldable pub override_proxy : Parser → String → Url → Result UrlError Url
override_proxy parse pomerium_url u =
    if pomerium_url == "" then ok u else with_host (parse pomerium_url)

-- The default port of the scheme, for a host with no colon.
unfoldable pub add_port : Url → Url
unfolding has join_host_port
add_port u =
    if has b':' u.host
    then u
    else if u.scheme == "https"
    then record u { host = join_host_port u.host "443" }
    else record u { host = join_host_port u.host "80" }

unfoldable pub parse_urls : Parser → String → String → Result UrlError (String × Url)
unfolding parse_destination override_proxy add_port
parse_urls parse destination pomerium_url = do
  (addr, u) ← parse_destination parse destination
  u' ← override_proxy parse pomerium_url u
  ok (addr, add_port u')
