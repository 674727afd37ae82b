-- ===== src/Commands/Proxy.antt =====
-- cmd/pomerium-cli/proxy.go: which hosts the HTTPS proxy sends through a tunnel, and its tunnels.
--
-- A regular expression `^.*domain(:\d+)?$` is the test of a host that it stands for.
use cli.Base.{
  ◌≡◌, ap, ◌∙◌, String, Bool, true, false, not, ◌&&◌, ◌||◌, Option, none, some, List, [], ◌∷◌, map,
  ◌==◌, if◌then◌else◌, arith, eq_refl,
}
use cli.Base.Results.{Result, ok, err, ◌>>=◌}
use cli.Net.{◌<>◌, Url, has, cut_last, digits, join_host_port, split_host_port, hostname}
use cli.Net.Split.{cons-append, nil-append}
use cli.Tunnel.Config.{
  TlsConfig, TunnelConfig, get_config, with_destination_host, with_proxy_host, with_service_account,
  with_service_account_file, with_tls_config,
}
use cli.Tunnel.Urls.{Parser}
use cli.Commands.Tls.{Files, FlagError, get_tls_config}
use cli.Commands.Kubernetes.{Flags}

unfoldable pub has_suffix : String → String → Bool
has_suffix d String.[] = d == ""
has_suffix d (String.◌∷◌ c s) = String.◌∷◌ c s == d || has_suffix d s

abbrev without_port : String → Option (String × String) → Bool
without_port d none = false
without_port d (some (a, port)) = not (port == "") && digits port && has_suffix d a

unfoldable pub host_matches : String → String → Bool
unfolding cut_last digits has_suffix
host_matches d host = has_suffix d host || without_port d (cut_last b':' host)

-- `makeDomainRegexes`; a quoted domain always compiles.
unfoldable pub make_domain_regexes : List String → Result String (List (String → Bool))
make_domain_regexes [] = err "--proxy-domain is required"
make_domain_regexes (d ∷ ds) = ok (map host_matches (d ∷ ds))

pub data ProxyError : Type 0 where
  invalid_destination invalid_pomerium_url : ProxyError
  bad_tls : FlagError → ProxyError

abbrev port_for_envoy : String → String
port_for_envoy port = if port == "443" then "8000" else port

abbrev with_port : Url → Url
with_port u =
    if has b':' u.host
    then u
    else if u.scheme == "https"
    then record u { host = join_host_port (hostname u.host) "443" }
    else record u { host = join_host_port (hostname u.host) "80" }

abbrev specific : Option Url → Result ProxyError Url
specific none = err invalid_pomerium_url
specific (some u) = ok (with_port u)

module _ (parse : Parser) (files : Files) (flags : Flags) where
  abbrev pomerium_url : String → String → Result ProxyError Url
  pomerium_url host url =
      if url == ""
      then ok
          (record { scheme = "https"; host = join_host_port host "443"; path = ""; raw_query = "" })
      else specific (parse url)

  abbrev some_of : Result FlagError TlsConfig → Result ProxyError (Option TlsConfig)
  some_of (err e) = err (bad_tls e)
  some_of (ok tls) = ok (some tls)

  abbrev tls_of : Url → Result ProxyError (Option TlsConfig)
  tls_of u = if u.scheme == "https" then some_of (get_tls_config files flags.tls) else ok none

  abbrev of_parts : String → Option (String × String) → Result ProxyError TunnelConfig
  of_parts url none = err invalid_destination
  of_parts url (some (host, port)) = do
    u ← pomerium_url host url
    tls ← tls_of u
    ok (
        get_config (
          with_destination_host (join_host_port host (port_for_envoy port))
          ∷ with_proxy_host u.host
          ∷ with_service_account flags.service_account
          ∷ with_service_account_file flags.service_account_file
          ∷ with_tls_config tls
          ∷ []))

  unfoldable pub new_tcp_tunnel : String → String → Result ProxyError TunnelConfig
  new_tcp_tunnel dst_host specific_pomerium_url =
      of_parts specific_pomerium_url (split_host_port dst_host)

-- What `hijackProxyConnect` does with the client's connection, which it closes in the end: the text
-- that it writes, and the tunnel that it runs if that can be written.
pub data Hijacked : Type 0 where
  refused : String → Hijacked
  unanswered : String → Hijacked
  tunneled : String → TunnelConfig → Hijacked

abbrev accepted : TunnelConfig → Option String → Hijacked
accepted cfg none = tunneled "HTTP/1.1 200 Connection established\n\n" cfg
accepted cfg (some e) = unanswered "HTTP/1.1 200 Connection established\n\n"

-- `client.Write` is a parameter.
abbrev of_tunnel : (String → Option String) → Result ProxyError TunnelConfig → Hijacked
of_tunnel write (err e) = refused "HTTP/1.1 500 Cannot reach destination\r\n\r\n"
of_tunnel write (ok cfg) = accepted cfg (write "HTTP/1.1 200 Connection established\n\n")

unfoldable pub hijack_proxy_connect :
    Parser → Files → Flags → (String → Option String) → String → String → Hijacked
unfolding new_tcp_tunnel
hijack_proxy_connect parse files flags write pomerium_url dst =
    of_tunnel write (new_tcp_tunnel parse files flags dst pomerium_url)

has_suffix_refl : (d : String) → has_suffix d d ≡ true
unfolding has_suffix
has_suffix_refl String.[] = eq_refl ""
has_suffix_refl (String.◌∷◌ c d) = ground (arith, eq_refl (String.◌∷◌ c d))

has_suffix-append : (s d : String) → has_suffix d (s <> d) ≡ true
unfolding has_suffix
has_suffix-append String.[] d = ap (has_suffix d) (nil-append d) ∙ has_suffix_refl d
has_suffix-append (String.◌∷◌ c s) d = rw (cons-append s d) (ground (arith, has_suffix-append s d))

-- Every host that ends with a proxied domain matches, whatever stands before it: the name of another
-- domain, too.
pub host_matches-append : (s d : String) → host_matches d (s <> d) ≡ true
unfolding host_matches
host_matches-append s d = ground (arith, has_suffix-append s d)
