-- ===== src/Tunnel/Urls/Ports.antt =====
-- What `ParseURLs` returns: errors, the port of the proxy, and plain destinations.
use cli.Base.{
  not, String, ◌≡◌, ◌∙◌, ap, inl, inr, Bool, true, false, ◌||◌, Option, none, some, arith, ◌==◌,
  if◌then◌else◌, Bool-cases, Option-cases, is_some,
}
use cli.Base.Results.{Result-cases, Result, ok, err}
use cli.Net.{Url, ◌<>◌, has, contains_text, join_host_port, split_host_port}
use cli.Net.Split.{has-append, split-join}
use cli.Tunnel.Urls.{
  UrlError, invalid_destination, invalid_pomerium_url, Parser, parse_destination, override_proxy,
  add_port, parse_urls,
}

has-join : (h p : String) → has b':' (join_host_port h p) ≡ true
unfolding join_host_port
has-join h p = elim (Bool-cases (has b':' h)) [
  | inl e ↦ rw e (
      has-append b':' "[" (h <> "]:" <> p) ∙ rw (has-append b':' h ("]:" <> p)) (ground (arith, e)))
  | inr e ↦
      rw e (has-append b':' h (":" <> p) ∙ rw (has-append b':' ":" p) (unfold has in ground arith))
]

has-add_port : (u : Url) → has b':' (add_port u).host ≡ true
unfolding add_port
has-add_port u = ground (arith, has-join u.host "443", has-join u.host "80")

-- A result of `ParseURLs` is put together from the destination's and the override's.
parse_urls-parts :
    (parse : Parser) (destination pomerium_url : String) (r : String × Url)
    → parse_urls parse destination pomerium_url ≡ ok r
    → (d : String × Url) × (v : Url) × (parse_destination parse destination ≡ ok d)
      × (override_proxy parse pomerium_url d.1 ≡ ok v)
      × (r ≡ (d.0, add_port v))
unfolding parse_urls
parse_urls-parts parse destination pomerium_url r e =
    elim (Result-cases (parse_destination parse destination)) [
      | inr (x, failed) ↦ absurd (ground (arith, failed, e))
      | inl (d, got) ↦ elim (Result-cases (override_proxy parse pomerium_url d.1)) [
        | inr (x, failed) ↦ absurd (ground (arith, got, failed, e))
        | inl (v, kept) ↦ (d, v, got, kept, ground (arith, got, kept, e))
      ]
    ]

-- Whenever a proxy is returned, its host holds a colon: a host without one has got a port.
pub parse_urls-has_port :
    (parse : Parser) (destination pomerium_url addr : String) (u : Url)
    → parse_urls parse destination pomerium_url ≡ ok (addr, u)
    → has b':' u.host ≡ true
parse_urls-has_port parse destination pomerium_url addr u e =
    let (d, v, got, kept, same) = parse_urls-parts parse destination pomerium_url (addr, u) e in
    ap (λ (r : String × Url). has b':' r.1.host) same ∙ has-add_port v

-- The destination can be read: as a URL if it holds "://", as a host and a port otherwise.
abbrev pub readable : Parser → String → Bool
readable parse destination =
    if contains_text "://" destination
    then is_some (parse destination)
    else is_some (split_host_port destination)

abbrev names_host : Option Url → Bool
names_host none = false
names_host (some u) = not (u.host == "")

-- The Pomerium URL is left out, or is a URL with a host.
abbrev pub usable : Parser → String → Bool
usable parse pomerium_url = pomerium_url == "" || names_host (parse pomerium_url)

abbrev pub error_of {ℓ} : {A : Type ℓ} → Result UrlError A → Option UrlError
error_of (ok a) = none
error_of (err e) = some e

error_of-destination :
    (parse : Parser) (destination : String)
    → error_of (parse_destination parse destination)
      ≡ (if readable parse destination then none else some invalid_destination)
unfolding parse_destination
error_of-destination parse destination = elim (Option-cases (parse destination)) [
  | inl gone ↦ ground (arith, gone)
  | inr (u, got) ↦ ground (arith, got)
]

error_of-override :
    (parse : Parser) (pomerium_url : String) (u : Url)
    → error_of (override_proxy parse pomerium_url u)
      ≡ (if usable parse pomerium_url then none else some invalid_pomerium_url)
unfolding override_proxy
error_of-override parse pomerium_url u = elim (Option-cases (parse pomerium_url)) [
  | inl gone ↦ ground (arith, gone)
  | inr (v, got) ↦ ground (arith, got)
]

-- `ParseURLs` fails exactly when the destination cannot be read, or else when a Pomerium URL is
-- given that is no URL or has no host; the first of these two decides the error.
pub parse_urls-error :
    (parse : Parser) (destination pomerium_url : String)
    → error_of (parse_urls parse destination pomerium_url) ≡ (
        if readable parse destination
        then if usable parse pomerium_url then none else some invalid_pomerium_url
        else some invalid_destination)
unfolding parse_urls
parse_urls-error parse destination pomerium_url =
    elim (Result-cases (parse_destination parse destination)) [
      | inr (x, failed) ↦ ground (arith, error_of-destination parse destination, failed)
      | inl (d, got) ↦ elim (Result-cases (override_proxy parse pomerium_url d.1)) [
        | inr (x, failed) ↦ ground (
          arith,
          error_of-destination parse destination,
          error_of-override parse pomerium_url d.1,
          got,
          failed,
        )
        | inl (v, kept) ↦ ground (
          arith,
          error_of-destination parse destination,
          error_of-override parse pomerium_url d.1,
          got,
          kept,
        )
      ]
    ]

-- A plain destination, a host and a port with no brackets in them, goes through unchanged, to the
-- HTTPS proxy of that host: on port 443, but with no port at all if the host is an IPv6 address.
pub parse_urls-plain :
    (parse : Parser) (h p : String)
    → has b'[' h ≡ false
    → has b']' h ≡ false
    → has b':' p ≡ false
    → has b'[' p ≡ false
    → has b']' p ≡ false
    → contains_text "://" (join_host_port h p) ≡ false
    → parse_urls parse (join_host_port h p) ""
      ≡ ok (
        join_host_port h p,
        record {
          scheme = "https";
          host = if has b':' h then h else join_host_port h "443";
          path = "";
          raw_query = "";
        },
      )
unfolding parse_urls parse_destination override_proxy add_port
parse_urls-plain parse h p a b c d e no_url =
    rw no_url (rw (split-join h p a b c d e) (ground arith))
