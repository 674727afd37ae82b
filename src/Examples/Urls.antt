-- ===== src/Examples/Urls.antt =====
-- Destinations of tunnels.
use cli.Base.{◌≡◌, refl, false, none, some, ◌==◌, if◌then◌else◌}
use cli.Base.Results.{ok}
use cli.Net.{
  Url, has, after, trim_prefix, contains_text, cut_last, split, join_host_port, split_host_port,
}
use cli.Tunnel.Urls.{Parser, parse_destination, override_proxy, add_port, parse_urls}
use cli.Tunnel.Urls.Ports.{parse_urls-plain}

-- A parser that knows two URLs.
abbrev parse : Parser
parse s =
    if s == "tcp+https://proxy:8443/db:5432"
    then some
        (record { scheme = "tcp+https"; host = "proxy:8443"; path = "/db:5432"; raw_query = "" })
    else if s == "http://pomerium"
    then some (record { scheme = "http"; host = "pomerium"; path = ""; raw_query = "" })
    else none

abbrev pomerium : Url
pomerium = record { scheme = "http"; host = "pomerium:80"; path = ""; raw_query = "" }

with_path :
    parse_urls parse "tcp+https://proxy:8443/db:5432" ""
    ≡ ok ("db:5432", record { scheme = "https"; host = "proxy:8443"; path = ""; raw_query = "" })
unfolding parse_urls parse_destination override_proxy add_port contains_text after split trim_prefix
    has
with_path = refl

with_override : parse_urls parse "db:5432" "http://pomerium" ≡ ok ("db:5432", pomerium)
unfolding parse_urls parse_destination override_proxy add_port contains_text after has
    split_host_port cut_last join_host_port
with_override = refl

no_bracket : has b'[' "::1" ≡ false
unfolding has
no_bracket = refl

no_closing : has b']' "::1" ≡ false
unfolding has
no_closing = refl

no_colon : has b':' "22" ≡ false
unfolding has
no_colon = refl

no_bracket_port : has b'[' "22" ≡ false
unfolding has
no_bracket_port = refl

no_closing_port : has b']' "22" ≡ false
unfolding has
no_closing_port = refl

no_url : contains_text "://" (join_host_port "::1" "22") ≡ false
unfolding contains_text after join_host_port has
no_url = refl

parse_urls-plain_example :
    parse_urls parse (join_host_port "::1" "22") ""
    ≡ ok (
      join_host_port "::1" "22",
      record {
        scheme = "https";
        host = if has b':' "::1" then "::1" else join_host_port "::1" "443";
        path = "";
        raw_query = "";
      },
    )
parse_urls-plain_example =
    parse_urls-plain parse "::1" "22" no_bracket no_closing no_colon no_bracket_port no_closing_port
      no_url
