-- ===== src/Api/Proxy/Agrees.antt =====
-- `getProxy` of api/tunnel.go beside `ParseURLs` of tunnel/urls.go.
use cli.Base.{String, ◌≡◌, ◌∙◌, ap, false, none, some, ◌==◌, arith}
use cli.Base.Results.{ok}
use cli.Net.{Url, has, contains_text, join_host_port, split_host_port}
use cli.Net.Split.{split-join}
use cli.Proto.Records.{Connection}
use cli.Tunnel.Urls.{Parser, parse_urls}
use cli.Tunnel.Urls.Ports.{parse_urls-plain}
use cli.Api.Proxy.{of_remote, get_proxy}

get_proxy-plain :
    (parse : Parser) (conn : Connection) (h p : String)
    → conn.pomerium_url ≡ none
    → split_host_port conn.remote_addr ≡ some (h, p)
    → (h == "") ≡ false
    → get_proxy parse conn
      ≡ ok (record { scheme = "https"; host = join_host_port h "443"; path = ""; raw_query = "" })
unfolding get_proxy
get_proxy-plain parse conn h p no_url split named =
    ap (λ o. of_remote parse o (split_host_port conn.remote_addr)) no_url
    ∙ ap (of_remote parse none) split
    ∙ ground (arith, named)

-- For a record without a Pomerium URL whose remote address is a named host, not an IPv6 address, and
-- a port, `getProxy` and `ParseURLs` give the same proxy: the host on port 443.
pub get_proxy-parse_urls :
    (parse : Parser) (conn : Connection) (h p : String)
    → conn.pomerium_url ≡ none
    → conn.remote_addr ≡ join_host_port h p
    → (h == "") ≡ false
    → has b':' h ≡ false
    → has b'[' h ≡ false
    → has b']' h ≡ false
    → has b':' p ≡ false
    → has b'[' p ≡ false
    → has b']' p ≡ false
    → contains_text "://" (join_host_port h p) ≡ false
    → (u : Url) × (get_proxy parse conn ≡ ok u)
      × (parse_urls parse conn.remote_addr "" ≡ ok (conn.remote_addr, u))
get_proxy-parse_urls parse conn h p no_url addr named no_colon a b c d e plain =
    let u : Url = record {
      scheme = "https";
      host = join_host_port h "443";
      path = "";
      raw_query = "";
    } in
    (
      u,
      get_proxy-plain parse conn h p no_url (ap split_host_port addr ∙ split-join h p a b c d e)
          named,
      rw addr (parse_urls-plain parse h p a b c d e plain ∙ ground (arith, no_colon)),
    )
