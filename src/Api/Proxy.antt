-- ===== src/Api/Proxy.antt =====
-- `getProxy` of api/tunnel.go. The texts of its errors are left out.
pub mod Agrees
use cli.Base.{
  String, ◌≡◌, Bool, true, false, not, ◌&&◌, ◌||◌, Option, none, some, ◌==◌, if◌then◌else◌,
}
use cli.Base.Results.{Result, ok, err}
use cli.Net.{Url, join_host_port, split_host_port, hostname}
use cli.Proto.Records.{Connection}
use cli.Tunnel.Urls.{Parser}

pub data ProxyError : Type 0 where
  bad_remote host_required bad_url invalid_url : ProxyError

abbrev https_proxy : String → Url
https_proxy host = record {
  scheme = "https";
  host = join_host_port host "443";
  path = "";
  raw_query = "";
}

-- The default port of the scheme, for a host that is its own `Hostname`.
abbrev with_port : Url → Url
with_port u =
    if u.host == hostname u.host
    then if u.scheme == "https"
      then record u { host = join_host_port u.host "443" }
      else record u { host = join_host_port u.host "80" }
    else u

abbrev of_url : Option Url → Result ProxyError Url
of_url none = err bad_url
of_url (some u) =
    if u.host == "" || (not (u.scheme == "http") && not (u.scheme == "https"))
    then err invalid_url
    else ok (with_port u)

abbrev of_pomerium_url : Parser → String → Option String → Result ProxyError Url
of_pomerium_url parse host none = ok (https_proxy host)
of_pomerium_url parse host (some url) = of_url (parse url)

abbrev of_remote : Parser → Option String → Option (String × String) → Result ProxyError Url
of_remote parse pomerium_url none = err bad_remote
of_remote parse pomerium_url (some (host, port)) =
    if host == "" then err host_required else of_pomerium_url parse host pomerium_url

unfoldable pub get_proxy : Parser → Connection → Result ProxyError Url
unfolding join_host_port split_host_port hostname
get_proxy parse conn = of_remote parse conn.pomerium_url (split_host_port conn.remote_addr)
