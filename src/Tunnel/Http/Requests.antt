-- ===== src/Tunnel/Http/Requests.antt =====
-- The requests of the tunnelers.
use cli.Base.{String, ◌≡◌, refl, Option, none, some, [], ◌∷◌, ◌==◌, if◌then◌else◌, arith, eq_iff}
use cli.Base.Results.{Result, ok, err, map_err, ◌>>=◌}
use cli.Base.Maps.{Map, lookup, insert, lookup-insert, lookup-nil}
use cli.Net.{◌<>◌, Url, split_host_port}
use cli.Tunnel.Config.{TunnelConfig}
use cli.Tunnel.Errors.{Error}
use cli.Tunnel.Http.{opaque, parsed, Request, Peer, wrapped, own}

-- `hdr.Set("Authorization", "Pomerium " + rawJWT)`, for a token that is not empty.
unfoldable pub authorize : String → Map String → Map String
unfolding insert
authorize raw_jwt hdr =
    if raw_jwt == "" then hdr else insert "Authorization" ("Pomerium " <> raw_jwt) hdr

-- CONNECT to the destination, over HTTP/1 and HTTP/2.
unfoldable pub connect_request : TunnelConfig → String → Request
unfolding authorize
connect_request cfg raw_jwt = record {
  method = "CONNECT";
  proto = "";
  url = opaque cfg.dst_host;
  host = cfg.dst_host;
  header = authorize raw_jwt [];
}

-- CONNECT over HTTP/3, at the parsed URL of the proxy.
unfoldable pub connect3_request : TunnelConfig → String → Url → Request
unfolding authorize
connect3_request cfg raw_jwt u = record {
  method = "CONNECT";
  proto = "";
  url = parsed u;
  host = cfg.dst_host;
  header = authorize raw_jwt [];
}

abbrev pub masque_url : TunnelConfig → String × String → String
masque_url cfg (dst_host, dst_port) =
    "https://" <> cfg.proxy_host <> "/.well-known/masque/udp/" <> dst_host <> "/" <> dst_port <> "/"

-- `http3.CapsuleProtocolHeader`
abbrev pub capsule_protocol : String
capsule_protocol = "Capsule-Protocol"

-- A UDP upgrade over HTTP/1.
unfoldable pub upgrade_request : TunnelConfig → String → Url → String → Request
unfolding authorize
upgrade_request cfg raw_jwt u capsules = record {
  method = "GET";
  proto = "";
  url = parsed u;
  host = cfg.dst_host;
  header =
      authorize raw_jwt (
        ("Connection", "Upgrade") ∷ ("Upgrade", "connect-udp") ∷ (capsule_protocol, capsules) ∷ []);
}

-- An extended CONNECT over HTTP/3: the host is the proxy's.
unfoldable pub connect_udp_request : TunnelConfig → String → Url → String → Request
unfolding authorize
connect_udp_request cfg raw_jwt u capsules = record {
  method = "CONNECT";
  proto = "connect-udp";
  url = parsed u;
  host = u.host;
  header = authorize raw_jwt ((capsule_protocol, capsules) ∷ []);
}

abbrev split_error : String → Error
split_error version = own (version <> ": failed to split destination host into host and port")

abbrev pub of_parts : String → Option (String × String) → Result Error (String × String)
of_parts version none = err (split_error version)
of_parts version (some parts) = ok parts

-- The destination's host and port.
abbrev pub destination : String → TunnelConfig → Result Error (String × String)
destination version cfg = of_parts version (split_host_port cfg.dst_host)

abbrev pub header_value : String → Peer → Result Error String
header_value version peer =
    map_err (λ e. own (version <> ": failed to encode capsule protocol header value"))
      peer.marshal_true

abbrev pub destination_url : String → Peer → TunnelConfig → String × String → Result Error Url
destination_url version peer cfg parts =
    map_err (wrapped (version <> ": failed to create destination url"))
      (peer.parse_url (masque_url cfg parts))

unfoldable pub get_connect_udp_request : Peer → TunnelConfig → String → Result Error Request
get_connect_udp_request peer cfg raw_jwt = do
  parts ← destination "http/3" cfg
  u ← destination_url "http/3" peer cfg parts
  capsules ← header_value "http/3" peer
  ok (connect_udp_request cfg raw_jwt u capsules)

-- The header that names the token.
abbrev pub authorization : String → Option String
authorization raw_jwt = if raw_jwt == "" then none else some ("Pomerium " <> raw_jwt)

pub lookup-authorize :
    (raw_jwt : String) (hdr : Map String)
    → lookup "Authorization" hdr ≡ none
    → lookup "Authorization" (authorize raw_jwt hdr) ≡ authorization raw_jwt
unfolding authorize
lookup-authorize raw_jwt hdr free = ground (
  arith,
  free,
  lookup-insert "Authorization" "Authorization" ("Pomerium " <> raw_jwt) hdr,
  eq_iff "Authorization" "Authorization",
)

pub connect_request-authorized :
    (cfg : TunnelConfig) (raw_jwt : String)
    → lookup "Authorization" (connect_request cfg raw_jwt).header ≡ authorization raw_jwt
unfolding connect_request
connect_request-authorized cfg raw_jwt = lookup-authorize raw_jwt [] (lookup-nil "Authorization")

pub connect3_request-authorized :
    (cfg : TunnelConfig) (raw_jwt : String) (u : Url)
    → lookup "Authorization" (connect3_request cfg raw_jwt u).header ≡ authorization raw_jwt
unfolding connect3_request
connect3_request-authorized cfg raw_jwt u = lookup-authorize raw_jwt [] (lookup-nil "Authorization")

pub upgrade_request-authorized :
    (cfg : TunnelConfig) (raw_jwt : String) (u : Url) (capsules : String)
    → lookup "Authorization" (upgrade_request cfg raw_jwt u capsules).header ≡ authorization raw_jwt
unfolding upgrade_request
upgrade_request-authorized cfg raw_jwt u capsules =
    lookup-authorize raw_jwt _ (unfold lookup in refl)

pub connect_udp_request-authorized :
    (cfg : TunnelConfig) (raw_jwt : String) (u : Url) (capsules : String)
    → lookup "Authorization" (connect_udp_request cfg raw_jwt u capsules).header
      ≡ authorization raw_jwt
unfolding connect_udp_request
connect_udp_request-authorized cfg raw_jwt u capsules =
    lookup-authorize raw_jwt _ (unfold lookup in refl)
