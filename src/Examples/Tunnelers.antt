-- ===== src/Examples/Tunnelers.antt =====
-- A proxy that accepts, and one that cannot be reached over QUIC.
use cli.Base.{◌++◌, ◌≡◌, refl, true, false, none, some, List, [], ◌∷◌}
use cli.Base.Results.{ok, err}
use cli.Net.{Url}
use cli.Tunnel.Config.{TlsConfig, TunnelConfig, get_config}
use cli.Tunnel.Errors.{http_status_code_to_error}
use cli.Tunnel.Http.{
  Action, connecting, connected, disconnected, sent, opened, closed, proxy_conn, body, Peer, copied,
  own, act, tried, using, check, established,
}
use cli.Tunnel.Http.Requests.{connect_request}
use cli.Tunnel.Http.Tunnelers.{
  http1_tcp, http1_udp, http3_udp, tunnel, http1_tunnel_tcp, answered, get_transport,
}
use cli.Tunnel.Http.Sessions.{talk, Talk, tunnel-talks}
use cli.Tunnel.Http.Resources.{held, tunnel-closes}
use cli.Tunnel.Http.Deployed.{
  Network, IsForeign, session_tunnel, run_udp, behind, fresh, udp_tunnelers,
  session_tunnel-falls_back,
}
use cli.Tunnel.Http.Tokens.{AllBear, session_handler-IsCovered}
use cli.Tunnel.Run.{State}
use cli.Tunnel.Fallback.{Shared}
use cli.Base.Maps.{Map}
use cli.Base.{String, Option}
use cli.Base.Results.{Result}
use cli.Tunnel.Errors.{Error}
use cli.Tunnel.Http.Tunnelers.{Method}
use cli.Tunnel.Http.Deployed.{session_handler}
use cli.Jwt.Memory.{memory_cache}
use cli.Examples.Jwts.{decoder}
use cli.Tunnel.Http.Buffers.{Conn, read_all, de_buffer, left, de_buffer-reads}

abbrev proxy_url : Url
proxy_url = record { scheme = "https"; host = "proxy"; path = ""; raw_query = "" }

abbrev accepting : Peer
accepting = record {
  parse_url = λ t. ok proxy_url;
  marshal_true = ok "?1";
  dial = λ tls host. ok tt;
  is_tls_conn = true;
  negotiated_protocol = "h2";
  new_client_conn = none;
  dial_quic = λ tls host. ok tt;
  received_settings = ok (record { enable_extended_connect = true; enable_datagrams = true });
  open_request_stream = none;
  write = λ q. none;
  respond = λ q. ok 200;
  tcp_ending = copied (some (own "closed by the peer"));
  wait = some (own "closed by the peer");
}

abbrev no_quic : Peer
no_quic = record accepting { dial_quic = λ tls host. err (own "no route") }

abbrev tls : TlsConfig
tls = record {
  insecure_skip_verify = false;
  certificates = [];
  client_certificate = none;
  root_cas = none;
  next_protos = "http/1.1" ∷ [];
}

abbrev cfg : TunnelConfig
cfg = record (get_config []) {
  dst_host = "db:5432";
  proxy_host = "proxy:443";
  tls_config = some tls;
}

over_http1 :
    (tunnel http1_tcp accepting cfg "jwt").actions
    ≡ connecting
      ∷ opened proxy_conn
      ∷ sent (connect_request cfg "jwt")
      ∷ opened body
      ∷ connected
      ∷ disconnected (some (own "closed by the peer"))
      ∷ closed body
      ∷ closed proxy_conn
      ∷ []
unfolding tunnel http1_tunnel_tcp act tried using answered check http_status_code_to_error
    established
over_http1 = refl

tunnel-talks_example :
    (rest : List Action) × (talk (tunnel http3_udp accepting cfg "jwt").actions ≡ connecting ∷ rest)
    × Talk accepting "jwt" rest (tunnel http3_udp accepting cfg "jwt").error
tunnel-talks_example = tunnel-talks http3_udp accepting cfg "jwt"

tunnel-closes_example : held (tunnel http1_tcp accepting cfg "jwt").actions [] ≡ some []
tunnel-closes_example = tunnel-closes http1_tcp accepting cfg "jwt"

-- The QUIC connection stays open.
leaking : held (tunnel http3_udp accepting cfg "jwt").actions [] ≡ none
unfolding get_transport
leaking = tunnel-closes http3_udp accepting cfg "jwt"

no_quic-IsForeign : IsForeign no_quic
no_quic-IsForeign = record {
  parse_url = λ t. tt;
  received_settings = tt;
  open_request_stream = refl;
  write = λ q. refl;
  respond = λ q. tt;
  wait = refl;
}

abbrev unused : Network
unused = record { log = []; runs = 0 }

session_tunnel-falls_back_example :
    session_tunnel (λ n. no_quic) cfg "jwt" (fresh udp_tunnelers unused)
    ≡ some (
        run_udp
          (λ n. no_quic)
          cfg
          "jwt"
          http1_udp
          (behind (fresh (http1_udp ∷ []) unused) (tunnel http3_udp no_quic cfg "jwt")))
unfolding get_transport
session_tunnel-falls_back_example =
    session_tunnel-falls_back (λ n. no_quic) cfg "jwt" unused no_quic-IsForeign

abbrev conn : Conn
conn = record { buffered = 1 ∷ 2 ∷ 3 ∷ []; behind = 4 ∷ 5 ∷ [] }

three_reads : (read_all (2 ∷ 2 ∷ 2 ∷ []) (de_buffer conn)).0 ≡ 1 ∷ 2 ∷ 3 ∷ 4 ∷ 5 ∷ []
unfolding read_all de_buffer
three_reads = refl

de_buffer-reads_example :
    (let (bytes, s) = read_all (2 ∷ 2 ∷ []) (de_buffer conn) in
      bytes ++ left s ≡ conn.buffered ++ conn.behind)
de_buffer-reads_example = de_buffer-reads conn (2 ∷ 2 ∷ [])

abbrev log_in : Shared Method Network → Shared Method Network × Result Error String
log_in s = (s, ok "new")

abbrev unstarted : State (Map String) (Shared Method Network)
unstarted = record { cache = []; world = fresh udp_tunnelers unused; calls = []; logins = 0 }

abbrev after_session : State (Map String) (Shared Method Network) × Option Error
after_session = session_handler (memory_cache decoder 0) "key" log_in (λ n. no_quic) cfg unstarted

session_handler-IsCovered_example : AllBear after_session.0.calls after_session.0.world.world.log
session_handler-IsCovered_example =
    session_handler-IsCovered (memory_cache decoder 0) "key" log_in (λ n. no_quic) cfg (λ s. refl)
      unstarted tt
