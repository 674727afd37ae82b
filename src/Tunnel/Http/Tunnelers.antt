-- ===== src/Tunnel/Http/Tunnelers.antt =====
-- The five tunnelers.
use cli.Base.{String, Option, none, some, ◌∷◌, [], ◌==◌}
use cli.Base.Results.{Result, ok, err}
use cli.Net.{◌<>◌}
use cli.Tunnel.Config.{TlsConfig, TunnelConfig}
use cli.Tunnel.Errors.{Error, http_status_code_to_error}
use cli.Tunnel.Http.{
  unless, opened, Request, Peer, Settings, Ran, act, using, fail, check, tried, wrapped, as_is, own,
  not_supported, established, ended, connecting, sent, proxy_conn, client_conn, transport,
  quic_conn, body,
}
use cli.Tunnel.Http.Requests.{
  connect_request, connect3_request, upgrade_request, get_connect_udp_request, destination,
  destination_url, header_value,
}

-- A request is written and its answer read; its body is closed behind what follows.
unfoldable pub answered : Peer → Request → (Error → Error) → (Error → Error) → Option Error → Ran
answered peer req unwritten unread e = act (sent req) (
    check unwritten (peer.write req) (
      tried unread (peer.respond req)
        (λ code. using body (check as_is (http_status_code_to_error code) (established e)))))

abbrev dial_error : String → Error → Error
dial_error version = wrapped (version <> ": failed to establish connection to proxy")

abbrev read_error : Error → Error
read_error = wrapped "http/1: failed to read HTTP response"

unfoldable pub http1_tunnel_tcp : Peer → TunnelConfig → String → Ran
http1_tunnel_tcp peer cfg raw_jwt = act connecting (
    tried (dial_error "http/1") (peer.dial cfg.tls_config cfg.proxy_host) (λ _.
      using proxy_conn
        (answered peer (connect_request cfg raw_jwt) as_is read_error (ended peer.tcp_ending))))

unfoldable pub http1_tunnel_udp : Peer → TunnelConfig → String → Ran
http1_tunnel_udp peer cfg raw_jwt = act connecting (
    tried (dial_error "http/1") (peer.dial cfg.tls_config cfg.proxy_host) (λ _. using proxy_conn (
      tried as_is (destination "http/1" cfg) λ parts.
        tried as_is (destination_url "http/1" peer cfg parts) λ u.
          tried as_is (header_value "http/1" peer) λ capsules.
            answered peer (upgrade_request cfg raw_jwt u capsules) as_is read_error peer.wait)))

-- A clone of the configuration that offers one protocol.
abbrev pub offer : String → TlsConfig → TlsConfig
offer protocol tls = record tls { next_protos = protocol ∷ [] }

-- `RoundTrip` writes the request and reads the answer.
abbrev round_trip : Peer → Request → (Error → Error) → Option Error → Ran
round_trip peer req f e = answered peer req f f e

abbrev pub over_http2 : Peer → TunnelConfig → String → Ran
over_http2 peer cfg raw_jwt =
    unless peer.is_tls_conn (own "http/2: unexpected connection type returned from dial") (
      unless (peer.negotiated_protocol == "h2")
        (not_supported ("unsupported: unexpected TLS protocol: " <> peer.negotiated_protocol))
        (check (wrapped "http/2: failed to establish connection") peer.new_client_conn (
          using client_conn (
            round_trip peer (connect_request cfg raw_jwt)
              (wrapped "http/2: error making connect request") (ended peer.tcp_ending)))))

abbrev pub http2_with_tls : Peer → TunnelConfig → String → Option TlsConfig → Ran
http2_with_tls peer cfg raw_jwt none = fail (not_supported "unsupported: http2 requires TLS")
http2_with_tls peer cfg raw_jwt (some tls) =
    tried (dial_error "http/2") (peer.dial (some (offer "h2" tls)) cfg.proxy_host)
      (λ _. using proxy_conn (over_http2 peer cfg raw_jwt))

unfoldable pub http2_tunnel_tcp : Peer → TunnelConfig → String → Ran
http2_tunnel_tcp peer cfg raw_jwt = act connecting (http2_with_tls peer cfg raw_jwt cfg.tls_config)

-- `getTransport`: the configuration of the transport that is made.
abbrev pub of_tls : Option TlsConfig → Result Error TlsConfig
of_tls none = err (not_supported "http/3: unsupported: TLS is required")
of_tls (some tls) = ok (offer "h3" tls)

unfoldable pub get_transport : TunnelConfig → Result Error TlsConfig
get_transport cfg = of_tls cfg.tls_config

-- `fmt.Errorf("http/3: %w: …: %w", errUnsupported, err)`
abbrev pub unsupported_because : String → Error → Error
unsupported_because what e = not_supported ("http/3: unsupported: " <> what <> ": " <> e.message)

unfoldable pub http3_tunnel_tcp : Peer → TunnelConfig → String → Ran
http3_tunnel_tcp peer cfg raw_jwt = act connecting (
    tried as_is (get_transport cfg) λ tls. using transport (
      tried (wrapped "http/3: failed to parse proxy URL")
        (peer.parse_url ("https://" <> cfg.proxy_host))
        (λ u.
          round_trip peer (connect3_request cfg raw_jwt u)
            (unsupported_because "failed to make connect request") (ended peer.tcp_ending))))

abbrev pub over_quic : Peer → TunnelConfig → String → Settings → Ran
over_quic peer cfg raw_jwt settings =
    unless settings.enable_extended_connect (own "http/3: extended connect not enabled") (
      unless settings.enable_datagrams (own "http/3: datagrams not enabled") (
        check (wrapped "http/3: failed to create request stream") peer.open_request_stream (
          tried as_is (get_connect_udp_request peer cfg raw_jwt) (λ req.
            answered peer req (wrapped "http/3: error sending request")
              (wrapped "http/3: error reading response") peer.wait))))

-- No call closes the connection that `quic.DialAddr` returns.
unfoldable pub http3_tunnel_udp : Peer → TunnelConfig → String → Ran
http3_tunnel_udp peer cfg raw_jwt = act connecting (
    tried as_is (get_transport cfg) λ tls. using transport (
      tried (unsupported_because "failed to connect to server") (peer.dial_quic tls cfg.proxy_host)
        (λ _.
          act (opened quic_conn)
            (tried as_is peer.received_settings (over_quic peer cfg raw_jwt)))))

-- The tunnelers, as the type of a `TCPTunneler` or a `UDPTunneler` and its method.
pub data Method : Type 0 where
  http1_tcp http2_tcp http3_tcp http1_udp http3_udp : Method

unfoldable pub tunnel : Method → Peer → TunnelConfig → String → Ran
tunnel http1_tcp = http1_tunnel_tcp
tunnel http2_tcp = http2_tunnel_tcp
tunnel http3_tcp = http3_tunnel_tcp
tunnel http1_udp = http1_tunnel_udp
tunnel http3_udp = http3_tunnel_udp
