-- ===== src/Tunnel/Http/Deployed.antt =====
-- `RunUDPSessionManager` of tunnel/tunnel_udp.go hands a session to HTTP/3 with HTTP/1 behind it, by
-- the fallback of tunnel/tunnel_fallback.go.
use cli.Base.{
  ℕ, suc, ◌≡◌, refl, ◌∙◌, String, Bool, true, false, not, Option, none, some, List, [], ◌∷◌, ◌++◌,
  arith, if◌then◌else◌,
}
use cli.Base.Results.{Result, ok, err, map_err, ◌>>=◌}
use cli.Tunnel.Config.{TlsConfig, TunnelConfig}
use cli.Tunnel.Errors.{Error, is, unsupported, http_status_code_to_error}
use cli.Net.{◌<>◌}
use cli.Jwt.{Cache}
use cli.Tunnel.Run.{State, run_with_jwt}
use cli.Tunnel.Fallback.{
  no_tunnelers, Shared, tunnel_udp, first_supported, tunnel_udp-first_supported,
}
use cli.Tunnel.Http.{
  ◌<>◌, Action, connecting, opened, Resource, Request, Peer, Ran, Settings, act, using, fail, check,
  tried, unless, established, as_is, own, transport, quic_conn, body,
}
use cli.Tunnel.Http.Tunnelers.{
  Method, http1_udp, http3_udp, answered, tunnel, get_transport, of_tls, offer, over_quic,
  http3_tunnel_udp,
}
use cli.Tunnel.Http.Requests.{
  get_connect_udp_request, masque_url, of_parts, destination, destination_url, header_value,
}
use cli.Tunnel.Http.Resources.{behind_dial, is_ok, reaches_quic, dialed}

-- The actions of all runs, and how many runs there were.
pub record Network : Type 0 where
  pub log : List Action
  pub runs : ℕ

abbrev pub behind : Shared Method Network → Ran → Shared Method Network
behind s r = record s { world = record { log = s.world.log ++ r.actions; runs = suc s.world.runs } }

-- The network of each run is that of its number.
abbrev pub run_udp :
    (ℕ → Peer)
    → TunnelConfig
    → String
    → Method
    → Shared Method Network
    → Shared Method Network × Option Error
run_udp peers cfg raw_jwt m s =
    let r = tunnel m (peers s.world.runs) cfg raw_jwt in (behind s r, r.error)

abbrev pub udp_tunnelers : List Method
udp_tunnelers = http3_udp ∷ http1_udp ∷ []

-- One session's tunnel.
abbrev pub session_tunnel :
    (ℕ → Peer)
    → TunnelConfig
    → String
    → Shared Method Network
    → Option (Shared Method Network × Option Error)
session_tunnel peers cfg raw_jwt s = tunnel_udp (run_udp peers cfg raw_jwt) 3 s

-- An error from outside the package does not wrap its `errUnsupported`.
abbrev Foreign : Option Error → Type 0
Foreign e = is e unsupported ≡ false

abbrev ForeignResult {ℓ} : {A : Type ℓ} → Result Error A → Type 0
ForeignResult (ok a) = Unit
ForeignResult (err e) = Foreign (some e)

-- The calls whose error `TunnelUDP` over HTTP/3 passes on.
pub record IsForeign (peer : Peer) : Type 0 where
  pub parse_url : (t : String) → ForeignResult (peer.parse_url t)
  pub received_settings : ForeignResult peer.received_settings
  pub open_request_stream : Foreign peer.open_request_stream
  pub write : (q : Request) → Foreign (peer.write q)
  pub respond : (q : Request) → ForeignResult (peer.respond q)
  pub wait : Foreign peer.wait

bind-Foreign :
    {A B : Type 0} (m : Result Error A) (f : A → Result Error B)
    → ForeignResult m
    → ((a : A) → ForeignResult (f a))
    → ForeignResult (m >>= f)
bind-Foreign (ok a) f h k = k a
bind-Foreign (err e) f h k = h

-- A text for an error keeps what it wraps.
abbrev Keeps : (Error → Error) → Type 0
Keeps f = (e : Error) → (f e).sentinel ≡ e.sentinel

map_err-Foreign :
    {A : Type 0} (f : Error → Error) (m : Result Error A)
    → ((e : Error) → Foreign (some e) → Foreign (some (f e)))
    → ForeignResult m
    → ForeignResult (map_err f m)
map_err-Foreign f (ok a) k h = tt
map_err-Foreign f (err e) k h = k e h

of_parts-Foreign :
    (version : String) (o : Option (String × String)) → ForeignResult (of_parts version o)
of_parts-Foreign version none = refl
of_parts-Foreign version (some parts) = tt

header_value-Foreign : (peer : Peer) (version : String) → ForeignResult (header_value version peer)
header_value-Foreign peer version = of_marshal peer.marshal_true
  where
    of_marshal :
        (m : Result Error String)
        → ForeignResult
            (map_err (λ e. own (version <> ": failed to encode capsule protocol header value")) m)
    of_marshal (ok a) = tt
    of_marshal (err e) = refl

module _ (peer : Peer) (cfg : TunnelConfig) (raw_jwt : String) (foreign : IsForeign peer) where
  request-Foreign : ForeignResult (get_connect_udp_request peer cfg raw_jwt)
  unfolding get_connect_udp_request
  request-Foreign = bind-Foreign (destination "http/3" cfg) _ (of_parts-Foreign "http/3" _) λ parts.
      bind-Foreign (destination_url "http/3" peer cfg parts) _
        (map_err-Foreign _ (peer.parse_url (masque_url cfg parts)) (λ e h. h)
          (foreign.parse_url (masque_url cfg parts)))
        λ u.
          bind-Foreign (header_value "http/3" peer) _ (header_value-Foreign peer "http/3") λ c. tt

  record Passes (r : Ran) : Type 0 where
    passes : Foreign r.error

  check-Passes :
      (f : Error → Error) (o : Option Error) (r : Ran)
      → ((e : Error) → Foreign (some e) → Foreign (some (f e)))
      → Foreign o
      → Passes r
      → Passes (check f o r)
  unfolding check fail
  check-Passes f none r k h p = p
  check-Passes f (some e) r k h p = record { passes = k e h }

  tried-Passes :
      {A : Type 0} (f : Error → Error) (o : Result Error A) (g : A → Ran)
      → ((e : Error) → Foreign (some e) → Foreign (some (f e)))
      → ForeignResult o
      → ((a : A) → Passes (g a))
      → Passes (tried f o g)
  unfolding tried fail
  tried-Passes f (ok a) g k h p = p a
  tried-Passes f (err e) g k h p = record { passes = k e h }

  unless-Passes :
      (b : Bool) (e : Error) (r : Ran) → Foreign (some e) → Passes r → Passes (unless b e r)
  unfolding unless fail
  unless-Passes true e r h p = p
  unless-Passes false e r h p = record { passes = h }

  act-Passes : (a : Action) (r : Ran) → Passes r → Passes (act a r)
  unfolding act
  act-Passes a r p = record { passes = p.passes }

  using-Passes : (x : Resource) (r : Ran) → Passes r → Passes (using x r)
  unfolding using
  using-Passes x r p = record { passes = p.passes }

  status-Foreign : (code : ℕ) → Foreign (http_status_code_to_error code)
  unfolding http_status_code_to_error
  status-Foreign code = ground arith

  established-Passes : Passes (established peer.wait)
  unfolding established
  established-Passes = record { passes = foreign.wait }

  answered-Passes :
      (q : Request) (f g : Error → Error)
      → ((e : Error) → Foreign (some e) → Foreign (some (f e)))
      → ((e : Error) → Foreign (some e) → Foreign (some (g e)))
      → Passes (answered peer q f g peer.wait)
  unfolding answered
  answered-Passes q f g kf kg = act-Passes _ _ (
      check-Passes f _ _ kf (foreign.write q) (
        tried-Passes g _ _ kg (foreign.respond q) λ code.
          using-Passes body _
            (check-Passes as_is _ _ (λ e h. h) (status-Foreign code) established-Passes)))

  over_quic-Passes : (settings : Settings) → Passes (over_quic peer cfg raw_jwt settings)
  over_quic-Passes settings = unless-Passes _ _ _ refl (
      unless-Passes _ _ _ refl (
        check-Passes _ _ _ (λ e h. h) foreign.open_request_stream
          (tried-Passes as_is _ _ (λ e h. h) request-Foreign
            λ q. answered-Passes q _ _ (λ e h. h) (λ e h. h))))

  of_dial :
      (o : Result Error (Unit {0}))
      → is (behind_dial peer cfg raw_jwt o).error unsupported ≡ not (is_ok o)
  of_dial (err e) = unfold using tried fail in refl
  of_dial (ok u) =
      let inner = tried as_is peer.received_settings (over_quic peer cfg raw_jwt) in
      let p : Passes (using transport (act (opened quic_conn) inner)) = using-Passes transport _ (
        act-Passes (opened quic_conn) _ (
          tried-Passes as_is peer.received_settings _ (λ e h. h) foreign.received_settings
            over_quic-Passes)) in
      unfold tried in p.passes

  of_transport :
      (o : Option TlsConfig)
      → is
          (act connecting (
            tried as_is
              (of_tls o)
              (λ tls. behind_dial peer cfg raw_jwt (peer.dial_quic tls cfg.proxy_host)))).error
          unsupported
        ≡ not (dialed peer cfg.proxy_host (of_tls o))
  of_transport none = unfold act tried fail in refl
  of_transport (some tls) =
      unfold act tried in of_dial (peer.dial_quic (offer "h3" tls) cfg.proxy_host)

  -- `TunnelUDP` over HTTP/3 is not supported exactly when it makes no QUIC connection.
  http3_tunnel_udp-unsupported :
      is (tunnel http3_udp peer cfg raw_jwt).error unsupported ≡ not (reaches_quic peer cfg)
  unfolding tunnel http3_tunnel_udp get_transport
  http3_tunnel_udp-unsupported = of_transport cfg.tls_config

abbrev pub fresh : List Method → Network → Shared Method Network
fresh ts s = record { tunnelers = ts; world = s }

-- A session of a new tunnel, over any network whose errors do not wrap the package's own
-- `errUnsupported`: when HTTP/3 makes a QUIC connection, its run alone decides; otherwise HTTP/1 is run behind
-- it over the next network and decides, and HTTP/3 is dropped for the sessions after it.
pub session_tunnel-falls_back :
    (peers : ℕ → Peer) (cfg : TunnelConfig) (raw_jwt : String) (s : Network)
    → IsForeign (peers s.runs)
    → session_tunnel peers cfg raw_jwt (fresh udp_tunnelers s)
      ≡ some (
          let r = tunnel http3_udp (peers s.runs) cfg raw_jwt in
          if reaches_quic (peers s.runs) cfg
          then (behind (fresh udp_tunnelers s) r, r.error)
          else run_udp peers cfg raw_jwt http1_udp (behind (fresh (http1_udp ∷ []) s) r))
session_tunnel-falls_back peers cfg raw_jwt s foreign =
    tunnel_udp-first_supported (run_udp peers cfg raw_jwt) udp_tunnelers 3 (fresh udp_tunnelers s)
      (λ m x. refl) refl (omega arith)
    ∙ (unfold first_supported in
        ground (arith, http3_tunnel_udp-unsupported (peers s.runs) cfg raw_jwt foreign))

-- The tunnel of a session where the fuel, which is enough, does not run out.
abbrev pub ran :
    Shared Method Network
    → Option (Shared Method Network × Option Error)
    → Shared Method Network × Option Error
ran s none = (s, some no_tunnelers)
ran s (some r) = r

module _ {C : Type 0} (c : Cache C) (key : String)
    (get_jwt : Shared Method Network → Shared Method Network × Result Error String)
    (peers : ℕ → Peer) (cfg : TunnelConfig) where
  -- The handler of a session of `RunUDPSessionManager`.
  unfoldable pub session_handler :
      State C (Shared Method Network) → State C (Shared Method Network) × Option Error
  session_handler =
      run_with_jwt c key (λ raw_jwt s. ran s (session_tunnel peers cfg raw_jwt s)) get_jwt

-- `RunUDPListener`: how far it gets, with the error that it returns; the socket is closed behind it.
pub data UdpListener (S : Type 0) : Type 0 where
  unresolved unbound : String → UdpListener S
  closed_behind : S → Option Error → UdpListener S

module _ {A S : Type 0} (resolve : String → Result String A) (listen : A → Result String S)
    (manage : S → Option Error) where
  abbrev bound : Result String S → UdpListener S
  bound (err e) = unbound ("udp-tunnel: failed to listen on udp address: " <> e)
  bound (ok s) = closed_behind s (manage s)

  abbrev resolved : Result String A → UdpListener S
  resolved (err e) = unresolved ("udp-tunnel: failed to resolve udp address: " <> e)
  resolved (ok a) = bound (listen a)

  unfoldable pub run_udp_listener : String → UdpListener S
  run_udp_listener address = resolved (resolve address)
