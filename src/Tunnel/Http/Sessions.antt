-- ===== src/Tunnel/Http/Sessions.antt =====
-- What the event sink and the proxy see of a run of a tunneler.
use cli.Base.{
  ℕ, String, ◌≡◌, refl, ap, sym, ◌∙◌, subst, Bool, true, false, Option, none, some, List, [], ◌∷◌,
  ◌++◌, arith,
}
use cli.Base.Lists.{append_nil}
use cli.Base.Results.{ok-bind, ◌>>=◌, Result, ok, err}
use cli.Base.Maps.{lookup}
use cli.Net.{Url}
use cli.Tunnel.Config.{TlsConfig, TunnelConfig}
use cli.Tunnel.Errors.{Error, http_status_code_to_error}
use cli.Tunnel.Http.{
  Action, connecting, connected, disconnected, sent, opened, closed, Resource, Request, Peer, Ran,
  body, act, using, fail, check, tried, unless, established, as_is,
}
use cli.Tunnel.Http.Requests.{
  authorization, connect_request-authorized, connect3_request-authorized,
  upgrade_request-authorized, connect_udp_request-authorized, get_connect_udp_request,
  connect_udp_request, destination, destination_url, header_value,
}
use cli.Tunnel.Http.Tunnelers.{
  Method, http1_tcp, http2_tcp, http3_tcp, http1_udp, http3_udp, answered, tunnel, http2_with_tls,
  http1_tunnel_tcp, http1_tunnel_udp, http2_tunnel_tcp, http3_tunnel_tcp, http3_tunnel_udp,
}

-- The actions but for those on resources.
abbrev pub talk : List Action → List Action
talk [] = []
talk (connecting ∷ xs) = connecting ∷ talk xs
talk (connected ∷ xs) = connected ∷ talk xs
talk (disconnected e ∷ xs) = disconnected e ∷ talk xs
talk (sent q ∷ xs) = sent q ∷ talk xs
talk (opened x ∷ xs) = talk xs
talk (closed x ∷ xs) = talk xs

talk-append : (xs ys : List Action) → talk (xs ++ ys) ≡ talk xs ++ talk ys
talk-append [] ys = refl
talk-append (connecting ∷ xs) ys = ap (λ l. connecting ∷ l) (talk-append xs ys)
talk-append (connected ∷ xs) ys = ap (λ l. connected ∷ l) (talk-append xs ys)
talk-append (disconnected e ∷ xs) ys = ap (λ l. disconnected e ∷ l) (talk-append xs ys)
talk-append (sent q ∷ xs) ys = ap (λ l. sent q ∷ l) (talk-append xs ys)
talk-append (opened x ∷ xs) ys = talk-append xs ys
talk-append (closed x ∷ xs) ys = talk-append xs ys

-- The request carries the token, and no token if that is empty.
abbrev pub Bears : String → Request → Type 0
Bears raw_jwt q = lookup "Authorization" q.header ≡ authorization raw_jwt

-- What follows the first event: no request is written; or one is, and the run fails; or its answer
-- is 200, the sink is told of the connection, and then of the error that is returned.
pub data Talk (peer : Peer) (raw_jwt : String) : List Action → Option Error → Type 0 where
  unsent : (e : Error) → Talk peer raw_jwt [] (some e)
  refused : (q : Request) (e : Error) → Bears raw_jwt q → Talk peer raw_jwt (sent q ∷ []) (some e)
  served :
      (q : Request) (e : Option Error)
      → Bears raw_jwt q
      → peer.respond q ≡ ok 200
      → Talk peer raw_jwt (sent q ∷ connected ∷ disconnected e ∷ []) e

http_status_code_to_error-none : (code : ℕ) → http_status_code_to_error code ≡ none → code ≡ 200
unfolding http_status_code_to_error
http_status_code_to_error-none code e = ground (arith, e)

module _ (peer : Peer) (raw_jwt : String) where
  record Follows (r : Ran) : Type 0 where
    talks : Talk peer raw_jwt (talk r.actions) r.error

  fail-Follows : (e : Error) → Follows (fail e)
  unfolding fail
  fail-Follows e = record { talks = unsent e }

  using-Follows : (x : Resource) (r : Ran) → Follows r → Follows (using x r)
  unfolding using
  using-Follows x r h = record {
    talks = subst (λ l. Talk peer raw_jwt l r.error) (sym same) h.talks;
  }
    where
      same : talk (r.actions ++ closed x ∷ []) ≡ talk r.actions
      same = talk-append r.actions (closed x ∷ []) ∙ append_nil (talk r.actions)

  opened-Follows : (x : Resource) (r : Ran) → Follows r → Follows (act (opened x) r)
  unfolding act
  opened-Follows x r h = record { talks = h.talks }

  check-Follows :
      (f : Error → Error) (o : Option Error) (r : Ran) → Follows r → Follows (check f o r)
  unfolding check
  check-Follows f none r h = h
  check-Follows f (some e) r h = fail-Follows (f e)

  unless-Follows : (b : Bool) (e : Error) (r : Ran) → Follows r → Follows (unless b e r)
  unfolding unless
  unless-Follows true e r h = h
  unless-Follows false e r h = fail-Follows e

  tried-Follows {ℓ} :
      {A : Type ℓ} (f : Error → Error) (o : Result Error A) (k : A → Ran)
      → ((a : A) → o ≡ ok a → Follows (k a))
      → Follows (tried f o k)
  unfolding tried
  tried-Follows f (ok a) k h = h a refl
  tried-Follows f (err e) k h = fail-Follows (f e)

  -- What follows the write of a request, by what the calls return.
  module _ (q : Request) (bears : Bears raw_jwt q) (f g : Error → Error) (e : Option Error) where
    of_status :
        (code : ℕ) (s : Option Error)
        → peer.respond q ≡ ok code
        → http_status_code_to_error code ≡ s
        → Follows (act (sent q) (using body (check as_is s (established e))))
    unfolding act using check established fail
    of_status code none r c = record {
      talks = served q e bears (r ∙ ap ok (http_status_code_to_error-none code c));
    }
    of_status code (some x) r c = record { talks = refused q x bears }

    of_answer :
        (o : Option Error) (r : Result Error ℕ)
        → peer.respond q ≡ r
        → Follows (
            act (sent q) (
              check f o (
                tried g r λ code.
                  using body (check as_is (http_status_code_to_error code) (established e)))))
    of_answer (some x) r h = unfold act check fail in record { talks = refused q (f x) bears }
    of_answer none (err x) h =
        unfold act check tried fail in record { talks = refused q (g x) bears }
    of_answer none (ok code) h =
        unfold check tried in of_status code (http_status_code_to_error code) h refl

    answered-Follows : Follows (answered peer q f g e)
    unfolding answered
    answered-Follows = of_answer (peer.write q) (peer.respond q) refl

  connect_udp_request-Bears :
      (cfg : TunnelConfig) (q : Request)
      → get_connect_udp_request peer cfg raw_jwt ≡ ok q
      → Bears raw_jwt q
  unfolding get_connect_udp_request
  connect_udp_request-Bears cfg q h =
      let url = destination_url "http/3" peer cfg in
      let value = header_value "http/3" peer in
      let request : Url → String → Result Error Request =
        λ u c. ok (connect_udp_request cfg raw_jwt u c) in
      let (parts, _, h') =
        ok-bind (destination "http/3" cfg) (λ p. url p >>= λ u. value >>= request u) q h in
      let (u, _, h'') = ok-bind (url parts) (λ u. value >>= request u) q h' in
      let (c, _, made) = ok-bind value (request u) q h'' in
      subst (Bears raw_jwt) {x = connect_udp_request cfg raw_jwt u c} {y = q} (ground (arith, made))
        (connect_udp_request-authorized cfg raw_jwt u c)

  ruleset follows = (
    using-Follows, opened-Follows, check-Follows, unless-Follows, tried-Follows, fail-Follows,
    answered-Follows, connect_request-authorized, connect3_request-authorized,
    upgrade_request-authorized, connect_udp_request-Bears,
  )

  record Full (r : Ran) : Type 0 where
    rest : List Action
    starts : talk r.actions ≡ connecting ∷ rest
    talks : Talk peer raw_jwt rest r.error

  connecting-Full : (r : Ran) → Follows r → Full (act connecting r)
  unfolding act
  connecting-Full r h = record { rest = talk r.actions; starts = refl; talks = h.talks }

  http1_tunnel_tcp-Full : (cfg : TunnelConfig) → Full (http1_tunnel_tcp peer cfg raw_jwt)
  unfolding http1_tunnel_tcp
  http1_tunnel_tcp-Full cfg = connecting-Full _ (search follows depth 14)

  http1_tunnel_udp-Full : (cfg : TunnelConfig) → Full (http1_tunnel_udp peer cfg raw_jwt)
  unfolding http1_tunnel_udp
  http1_tunnel_udp-Full cfg = connecting-Full _ (search follows depth 14)

  http3_tunnel_tcp-Full : (cfg : TunnelConfig) → Full (http3_tunnel_tcp peer cfg raw_jwt)
  unfolding http3_tunnel_tcp
  http3_tunnel_tcp-Full cfg = connecting-Full _ (search follows depth 14)

  http3_tunnel_udp-Full : (cfg : TunnelConfig) → Full (http3_tunnel_udp peer cfg raw_jwt)
  unfolding http3_tunnel_udp
  http3_tunnel_udp-Full cfg = connecting-Full _ (search follows depth 14)

  over_tls :
      (cfg : TunnelConfig) (tls : Option TlsConfig) → Follows (http2_with_tls peer cfg raw_jwt tls)
  over_tls cfg none = search follows depth 14
  over_tls cfg (some tls) = search follows depth 14

  http2_tunnel_tcp-Full : (cfg : TunnelConfig) → Full (http2_tunnel_tcp peer cfg raw_jwt)
  unfolding http2_tunnel_tcp
  http2_tunnel_tcp-Full cfg = connecting-Full _ (over_tls cfg cfg.tls_config)

  tunnel-Full : (m : Method) (cfg : TunnelConfig) → Full (tunnel m peer cfg raw_jwt)
  unfolding tunnel
  tunnel-Full http1_tcp = http1_tunnel_tcp-Full
  tunnel-Full http2_tcp = http2_tunnel_tcp-Full
  tunnel-Full http3_tcp = http3_tunnel_tcp-Full
  tunnel-Full http1_udp = http1_tunnel_udp-Full
  tunnel-Full http3_udp = http3_tunnel_udp-Full

-- Whatever the network does, a run of any of the five tunnelers calls the sink's `OnConnecting` first, writes at most one
-- request, which carries the token as its Authorization header exactly when the token is not empty,
-- and then either fails, or has read status 200, and calls `OnConnected`, and `OnDisconnected` with the error that it returns.
pub tunnel-talks :
    (m : Method) (peer : Peer) (cfg : TunnelConfig) (raw_jwt : String)
    → (rest : List Action) × (talk (tunnel m peer cfg raw_jwt).actions ≡ connecting ∷ rest)
      × Talk peer raw_jwt rest (tunnel m peer cfg raw_jwt).error
tunnel-talks m peer cfg raw_jwt =
    let full = tunnel-Full peer raw_jwt m cfg in (full.rest, full.starts, full.talks)
