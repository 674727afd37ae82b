-- ===== src/Tunnel/Http/Resources.antt =====
-- What a run of a tunneler opens and closes.
use cli.Base.{
  sym, fun_ext, String, ◌≡◌, refl, ap, ◌∙◌, Bool, true, false, Option, none, some, List, [], ◌∷◌,
  ◌++◌, bind, if◌then◌else◌,
}
use cli.Base.Results.{Result, ok, err}
use cli.Tunnel.Config.{TlsConfig, TunnelConfig}
use cli.Tunnel.Errors.{Error}
use cli.Tunnel.Http.{
  Action, connecting, connected, disconnected, sent, opened, closed, Resource, Request, Peer, Ran,
  Settings, proxy_conn, client_conn, transport, quic_conn, body, act, using, fail, check, tried,
  unless, established, as_is,
}
use cli.Tunnel.Http.Tunnelers.{
  Method, http1_tcp, http2_tcp, http3_tcp, http1_udp, http3_udp, answered, tunnel, get_transport,
  over_quic, unsupported_because, http2_with_tls, http1_tunnel_tcp, http1_tunnel_udp,
  http2_tunnel_tcp, http3_tunnel_tcp, http3_tunnel_udp,
}

abbrev same : Resource → Resource → Bool
same proxy_conn proxy_conn = true
same client_conn client_conn = true
same transport transport = true
same quic_conn quic_conn = true
same body body = true
same _ _ = false

same_refl : (x : Resource) → same x x ≡ true
same_refl proxy_conn = refl
same_refl client_conn = refl
same_refl transport = refl
same_refl quic_conn = refl
same_refl body = refl

abbrev pop : Resource → List Resource → Option (List Resource)
pop x [] = none
pop x (y ∷ ys) = if same x y then some ys else none

-- What is open behind the actions, the last one first; `none` if one is closed that is not the last
-- one opened.
unfoldable pub held : List Action → List Resource → Option (List Resource)
held [] open_now = some open_now
held (opened x ∷ xs) open_now = held xs (x ∷ open_now)
held (closed x ∷ xs) open_now = bind (pop x open_now) (held xs)
held (connecting ∷ xs) open_now = held xs open_now
held (connected ∷ xs) open_now = held xs open_now
held (disconnected e ∷ xs) open_now = held xs open_now
held (sent q ∷ xs) open_now = held xs open_now

bind_assoc :
    (o : Option (List Resource)) (f g : List Resource → Option (List Resource))
    → bind (bind o f) g ≡ bind o (λ x. bind (f x) g)
bind_assoc none f g = refl
bind_assoc (some x) f g = refl

held-append :
    (xs ys : List Action) (s : List Resource) → held (xs ++ ys) s ≡ bind (held xs s) (held ys)
unfolding held
held-append [] ys s = refl
held-append (opened x ∷ xs) ys s = held-append xs ys (x ∷ s)
held-append (closed x ∷ xs) ys s =
    ap (bind (pop x s)) (fun_ext (held-append xs ys))
    ∙ sym (bind_assoc (pop x s) (held xs) (held ys))
held-append (connecting ∷ xs) ys s = held-append xs ys s
held-append (connected ∷ xs) ys s = held-append xs ys s
held-append (disconnected e ∷ xs) ys s = held-append xs ys s
held-append (sent q ∷ xs) ys s = held-append xs ys s

-- A part of a run that leaves open what was open before it, and nothing else.
record IsClean (r : Ran) : Type 0 where
  leaves : (s : List Resource) → held r.actions s ≡ some s

fail-IsClean : (e : Error) → IsClean (fail e)
unfolding fail held
fail-IsClean e = record { leaves = λ s. refl }

established-IsClean : (e : Option Error) → IsClean (established e)
unfolding established held
established-IsClean e = record { leaves = λ s. refl }

sent-IsClean : (q : Request) (r : Ran) → IsClean r → IsClean (act (sent q) r)
unfolding act held
sent-IsClean q r h = record { leaves = h.leaves }

connecting-IsClean : (r : Ran) → IsClean r → IsClean (act connecting r)
unfolding act held
connecting-IsClean r h = record { leaves = h.leaves }

closes_last : (x : Resource) (s : List Resource) → held (closed x ∷ []) (x ∷ s) ≡ some s
unfolding held
closes_last x s = rw (same_refl x) refl

using-held :
    (x : Resource) (r : Ran) (s : List Resource)
    → held (using x r).actions s ≡ bind (held r.actions (x ∷ s)) (held (closed x ∷ []))
unfolding using held
using-held x r s = held-append r.actions (closed x ∷ []) (x ∷ s)

using-IsClean : (x : Resource) (r : Ran) → IsClean r → IsClean (using x r)
using-IsClean x r h = record {
  leaves = λ s.
      using-held x r s
      ∙ ap (λ o. bind o (held (closed x ∷ []))) (h.leaves (x ∷ s))
      ∙ closes_last x s;
}

check-IsClean : (f : Error → Error) (o : Option Error) (r : Ran) → IsClean r → IsClean (check f o r)
unfolding check
check-IsClean f none r h = h
check-IsClean f (some e) r h = fail-IsClean (f e)

unless-IsClean : (b : Bool) (e : Error) (r : Ran) → IsClean r → IsClean (unless b e r)
unfolding unless
unless-IsClean true e r h = h
unless-IsClean false e r h = fail-IsClean e

tried-IsClean {ℓ} :
    {A : Type ℓ} (f : Error → Error) (o : Result Error A) (k : A → Ran)
    → ((a : A) → IsClean (k a))
    → IsClean (tried f o k)
unfolding tried
tried-IsClean f (ok a) k h = h a
tried-IsClean f (err e) k h = fail-IsClean (f e)

ruleset clean = (
  using-IsClean, sent-IsClean, connecting-IsClean, check-IsClean, unless-IsClean, tried-IsClean,
  fail-IsClean, established-IsClean,
)

answered-IsClean :
    (peer : Peer) (q : Request) (f g : Error → Error) (e : Option Error)
    → IsClean (answered peer q f g e)
unfolding answered
answered-IsClean peer q f g e = search clean depth 14

module _ (peer : Peer) (cfg : TunnelConfig) (raw_jwt : String) where
  over_tls : (tls : Option TlsConfig) → IsClean (http2_with_tls peer cfg raw_jwt tls)
  over_tls none = search clean
  over_tls (some tls) = search (clean, answered-IsClean) depth 14

  http1_tunnel_tcp-IsClean : IsClean (http1_tunnel_tcp peer cfg raw_jwt)
  unfolding http1_tunnel_tcp
  http1_tunnel_tcp-IsClean = search (clean, answered-IsClean) depth 14

  http1_tunnel_udp-IsClean : IsClean (http1_tunnel_udp peer cfg raw_jwt)
  unfolding http1_tunnel_udp
  http1_tunnel_udp-IsClean = search (clean, answered-IsClean) depth 14

  http2_tunnel_tcp-IsClean : IsClean (http2_tunnel_tcp peer cfg raw_jwt)
  unfolding http2_tunnel_tcp
  http2_tunnel_tcp-IsClean = connecting-IsClean _ (over_tls cfg.tls_config)

  http3_tunnel_tcp-IsClean : IsClean (http3_tunnel_tcp peer cfg raw_jwt)
  unfolding http3_tunnel_tcp
  http3_tunnel_tcp-IsClean = search (clean, answered-IsClean) depth 14

  over_quic-IsClean : (settings : Settings) → IsClean (over_quic peer cfg raw_jwt settings)
  over_quic-IsClean settings = search (clean, answered-IsClean) depth 14

-- A QUIC connection is made: there is a TLS configuration, and `quic.DialAddr` succeeds.
abbrev pub is_ok {ℓ} : {A : Type ℓ} → Result Error A → Bool
is_ok (ok a) = true
is_ok (err e) = false

abbrev pub dialed : Peer → String → Result Error TlsConfig → Bool
dialed peer host (err e) = false
dialed peer host (ok tls) = is_ok (peer.dial_quic tls host)

abbrev pub reaches_quic : Peer → TunnelConfig → Bool
reaches_quic peer cfg = dialed peer cfg.proxy_host (get_transport cfg)

abbrev pub leaks : Method → Peer → TunnelConfig → Bool
leaks http3_udp peer cfg = reaches_quic peer cfg
leaks http1_tcp peer cfg = false
leaks http2_tcp peer cfg = false
leaks http3_tcp peer cfg = false
leaks http1_udp peer cfg = false

module _ (peer : Peer) (cfg : TunnelConfig) (raw_jwt : String) where
  -- Behind `quic.DialAddr`.
  abbrev pub behind_dial : Result Error (Unit {0}) → Ran
  behind_dial o = using transport (
      tried (unsupported_because "failed to connect to server") o (λ _.
        act (opened quic_conn) (tried as_is peer.received_settings (over_quic peer cfg raw_jwt))))

  behind_dial-held :
      (o : Result Error (Unit {0}))
      → held (behind_dial o).actions [] ≡ (if is_ok o then none else some [])
  unfolding tried
  behind_dial-held (err e) = (using-IsClean transport _ (fail-IsClean _)).leaves []
  behind_dial-held (ok u) =
      let inner = tried as_is peer.received_settings (over_quic peer cfg raw_jwt) in
      let clean_inner : IsClean inner =
        tried-IsClean as_is peer.received_settings _ (over_quic-IsClean peer cfg raw_jwt) in
      let left : held (act (opened quic_conn) inner).actions (transport ∷ [])
          ≡ some (quic_conn ∷ transport ∷ []) =
        unfold act held in clean_inner.leaves (quic_conn ∷ transport ∷ []) in
      let stuck : held (closed transport ∷ []) (quic_conn ∷ transport ∷ []) ≡ none =
        unfold held in refl in
      using-held transport (act (opened quic_conn) inner) []
      ∙ ap (λ o. bind o (held (closed transport ∷ []))) left
      ∙ stuck

  with_transport-held :
      (t : Result Error TlsConfig)
      → held
          (act connecting
            (tried as_is t (λ tls. behind_dial (peer.dial_quic tls cfg.proxy_host)))).actions
          []
        ≡ (if dialed peer cfg.proxy_host t then none else some [])
  unfolding tried act held
  with_transport-held (err e) = (connecting-IsClean _ (fail-IsClean e)).leaves []
  with_transport-held (ok tls) = behind_dial-held (peer.dial_quic tls cfg.proxy_host)

-- Whatever the network does, a run of a tunneler has closed at its end all that it opened, each in
-- the reverse order, but for `TunnelUDP` over HTTP/3: that does so exactly when it makes no QUIC
-- connection, since it has no TLS configuration or cannot connect.
pub tunnel-closes :
    (m : Method) (peer : Peer) (cfg : TunnelConfig) (raw_jwt : String)
    → held (tunnel m peer cfg raw_jwt).actions [] ≡ (if leaks m peer cfg then none else some [])
unfolding tunnel
tunnel-closes http1_tcp peer cfg raw_jwt = (http1_tunnel_tcp-IsClean peer cfg raw_jwt).leaves []
tunnel-closes http2_tcp peer cfg raw_jwt = (http2_tunnel_tcp-IsClean peer cfg raw_jwt).leaves []
tunnel-closes http3_tcp peer cfg raw_jwt = (http3_tunnel_tcp-IsClean peer cfg raw_jwt).leaves []
tunnel-closes http1_udp peer cfg raw_jwt = (http1_tunnel_udp-IsClean peer cfg raw_jwt).leaves []
tunnel-closes http3_udp peer cfg raw_jwt =
    unfold http3_tunnel_udp in with_transport-held peer cfg raw_jwt (get_transport cfg)
