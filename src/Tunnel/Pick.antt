-- ===== src/Tunnel/Pick.antt =====
-- tunnel/tunnel_tcp.go: which HTTP version a TCP tunnel uses, and `Run` of tunnel/tunnel.go, which
-- picks it once.
use cli.Base.{
  ℕ, zero, suc, ap, ◌∙◌, sym, String, ◌≡◌, Option, none, some, List, [], ◌∷◌, ◌++◌, nat_eq,
  if◌then◌else◌,
}
use cli.Base.Lists.{append_assoc, append_nil}
use cli.Base.Results.{Result, ok, err}
use cli.Net.{◌<>◌, contains_text}
use cli.Tunnel.Config.{TlsConfig, TunnelConfig}

pub data Tunneler : Type 0 where
  http1 http2 http3 : Tunneler

-- What is read of the answer to the probe.
pub record Response : Type 0 where
  pub alt_svc : String
  pub proto_major : ℕ

-- The request and its answer, over the state of the network.
pub record Client (W : Type 0) : Type 0 where
  -- The error of `http.NewRequestWithContext`.
  pub new_request : String → Option String
  pub do_request : String → TlsConfig → W → W × Result String Response

abbrev of_response : Response → Tunneler
of_response res =
    if contains_text "h3" res.alt_svc
    then http3
    else if nat_eq res.proto_major 2
    then http2
    else http1

module _ {W : Type 0} (client : Client W) where
  abbrev answered : W × Result String Response → W × Tunneler
  answered (w, err e) = (w, http1)
  answered (w, ok res) = (w, of_response res)

  abbrev requested : String → TlsConfig → W → Option String → W × Tunneler
  requested url tls w (some e) = (w, http1)
  requested url tls w none = answered (client.do_request url tls w)

  abbrev with_tls : TunnelConfig → W → Option TlsConfig → W × Tunneler
  with_tls cfg w none = (w, http1)
  with_tls cfg w (some tls) =
      let url = "https://" <> cfg.proxy_host in requested url tls w (client.new_request url)

  unfoldable pub pick_tcp_tunneler : TunnelConfig → W → W × Tunneler
  unfolding contains_text
  pick_tcp_tunneler cfg w = with_tls cfg w cfg.tls_config

  -- The field `tcpTunneler`, nil at first; the state of the network; and the tunnelers that sessions
  -- were run with. `picks` counts the picks.
  pub record Sessions : Type 0 where
    pub tcp_tunneler : Option Tunneler
    pub world : W
    pub runs : List Tunneler
    pub picks : ℕ

  abbrev with_tunneler : TunnelConfig → Sessions → Option Tunneler → Sessions
  with_tunneler cfg s (some t) = record s { runs = s.runs ++ t ∷ [] }
  with_tunneler cfg s none =
      let (w, t) = pick_tcp_tunneler cfg s.world in
      record { tcp_tunneler = some t; world = w; runs = s.runs ++ t ∷ []; picks = suc s.picks }

  -- One call of `Run` up to `TunnelTCP`.
  unfoldable pub run : TunnelConfig → Sessions → Sessions
  run cfg s = with_tunneler cfg s s.tcp_tunneler

  unfoldable pub run_times : TunnelConfig → ℕ → Sessions → Sessions
  unfolding run
  run_times cfg zero s = s
  run_times cfg (suc n) s = run_times cfg n (run cfg s)

  -- `n` sessions with one tunneler.
  abbrev all : ℕ → Tunneler → List Tunneler
  all zero t = []
  all (suc n) t = t ∷ all n t

  abbrev kept : Tunneler → W → List Tunneler → ℕ → Sessions
  kept t w runs picks = record { tcp_tunneler = some t; world = w; runs = runs; picks = picks }

  run_times-kept :
      (cfg : TunnelConfig) (n : ℕ) (t : Tunneler) (w : W) (runs : List Tunneler) (picks : ℕ)
      → run_times cfg n (kept t w runs picks) ≡ kept t w (runs ++ all n t) picks
  unfolding run_times
  run_times-kept cfg zero t w runs picks = ap (λ l. kept t w l picks) (sym (append_nil runs))
  run_times-kept cfg (suc n) t w runs picks =
      run_times-kept cfg n t w (runs ++ t ∷ []) picks
      ∙ ap (λ l. kept t w l picks) (append_assoc runs t (all n t))

  -- From a new tunnel, any number of sessions picks once, and all run with the tunneler picked.
  run_times-picks :
      (cfg : TunnelConfig) (n : ℕ) (w : W)
      → run_times cfg (suc n) (record { tcp_tunneler = none; world = w; runs = []; picks = 0 })
        ≡ kept
            (pick_tcp_tunneler cfg w).1
            (pick_tcp_tunneler cfg w).0
            (all (suc n) (pick_tcp_tunneler cfg w).1)
            1
  unfolding run_times
  run_times-picks cfg n w =
      let (v, t) = pick_tcp_tunneler cfg w in run_times-kept cfg n t v (t ∷ []) 1
