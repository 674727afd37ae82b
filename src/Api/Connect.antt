-- ===== src/Api/Connect.antt =====
-- api/listener_server.go: how tunnels are connected and disconnected.
--
-- A context is a number, made by `context.WithCancel`, and a goroutine that a handler starts is a
-- `Task`. What is called from package net is over a state `W`. A handler that panics is `none`.
pub mod Step
pub mod Tracked
pub mod Answers
use cli.Base.{
  ℕ, suc, String, ◌≡◌, Bool, true, false, Option, none, some, List, [], ◌∷◌, ◌++◌, bind,
  if◌then◌else◌,
}
use cli.Base.Maps.{Map, lookup, insert}
use cli.Base.Results.{Result, ok, err}
use cli.Net.{◌<>◌}
use cli.Proto.Records.{
  Protocol, unknown, tcp, udp, Connection, Record, ListenerStatus, ListenerUpdateRequest,
  ConnectionStatus, undefined, ConnectionStatusUpdate, get_string,
}
use cli.Tunnel.Config.{TunnelConfig}
use cli.Tunnel.Urls.{Parser}
use cli.Api.Errors.{ConfigError, text}
use cli.Api.Config.{Config}
use cli.Api.Tunnels.{TunnelError, Crypto, new_tunnel, tunnel_text}
use cli.Api.Listener.{
  Listeners, cancel_context, listening_at, set_listening, get_listener_status, set_not_listening,
}

-- The calls of package net, by the texts of addresses and errors.
pub record Network (W : Type 0) : Type 0 where
  -- `ListenConfig.Listen(ctx, "tcp", addr)`: the address that it listens on.
  pub listen : String → W → W × Result String String
  -- `net.ResolveUDPAddr("udp", addr)`
  pub resolve_udp_addr : String → W → W × Result String String
  -- `net.ListenUDP("udp", addr)`
  pub listen_udp : String → W → W × Option String

-- What the server is made with.
pub record Settings : Type 0 where
  pub crypto : Crypto
  pub parse : Parser
  pub quote : String → String
  pub browser_cmd : String
  pub service_account : String
  pub service_account_file : String

pub data Task : Type 0 where
  -- `tunnelAcceptLoop`, and `onContextCancel` of its listener.
  accept_loop : String → ℕ → TunnelConfig → String → Task
  -- `RunUDPSessionManager`, and the close of its connection.
  udp_sessions : String → ℕ → TunnelConfig → String → Task

pub record Server (W : Type 0) : Type 0 where
  pub config : Config
  pub listeners : Listeners
  -- How many contexts were made.
  pub next : ℕ
  -- What was sent to the broadcaster.
  pub updates : List ConnectionStatusUpdate
  pub tasks : List Task
  pub world : W

abbrev pub failed_status : String → ListenerStatus
failed_status message = record { listening = false; listen_addr = none; last_error = some message }

abbrev failed_update : String → String → ConnectionStatusUpdate
failed_update id message = record {
  id = id;
  peer_addr = none;
  status = undefined;
  last_error = some message;
  auth_url = none;
}

abbrev pub is_udp : Option Protocol → Bool
is_udp (some udp) = true
is_udp (some tcp) = false
is_udp (some unknown) = false
is_udp none = false

abbrev pub of_stop : String → Listeners × Option ConfigError → Listeners × ListenerStatus
of_stop id (l, some e) = (l, failed_status (text e))
of_stop id (l, none) = (l, get_listener_status id l)

unfoldable pub disconnect_one : String → Listeners → Listeners × ListenerStatus
disconnect_one id l = of_stop id (set_not_listening id l)

unfoldable pub disconnect_loop :
    List String → Map ListenerStatus → Listeners → Listeners × Map ListenerStatus
unfolding disconnect_one
disconnect_loop [] answers l = (l, answers)
disconnect_loop (id ∷ ids) answers l =
    let (l', status) = disconnect_one id l in disconnect_loop ids (insert id status answers) l'

abbrev pub answer : Result String String → ListenerStatus
answer (ok addr) = listening_at addr
answer (err e) = failed_status e

module _ {W : Type 0} where
  -- An update with the error is sent, and the context is cancelled.
  abbrev pub give_up : String → ℕ → String → Server W → Server W
  give_up id n message s = record s {
    listeners = cancel_context n s.listeners;
    updates = s.updates ++ failed_update id message ∷ [];
  }

  abbrev pub of_set :
      String
      → TunnelConfig
      → ℕ
      → String
      → Server W
      → Listeners × Option ConfigError
      → Server W × Result String String
  of_set id tun n addr s (l, some e) = (give_up id n ("SetListening: " <> text e) s, err (text e))
  of_set id tun n addr s (l, none) =
      (record s { listeners = l; tasks = s.tasks ++ accept_loop id n tun addr ∷ [] }, ok addr)

  abbrev pub of_listen :
      String
      → TunnelConfig
      → ℕ
      → Server W
      → W × Result String String
      → Server W × Result String String
  of_listen id tun n s (w, err e) = (give_up id n ("listen: " <> e) (record s { world = w }), err e)
  of_listen id tun n s (w, ok addr) =
      of_set id tun n addr (record s { world = w }) (set_listening id n addr s.listeners)

  abbrev pub of_listen_udp :
      String
      → TunnelConfig
      → ℕ
      → String
      → Server W
      → W × Option String
      → Server W × Result String String
  of_listen_udp id tun n addr s (w, some e) =
      (give_up id n ("ListenUDP: " <> e) (record s { world = w }), err e)
  of_listen_udp id tun n addr s (w, none) =
      (record s { world = w; tasks = s.tasks ++ udp_sessions id n tun addr ∷ [] }, ok addr)

  abbrev pub of_resolve :
      Network W
      → String
      → TunnelConfig
      → ℕ
      → Server W
      → W × Result String String
      → Server W × Result String String
  of_resolve net id tun n s (w, err e) =
      (give_up id n ("ResolveUDPAddr: " <> e) (record s { world = w }), err e)
  of_resolve net id tun n s (w, ok addr) =
      of_listen_udp id tun n addr (record s { world = w }) (net.listen_udp addr w)

  abbrev pub answered :
      Option (Server W × Result String String) → Option (Server W × ListenerStatus)
  answered none = none
  answered (some (s, r)) = some (s, answer r)

  module _ (net : Network W) (x : Settings) where
    unfoldable pub connect_tcp_tunnel :
        String → TunnelConfig → String → Server W → Server W × Result String String
    connect_tcp_tunnel id tun listen_addr s =
        of_listen id tun s.next (record s { next = suc s.next }) (net.listen listen_addr s.world)

    unfoldable pub connect_udp_tunnel :
        String → TunnelConfig → String → Server W → Server W × Result String String
    connect_udp_tunnel id tun listen_addr s =
        of_resolve net id tun s.next (record s { next = suc s.next })
          (net.resolve_udp_addr listen_addr s.world)

    abbrev pub of_tunnel :
        String
        → Bool
        → Server W
        → Result TunnelError (TunnelConfig × String)
        → Server W × Result String String
    of_tunnel id for_udp s (err e) = (s, err (tunnel_text x.quote e))
    of_tunnel id true s (ok (tun, addr)) = connect_udp_tunnel id tun addr s
    of_tunnel id false s (ok (tun, addr)) = connect_tcp_tunnel id tun addr s

    -- `newTunnel` reads a field of the connection, which must not be nil.
    abbrev pub of_conn :
        String → Server W → Option Connection → Option (Server W × Result String String)
    of_conn id s none = none
    of_conn id s (some conn) = some (
        of_tunnel id (is_udp conn.protocol) s
          (new_tunnel x.crypto x.parse conn x.browser_cmd x.service_account x.service_account_file))

    abbrev pub of_record :
        String → Server W → Option Record → Option (Server W × Result String String)
    of_record id s none = some (s, err (text ConfigError.not_found))
    of_record id s (some r) = of_conn id s r.conn

    unfoldable pub connect_tunnel : String → Server W → Option (Server W × Result String String)
    unfolding connect_tcp_tunnel connect_udp_tunnel
    connect_tunnel id s = of_record id s (lookup id s.config.by_id)

    -- One turn of the loop of `connectLocked`.
    unfoldable pub connect_one : String → Server W → Option (Server W × ListenerStatus)
    unfolding connect_tunnel
    connect_one id s =
        let status = get_listener_status id s.listeners in
        if status.listening then some (s, status) else answered (connect_tunnel id s)

    unfoldable pub connect_loop :
        List String → Map ListenerStatus → Server W → Option (Server W × Map ListenerStatus)
    connect_loop [] answers s = some (s, answers)
    connect_loop (id ∷ ids) answers s =
        bind (connect_one id s) λ (s', status). connect_loop ids (insert id status answers) s'

  -- The handler `Update`: neither loop returns an error.
  unfoldable pub update :
      Network W
      → Settings
      → ListenerUpdateRequest
      → Server W
      → Option (Server W × Map ListenerStatus)
  unfolding connect_loop disconnect_loop
  update net x req s =
      let (l, answers) = disconnect_loop req.connection_ids [] s.listeners in
      if req.connected
      then connect_loop net x req.connection_ids [] s
      else some (record s { listeners = l }, answers)
