-- ===== src/Api/Accept.antt =====
-- The accept loop of api/tunnel.go and the events of a tunnel, by the results of the calls of
-- `Accept` (Tunnel/Listening). The time of an update is left out.
pub mod Announces
use cli.Base.{String, ◌≡◌, Bool, true, false, Option, none, some, List, [], ◌∷◌, ◌++◌}
use cli.Proto.Records.{
  ConnectionStatus, connecting, auth_required, connected, disconnected, listening, closed,
  ConnectionStatusUpdate,
}
use cli.Tunnel.Listening.{Accepted, accepted, cancelled, waited, cancelled_waiting, failed}

pub record TunnelEvents : Type 0 where
  pub id : String
  pub peer : Option String

-- The calls of the broadcaster.
pub data Call : Type 0 where
  reset : String → Call
  update : ConnectionStatusUpdate → Call

unfoldable pub send_update : TunnelEvents → ConnectionStatusUpdate → Call
send_update evt upd = update (record upd { peer_addr = evt.peer; id = evt.id })

abbrev pub status_update : ConnectionStatus → ConnectionStatusUpdate
status_update s = record {
  id = "";
  peer_addr = none;
  status = s;
  last_error = none;
  auth_url = none;
}

-- A method of the connection is called, which panics if it is nil.
abbrev pub with_peer : TunnelEvents → Option String → Option TunnelEvents
with_peer evt none = none
with_peer evt (some addr) = some (record evt { peer = some addr })

unfoldable pub on_listening : TunnelEvents → List Call
unfolding send_update
on_listening evt = reset evt.id ∷ send_update evt (status_update listening) ∷ []

unfoldable pub on_tunnel_closed : TunnelEvents → List Call
unfolding send_update
on_tunnel_closed evt = send_update evt (status_update closed) ∷ []

unfoldable pub on_connecting : TunnelEvents → List Call
unfolding send_update
on_connecting evt = send_update evt (status_update connecting) ∷ []

unfoldable pub on_connected : TunnelEvents → List Call
unfolding send_update
on_connected evt = send_update evt (status_update connected) ∷ []

unfoldable pub on_auth_required : TunnelEvents → String → List Call
unfolding send_update
on_auth_required evt u =
    send_update evt (record (status_update auth_required) { auth_url = some u }) ∷ []

unfoldable pub on_disconnected : TunnelEvents → Option String → List Call
unfolding send_update
on_disconnected evt e =
    send_update evt (record (status_update disconnected) { last_error = e }) ∷ []

-- The calls of the loop, and the connections that it serves, `none` for nil.
pub record Accepts : Type 0 where
  pub calls : List Call
  pub served : List (Option String)
  pub running : Bool

-- An error that is no timeout does not end the loop: it goes on to serve the nil connection.
unfoldable pub turn : TunnelEvents → Accepted → Accepts → Accepts
unfolding on_tunnel_closed
turn evt (accepted peer) s = record s { served = s.served ++ some peer ∷ [] }
turn evt cancelled s = record s { calls = s.calls ++ on_tunnel_closed evt; running = false }
turn evt waited s = s
turn evt cancelled_waiting s = record s { running = false }
turn evt (failed e) s = record s { served = s.served ++ none ∷ [] }

abbrev of_turn : (Accepts → Accepts) → Accepts → Bool → Accepts
of_turn rest s true = rest s
of_turn rest s false = s

unfoldable pub turns : TunnelEvents → List Accepted → Accepts → Accepts
unfolding turn
turns evt [] s = s
turns evt (a ∷ rest) s = of_turn (turns evt rest) (turn evt a s) (turn evt a s).running

abbrev pub events_of : String → TunnelEvents
events_of id = record { id = id; peer = none }

unfoldable pub tunnel_accept_loop : String → List Accepted → Accepts
unfolding turns on_listening
tunnel_accept_loop id results =
    turns (events_of id) results
      (record { calls = on_listening (events_of id); served = []; running = true })
