-- ===== src/Api/Accept/Announces.antt =====
-- What the accept loop announces and serves, against the list of results alone.
use cli.Base.{String, Bool, true, false, Option, none, some, List, [], ◌∷◌, if◌then◌else◌}
use cli.Tunnel.Listening.{Accepted, accepted, cancelled, waited, cancelled_waiting, failed}
use cli.Api.Accept.{TunnelEvents, Call, on_tunnel_closed, Accepts}

-- The connections before the first result for which the context is done; other errors are nil ones.
unfoldable pub connections : List Accepted → List (Option String)
connections [] = []
connections (accepted peer ∷ rest) = some peer ∷ connections rest
connections (failed e ∷ rest) = none ∷ connections rest
connections (waited ∷ rest) = connections rest
connections (cancelled ∷ rest) = []
connections (cancelled_waiting ∷ rest) = []

-- The loop ends, and does so outside of a wait.
unfoldable pub closes : List Accepted → Bool
closes [] = false
closes (accepted peer ∷ rest) = closes rest
closes (failed e ∷ rest) = closes rest
closes (waited ∷ rest) = closes rest
closes (cancelled ∷ rest) = true
closes (cancelled_waiting ∷ rest) = false

abbrev pub closing : TunnelEvents → Bool → List Call
closing evt b = if b then on_tunnel_closed evt else []

abbrev at : List Call → List (Option String) → Accepts
at calls served = record { calls = calls; served = served; running = true }
