-- ===== src/Tunnel/Http.antt =====
-- The tunnelers of tunnel/tunnel_http1.go, tunnel/tunnel_http2.go and tunnel/tunnel_http3.go: what
-- one run of `TunnelTCP` or `TunnelUDP` does, as the list of its actions, and the error it returns.
--
-- The network is a parameter: a `Peer` holds the results of the calls that one run makes.
pub mod Requests
pub mod Tunnelers
pub mod Sessions
pub mod Resources
pub mod Deployed
pub mod Buffers
pub mod Tokens
use cli.Base.{ℕ, String, Bool, true, false, Option, none, some, List, [], ◌∷◌, ◌++◌}
use cli.Base.Results.{Result, ok, err}
use cli.Base.Maps.{Map}
use cli.Net.{◌<>◌, Url}
use cli.Tunnel.Config.{TlsConfig}
use cli.Tunnel.Errors.{Error, unsupported}

-- `url.URL`: the opaque form, or what `url.Parse` returned.
pub data Target : Type 0 where
  opaque : String → Target
  parsed : Url → Target

-- The fields of `http.Request` that the program sets. No header has two values.
pub record Request : Type 0 where
  pub method : String
  pub proto : String
  pub url : Target
  pub host : String
  pub header : Map String

-- What a run opens, and closes in a deferred call.
pub data Resource : Type 0 where
  proxy_conn client_conn transport quic_conn body : Resource

-- The calls of the event sink, the requests that are written, and the resources.
pub data Action : Type 0 where
  connecting connected : Action
  disconnected : Option Error → Action
  sent : Request → Action
  opened closed : Resource → Action

pub record Settings : Type 0 where
  pub enable_extended_connect : Bool
  pub enable_datagrams : Bool

-- How the `select` behind the copies ends: the error of the copy that ends first, or the cause of
-- the context.
pub data Ending : Type 0 where
  copied : Option Error → Ending
  cancelled : Error → Ending

abbrev pub ended : Ending → Option Error
ended (copied e) = e
ended (cancelled cause) = some cause

pub record Peer : Type 0 where
  -- `url.Parse`, and `httpsfv.Marshal` of the Boolean true.
  pub parse_url : String → Result Error Url
  pub marshal_true : Result Error String
  -- `tls.Dialer` with a configuration, `net.Dialer` without.
  pub dial : Option TlsConfig → String → Result Error (Unit {0})
  pub is_tls_conn : Bool
  pub negotiated_protocol : String
  pub new_client_conn : Option Error
  pub dial_quic : TlsConfig → String → Result Error (Unit {0})
  -- The settings, or the cause of the context that was done first.
  pub received_settings : Result Error Settings
  pub open_request_stream : Option Error
  -- The request is written; the status code of its answer.
  pub write : Request → Option Error
  pub respond : Request → Result Error ℕ
  pub tcp_ending : Ending
  -- `eg.Wait()` behind the goroutines that pass the datagrams on.
  pub wait : Option Error

pub record Ran : Type 0 where
  pub actions : List Action
  pub error : Option Error

-- The parts of a run, in the order of the source: an action and the rest, a resource that is closed
-- when the rest has returned, and the early returns.
unfoldable pub act : Action → Ran → Ran
act a r = record r { actions = a ∷ r.actions }

unfoldable pub using : Resource → Ran → Ran
using x r = record r { actions = opened x ∷ (r.actions ++ closed x ∷ []) }

unfoldable pub fail : Error → Ran
fail e = record { actions = []; error = some e }

unfoldable pub check : (Error → Error) → Option Error → Ran → Ran
unfolding fail
check f none rest = rest
check f (some e) rest = fail (f e)

-- `if !ok { return err }`
unfoldable pub unless : Bool → Error → Ran → Ran
unfolding fail
unless true e rest = rest
unless false e rest = fail e

unfoldable pub tried {ℓ} : {A : Type ℓ} → (Error → Error) → Result Error A → (A → Ran) → Ran
unfolding fail
tried f (ok a) rest = rest a
tried f (err e) rest = fail (f e)

-- `fmt.Errorf("http/…: …: %w", err)`; an error that is passed on; and an error of its own.
abbrev pub wrapped : String → Error → Error
wrapped step e = record e { message = step <> ": " <> e.message }

abbrev pub as_is : Error → Error
as_is e = e

abbrev pub own : String → Error
own message = record { sentinel = none; message = message }

-- `errUnsupported` is the first error that is wrapped.
abbrev pub not_supported : String → Error
not_supported message = record { sentinel = some unsupported; message = message }

-- What is done once the proxy has accepted: the sink is told, the data flows until it ends with `e`,
-- and the sink is told that.
unfoldable pub established : Option Error → Ran
established e = record { actions = connected ∷ disconnected e ∷ []; error = e }
