-- ===== src/Tunnel/Udp/Manager/State.antt =====
-- The state of `udpSessionManager` and of its sessions, in tunnel/tunnel_udp.go.
use cli.Base.{
  ℕ, String, Bool, true, false, Option, none, some, List, [], nat_eq, is_some, if◌then◌else◌,
}
use cli.Base.Maps.{Map}
use cli.Tunnel.Udp.{UdpDatagram}

-- The handler runs; it has returned, with its context cancelled, and `stopped` is sent to; and the goroutine is gone.
pub data Phase : Type 0 where
  running finished gone : Phase

-- `got` lists what `ReadDatagram` returned.
pub record Session : Type 0 where
  pub addr : String
  pub inbox : List UdpDatagram
  pub phase : Phase
  pub got : List UdpDatagram

pub data Reader : Type 0 where
  reading : Reader
  holding : UdpDatagram → Reader
  read_over : Reader

pub data Dispatcher : Type 0 where
  selecting : Dispatcher
  -- In `HandleDatagram` of a session.
  handing : ℕ → UdpDatagram → Dispatcher
  dispatch_over : Dispatcher

pub data Writer : Type 0 where
  writing write_over : Writer

-- What became of a datagram: a session's channel took it, or it was dropped.
pub data Verdict : Type 0 where
  to : ℕ → UdpDatagram → Verdict
  lost : ℕ → UdpDatagram → Verdict

pub record Manager : Type 0 where
  pub reader : Reader
  pub dispatcher : Dispatcher
  pub writer : Writer
  pub incoming : List UdpDatagram
  pub outgoing : List UdpDatagram
  -- The dispatcher's map, the sessions, and how many there were.
  pub sessions : Map ℕ
  pub objects : ℕ → Option Session
  pub created : ℕ
  -- The cause of the context, once it is done: the first error, if no call cancelled it.
  pub cause : Option String
  -- The packets that were read, what became of them, and the packets that were written.
  pub arrived : List UdpDatagram
  pub log : List Verdict
  pub wire : List (String × List ℕ)

abbrev pub start : Manager
start = record {
  reader = reading;
  dispatcher = selecting;
  writer = writing;
  incoming = [];
  outgoing = [];
  sessions = [];
  objects = λ i. none;
  created = 0;
  cause = none;
  arrived = [];
  log = [];
  wire = [];
}

-- `select { case <-ctx.Done(): … }`
abbrev pub done : Manager → Bool
done m = is_some m.cause

abbrev first : Option String → String → Option String
first (some e) new = some e
first none new = some new

-- One goroutine of the error group returns: the first error cancels the context.
abbrev pub with_error : String → Manager → Manager
with_error e m = record m { cause = first m.cause e }

abbrev pub set : ℕ → Session → (ℕ → Option Session) → ℕ → Option Session
set i s objects j = if nat_eq i j then some s else objects j

abbrev pub when : Bool → Manager → Option Manager
when true m = some m
when false m = none
