-- ===== src/Tunnel/Udp/Manager.antt =====
-- The goroutines of `udpSessionManager` and of its sessions.
--
-- A session is known by the number of its creation, as the source knows it by its pointer. A channel
-- of capacity 1 is a list, which is sent to when it is empty.
pub mod State
use cli.Base.{
  ℕ, suc, String, Bool, true, false, ◌||◌, Option, none, some, List, [], ◌∷◌, ◌++◌, nat_eq, is_some,
  if◌then◌else◌,
}
use cli.Base.Maps.{Map, lookup, insert, delete}
use cli.Net.{◌<>◌}
use cli.Tunnel.Udp.{Varint, UdpDatagram, payload, read_packet}
pub use cli.Tunnel.Udp.Manager.State.{
  Phase, Session, Reader, Dispatcher, Writer, Verdict, Manager, start, done, with_error, set, when,
  running, finished, gone, reading, holding, read_over, selecting, handing, dispatch_over, writing,
  write_over, to, lost,
}

-- `read`: `ReadFromUDP` returns a packet; the datagram is sent to the dispatcher; an error; and the
-- end of the context, which also ends `ReadFromUDP`.
abbrev pub packet_of : Varint → ℕ → String → List ℕ → Manager → Reader → Option Manager
packet_of v max addr packet m reading =
    let d = read_packet v max addr packet in
    some (record m { reader = holding d; arrived = m.arrived ++ d ∷ [] })
packet_of v max addr packet m (holding d) = none
packet_of v max addr packet m read_over = none

abbrev pub enqueue_of : Manager → Reader → List UdpDatagram → Option Manager
enqueue_of m (holding d) [] = some (record m { reader = reading; incoming = d ∷ [] })
enqueue_of m (holding d) (x ∷ xs) = none
enqueue_of m reading xs = none
enqueue_of m read_over xs = none

abbrev pub read_fails_of : String → Manager → Reader → Option Manager
read_fails_of e m reading =
    some (record (with_error ("udp-session-manager: error reading udp packet: " <> e) m) {
      reader = read_over;
    })
read_fails_of e m (holding d) = none
read_fails_of e m read_over = none

-- `newUDPSession`
abbrev pub new_udp_session : String → Session
new_udp_session addr = record { addr = addr; inbox = []; phase = running; got = [] }

-- `dispatch`: the session of a datagram's address is looked up, or made and started.
abbrev pub find_session : UdpDatagram → List UdpDatagram → Manager → Option ℕ → Manager
find_session d ds m (some i) = record m { incoming = ds; dispatcher = handing i d }
find_session d ds m none = record m {
  incoming = ds;
  dispatcher = handing m.created d;
  sessions = insert d.addr m.created m.sessions;
  objects = set m.created (new_udp_session d.addr) m.objects;
  created = suc m.created;
}

abbrev pub take_of : Manager → Dispatcher → List UdpDatagram → Option Manager
take_of m selecting (d ∷ ds) = some (find_session d ds m (lookup d.addr m.sessions))
take_of m selecting [] = none
take_of m (handing i d) ds = none
take_of m dispatch_over ds = none

-- `HandleDatagram`: the session's channel takes the datagram, or its context or the manager's is
-- done.
abbrev pub deliver : ℕ → UdpDatagram → Manager → Session → List UdpDatagram → Option Manager
deliver i d m s [] = some (record m {
  dispatcher = selecting;
  objects = set i (record s { inbox = d ∷ [] }) m.objects;
  log = m.log ++ to i d ∷ [];
})
deliver i d m s (x ∷ xs) = none

abbrev pub deliver_to : ℕ → UdpDatagram → Manager → Option Session → Option Manager
deliver_to i d m none = none
deliver_to i d m (some s) = deliver i d m s s.inbox

abbrev pub hand_of : Manager → Dispatcher → Option Manager
hand_of m (handing i d) = deliver_to i d m (m.objects i)
hand_of m selecting = none
hand_of m dispatch_over = none

abbrev pub is_over : Phase → Bool
is_over running = false
is_over finished = true
is_over gone = true

-- `s.cancelCtx.Done()`
abbrev pub cancelled : Option Session → Bool
cancelled none = false
cancelled (some s) = is_over s.phase

abbrev pub abandon_of : Manager → Dispatcher → Option Manager
abandon_of m (handing i d) =
    when (done m || cancelled (m.objects i))
      (record m { dispatcher = selecting; log = m.log ++ lost i d ∷ [] })
abandon_of m selecting = none
abandon_of m dispatch_over = none

-- `case s := <-stopped`
abbrev pub delete_session : ℕ → Manager → Session → Phase → Option Manager
delete_session i m s finished = some (record m {
  sessions = delete s.addr m.sessions;
  objects = set i (record s { phase = gone }) m.objects;
})
delete_session i m s running = none
delete_session i m s gone = none

abbrev pub stopped_of : ℕ → Manager → Dispatcher → Option Session → Option Manager
stopped_of i m selecting (some s) = delete_session i m s s.phase
stopped_of i m selecting none = none
stopped_of i m (handing j d) o = none
stopped_of i m dispatch_over o = none

-- `write`
abbrev pub flush_of : Varint → Manager → Writer → List UdpDatagram → Option Manager
flush_of v m writing (d ∷ ds) =
    some (record m { outgoing = ds; wire = m.wire ++ (d.addr, payload v d) ∷ [] })
flush_of v m writing [] = none
flush_of v m write_over ds = none

abbrev pub write_fails_of : String → Manager → Writer → List UdpDatagram → Option Manager
write_fails_of e m writing (d ∷ ds) =
    some (record (with_error ("udp-session-manager: error writing udp packet: " <> e) m) {
      writer = write_over;
      outgoing = ds;
    })
write_fails_of e m writing [] = none
write_fails_of e m write_over ds = none

-- `ReadDatagram` and `WriteDatagram` of a session whose handler runs, and the handler's return.
abbrev pub session_read : ℕ → Manager → Session → Phase → List UdpDatagram → Option Manager
session_read i m s running (d ∷ ds) =
    some (record m { objects = set i (record s { inbox = ds; got = s.got ++ d ∷ [] }) m.objects })
session_read i m s running [] = none
session_read i m s finished ds = none
session_read i m s gone ds = none

abbrev pub session_write :
    UdpDatagram → Manager → Session → Phase → List UdpDatagram → Option Manager
session_write d m s running [] = some (record m { outgoing = record d { addr = s.addr } ∷ [] })
session_write d m s running (x ∷ xs) = none
session_write d m s finished xs = none
session_write d m s gone xs = none

abbrev pub session_return : ℕ → Manager → Session → Phase → Option Manager
session_return i m s running =
    some (record m { objects = set i (record s { phase = finished }) m.objects })
session_return i m s finished = none
session_return i m s gone = none

-- The goroutine of a session whose handler has returned ends with the context.
abbrev pub session_leave : ℕ → Manager → Session → Phase → Option Manager
session_leave i m s finished =
    when (done m) (record m { objects = set i (record s { phase = gone }) m.objects })
session_leave i m s running = none
session_leave i m s gone = none

abbrev pub of_session : Option Session → (Session → Option Manager) → Option Manager
of_session none f = none
of_session (some s) f = f s

abbrev pub read_quits_of : Manager → Reader → Option Manager
read_quits_of m read_over = none
read_quits_of m reading = when (done m) (record m { reader = read_over })
read_quits_of m (holding d) = when (done m) (record m { reader = read_over })

abbrev pub dispatch_quits_of : Manager → Dispatcher → Option Manager
dispatch_quits_of m selecting = when (done m) (record m { dispatcher = dispatch_over })
dispatch_quits_of m (handing i d) = none
dispatch_quits_of m dispatch_over = none

abbrev pub write_quits_of : Manager → Writer → Option Manager
write_quits_of m writing = when (done m) (record m { writer = write_over })
write_quits_of m write_over = none

pub data Event : Type 0 where
  packet : String → List ℕ → Event
  enqueue read_quits take hand abandon dispatch_quits flush write_quits : Event
  read_fails write_fails cancel : String → Event
  stopped reads returns leaves : ℕ → Event
  writes : ℕ → UdpDatagram → Event

abbrev pub continue : (Manager → Option Manager) → Option Manager → Option Manager
continue f none = none
continue f (some m) = f m

module _ (v : Varint) (max : ℕ) where
  unfoldable pub step : Event → Manager → Option Manager
  step (packet addr bytes) m = packet_of v max addr bytes m m.reader
  step enqueue m = enqueue_of m m.reader m.incoming
  step read_quits m = read_quits_of m m.reader
  step take m = take_of m m.dispatcher m.incoming
  step hand m = hand_of m m.dispatcher
  step abandon m = abandon_of m m.dispatcher
  step dispatch_quits m = dispatch_quits_of m m.dispatcher
  step flush m = flush_of v m m.writer m.outgoing
  step write_quits m = write_quits_of m m.writer
  step (read_fails e) m = read_fails_of e m m.reader
  step (write_fails e) m = write_fails_of e m m.writer m.outgoing
  step (cancel e) m = some (with_error e m)
  step (stopped i) m = stopped_of i m m.dispatcher (m.objects i)
  step (reads i) m = of_session (m.objects i) λ s. session_read i m s s.phase s.inbox
  step (returns i) m = of_session (m.objects i) λ s. session_return i m s s.phase
  step (leaves i) m = of_session (m.objects i) λ s. session_leave i m s s.phase
  step (writes i d) m = of_session (m.objects i) λ s. session_write d m s s.phase m.outgoing

  -- The turns in an order; `none` if one of them waits.
  unfoldable pub steps : List Event → Manager → Option Manager
  steps [] m = some m
  steps (e ∷ es) m = continue (steps es) (step e m)

-- `eg.Wait()`: the first error, once the three goroutines have returned.
abbrev result_of : Option String → Reader → Dispatcher → Writer → Option String
result_of cause read_over dispatch_over write_over = cause
result_of cause _ _ _ = none

abbrev pub result : Manager → Option String
result m = result_of m.cause m.reader m.dispatcher m.writer
