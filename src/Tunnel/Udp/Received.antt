-- ===== src/Tunnel/Udp/Received.antt =====
-- What a session of the manager receives.
use cli.Base.{ℕ, ◌≡◌, refl, Option, none, some, List, [], ◌∷◌, ◌++◌, nat_eq, arith, if◌then◌else◌}
use cli.Base.Lists.{append_assoc, append_nil}
use cli.Tunnel.Udp.{Varint, UdpDatagram}
use cli.Tunnel.Udp.Table.{IsValid}
use cli.Tunnel.Udp.Manager.{
  Session, Dispatcher, selecting, handing, dispatch_over, Verdict, to, lost, Manager, Event, packet,
  enqueue, read_quits, take, hand, abandon, dispatch_quits, flush, write_quits, read_fails,
  write_fails, cancel, stopped, reads, returns, leaves, writes, step, hand_of, deliver_to,
  session_read, of_session, abandon_of,
}

-- What a session has read and what its channel holds.
abbrev pub received : Option Session → List UdpDatagram
received none = []
received (some s) = s.got ++ s.inbox

abbrev pub sent_to : ℕ → List Verdict → List UdpDatagram
sent_to i [] = []
sent_to i (to j d ∷ log) = let rest = sent_to i log in if nat_eq j i then d ∷ rest else rest
sent_to i (lost j d ∷ log) = sent_to i log

sent_to-snoc :
    (i : ℕ) (log : List Verdict) (x : Verdict)
    → sent_to i (log ++ x ∷ []) ≡ sent_to i log ++ sent_to i (x ∷ [])
sent_to-snoc i [] x = refl
sent_to-snoc i (to j d ∷ log) x = ground (arith, sent_to-snoc i log x)
sent_to-snoc i (lost j d ∷ log) x = sent_to-snoc i log x

abbrev pub Receives : Manager → Type 0
Receives m = (i : ℕ) → received (m.objects i) ≡ sent_to i m.log

module _ (v : Varint) (max : ℕ) where
  module _ (m n : Manager) (h : Receives m) (j : ℕ) where
    deliver-receives :
        (i : ℕ) (d : UdpDatagram) (o : Option Session)
        → m.objects i ≡ o
        → deliver_to i d m o ≡ some n
        → received (n.objects j) ≡ sent_to j n.log
    deliver-receives i d none o r = absurd (ground (arith, r))
    deliver-receives i d (some s) o r = ground (
      arith,
      h j,
      h i,
      o,
      r,
      sent_to-snoc j m.log (to i d),
      append_nil (sent_to j m.log),
      append_nil s.got,
    )

    hand-receives :
        (x : Dispatcher) → hand_of m x ≡ some n → received (n.objects j) ≡ sent_to j n.log
    hand-receives (handing i d) r = deliver-receives i d (m.objects i) refl r
    hand-receives selecting r = absurd (ground (arith, r))
    hand-receives dispatch_over r = absurd (ground (arith, r))

    abandon-receives :
        (x : Dispatcher) → abandon_of m x ≡ some n → received (n.objects j) ≡ sent_to j n.log
    abandon-receives (handing i d) r =
        ground (arith, h j, r, sent_to-snoc j m.log (lost i d), append_nil (sent_to j m.log))
    abandon-receives selecting r = absurd (ground (arith, r))
    abandon-receives dispatch_over r = absurd (ground (arith, r))

    read-receives :
        (i : ℕ) (s : Session) (ds : List UdpDatagram)
        → m.objects i ≡ some s
        → s.inbox ≡ ds
        → session_read i m s s.phase ds ≡ some n
        → received (n.objects j) ≡ sent_to j n.log
    read-receives i s [] o e r = absurd (ground (arith, r))
    read-receives i s (d ∷ ds) o e r = ground (arith, h j, h i, o, e, r, append_assoc s.got d ds)

    reads-receives :
        (i : ℕ) (o : Option Session)
        → m.objects i ≡ o
        → (of_session o λ s. session_read i m s s.phase s.inbox) ≡ some n
        → received (n.objects j) ≡ sent_to j n.log
    reads-receives i none o r = absurd (ground (arith, r))
    reads-receives i (some s) o r = read-receives i s s.inbox o refl r

  pub receives :
      (e : Event) (m n : Manager) → IsValid m → Receives m → step v max e m ≡ some n → Receives n
  unfolding step
  receives (packet a bs) m n w h r j = ground (arith, h j, r)
  receives enqueue m n w h r j = ground (arith, h j, r)
  receives read_quits m n w h r j = ground (arith, h j, r)
  receives take m n w h r j = ground (arith, h j, r, w.core.fresh m.created, h m.created)
  receives hand m n w h r j = hand-receives m n h j m.dispatcher r
  receives abandon m n w h r j = abandon-receives m n h j m.dispatcher r
  receives dispatch_quits m n w h r j = ground (arith, h j, r)
  receives flush m n w h r j = ground (arith, h j, r)
  receives write_quits m n w h r j = ground (arith, h j, r)
  receives (read_fails e) m n w h r j = ground (arith, h j, r)
  receives (write_fails e) m n w h r j = ground (arith, h j, r)
  receives (cancel e) m n w h r j = ground (arith, h j, r)
  receives (stopped i) m n w h r j = ground (arith, h j, h i, r)
  receives (reads i) m n w h r j = reads-receives m n h j i (m.objects i) refl r
  receives (returns i) m n w h r j = ground (arith, h j, h i, r)
  receives (leaves i) m n w h r j = ground (arith, h j, h i, r)
  receives (writes i x) m n w h r j = ground (arith, h j, r)
