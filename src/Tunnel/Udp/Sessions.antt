-- ===== src/Tunnel/Udp/Sessions.antt =====
-- The sessions of the session manager of tunnel/tunnel_udp.go, behind any turns.
use cli.Base.{ℕ, ◌≡◌, refl, String, true, some, List, arith}
use cli.Base.Maps.{lookup, lookup-nil}
use cli.Tunnel.Udp.{Varint}
use cli.Tunnel.Udp.Table.{addr_at, live, Owned, IsValid}
use cli.Tunnel.Udp.Turns.{Ends, of_Ends, steps-Ends}
use cli.Tunnel.Udp.Manager.{
  Manager, start, Event, packet, enqueue, read_quits, take, hand, abandon, dispatch_quits, flush,
  write_quits, read_fails, write_fails, cancel, stopped, reads, returns, leaves, writes, step,
  steps,
}
use cli.Tunnel.Udp.Handlers.{
  take-IsValid, session_read-IsValid, session_return-IsValid, session_leave-IsValid,
  session_write-IsValid, hand-IsValid, abandon-IsValid, stopped-IsValid, of_session-IsValid,
  dispatch_quits-IsValid, packet-IsValid, enqueue-IsValid, read_quits-IsValid, read_fails-IsValid,
  flush-IsValid, write_fails-IsValid, write_quits-IsValid,
}

pub start-IsValid : IsValid start
start-IsValid = record {
  core = record {
    entry = λ a i e. ground (arith, e, lookup-nil {V = ℕ} a);
    listed = λ i a e l. ground (arith, l);
    fresh = λ i e. refl;
  };
  owned = λ i. tt;
  handed = tt;
}

module _ (v : Varint) (max : ℕ) where
  pub step-IsValid : (e : Event) (m : Manager) → IsValid m → Ends IsValid (step v max e m)
  unfolding step
  step-IsValid (packet a bs) m h = packet-IsValid m h v max a bs m.reader
  step-IsValid enqueue m h = enqueue-IsValid m h m.reader m.incoming
  step-IsValid read_quits m h = read_quits-IsValid m h m.reader
  step-IsValid take m h = take-IsValid m h m.dispatcher m.incoming
  step-IsValid hand m h = hand-IsValid m h m.dispatcher h.handed
  step-IsValid abandon m h = abandon-IsValid m h m.dispatcher
  step-IsValid dispatch_quits m h = dispatch_quits-IsValid m h m.dispatcher
  step-IsValid flush m h = flush-IsValid m h v m.writer m.outgoing
  step-IsValid write_quits m h = write_quits-IsValid m h m.writer
  step-IsValid (read_fails e) m h = read_fails-IsValid m h e m.reader
  step-IsValid (write_fails e) m h = write_fails-IsValid m h e m.writer m.outgoing
  step-IsValid (cancel e) m h = h
  step-IsValid (stopped i) m h = stopped-IsValid m h i m.dispatcher (m.objects i) refl refl
  step-IsValid (reads i) m h =
      of_session-IsValid m h i _ (λ s o. session_read-IsValid m h i s o s.phase s.inbox refl) _ refl
  step-IsValid (returns i) m h =
      of_session-IsValid m h i _ (λ s o. session_return-IsValid m h i s o s.phase refl) _ refl
  step-IsValid (leaves i) m h =
      of_session-IsValid m h i _ (λ s o. session_leave-IsValid m h i s o s.phase refl) _ refl
  step-IsValid (writes i d) m h =
      of_session-IsValid m h i _ (λ s o. session_write-IsValid m h i s o d s.phase m.outgoing) _
        refl

  pub valid : (es : List Event) (m : Manager) → steps v max es start ≡ some m → IsValid m
  valid es m =
      of_Ends IsValid (steps v max es start) m
        (steps-Ends v max IsValid step-IsValid es start start-IsValid)

  -- After any turns in any order, two sessions of one address whose goroutines have not ended are
  -- one, and it is the session that the dispatcher's map holds for the address.
  pub steps-one_session :
      (es : List Event) (m : Manager) (i j : ℕ) (a : String)
      → steps v max es start ≡ some m
      → addr_at (m.objects i) ≡ some a
      → live (m.objects i) ≡ true
      → addr_at (m.objects j) ≡ some a
      → live (m.objects j) ≡ true
      → (i ≡ j) × (lookup a m.sessions ≡ some i)
  steps-one_session es m i j a r ai li aj lj =
      let core = (valid es m r).core in ground (arith, core.listed i a ai li, core.listed j a aj lj)

  -- After any turns in any order, every datagram that a session has read, or that its channel holds,
  -- came from the session's own address.
  steps-Owned :
      (es : List Event) (m : Manager) (i : ℕ) → steps v max es start ≡ some m → Owned (m.objects i)
  steps-Owned es m i r = (valid es m r).owned i
