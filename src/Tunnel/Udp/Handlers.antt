-- ===== src/Tunnel/Udp/Handlers.antt =====
-- The turns of the session manager of tunnel/tunnel_udp.go, and the invariant of its tables.
use cli.Base.{ap, subst, ℕ, ◌≡◌, refl, String, true, Option, none, some, List, [], ◌∷◌, ◌++◌, arith}
use cli.Base.Maps.{lookup}
use cli.Tunnel.Udp.{Varint, UdpDatagram}
use cli.Tunnel.Udp.Table.{
  not_gone, Owns, Owns-snoc, Owned, Handed, Core-new, Core-set, Core-stopped, Valid, IsValid,
  set-Owned, set-Handed,
}
use cli.Tunnel.Udp.Turns.{Ends, Ends-when}
use cli.Tunnel.Udp.Manager.{
  Phase, running, finished, gone, Session, Reader, reading, holding, read_over, Dispatcher,
  selecting, handing, dispatch_over, Writer, writing, write_over, Manager, set, new_udp_session,
  done, packet_of, enqueue_of, read_fails_of, find_session, take_of, deliver, deliver_to, hand_of,
  abandon_of, delete_session, stopped_of, flush_of, write_fails_of, session_read, session_write,
  session_return, session_leave, of_session, read_quits_of, dispatch_quits_of, write_quits_of,
}

module _ (m : Manager) (h : IsValid m) where
  find_session-IsValid :
      (d : UdpDatagram) (ds : List UdpDatagram)
      → IsValid (find_session d ds m (lookup d.addr m.sessions))
  find_session-IsValid d ds = of_lookup (lookup d.addr m.sessions) refl
    where
      of_lookup : (o : Option ℕ) → lookup d.addr m.sessions ≡ o → IsValid (find_session d ds m o)
      of_lookup (some i) e = record {
        core = h.core;
        owned = h.owned;
        handed = h.core.entry d.addr i e;
      }
      of_lookup none e = record {
        core = Core-new m.sessions m.objects m.created h.core d.addr e;
        owned = set-Owned m.objects m.created (new_udp_session d.addr) h.owned (tt, tt);
        handed = ground arith;
      }

  pub take-IsValid : (x : Dispatcher) (ds : List UdpDatagram) → Ends IsValid (take_of m x ds)
  take-IsValid selecting (d ∷ ds) = find_session-IsValid d ds
  take-IsValid selecting [] = tt
  take-IsValid (handing i d) ds = tt
  take-IsValid dispatch_over ds = tt

  module _ (i : ℕ) (s : Session) (o : m.objects i ≡ some s) where
    own_s : Owned (some s)
    own_s = subst Owned o (h.owned i)

    -- The session changes, to one that owns what it got and holds.
    changed :
        (t : Session) (x : Dispatcher)
        → t.addr ≡ s.addr
        → (not_gone t.phase ≡ true → not_gone s.phase ≡ true)
        → Owned (some t)
        → Handed m.objects x
        → Valid m.sessions (set i t m.objects) m.created x
    changed t x e l k hd = record {
      core = Core-set m.sessions m.objects m.created h.core i s t o e l;
      owned = set-Owned m.objects i t h.owned k;
      handed = set-Handed m.objects i s t x o e hd;
    }

    deliver-IsValid :
        (d : UdpDatagram) (ds : List UdpDatagram)
        → d.addr ≡ s.addr
        → Ends IsValid (deliver i d m s ds)
    deliver-IsValid d [] e =
        changed (record s { inbox = d ∷ [] }) selecting refl (λ l. l) (own_s.0, (e, tt)) tt
    deliver-IsValid d (x ∷ xs) e = tt

    pub session_read-IsValid :
        (p : Phase) (ds : List UdpDatagram) → s.inbox ≡ ds → Ends IsValid (session_read i m s p ds)
    session_read-IsValid running (d ∷ ds) e =
        let mine : Owns s.addr (d ∷ ds) = subst (Owns s.addr) e own_s.1 in
        changed (record s { inbox = ds; got = s.got ++ d ∷ [] }) m.dispatcher refl (λ l. l)
          (Owns-snoc s.addr s.got d own_s.0 mine.0, mine.1) h.handed
    session_read-IsValid running [] e = tt
    session_read-IsValid finished ds e = tt
    session_read-IsValid gone ds e = tt

    pub session_return-IsValid : (p : Phase) → s.phase ≡ p → Ends IsValid (session_return i m s p)
    session_return-IsValid running e =
        changed (record s { phase = finished }) m.dispatcher refl (λ l. ap not_gone e) own_s
          h.handed
    session_return-IsValid finished e = tt
    session_return-IsValid gone e = tt

    pub session_leave-IsValid : (p : Phase) → s.phase ≡ p → Ends IsValid (session_leave i m s p)
    session_leave-IsValid finished e =
        Ends-when IsValid (done m) _ (
          changed (record s { phase = gone }) m.dispatcher refl (λ l. ap not_gone e) own_s h.handed)
    session_leave-IsValid running e = tt
    session_leave-IsValid gone e = tt

    pub session_write-IsValid :
        (d : UdpDatagram) (p : Phase) (ds : List UdpDatagram)
        → Ends IsValid (session_write d m s p ds)
    session_write-IsValid d running [] = h
    session_write-IsValid d running (x ∷ xs) = tt
    session_write-IsValid d finished ds = tt
    session_write-IsValid d gone ds = tt

    delete_session-IsValid :
        (p : Phase) → s.phase ≡ p → m.dispatcher ≡ selecting → Ends IsValid (delete_session i m s p)
    delete_session-IsValid finished e x = record {
      core =
          Core-stopped m.sessions m.objects m.created h.core i s (record s { phase = gone }) o refl
            (ap not_gone e) refl;
      owned = set-Owned m.objects i (record s { phase = gone }) h.owned own_s;
      handed = rw x tt;
    }
    delete_session-IsValid running e x = tt
    delete_session-IsValid gone e x = tt

  pub hand-IsValid : (x : Dispatcher) → Handed m.objects x → Ends IsValid (hand_of m x)
  hand-IsValid (handing i d) e = of_object (m.objects i) refl
    where
      of_object : (o : Option Session) → m.objects i ≡ o → Ends IsValid (deliver_to i d m o)
      of_object none p = tt
      of_object (some s) p = deliver-IsValid i s p d s.inbox (ground (arith, e, p))
  hand-IsValid selecting e = tt
  hand-IsValid dispatch_over e = tt

  pub abandon-IsValid : (x : Dispatcher) → Ends IsValid (abandon_of m x)
  abandon-IsValid (handing i d) =
      Ends-when IsValid _ _ (record { core = h.core; owned = h.owned; handed = tt })
  abandon-IsValid selecting = tt
  abandon-IsValid dispatch_over = tt

  pub stopped-IsValid :
      (i : ℕ) (x : Dispatcher) (o : Option Session)
      → m.dispatcher ≡ x
      → m.objects i ≡ o
      → Ends IsValid (stopped_of i m x o)
  stopped-IsValid i selecting (some s) e p = delete_session-IsValid i s p s.phase refl e
  stopped-IsValid i selecting none e p = tt
  stopped-IsValid i (handing j d) o e p = tt
  stopped-IsValid i dispatch_over o e p = tt

  pub of_session-IsValid :
      (i : ℕ) (f : Session → Option Manager)
      → ((s : Session) → m.objects i ≡ some s → Ends IsValid (f s))
      → (o : Option Session) → m.objects i ≡ o
      → Ends IsValid (of_session o f)
  of_session-IsValid i f k none e = tt
  of_session-IsValid i f k (some s) e = k s e

  pub dispatch_quits-IsValid : (x : Dispatcher) → Ends IsValid (dispatch_quits_of m x)
  dispatch_quits-IsValid selecting =
      Ends-when IsValid _ _ (record { core = h.core; owned = h.owned; handed = tt })
  dispatch_quits-IsValid (handing i d) = tt
  dispatch_quits-IsValid dispatch_over = tt

  -- The reader and the writer touch neither the sessions nor the dispatcher.
  pub packet-IsValid :
      (v : Varint) (max : ℕ) (a : String) (bs : List ℕ) (x : Reader)
      → Ends IsValid (packet_of v max a bs m x)
  packet-IsValid v max a bs reading = h
  packet-IsValid v max a bs (holding d) = tt
  packet-IsValid v max a bs read_over = tt

  pub enqueue-IsValid : (x : Reader) (ds : List UdpDatagram) → Ends IsValid (enqueue_of m x ds)
  enqueue-IsValid (holding d) [] = h
  enqueue-IsValid (holding d) (x ∷ xs) = tt
  enqueue-IsValid reading xs = tt
  enqueue-IsValid read_over xs = tt

  pub read_quits-IsValid : (x : Reader) → Ends IsValid (read_quits_of m x)
  read_quits-IsValid reading = Ends-when IsValid _ _ h
  read_quits-IsValid (holding d) = Ends-when IsValid _ _ h
  read_quits-IsValid read_over = tt

  pub read_fails-IsValid : (e : String) (x : Reader) → Ends IsValid (read_fails_of e m x)
  read_fails-IsValid e reading = h
  read_fails-IsValid e (holding d) = tt
  read_fails-IsValid e read_over = tt

  pub flush-IsValid :
      (v : Varint) (x : Writer) (ds : List UdpDatagram) → Ends IsValid (flush_of v m x ds)
  flush-IsValid v writing (d ∷ ds) = h
  flush-IsValid v writing [] = tt
  flush-IsValid v write_over ds = tt

  pub write_fails-IsValid :
      (e : String) (x : Writer) (ds : List UdpDatagram) → Ends IsValid (write_fails_of e m x ds)
  write_fails-IsValid e writing (d ∷ ds) = h
  write_fails-IsValid e writing [] = tt
  write_fails-IsValid e write_over ds = tt

  pub write_quits-IsValid : (x : Writer) → Ends IsValid (write_quits_of m x)
  write_quits-IsValid writing = Ends-when IsValid _ _ h
  write_quits-IsValid write_over = tt
