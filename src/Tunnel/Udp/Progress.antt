-- ===== src/Tunnel/Udp/Progress.antt =====
-- How the session manager of tunnel/tunnel_udp.go goes on, and how it ends.
use cli.Base.{
  ℕ, suc, ◌≡◌, refl, ap, ◌∙◌, subst, String, true, Option, none, some, List, [], ◌∷◌, ◌++◌, arith,
}
use cli.Base.Maps.{lookup}
use cli.Base.Lists.{length, length-append}
use cli.Tunnel.Udp.{Varint, UdpDatagram}
use cli.Tunnel.Udp.Table.{IsValid, Handed, addr_at}
use cli.Tunnel.Udp.Turns.{of_Ends}
use cli.Tunnel.Udp.Sessions.{valid, step-IsValid}
use cli.Tunnel.Udp.Manager.{
  Phase, running, finished, gone, Session, Dispatcher, selecting, handing, dispatch_over, to, lost,
  Manager, start, set, Event, take, hand, abandon, reads, step, steps, cancelled, result,
  find_session, continue,
}

module _ (v : Varint) (max : ℕ) where
  steps-cons :
      (e : Event) (es : List Event) (m n : Manager)
      → step v max e m ≡ some n
      → steps v max (e ∷ es) m ≡ steps v max es n
  unfolding steps
  steps-cons e es m n h = ap (continue (steps v max es)) h

  steps-nil : (m : Manager) → steps v max [] m ≡ some m
  unfolding steps
  steps-nil m = refl

  -- Some turns settle the datagram in the dispatcher's hand.
  abbrev Settles : Manager → Type 0
  Settles m =
      (es : List Event) × (n : Manager) × (steps v max es m ≡ some n)
      × (length n.log ≡ suc (length m.log))

  one_turn :
      (e : Event) (m n : Manager)
      → step v max e m ≡ some n
      → length n.log ≡ suc (length m.log)
      → Settles m
  one_turn e m n h l = (e ∷ [], n, steps-cons e [] m n h ∙ steps-nil n, l)

  turn_before :
      (e : Event) (m n : Manager) → step v max e m ≡ some n → n.log ≡ m.log → Settles n → Settles m
  turn_before e m n h l (es, o, r, k) =
      (e ∷ es, o, steps-cons e es m n h ∙ r, k ∙ ap (λ x. suc (length x)) l)

  -- A session that is handed a datagram while its handler runs can read what its channel holds.
  reads_until :
      (ds : List UdpDatagram) (m : Manager) (i : ℕ) (d : UdpDatagram) (s : Session)
      → m.dispatcher ≡ handing i d
      → m.objects i ≡ some s
      → s.phase ≡ running
      → s.inbox ≡ ds
      → Settles m
  unfolding step
  reads_until [] m i d s x o p e =
      one_turn hand m
        (record m {
          dispatcher = selecting;
          objects = set i (record s { inbox = d ∷ [] }) m.objects;
          log = m.log ++ to i d ∷ [];
        })
        (rw x (rw o (rw e refl))) (omega (arith, length-append m.log (to i d ∷ [])))
  reads_until (y ∷ ds) m i d s x o p e =
      let t : Session = record s { inbox = ds; got = s.got ++ y ∷ [] } in
      let n : Manager = record m { objects = set i t m.objects } in
      turn_before (reads i) m n (ground (arith, x, o, p, e)) refl
        (reads_until ds n i d t x (ground arith) p refl)

  drops_it :
      (m : Manager) (i : ℕ) (d : UdpDatagram)
      → m.dispatcher ≡ handing i d
      → cancelled (m.objects i) ≡ true
      → Settles m
  unfolding step
  drops_it m i d x c =
      one_turn abandon m (record m { dispatcher = selecting; log = m.log ++ lost i d ∷ [] })
        (ground (arith, x, c)) (omega (arith, length-append m.log (lost i d ∷ [])))

  hands :
      (m : Manager) (i : ℕ) (d : UdpDatagram) (s : Session) (p : Phase)
      → m.dispatcher ≡ handing i d
      → m.objects i ≡ some s
      → s.phase ≡ p
      → Settles m
  hands m i d s running x o e = reads_until s.inbox m i d s x o e refl
  hands m i d s finished x o e = drops_it m i d x (ground (arith, o, e))
  hands m i d s gone x o e = drops_it m i d x (ground (arith, o, e))

  settles :
      (m : Manager) (i : ℕ) (d : UdpDatagram) → IsValid m → m.dispatcher ≡ handing i d → Settles m
  settles m i d h x = of_object (m.objects i) refl (subst (Handed m.objects) x h.handed)
    where
      of_object :
          (o : Option Session) → m.objects i ≡ o → addr_at (m.objects i) ≡ some d.addr → Settles m
      of_object none o a = absurd (ground (arith, o, a))
      of_object (some s) o a = hands m i d s s.phase x o refl

  found :
      (d : UdpDatagram) (ds : List UdpDatagram) (m : Manager) (o : Option ℕ)
      → (j : ℕ) × ((find_session d ds m o).dispatcher ≡ handing j d)
        × ((find_session d ds m o).log ≡ m.log)
  found d ds m (some j) = (j, refl, refl)
  found d ds m none = (m.created, refl, refl)

  takes :
      (d : UdpDatagram) (ds : List UdpDatagram) (m : Manager)
      → IsValid m
      → m.dispatcher ≡ selecting
      → m.incoming ≡ d ∷ ds
      → Settles m
  takes d ds m h x e =
      let n : Manager = find_session d ds m (lookup d.addr m.sessions) in
      let taken : step v max take m ≡ some n = unfold step in ground (arith, x, e) in
      let (j, hd, same) = found d ds m (lookup d.addr m.sessions) in
      let good = of_Ends IsValid (step v max take m) n (step-IsValid v max take m h) taken in
      turn_before take m n taken same (settles n j d good hd)

  -- The dispatcher has a datagram in its hand, or waits while there is one in its channel.
  abbrev pub IsPending : Dispatcher → List UdpDatagram → Type 0
  IsPending (handing i d) ds = Unit
  IsPending selecting (d ∷ ds) = Unit
  IsPending selecting [] = ⊥
  IsPending dispatch_over ds = ⊥

  pending-Settles :
      (x : Dispatcher) (ds : List UdpDatagram) (m : Manager)
      → IsValid m
      → m.dispatcher ≡ x
      → m.incoming ≡ ds
      → IsPending x ds
      → Settles m
  pending-Settles (handing i d) ds m h x e p = settles m i d h x
  pending-Settles dispatch_over ds m h x e p = absurd p
  pending-Settles selecting [] m h x e p = absurd p
  pending-Settles selecting (d ∷ ds) m h x e p = takes d ds m h x e

  -- From every state that turns lead to, if a datagram is in the dispatcher's hand, or in its
  -- channel while it waits, some further turns settle one datagram more: its session's channel takes
  -- it, or it is dropped.
  pub steps-progress :
      (es : List Event) (m : Manager)
      → steps v max es start ≡ some m
      → IsPending m.dispatcher m.incoming
      → (fs : List Event) × (n : Manager) × (steps v max fs m ≡ some n)
        × (length n.log ≡ suc (length m.log))
  steps-progress es m r p =
      pending-Settles m.dispatcher m.incoming m (valid v max es m r) refl refl p

  -- Some turns end the three goroutines, with the cause as the result.
  abbrev Stops : Manager → String → Type 0
  Stops m e = (es : List Event) × (n : Manager) × (steps v max es m ≡ some n) × (result n ≡ some e)
