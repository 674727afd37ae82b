-- ===== src/Tunnel/Udp/Dropped.antt =====
-- What the dispatcher drops.
use cli.Base.{ℕ, ◌≡◌, subst, sym, ◌∙◌, true, false, Option, none, some, List, [], ◌∷◌, ◌++◌, arith}
use cli.Base.Lists.{append_nil}
use cli.Tunnel.Udp.{Varint, UdpDatagram}
use cli.Tunnel.Udp.Table.{IsValid}
use cli.Tunnel.Udp.Manager.{
  Session, Dispatcher, selecting, handing, dispatch_over, Verdict, to, lost, Manager, done, Event,
  packet, enqueue, read_quits, take, hand, abandon, dispatch_quits, flush, write_quits, read_fails,
  write_fails, cancel, stopped, reads, returns, leaves, writes, step, cancelled, hand_of,
  deliver_to, abandon_of,
}

-- Every datagram that was dropped had a session whose handler had returned.
abbrev pub Ended : (ℕ → Option Session) → List Verdict → Type 0
Ended objects [] = Unit
Ended objects (to i d ∷ log) = Ended objects log
Ended objects (lost i d ∷ log) = (cancelled (objects i) ≡ true) × Ended objects log

Ended-mono :
    (old new : ℕ → Option Session) (log : List Verdict)
    → ((i : ℕ) → cancelled (old i) ≡ true → cancelled (new i) ≡ true)
    → Ended old log
    → Ended new log
Ended-mono old new [] k h = tt
Ended-mono old new (to i d ∷ log) k h = Ended-mono old new log k h
Ended-mono old new (lost i d ∷ log) k h = (k i h.0, Ended-mono old new log k h.1)

Ended-append :
    (objects : ℕ → Option Session) (xs ys : List Verdict)
    → Ended objects xs
    → Ended objects ys
    → Ended objects (xs ++ ys)
Ended-append objects [] ys h k = k
Ended-append objects (to i d ∷ xs) ys h k = Ended-append objects xs ys h k
Ended-append objects (lost i d ∷ xs) ys h k = (h.0, Ended-append objects xs ys h.1 k)

abbrev pub Drops : Manager → Type 0
Drops m = done m ≡ false → Ended m.objects m.log

module _ (v : Varint) (max : ℕ) where
  -- A session whose handler has returned stays so.
  stays_cancelled :
      (e : Event) (m n : Manager) (j : ℕ)
      → IsValid m
      → step v max e m ≡ some n
      → cancelled (m.objects j) ≡ true
      → cancelled (n.objects j) ≡ true
  unfolding step
  stays_cancelled (packet a bs) m n j w r c = ground (arith, r, c)
  stays_cancelled enqueue m n j w r c = ground (arith, r, c)
  stays_cancelled read_quits m n j w r c = ground (arith, r, c)
  stays_cancelled take m n j w r c = ground (arith, r, c, w.core.fresh m.created)
  stays_cancelled hand m n j w r c = ground (arith, r, c)
  stays_cancelled abandon m n j w r c = ground (arith, r, c)
  stays_cancelled dispatch_quits m n j w r c = ground (arith, r, c)
  stays_cancelled flush m n j w r c = ground (arith, r, c)
  stays_cancelled write_quits m n j w r c = ground (arith, r, c)
  stays_cancelled (read_fails e) m n j w r c = ground (arith, r, c)
  stays_cancelled (write_fails e) m n j w r c = ground (arith, r, c)
  stays_cancelled (cancel e) m n j w r c = ground (arith, r, c)
  stays_cancelled (stopped i) m n j w r c = ground (arith, r, c)
  stays_cancelled (reads i) m n j w r c = ground (arith, r, c)
  stays_cancelled (returns i) m n j w r c = ground (arith, r, c)
  stays_cancelled (leaves i) m n j w r c = ground (arith, r, c)
  stays_cancelled (writes i x) m n j w r c = ground (arith, r, c)

  -- What a turn adds to the log.
  abbrev Adds : Manager → Manager → Type 0
  Adds m n = (new : List Verdict) × (n.log ≡ m.log ++ new) × Ended m.objects new

  nothing : (m n : Manager) → n.log ≡ m.log → Adds m n
  nothing m n e = ([], e ∙ sym (append_nil m.log), tt)

  deliver-Adds :
      (i : ℕ) (d : UdpDatagram) (m n : Manager) (o : Option Session)
      → deliver_to i d m o ≡ some n
      → Adds m n
  deliver-Adds i d m n none r = absurd (ground (arith, r))
  deliver-Adds i d m n (some s) r = (to i d ∷ [], ground (arith, r), tt)

  hand-Adds : (x : Dispatcher) (m n : Manager) → hand_of m x ≡ some n → Adds m n
  hand-Adds (handing i d) m n r = deliver-Adds i d m n (m.objects i) r
  hand-Adds selecting m n r = absurd (ground (arith, r))
  hand-Adds dispatch_over m n r = absurd (ground (arith, r))

  abandon-Adds :
      (x : Dispatcher) (m n : Manager) → abandon_of m x ≡ some n → done n ≡ false → Adds m n
  abandon-Adds (handing i d) m n r d' =
      (lost i d ∷ [], ground (arith, r), (ground (arith, r, d'), tt))
  abandon-Adds selecting m n r d = absurd (ground (arith, r))
  abandon-Adds dispatch_over m n r d = absurd (ground (arith, r))

  adds : (e : Event) (m n : Manager) → step v max e m ≡ some n → done n ≡ false → Adds m n
  unfolding step
  adds hand m n r d = hand-Adds m.dispatcher m n r
  adds abandon m n r d = abandon-Adds m.dispatcher m n r d
  adds (packet a bs) m n r d = nothing m n (ground (arith, r))
  adds enqueue m n r d = nothing m n (ground (arith, r))
  adds read_quits m n r d = nothing m n (ground (arith, r))
  adds take m n r d = nothing m n (ground (arith, r))
  adds dispatch_quits m n r d = nothing m n (ground (arith, r))
  adds flush m n r d = nothing m n (ground (arith, r))
  adds write_quits m n r d = nothing m n (ground (arith, r))
  adds (read_fails e) m n r d = nothing m n (ground (arith, r))
  adds (write_fails e) m n r d = nothing m n (ground (arith, r))
  adds (cancel e) m n r d = nothing m n (ground (arith, r))
  adds (stopped i) m n r d = nothing m n (ground (arith, r))
  adds (reads i) m n r d = nothing m n (ground (arith, r))
  adds (returns i) m n r d = nothing m n (ground (arith, r))
  adds (leaves i) m n r d = nothing m n (ground (arith, r))
  adds (writes i x) m n r d = nothing m n (ground (arith, r))

  -- A context that is not done was not done before.
  pub not_done :
      (e : Event) (m n : Manager) → step v max e m ≡ some n → done n ≡ false → done m ≡ false
  unfolding step
  not_done (packet a bs) m n r d = ground (arith, r, d)
  not_done enqueue m n r d = ground (arith, r, d)
  not_done read_quits m n r d = ground (arith, r, d)
  not_done take m n r d = ground (arith, r, d)
  not_done dispatch_quits m n r d = ground (arith, r, d)
  not_done flush m n r d = ground (arith, r, d)
  not_done write_quits m n r d = ground (arith, r, d)
  not_done (read_fails e) m n r d = ground (arith, r, d)
  not_done (write_fails e) m n r d = ground (arith, r, d)
  not_done (cancel e) m n r d = ground (arith, r, d)
  not_done (stopped i) m n r d = ground (arith, r, d)
  not_done (reads i) m n r d = ground (arith, r, d)
  not_done (returns i) m n r d = ground (arith, r, d)
  not_done (leaves i) m n r d = ground (arith, r, d)
  not_done (writes i x) m n r d = ground (arith, r, d)
  not_done hand m n r d = ground (arith, r, d)
  not_done abandon m n r d = ground (arith, r, d)

  pub drops : (e : Event) (m n : Manager) → IsValid m → Drops m → step v max e m ≡ some n → Drops n
  drops e m n w h r d =
      let (new, logged, fine) = adds e m n r d in
      let old = Ended-append m.objects m.log new (h (not_done e m n r d)) fine in
      subst (Ended n.objects) (sym logged)
        (Ended-mono m.objects n.objects (m.log ++ new) (λ j. stays_cancelled e m n j w r) old)
