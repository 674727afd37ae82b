-- ===== src/Tunnel/Udp/Blocked.antt =====
-- The dispatcher of tunnel/tunnel_udp.go beside a session that is slow to read.
use cli.Base.{
  ℕ, ◌≡◌, sym, ap, ◌∙◌, Bool, true, false, not, ◌&&◌, none, some, List, [], ◌∷◌, arith, inl, inr,
  Option-cases, nat_eq,
}
use cli.Tunnel.Udp.{Varint, UdpDatagram}
use cli.Tunnel.Udp.Manager.{
  running, Session, handing, Manager, Event, packet, enqueue, read_quits, take, hand, abandon,
  dispatch_quits, flush, write_quits, read_fails, write_fails, cancel, stopped, reads, returns,
  leaves, writes, step, steps, continue,
}

-- Turns that are not the session's own, and no end of the context.
abbrev pub others : ℕ → Event → Bool
others i (reads j) = not (nat_eq i j)
others i (returns j) = not (nat_eq i j)
others i (cancel e) = false
others i (read_fails e) = false
others i (write_fails e) = false
others i (packet a bs) = true
others i enqueue = true
others i read_quits = true
others i take = true
others i hand = true
others i abandon = true
others i dispatch_quits = true
others i flush = true
others i write_quits = true
others i (stopped j) = true
others i (leaves j) = true
others i (writes j d) = true

abbrev pub all_others : ℕ → List Event → Bool
all_others i [] = true
all_others i (e ∷ es) = others i e && all_others i es

-- A session is handed a datagram while its handler runs and its channel is full.
abbrev pub IsBlocked : ℕ → UdpDatagram → Session → UdpDatagram → List UdpDatagram → Manager → Type 0
IsBlocked i d s x xs m =
    (m.cause ≡ none)
    × (m.dispatcher ≡ handing i d)
    × (m.objects i ≡ some s)
    × (s.phase ≡ running)
    × (s.inbox ≡ x ∷ xs)

module _ (v : Varint) (max i : ℕ) (d : UdpDatagram) (s : Session) (x : UdpDatagram)
    (xs : List UdpDatagram) where
  abbrev StaysBlocked : Manager → Manager → Type 0
  StaysBlocked m n = IsBlocked i d s x xs n × (n.log ≡ m.log) × (n.sessions ≡ m.sessions)

  step-StaysBlocked :
      (e : Event) (m n : Manager)
      → IsBlocked i d s x xs m
      → others i e ≡ true
      → step v max e m ≡ some n
      → StaysBlocked m n
  unfolding step
  step-StaysBlocked (packet a bs) m n (c, k, o, p, b) f r = ground (arith, c, k, o, p, b, f, r)
  step-StaysBlocked enqueue m n (c, k, o, p, b) f r = ground (arith, c, k, o, p, b, f, r)
  step-StaysBlocked read_quits m n (c, k, o, p, b) f r = ground (arith, c, k, o, p, b, f, r)
  step-StaysBlocked take m n (c, k, o, p, b) f r = ground (arith, c, k, o, p, b, f, r)
  step-StaysBlocked hand m n (c, k, o, p, b) f r = ground (arith, c, k, o, p, b, f, r)
  step-StaysBlocked abandon m n (c, k, o, p, b) f r = ground (arith, c, k, o, p, b, f, r)
  step-StaysBlocked dispatch_quits m n (c, k, o, p, b) f r = ground (arith, c, k, o, p, b, f, r)
  step-StaysBlocked flush m n (c, k, o, p, b) f r = ground (arith, c, k, o, p, b, f, r)
  step-StaysBlocked write_quits m n (c, k, o, p, b) f r = ground (arith, c, k, o, p, b, f, r)
  step-StaysBlocked (read_fails y) m n (c, k, o, p, b) f r = ground (arith, c, k, o, p, b, f, r)
  step-StaysBlocked (write_fails y) m n (c, k, o, p, b) f r = ground (arith, c, k, o, p, b, f, r)
  step-StaysBlocked (cancel y) m n (c, k, o, p, b) f r = ground (arith, c, k, o, p, b, f, r)
  step-StaysBlocked (stopped j) m n (c, k, o, p, b) f r = ground (arith, c, k, o, p, b, f, r)
  step-StaysBlocked (reads j) m n (c, k, o, p, b) f r = ground (arith, c, k, o, p, b, f, r)
  step-StaysBlocked (returns j) m n (c, k, o, p, b) f r = ground (arith, c, k, o, p, b, f, r)
  step-StaysBlocked (leaves j) m n (c, k, o, p, b) f r = ground (arith, c, k, o, p, b, f, r)
  step-StaysBlocked (writes j y) m n (c, k, o, p, b) f r = ground (arith, c, k, o, p, b, f, r)

  -- While a session's handler runs and its channel is full, and a datagram for it is in the
  -- dispatcher's hand: as long as the session does not read or return and the context is not done, no turns of others
  -- settle any datagram, start a session or delete one.
  pub steps-blocked :
      (es : List Event) (m n : Manager)
      → IsBlocked i d s x xs m
      → all_others i es ≡ true
      → steps v max es m ≡ some n
      → (n.dispatcher ≡ handing i d) × (n.log ≡ m.log) × (n.sessions ≡ m.sessions)
  unfolding steps
  steps-blocked [] m n (c, k, o, p, b) f r = ground (arith, k, r)
  steps-blocked (e ∷ es) m n b f r = elim (Option-cases (step v max e m)) [
    | inl q ↦ absurd (ground (arith, q, r))
    | inr (o, q) ↦
        let (b', l, t) = step-StaysBlocked e m o b (ground (arith, f)) q in
        let rest : steps v max es o ≡ some n = sym (ap (continue (steps v max es)) q) ∙ r in
        let (k, l', t') = steps-blocked es o n b' (ground (arith, f)) rest in (k, l' ∙ l, t' ∙ t)
  ]
