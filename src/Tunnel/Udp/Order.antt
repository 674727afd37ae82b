-- ===== src/Tunnel/Udp/Order.antt =====
-- The datagrams on their way through the session manager.
use cli.Base.{
  ℕ, ◌≡◌, refl, subst, sym, ap, ◌∙◌, String, false, Option, none, some, List, [], ◌∷◌, ◌++◌, arith,
}
use cli.Base.Lists.{append_assoc}
use cli.Tunnel.Udp.{Varint, UdpDatagram, read_packet}
use cli.Tunnel.Udp.Manager.{
  Reader, reading, holding, read_over, Dispatcher, selecting, handing, dispatch_over, Verdict, to,
  lost, Manager, done, Event, packet, enqueue, read_quits, take, hand, abandon, dispatch_quits,
  flush, write_quits, read_fails, write_fails, cancel, stopped, reads, returns, leaves, writes,
  step, hand_of, packet_of, abandon_of,
}

abbrev pub datagrams : List Verdict → List UdpDatagram
datagrams [] = []
datagrams (to i d ∷ log) = d ∷ datagrams log
datagrams (lost i d ∷ log) = d ∷ datagrams log

datagrams-snoc :
    (log : List Verdict) (x : Verdict)
    → datagrams (log ++ x ∷ []) ≡ datagrams log ++ datagrams (x ∷ [])
datagrams-snoc [] (to i d) = refl
datagrams-snoc [] (lost i d) = refl
datagrams-snoc (to i d ∷ log) x = ap (λ l. d ∷ l) (datagrams-snoc log x)
datagrams-snoc (lost i d ∷ log) x = ap (λ l. d ∷ l) (datagrams-snoc log x)

abbrev pub in_hand : Dispatcher → List UdpDatagram
in_hand (handing i d) = d ∷ []
in_hand selecting = []
in_hand dispatch_over = []

abbrev pub held_by : Reader → List UdpDatagram
held_by (holding d) = d ∷ []
held_by reading = []
held_by read_over = []

-- The datagrams in the order of their way: settled, in the dispatcher's hand, in the channel, and
-- with the reader.
abbrev pub on_the_way : Manager → List UdpDatagram
on_the_way m = datagrams m.log ++ (in_hand m.dispatcher ++ (m.incoming ++ held_by m.reader))

abbrev pub Conserves : Manager → Type 0
Conserves m = done m ≡ false → on_the_way m ≡ m.arrived

-- What arrives last is behind all that is on its way.
arrives :
    (xs ys zs : List UdpDatagram) (d : UdpDatagram)
    → xs ++ (ys ++ (zs ++ d ∷ [])) ≡ (xs ++ (ys ++ (zs ++ []))) ++ d ∷ []
arrives [] [] [] d = refl
arrives [] [] (z ∷ zs) d = ap (λ l. z ∷ l) (arrives [] [] zs d)
arrives [] (y ∷ ys) zs d = ap (λ l. y ∷ l) (arrives [] ys zs d)
arrives (x ∷ xs) ys zs d = ap (λ l. x ∷ l) (arrives xs ys zs d)

-- What is settled was in the dispatcher's hand.
settles :
    (log : List Verdict) (x : Verdict) (d : UdpDatagram) (ys : List UdpDatagram)
    → datagrams (x ∷ []) ≡ d ∷ []
    → datagrams (log ++ x ∷ []) ++ ys ≡ datagrams log ++ d ∷ ys
settles log x d ys e =
    ap (λ l. l ++ ys) (datagrams-snoc log x ∙ ap (λ l. datagrams log ++ l) e)
    ∙ append_assoc (datagrams log) d ys

abbrev behind : Manager → Option Manager → Manager
behind m none = m
behind m (some n) = n

module _ (v : Varint) (max : ℕ) where
  module _ (m n : Manager) (h : Conserves m) (open_ : done n ≡ false) where
    packet-conserves :
        (a : String) (bs : List ℕ) (x : Reader)
        → m.reader ≡ x
        → packet_of v max a bs m x ≡ some n
        → on_the_way n ≡ n.arrived
    packet-conserves a bs reading e r =
        let d = read_packet v max a bs in
        let next : Manager = record m { reader = holding d; arrived = m.arrived ++ d ∷ [] } in
        let same : next ≡ n = ap (behind m) r in
        let before : datagrams m.log ++ (in_hand m.dispatcher ++ (m.incoming ++ [])) ≡ m.arrived =
          ap (λ x. datagrams m.log ++ (in_hand m.dispatcher ++ (m.incoming ++ held_by x))) (sym e)
          ∙ h (ap done same ∙ open_) in
        subst (λ x. on_the_way x ≡ x.arrived) same
          (arrives (datagrams m.log) (in_hand m.dispatcher) m.incoming d
            ∙ ap (λ l. l ++ d ∷ []) before)
    packet-conserves a bs (holding d) e r = absurd (ground (arith, r))
    packet-conserves a bs read_over e r = absurd (ground (arith, r))

    hand-conserves :
        (x : Dispatcher) → m.dispatcher ≡ x → hand_of m x ≡ some n → on_the_way n ≡ n.arrived
    hand-conserves (handing i d) e r =
        ground
          (arith, h, r, e, open_, settles m.log (to i d) d (m.incoming ++ held_by m.reader) refl)
    hand-conserves selecting e r = absurd (ground (arith, r))
    hand-conserves dispatch_over e r = absurd (ground (arith, r))

    abandon-conserves :
        (x : Dispatcher) → m.dispatcher ≡ x → abandon_of m x ≡ some n → on_the_way n ≡ n.arrived
    abandon-conserves (handing i d) e r =
        ground
          (arith, h, r, e, open_, settles m.log (lost i d) d (m.incoming ++ held_by m.reader) refl)
    abandon-conserves selecting e r = absurd (ground (arith, r))
    abandon-conserves dispatch_over e r = absurd (ground (arith, r))

  pub conserves : (e : Event) (m n : Manager) → Conserves m → step v max e m ≡ some n → Conserves n
  unfolding step
  conserves (packet a bs) m n h r d = packet-conserves m n h d a bs m.reader refl r
  conserves enqueue m n h r d = ground (arith, h, r, d)
  conserves read_quits m n h r d = ground (arith, h, r, d)
  conserves take m n h r d = ground (arith, h, r, d)
  conserves hand m n h r d = hand-conserves m n h d m.dispatcher refl r
  conserves abandon m n h r d = abandon-conserves m n h d m.dispatcher refl r
  conserves dispatch_quits m n h r d = ground (arith, h, r, d)
  conserves flush m n h r d = ground (arith, h, r, d)
  conserves write_quits m n h r d = ground (arith, h, r, d)
  conserves (read_fails e) m n h r d = ground (arith, h, r, d)
  conserves (write_fails e) m n h r d = ground (arith, h, r, d)
  conserves (cancel e) m n h r d = ground (arith, h, r, d)
  conserves (stopped i) m n h r d = ground (arith, h, r, d)
  conserves (reads i) m n h r d = ground (arith, h, r, d)
  conserves (returns i) m n h r d = ground (arith, h, r, d)
  conserves (leaves i) m n h r d = ground (arith, h, r, d)
  conserves (writes i x) m n h r d = ground (arith, h, r, d)
