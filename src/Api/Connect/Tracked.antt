-- ===== src/Api/Connect/Tracked.antt =====
-- What `Update` of api/listener_server.go leaves in the listener table.
use cli.Base.{
  ℕ, String, ◌≡◌, refl, true, false, Option, none, some, List, [], ◌∷◌, is_some, if◌then◌else◌,
  arith, ◌==◌, eq_refl, ap, subst, Bool-cases, Option-cases, inl, inr,
}
use cli.Base.Maps.{Map, lookup, insert, lookup-insert}
use cli.Proto.Records.{ListenerStatus, ListenerUpdateRequest}
use cli.Api.Errors.{ConfigError, text, not_listening}
use cli.Api.Listener.{
  Listeners, listening_at, set_listening, get_listener_status, set_not_listening, status_of,
}
use cli.Api.Listener.Live.{
  AreLive, cancel_context-AreLive, set_listening-AreLive, set_not_listening-AreLive,
}
use cli.Api.Connect.{
  Network, Settings, Server, failed_status, of_stop, connect_one, connect_loop, disconnect_one,
  disconnect_loop, update,
}
use cli.Api.Connect.Step.{udp_stored, listens, Step, connect_one-Step}

get_listener_status-set :
    (id : String) (n : ℕ) (addr : String) (l : Listeners) (j : String)
    → (set_listening id n addr l).1 ≡ none
    → get_listener_status j (set_listening id n addr l).0
      ≡ (if id == j then listening_at addr else get_listener_status j l)
unfolding get_listener_status set_listening
get_listener_status-set id n addr l j fine = elim (Bool-cases (is_some (lookup id l.entries))) [
  | inl there ↦ absurd (ground (arith, there, fine))
  | inr free ↦ ground (
    arith,
    free,
    lookup-insert id j (record { cancel = some n; status = listening_at addr }) l.entries,
  )
]

abbrev first {ℓ κ} : {A : Type ℓ} {B : Type κ} → A → Option (A × B) → A
first a none = a
first a (some (b, c)) = b

of_stop-listeners : (id : String) (r : Listeners × Option ConfigError) → (of_stop id r).0 ≡ r.0
of_stop-listeners id (l, none) = refl
of_stop-listeners id (l, some e) = refl

disconnect_one-AreLive :
    (id : String) (next : ℕ) (l : Listeners) → AreLive next l → AreLive next (disconnect_one id l).0
unfolding disconnect_one
disconnect_one-AreLive id next l h =
    rw (of_stop-listeners id (set_not_listening id l)) (set_not_listening-AreLive id next l h)

get_listener_status-entries :
    (id : String) (l m : Listeners)
    → l.entries ≡ m.entries
    → get_listener_status id l ≡ get_listener_status id m
unfolding get_listener_status
get_listener_status-entries id l m e = ap (λ es. status_of (lookup id es)) e

disconnect_one-idle :
    (id : String) (l : Listeners)
    → (get_listener_status id l).listening ≡ false
    → (disconnect_one id l).1 ≡ failed_status (text not_listening)
unfolding disconnect_one set_not_listening get_listener_status
disconnect_one-idle id l idle = elim (Option-cases (lookup id l.entries)) [
  | inl gone ↦ rw gone refl
  | inr (e, there) ↦
      let quiet : e.status.listening ≡ false = ground (arith, there, idle) in
      rw there (rw quiet refl)
]

disconnect_loop-AreLive :
    (ids : List String) (answers : Map ListenerStatus) (next : ℕ) (l : Listeners)
    → AreLive next l
    → AreLive next (disconnect_loop ids answers l).0
unfolding disconnect_loop
disconnect_loop-AreLive [] answers next l h = h
disconnect_loop-AreLive (id ∷ ids) answers next l h =
    let (l', status) = disconnect_one id l in
    disconnect_loop-AreLive ids (insert id status answers) next l'
      (disconnect_one-AreLive id next l h)

module _ {W : Type 0} where
  abbrev Live : Server W → Type 0
  Live s = AreLive s.next s.listeners

  Step-AreLive :
      (id : String) (s : Server W) (p : Server W × ListenerStatus) → Step id s p → Live s → Live p.0
  Step-AreLive id s _ (Step.already busy) h = h
  Step-AreLive id s _ (Step.refused idle message) h = h
  Step-AreLive id s _ (Step.gave_up idle u message w) h =
      cancel_context-AreLive s.next s.listeners h
  Step-AreLive id s _ (Step.tracked idle no_udp tun addr w fine) h =
      set_listening-AreLive id addr s.next s.listeners h fine
  Step-AreLive id s _ (Step.untracked idle for_udp tun addr w) h = record {
    live = λ j e n there c. ground (arith, h.live j e n there c);
    apart = h.apart;
    made = λ n k. h.made n (omega (arith, k));
    once = h.once;
  }

  module _ (net : Network W) (x : Settings) where
    connect_loop-AreLive :
        (ids : List String) (answers : Map ListenerStatus) (s : Server W)
        (p : Server W × Map ListenerStatus)
        → connect_loop net x ids answers s ≡ some p
        → Live s
        → Live p.0
    unfolding connect_loop
    connect_loop-AreLive [] answers s p e h =
        subst (λ (o : Option (Server W × Map ListenerStatus)). Live (first s o)) e h
    connect_loop-AreLive (id ∷ ids) answers s p e h = elim (Option-cases (connect_one net x id s)) [
      | inl panicked ↦ absurd (ground (arith, panicked, e))
      | inr ((t, status), went) ↦
          connect_loop-AreLive ids (insert id status answers) t p (ground (arith, went, e))
            (Step-AreLive id s (t, status) (connect_one-Step id s net x (t, status) went) h)
    ]

    -- Connecting and disconnecting keep the contexts of the listeners apart and live, and cancel no
    -- context twice, when the handler does not panic.
    pub update-AreLive :
        (req : ListenerUpdateRequest) (s t : Server W) (answers : Map ListenerStatus)
        → AreLive s.next s.listeners
        → update net x req s ≡ some (t, answers)
        → AreLive t.next t.listeners
    unfolding update
    update-AreLive req s t answers h e = elim (Bool-cases req.connected) [
      | inl on ↦ connect_loop-AreLive req.connection_ids [] s (t, answers) (ground (arith, on, e)) h
      | inr off ↦
          let (l, given) = disconnect_loop req.connection_ids [] s.listeners in
          let same : some (record s { listeners = l }, given) ≡ some (t, answers) =
            ground (arith, off, e) in
          subst (λ (o : Option (Server W × Map ListenerStatus)). Live (first s o)) same
            (disconnect_loop-AreLive req.connection_ids [] s.next s.listeners h)
    ]

  Step-tracked :
      (id : String) (s : Server W) (p : Server W × ListenerStatus)
      → Step id s p
      → p.1.listening ≡ true
      → udp_stored id s ≡ false
      → get_listener_status id p.0.listeners ≡ p.1
  Step-tracked id s _ (Step.already busy) on tcp = refl
  Step-tracked id s _ (Step.refused idle message) on tcp = absurd (ground (arith, on))
  Step-tracked id s _ (Step.gave_up idle u message w) on tcp = absurd (ground (arith, on))
  Step-tracked id s _ (Step.tracked idle no_udp tun addr w fine) on tcp =
      ground (arith, get_listener_status-set id s.next addr s.listeners id fine, eq_refl id)
  Step-tracked id s _ (Step.untracked idle for_udp tun addr w) on tcp =
      absurd (ground (arith, for_udp, tcp))

  Step-untracked :
      (id : String) (s : Server W) (p : Server W × ListenerStatus)
      → Step id s p
      → listens id s ≡ false
      → udp_stored id s ≡ true
      → p.0.listeners.entries ≡ s.listeners.entries
  Step-untracked id s _ (Step.already busy) idle for_udp = refl
  Step-untracked id s _ (Step.refused idle' message) idle for_udp = refl
  Step-untracked id s _ (Step.gave_up idle' u message w) idle for_udp = refl
  Step-untracked id s _ (Step.tracked idle' no_udp tun addr w fine) idle for_udp =
      absurd (ground (arith, no_udp, for_udp))
  Step-untracked id s _ (Step.untracked idle' udp' tun addr w) idle for_udp = refl

  module _ (net : Network W) (x : Settings) where
    -- When a record that is not UDP is answered as listening, it is in the table of listeners with
    -- that status, and connecting it again changes nothing and gives the same answer.
    pub connect_one-tracked :
        (id : String) (s t : Server W) (status : ListenerStatus)
        → connect_one net x id s ≡ some (t, status)
        → status.listening ≡ true
        → udp_stored id s ≡ false
        → (get_listener_status id t.listeners ≡ status)
          × (connect_one net x id t ≡ some (t, status))
    connect_one-tracked id s t status e on tcp =
        let held : get_listener_status id t.listeners ≡ status =
          Step-tracked id s (t, status) (connect_one-Step id s net x (t, status) e) on tcp in
        (held, (unfold connect_one in ground (arith, held, on)))

    -- Connecting a UDP record that is not listening leaves the table of listeners as it is, whatever
    -- is answered, so that disconnecting it is answered as not listening.
    pub connect_one-untracked :
        (id : String) (s t : Server W) (status : ListenerStatus)
        → connect_one net x id s ≡ some (t, status)
        → (get_listener_status id s.listeners).listening ≡ false
        → udp_stored id s ≡ true
        → (t.listeners.entries ≡ s.listeners.entries)
          × ((disconnect_one id t.listeners).1 ≡ failed_status (text not_listening))
    connect_one-untracked id s t status e idle for_udp =
        let same : t.listeners.entries ≡ s.listeners.entries =
          Step-untracked id s (t, status) (connect_one-Step id s net x (t, status) e) idle
            for_udp in
        (
          same,
          disconnect_one-idle id t.listeners
              (ground (arith, get_listener_status-entries id t.listeners s.listeners same, idle)),
        )
