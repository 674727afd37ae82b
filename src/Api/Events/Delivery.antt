-- ===== src/Api/Events/Delivery.antt =====
-- What a subscriber of api/events.go receives.
use cli.Base.{
  ℕ, suc, String, ◌≡◌, refl, sym, ◌∙◌, ap, Bool, true, Option, none, some, List, [], ◌∷◌, ◌++◌,
  ◌==◌, bind, is_some, if◌then◌else◌, arith, eq_iff, eq_refl,
}
use cli.Base.Lists.{append_assoc, append_nil}
use cli.Base.Maps.{Map, lookup, Unique, lookup-nil}
use cli.Proto.Records.{ConnectionStatusUpdate}
use cli.Api.Events.{
  by_outcome, Subscriber, Action, send, close, Events, Outcome, delivered, map_or_new, subscribe,
  send_all, unsubscribe_all, update, events_of, record_event, send_history, updated, subscribed,
  turn, member, Reach,
}
use cli.Api.Events.Closing.{Safe}
use cli.Api.Events.Safe.{Reach-Safe, log-subscribe, record_event-Safe}

-- What was sent to a subscriber, the oldest first.
unfoldable pub received : String → List Action → List ConnectionStatusUpdate
received u [] = []
received u (send v evt ∷ log) =
    let before = received u log in if v == u then before ++ evt ∷ [] else before
received u (close v ∷ log) = received u log

by_outcome-delivered :
    {A : Type 0} (o : Outcome) (a b c : A) → o ≡ delivered → by_outcome o a b c ≡ a
by_outcome-delivered o a b c e = ap (λ p. by_outcome p a b c) e

send_history-received :
    (s : Subscriber) (outcome : ℕ → Outcome) (n : ℕ) (evts : List ConnectionStatusUpdate)
    (e : Events)
    → ((k : ℕ) → outcome k ≡ delivered)
    → received s.uuid (send_history s outcome n evts e).0.log ≡ received s.uuid e.log ++ evts
unfolding send_history
send_history-received s outcome n [] e all = sym (append_nil (received s.uuid e.log))
send_history-received s outcome n (evt ∷ evts) e all =
    let next : Events = record e { log = send s.uuid evt ∷ e.log } in
    let mine : received s.uuid next.log ≡ received s.uuid e.log ++ evt ∷ [] =
      unfold received in ground (arith, eq_refl s.uuid) in
    ap (λ (r : Events × Bool). received s.uuid r.0.log) (by_outcome-delivered _ _ _ _ (all n))
    ∙ send_history-received s outcome (suc n) evts next all
    ∙ ap (λ l. l ++ evts) mine
    ∙ append_assoc (received s.uuid e.log) evt evts

-- A new subscriber, when no send to it fails, receives the history of its connection, in order.
pub turn-history :
    (s : Subscriber) (outcome : ℕ → Outcome) (e : Events)
    → ((k : ℕ) → outcome k ≡ delivered)
    → received s.uuid (turn (subscribed s outcome) e).0.log
      ≡ received s.uuid e.log ++ events_of (lookup s.conn_id e.history)
unfolding turn
turn-history s outcome e all =
    send_history-received s outcome 0 (events_of (lookup s.conn_id e.history)) (subscribe s e) all
    ∙ ap (λ l. received s.uuid l ++ events_of (lookup s.conn_id e.history)) (log-subscribe s e)

-- Every subscriber of the map is under its own uuid.
abbrev Named : Map Subscriber → Type 0
Named m = (u : String) (s : Subscriber) → lookup u m ≡ some s → s.uuid ≡ u

Named-rest :
    (k : String) (s : Subscriber) (m : Map Subscriber)
    → Unique ((k, s) ∷ m)
    → Named ((k, s) ∷ m)
    → Named m
unfolding lookup
Named-rest k s m u named j t there = named j t (ground (arith, u.0, eq_iff k j, there))

Named-first : (k : String) (s : Subscriber) (m : Map Subscriber) → Named ((k, s) ∷ m) → s.uuid ≡ k
unfolding lookup
Named-first k s m named = named k s (ground (arith, eq_refl k))

module _ (evt : ConnectionStatusUpdate) (outcome : String → Outcome)
    (all : (u : String) → outcome u ≡ delivered) where
  send_all-none : (m : Map Subscriber) (log : List Action) → (send_all evt outcome m [] log).1 ≡ []
  unfolding send_all
  send_all-none [] log = refl
  send_all-none ((k, s) ∷ m) log =
      ap (λ (r : List Action × List Subscriber). r.1) (by_outcome-delivered _ _ _ _ (all s.uuid))
      ∙ send_all-none m (send s.uuid evt ∷ log)

  send_all-received :
      (m : Map Subscriber) (log : List Action) (u : String)
      → Unique m
      → Named m
      → received u (send_all evt outcome m [] log).0
        ≡ (if is_some (lookup u m) then received u log ++ evt ∷ [] else received u log)
  unfolding send_all lookup
  send_all-received [] log u once named = refl
  send_all-received ((k, s) ∷ m) log u once named =
      let sent : List Action = send s.uuid evt ∷ log in
      let mine : received u sent
          ≡ (if s.uuid == u then received u log ++ evt ∷ [] else received u log) =
        unfold received in refl in
      ap (λ (r : List Action × List Subscriber). received u r.0)
        (by_outcome-delivered _ _ _ _ (all s.uuid))
      ∙ send_all-received m sent u once.1 (Named-rest k s m once named)
      ∙ ground (arith, mine, Named-first k s m named, eq_iff k u, eq_iff s.uuid u, once.0)

  -- The subscribers of a connection.
  of_connection :
      (e : Events) (id u : String) (o : Option (Map Subscriber))
      → Safe e
      → lookup id e.by_id ≡ o
      → Unique (map_or_new o) × Named (map_or_new o) × (lookup u (map_or_new o) ≡ bind o (lookup u))
  of_connection e id u none h at =
      (tt, λ v s there. absurd (ground (arith, there, lookup-nil {V = Subscriber} v)), lookup-nil u)
  of_connection e id u (some m) h at =
      (h.unique id m at, (λ v s there. (h.filed id v s (ground (arith, at, there))).0), refl)

  update-received :
      (e : Events) (u : String)
      → Safe e
      → received u (update evt outcome e).log
        ≡ (if is_some (member evt.id u e) then received u e.log ++ evt ∷ [] else received u e.log)
  unfolding update unsubscribe_all
  update-received e u h =
      let m = map_or_new (lookup evt.id e.by_id) in
      let log : List Action = (send_all evt outcome m [] e.log).0 in
      let (once, named, same) = of_connection e evt.id u (lookup evt.id e.by_id) h refl in
      ap (λ cleanup. received u (unsubscribe_all cleanup (record e { log = log })).log)
        (send_all-none m e.log)
      ∙ send_all-received m e.log u once named
      ∙ ground (arith, same)

  -- In any state that the broadcaster reaches: when no send fails, an event is received once by each
  -- subscriber of its connection, behind what that received before, and by nobody else.
  pub turn-received :
      (e : Events) (u : String)
      → Reach e true
      → received u (turn (updated evt outcome) e).0.log
        ≡ (if is_some (member evt.id u e) then received u e.log ++ evt ∷ [] else received u e.log)
  unfolding turn record_event
  turn-received e u so_far =
      update-received (record_event evt e) u (record_event-Safe evt e (Reach-Safe so_far))
