-- ===== src/Api/Events/Safe.antt =====
-- The channels of the broadcaster of api/events.go behind any turns: subscriptions, and the turns.
use cli.Base.{
  ℕ, suc, String, ◌≡◌, refl, sym, subst, ◌∙◌, ap, Bool, false, ◌&&◌, Option, some, List, [], ◌∷◌,
  ◌==◌, if◌then◌else◌, arith, eq_iff, Bool-cases, Option-cases, inl, inr,
}
use cli.Base.Maps.{Unique, insert-Unique, Map, lookup, insert, lookup-insert, lookup-nil}
use cli.Proto.Records.{ConnectionStatusUpdate}
use cli.Api.Events.{
  Subscriber, send, Events, no_events, Outcome, is_closed, map_or_new, subscribe, events_of,
  record_event, send_history, Input, done, updated, reset, subscribed, turn, member, IsNew, Admits,
  Reach,
}
use cli.Api.Events.Closing.{fine, by_outcome-each, Safe, shutdown-Safe}
use cli.Api.Events.Leaving.{Own, unsubscribe-Safe}
use cli.Api.Events.Broadcast.{update-Safe}

member-subscribe :
    (s : Subscriber) (e : Events) (id u : String)
    → member id u (subscribe s e)
      ≡ (if s.conn_id == id && s.uuid == u then some s else member id u e)
unfolding subscribe
member-subscribe s e id u = elim (Option-cases (lookup s.conn_id e.by_id)) [
  | inl absent ↦ ground (
    arith,
    absent,
    eq_iff s.conn_id id,
    lookup-insert s.conn_id id (insert s.uuid s []) e.by_id,
    lookup-insert s.uuid u s [],
    lookup-nil {V = Subscriber} u,
  )
  | inr (m, there) ↦ ground (
    arith,
    there,
    eq_iff s.conn_id id,
    lookup-insert s.conn_id id (insert s.uuid s m) e.by_id,
    lookup-insert s.uuid u s m,
  )
]

Unique-subscribe :
    (s : Subscriber) (e : Events)
    → Safe e
    → (id : String) (m : Map Subscriber) → lookup id (subscribe s e).by_id ≡ some m
    → Unique m
unfolding subscribe
Unique-subscribe s e h id m there =
    let old = map_or_new (lookup s.conn_id e.by_id) in
    let at = lookup-insert s.conn_id id (insert s.uuid s old) e.by_id in
    elim (Bool-cases (s.conn_id == id)) [
      | inr other ↦ h.unique id m (ground (arith, there, other, at))
      | inl same ↦
          let is : insert s.uuid s old ≡ m = ground (arith, there, same, at) in
          subst Unique is (
            insert-Unique s.uuid s old (elim (Option-cases (lookup s.conn_id e.by_id)) [
              | inl absent ↦
                  subst (λ (o : Option (Map Subscriber)). Unique (map_or_new o)) (sym absent) tt
              | inr (n, held) ↦
                  subst (λ (o : Option (Map Subscriber)). Unique (map_or_new o)) (sym held)
                    (h.unique s.conn_id n held)
            ]))
    ]

pub log-subscribe : (s : Subscriber) (e : Events) → (subscribe s e).log ≡ e.log
unfolding subscribe
log-subscribe s e = refl

subscribe-Safe : (s : Subscriber) (e : Events) → IsNew s e → Safe e → Safe (subscribe s e)
subscribe-Safe s e fresh h = record {
  fine_log = ap fine (log-subscribe s e) ∙ h.fine_log;
  filed = λ id u t there. ground (
    arith,
    there,
    member-subscribe s e id u,
    h.filed id u t,
    eq_iff s.conn_id id,
    eq_iff s.uuid u,
    fresh.unclosed,
    log-subscribe s e,
  );
  apart = λ id j u t v there more. ground (
    arith,
    there,
    more,
    member-subscribe s e id u,
    member-subscribe s e j u,
    h.apart id j u t v,
    eq_iff s.conn_id id,
    eq_iff s.conn_id j,
    eq_iff s.uuid u,
    fresh.absent id,
    fresh.absent j,
  );
  unique = Unique-subscribe s e h;
}

-- One more send to an open channel.
send-Safe :
    (u : String) (evt : ConnectionStatusUpdate) (e : Events)
    → is_closed u e.log ≡ false
    → Safe e
    → Safe (record e { log = send u evt ∷ e.log })
send-Safe u evt e unclosed h = record {
  fine_log = unfold fine in ground (arith, unclosed, h.fine_log);
  filed = unfold is_closed in h.filed;
  apart = h.apart;
  unique = h.unique;
}

send_history-Safe :
    (s : Subscriber) (outcome : ℕ → Outcome) (n : ℕ) (evts : List ConnectionStatusUpdate)
    (e : Events)
    → is_closed s.uuid e.log ≡ false
    → Own s e
    → Safe e
    → Safe (send_history s outcome n evts e).0
unfolding send_history
send_history-Safe s outcome n [] e unclosed own h = h
send_history-Safe s outcome n (evt ∷ evts) e unclosed own h =
    by_outcome-each (λ (r : Events × Bool). Safe r.0) (outcome n) _ _ _
      (send_history-Safe s outcome (suc n) evts (record e { log = send s.uuid evt ∷ e.log })
        (unfold is_closed in unclosed) own (send-Safe s.uuid evt e unclosed h))
      (unsubscribe-Safe s e own h) (shutdown-Safe e h)

Own-subscribe : (s : Subscriber) (e : Events) → IsNew s e → Own s (subscribe s e)
Own-subscribe s e fresh id t there =
    ground (arith, there, member-subscribe s e id s.uuid, fresh.absent id, eq_iff s.conn_id id)

pub record_event-Safe :
    (evt : ConnectionStatusUpdate) (e : Events) → Safe e → Safe (record_event evt e)
unfolding record_event
record_event-Safe evt e h = record {
  fine_log = h.fine_log;
  filed = h.filed;
  apart = h.apart;
  unique = h.unique;
}

turn-Safe : (i : Input) (e : Events) → Admits i e → Safe e → Safe (turn i e).0
unfolding turn
turn-Safe done e admits h = shutdown-Safe e h
turn-Safe (updated evt outcome) e admits h =
    update-Safe evt outcome (record_event evt e) (record_event-Safe evt e h)
turn-Safe (reset id) e admits h = record {
  fine_log = h.fine_log;
  filed = h.filed;
  apart = h.apart;
  unique = h.unique;
}
turn-Safe (subscribed s outcome) e fresh h =
    send_history-Safe s outcome 0 (events_of (lookup s.conn_id e.history)) (subscribe s e)
      (ap (is_closed s.uuid) (log-subscribe s e) ∙ fresh.unclosed) (Own-subscribe s e fresh)
      (subscribe-Safe s e fresh h)

no_events-Safe : Safe no_events
no_events-Safe = record {
  fine_log = unfold fine in refl;
  filed = λ id u s there. absurd (ground (arith, there, lookup-nil {V = Map Subscriber} id));
  apart =
      λ id j u s t there more. absurd (ground (arith, there, lookup-nil {V = Map Subscriber} id));
  unique = λ id m there. absurd (ground (arith, there, lookup-nil {V = Map Subscriber} id));
}

-- Whatever inputs the broadcaster takes in whatever order, and however its sends end, it never
-- sends on a closed channel and closes none twice, and each channel that it holds is open, under the
-- names of its subscriber; every subscription comes with a new uuid.
pub Reach-Safe : {e : Events} {running : Bool} → Reach e running → Safe e
Reach-Safe Reach.start = no_events-Safe
Reach-Safe (Reach.next e i so_far admits) = turn-Safe i e admits (Reach-Safe so_far)
